-- ===== src/Status/Types.antt =====
-- The rows that `calcStatus` of nodejs/Game.js reads, the status that it returns, and its variables.
use isucon7_final.Prelude.{ℕ, Option, List}
use isucon7_final.Js.Digits.{Text}
use isucon7_final.Js.Object.{Object}
use isucon7_final.Exponential.{Exponential}

-- A row of the table `adding`, as far as it is selected.
pub record Adding : Type 0 where
  pub time : ℕ
  pub isu : Text

-- A row of the table `buying`, as far as it is selected.
pub record Buying : Type 0 where
  pub item_id : ℕ
  pub ordinal : ℕ
  pub time : ℕ

pub record Building : Type 0 where
  pub time : ℕ
  pub count_built : ℕ
  pub power : Exponential

pub record ScheduleEntry : Type 0 where
  pub time : ℕ
  pub milli_isu : Exponential
  pub total_power : Exponential

-- `none` is a property with the value `undefined`, which the JSON text leaves out.
pub record ItemStatus : Type 0 where
  pub item_id : ℕ
  pub count_bought : ℕ
  pub count_built : ℕ
  pub next_price : Exponential
  pub power : Option Exponential
  pub building : Option (List Building)

pub record OnSale : Type 0 where
  pub item_id : ℕ
  pub time : ℕ

pub record GameStatus : Type 0 where
  pub time : ℕ
  pub adding : List Adding
  pub schedule : List ScheduleEntry
  pub items : List ItemStatus
  pub on_sale : List OnSale

-- The variables of `calcStatus`.
pub record Locals (Big : Type 0) : Type 0 where
  pub total_milli_isu : Big
  pub total_power : Big
  pub item_power : Object Big
  pub item_price : Object Big
  pub item_on_sale : Object ℕ
  pub item_built : Object ℕ
  pub item_bought : Object ℕ
  pub item_building : Object (List Building)
  pub item_power0 : Object Exponential
  pub item_built0 : Object (Option ℕ)
  pub adding_at : Object Adding
  pub buying_at : Object (List Buying)
  pub schedule : List ScheduleEntry
