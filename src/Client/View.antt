-- ===== src/Client/View.antt =====
-- What a `GameState` of webapp/public/game.js shows at a time: `calcSchedule`, `calcMapping`,
-- `calcItem`, and the method `update` with its getters.
pub mod Account
pub mod Order
mod Tests
use isucon7_final.Prelude.{
  ℕ, ◌-◌, Bool, true, false, Option, none, some, List, [], ◌∷◌, length, leb, ltb, if◌then◌else◌,
  ◌>>=◌, get_or,
}
use isucon7_final.Prelude.Int.{pos}
use isucon7_final.Js.Digits.{Text, Number, int, codes}
use isucon7_final.Js.Float.{Float}
use isucon7_final.Js.Object.{Object, get, put}
use isucon7_final.Exponential.{Exponential}
use isucon7_final.Status.Types.{ScheduleEntry, ItemStatus, Building}
use isucon7_final.Client.Notation.{conv, add_xx, get_isu_delta, exp2unicode, read_exp, whole}
use isucon7_final.Client.Items.{Coming, Progress, look_at_all, calc_disabled}
use isucon7_final.Client.Room.{GameState}

-- An adding that is sent or waits for its time.
pub record Waiting : Type 0 where
  pub isu : Text
  pub dt : ℕ

-- The loop of `calcSchedule`: the last entry whose time has come.
unfoldable pub entry_by : ℕ → List ScheduleEntry → Option ScheduleEntry → Option ScheduleEntry
entry_by time [] k = k
entry_by time (e ∷ schedule) k = entry_by time schedule (if leb e.time time then some e else k)

-- The loop of `calcMapping`, over the properties in the order of enumeration.
unfoldable pub still_waiting : ℕ → Object Text → List Waiting
still_waiting time [] = []
still_waiting time ((t, isu) ∷ mapping) =
    let rest = still_waiting time mapping in
    if ltb time t then record { isu = isu; dt = t - time } ∷ rest else rest

-- `r.sort(function(a, b) { return a.dt - b.dt; })`, which is stable.
unfoldable pub insert : Waiting → List Waiting → List Waiting
insert a [] = a ∷ []
insert a (b ∷ bs) = let rest = insert a bs in if leb a.dt b.dt then a ∷ b ∷ bs else b ∷ rest

unfoldable pub sort : List Waiting → List Waiting
unfolding insert
sort [] = []
sort (a ∷ as') = insert a (sort as')

-- `calcMapping`
unfoldable pub calc_mapping : Object Text → ℕ → List Waiting
unfolding still_waiting
calc_mapping mapping time = sort (still_waiting time mapping)

module _ ⦃D : Float⦄ where
  open D use {F, of_number, mul, div, to_text}

  -- What `calcSchedule` returns.
  pub record Summary : Type 0 where
    pub isu : Text
    pub power : Text
    pub isu_delta : F
    pub isu_delta_unicode : Text

  unfoldable pub summary : Bool → ℕ → ScheduleEntry → Summary
  summary unicode_mode time e =
      let vv = read_exp e.total_power in
      let xx = add_xx 3 (read_exp e.milli_isu) (mul (whole (time - e.time)) vv.0, vv.1) in
      record {
        isu = conv unicode_mode (div xx.0 (whole 1000), xx.1);
        power = conv unicode_mode vv;
        isu_delta = get_isu_delta vv;
        isu_delta_unicode = exp2unicode unicode_mode (to_text (get_isu_delta vv));
      }

  -- `calcSchedule`
  unfoldable pub calc_schedule : Bool → List ScheduleEntry → ℕ → Option Summary
  unfolding entry_by
  calc_schedule unicode_mode schedule time = elim (entry_by time schedule none) [
    | none ↦ none
    | some e ↦ some (summary unicode_mode time e)
  ]

  -- What `calcItem` returns.
  pub record ItemView : Type 0 where
    pub count_built : ℕ
    pub next_price : Text
    pub power : Text
    pub disabled : Bool
    pub building : List Coming

  unfoldable pub shown_item : Bool → ItemStatus → Bool → Progress → Option ItemView
  shown_item unicode_mode b disabled p = do
    power ← elim p.latest [ none ↦ b.power | some latest ↦ some latest.power ]
    some (record {
      count_built = elim p.latest [ none ↦ b.count_built | some latest ↦ latest.count_built ];
      next_price = conv unicode_mode (read_exp b.next_price);
      power = conv unicode_mode (read_exp power);
      disabled = disabled;
      building = p.building;
    })

  -- `calcItem`; `none` is an exception, as for an item with no `building`.
  unfoldable pub calc_item : Bool → ItemStatus → ℕ → Bool → Option ItemView
  unfolding shown_item
  calc_item unicode_mode b time disabled = do
    buildings ← b.building
    shown_item unicode_mode b disabled
        (look_at_all time buildings (record { latest = none; nn = b.count_built; building = [] }))

  -- The fields of `GameState` that `update` writes, and the name of the room.
  pub record View : Type 0 where
    pub name : Text
    pub isu : Text
    pub power : Text
    pub isu_delta : Option F
    pub isu_delta_unicode : Option Text
    pub sending : List Waiting
    pub adding : List Waiting
    pub num_item : ℕ
    pub items : Object ItemView

  -- As the constructor leaves them.
  unfoldable pub new_view : Text → View
  new_view name = record {
    name = name;
    isu = codes "0";
    power = codes "0";
    isu_delta = none;
    isu_delta_unicode = none;
    sending = [];
    adding = [];
    num_item = 0;
    items = [];
  }

  unfoldable pub show_summary : Option Summary → View → View
  show_summary none v = v
  show_summary (some s) v = record v {
    isu = s.isu;
    power = s.power;
    isu_delta = some s.isu_delta;
    isu_delta_unicode = some s.isu_delta_unicode;
  }

  -- The loop over the items, and whether it came to its end: `calcItem` may throw.
  unfoldable pub show_items :
      Bool → GameState → ℕ → Bool → List ItemStatus → Object ItemView → Object ItemView × Bool
  unfolding calc_item calc_disabled
  show_items unicode_mode s time buying [] m = (m, true)
  show_items unicode_mode s time buying (b ∷ items) m =
      let disabled = if buying then true else calc_disabled s.on_sale b.item_id time in
      elim (calc_item unicode_mode b time disabled) [
        | none ↦ (m, false)
        | some i ↦ show_items unicode_mode s time buying items (put b.item_id i m)
      ]

  -- `update`: what it leaves, and whether it came to its end. What is written before an exception
  -- stays.
  unfoldable pub update_view : Bool → GameState → ℕ → Object Text → Bool → View → View × Bool
  unfolding show_summary show_items
  update_view unicode_mode s time sending buying v =
      let (items, ended) = show_items unicode_mode s time buying s.data_items [] in
      (
        record (show_summary (calc_schedule unicode_mode s.data_schedule time) v) {
          sending = calc_mapping sending time;
          adding = calc_mapping s.data_adding time;
          num_item = length s.data_items;
          items = items;
        },
        ended,
      )

  -- The getters.
  abbrev pub get_isu : View → Text
  get_isu v = v.isu

  abbrev pub get_power : View → Text
  get_power v = v.power

  abbrev pub isu_delta_of : View → Option F
  isu_delta_of v = v.isu_delta

  abbrev pub isu_delta_unicode_of : View → Option Text
  isu_delta_unicode_of v = v.isu_delta_unicode

  -- `getPowerExp`: no line sets the field that it reads.
  abbrev pub get_power_exp : View → Option F
  get_power_exp v = none

  abbrev pub get_sending : View → List Waiting
  get_sending v = v.sending

  abbrev pub get_adding : View → List Waiting
  get_adding v = v.adding

  abbrev pub get_num_item : View → ℕ
  get_num_item v = v.num_item

  -- `getItem`
  abbrev pub get_item : ℕ → View → Option ItemView
  get_item item_id v = get item_id v.items
