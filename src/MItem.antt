-- ===== src/MItem.antt =====
-- nodejs/MItem.js: the price and the power of an item of the master table.
pub mod Formula
mod Tests
use isucon7_final.Prelude.{ℕ, ◌+◌, ◌*◌}
use isucon7_final.Prelude.Int.{pos}
use isucon7_final.Bigint.{Bigint}

-- A row of the table `m_item`, which is also what `toJSON` returns.
pub record ItemRow : Type 0 where
  pub item_id : ℕ
  pub power1 : ℕ
  pub power2 : ℕ
  pub power3 : ℕ
  pub power4 : ℕ
  pub price1 : ℕ
  pub price2 : ℕ
  pub price3 : ℕ
  pub price4 : ℕ

-- `class MItem`; its field `itemId` is `item_id` here.
pub record MItem : Type 0 where
  pub item_id : ℕ
  pub power1 : ℕ
  pub power2 : ℕ
  pub power3 : ℕ
  pub power4 : ℕ
  pub price1 : ℕ
  pub price2 : ℕ
  pub price3 : ℕ
  pub price4 : ℕ

-- The constructor.
unfoldable pub new_item : ItemRow → MItem
new_item r = record {
  item_id = r.item_id;
  power1 = r.power1;
  power2 = r.power2;
  power3 = r.power3;
  power4 = r.power4;
  price1 = r.price1;
  price2 = r.price2;
  price3 = r.price3;
  price4 = r.price4;
}

unfoldable pub to_json : MItem → ItemRow
to_json m = record {
  item_id = m.item_id;
  power1 = m.power1;
  power2 = m.power2;
  power3 = m.power3;
  power4 = m.power4;
  price1 = m.price1;
  price2 = m.price2;
  price3 = m.price3;
  price4 = m.price4;
}

module _ ⦃B : Bigint⦄ where
  open B use {Big, of_number, mul, pow}

  unfoldable pub get_price : MItem → ℕ → Big
  get_price m count =
      let a = m.price1 in
      let b = m.price2 in
      let c = m.price3 in
      let d = of_number (pos m.price4) in
      let x = count in
      let s = of_number (pos (c * x + 1)) in
      let u = of_number (pos (a * x + b)) in let t = pow d u in mul s t

  unfoldable pub get_power : MItem → ℕ → Big
  get_power m count =
      let a = m.power1 in
      let b = m.power2 in
      let c = m.power3 in
      let d = of_number (pos m.power4) in
      let x = count in
      let s = of_number (pos (c * x + 1)) in
      let u = of_number (pos (a * x + b)) in let t = pow d u in mul s t
