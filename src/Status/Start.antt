-- ===== src/Status/Start.antt =====
-- The part of `calcStatus` before the simulation: the totals at the current time.
-- A result `none` is an exception: a property of `undefined` was read.
use isucon7_final.Prelude.{
  Bool, ℕ, ◌+◌, ◌-◌, Option, none, some, List, [], ◌∷◌, ◌++◌, leb, ◌==◌, if◌then◌else◌, get_or,
  ◌>>=◌,
}
use isucon7_final.Prelude.Int.{pos, leb_ℤ}
use isucon7_final.Js.Object.{Object, get, put}
use isucon7_final.Bigint.{Bigint}
use isucon7_final.Exponential.{big2exp}
use isucon7_final.MItem.{MItem, get_price, get_power}
use isucon7_final.Status.Types.{Adding, Buying, Locals}

-- `m[k] = m[k] ? m[k] + 1 : 1`
unfoldable pub count_up : ℕ → Object ℕ → Object ℕ
count_up k m = put k (elim (get k m) [ none ↦ 1 | some n ↦ if n == 0 then 1 else n + 1 ]) m

module _ ⦃B : Bigint⦄ where
  open B use {Big, of_number, of_string, add, sub, mul, cmp}

  -- `bigint('1000')` and `bigint('0')`
  abbrev pub thousand : Big
  thousand = of_string (b'1' ∷ b'0' ∷ b'0' ∷ b'0' ∷ [])

  abbrev pub zero_isu : Big
  zero_isu = of_string (b'0' ∷ [])

  -- The variables as they are declared.
  unfoldable pub declared : Locals Big
  declared = record {
    total_milli_isu = zero_isu;
    total_power = zero_isu;
    item_power = [];
    item_price = [];
    item_on_sale = [];
    item_built = [];
    item_bought = [];
    item_building = [];
    item_power0 = [];
    item_built0 = [];
    adding_at = [];
    buying_at = [];
    schedule = [];
  }

  unfoldable pub start_items : List ℕ → Locals Big → Locals Big
  start_items [] s = s
  start_items (item_id ∷ ids) s = start_items ids (record s {
    item_power = put item_id zero_isu s.item_power;
    item_building = put item_id [] s.item_building;
  })

  unfoldable pub count_adding : ℕ → Adding → Locals Big → Locals Big
  count_adding current_time a s =
      if leb a.time current_time
      then (record s { total_milli_isu = add s.total_milli_isu (mul (of_string a.isu) thousand) })
      else (record s { adding_at = put a.time a s.adding_at })

  unfoldable pub count_addings : ℕ → List Adding → Locals Big → Locals Big
  count_addings current_time [] s = s
  count_addings current_time (a ∷ addings) s =
      count_addings current_time addings (count_adding current_time a s)

  -- A buying that has taken effect.
  unfoldable pub count_built_buying : ℕ → MItem → Buying → Locals Big → Option (Locals Big)
  count_built_buying current_time m b s = do
    count ← get b.item_id s.item_bought
    let power = get_power m count
    old ← get b.item_id s.item_power
    some (record s {
      item_built = count_up b.item_id s.item_built;
      total_milli_isu = add s.total_milli_isu (mul power (of_number (pos (current_time - b.time))));
      total_power = add s.total_power power;
      item_power = put b.item_id (add old power) s.item_power;
    })

  -- A buying that takes effect later.
  unfoldable pub queue_buying : Buying → Locals Big → Locals Big
  queue_buying b s = record s {
    buying_at = put b.time (get_or (get b.time s.buying_at) [] ++ b ∷ []) s.buying_at;
  }

  unfoldable pub settle_buying : ℕ → MItem → Buying → Locals Big → Option (Locals Big)
  settle_buying current_time m b s =
      if leb b.time current_time
      then count_built_buying current_time m b s
      else some (queue_buying b s)

  unfoldable pub count_buying : ℕ → Object MItem → Buying → Locals Big → Option (Locals Big)
  count_buying current_time items b s = do
    m ← get b.item_id items
    settle_buying current_time m b (record s {
      item_bought = count_up b.item_id s.item_bought;
      total_milli_isu = sub s.total_milli_isu (mul (get_price m b.ordinal) thousand);
    })

  unfoldable pub count_buyings : ℕ → Object MItem → List Buying → Locals Big → Option (Locals Big)
  count_buyings current_time items [] s = some s
  count_buyings current_time items (b ∷ buyings) s = elim (count_buying current_time items b s) [
    | none ↦ none
    | some s' ↦ count_buyings current_time items buyings s'
  ]

  -- The test `0 <= total.cmp(price.mul(bigint('1000')))`.
  abbrev pub can_pay : Big → Big → Bool
  can_pay total price = leb_ℤ (pos 0) (cmp total (mul price thousand))

  unfoldable pub price_item : Object MItem → ℕ → Locals Big → Option (Locals Big)
  price_item items item_id s = do
    m ← get item_id items
    power ← get m.item_id s.item_power
    let price = get_price m (get_or (get m.item_id s.item_bought) 0 + 1)
    some (record s {
      item_power0 = put m.item_id (big2exp power) s.item_power0;
      item_built0 = put m.item_id (get m.item_id s.item_built) s.item_built0;
      item_price = put m.item_id price s.item_price;
      item_on_sale =
          if can_pay s.total_milli_isu price
          then put m.item_id 0 s.item_on_sale
          else s.item_on_sale;
    })

  unfoldable pub price_items : Object MItem → List ℕ → Locals Big → Option (Locals Big)
  price_items items [] s = some s
  price_items items (item_id ∷ ids) s = elim (price_item items item_id s) [
    | none ↦ none
    | some s' ↦ price_items items ids s'
  ]
