-- ===== src/Status/Report.antt =====
-- `calcStatus` as a whole, and the lists that it returns.
use isucon7_final.Prelude.{ℕ, ◌+◌, Option, none, some, List, [], ◌∷◌, get_or, ◌>>=◌}
use isucon7_final.Js.Object.{Object, get, keys, values}
use isucon7_final.Bigint.{Bigint}
use isucon7_final.Exponential.{big2exp}
use isucon7_final.MItem.{MItem}
use isucon7_final.Status.Types.{Adding, Buying, ItemStatus, OnSale, GameStatus, Locals}
use isucon7_final.Status.Start.{declared, start_items, count_addings, count_buyings, price_items}
use isucon7_final.Status.Simulate.{simulate}

abbrev sold_at : ℕ × ℕ → OnSale
sold_at (item_id, t) = record { item_id = item_id; time = t }

-- The loop over `itemOnSale`.
unfoldable pub report_on_sale : Object ℕ → List OnSale
report_on_sale [] = []
report_on_sale (sale ∷ sales) = sold_at sale ∷ report_on_sale sales

module _ ⦃B : Bigint⦄ where
  open B use {Big}

  -- The totals and prices at the current time, the first entry of the schedule included.
  unfoldable pub start : ℕ → Object MItem → List Adding → List Buying → Option (Locals Big)
  start current_time items addings buyings = do
    let ready = count_addings current_time addings (start_items (keys items) declared)
    counted ← count_buyings current_time items buyings ready
    priced ← price_items items (keys items) counted
    some (record priced {
      schedule =
          record {
            time = current_time;
            milli_isu = big2exp priced.total_milli_isu;
            total_power = big2exp priced.total_power;
          }
          ∷ [];
    })

  unfoldable pub report_item : Locals Big → ℕ → Option ItemStatus
  report_item s item_id = do
    price ← get item_id s.item_price
    some (record {
      item_id = item_id;
      count_bought = get_or (get item_id s.item_bought) 0;
      count_built = get_or (get_or (get item_id s.item_built0) none) 0;
      next_price = big2exp price;
      power = get item_id s.item_power0;
      building = get item_id s.item_building;
    })

  unfoldable pub report_items : Locals Big → List ℕ → Option (List ItemStatus)
  report_items s [] = some []
  report_items s (item_id ∷ ids) = elim (report_item s item_id) [
    | none ↦ none
    | some item ↦ elim (report_items s ids) [ none ↦ none | some items ↦ some (item ∷ items) ]
  ]

  unfoldable pub report : Object MItem → Locals Big → Option GameStatus
  report items s = do
    gs_items ← report_items s (keys items)
    some (record {
      time = 0;
      adding = values s.adding_at;
      schedule = s.schedule;
      items = gs_items;
      on_sale = report_on_sale s.item_on_sale;
    })

  unfoldable pub calc_status : ℕ → Object MItem → List Adding → List Buying → Option GameStatus
  calc_status current_time items addings buyings = do
    s ← start current_time items addings buyings
    simulated ← simulate items 1000 (current_time + 1) s
    report items simulated
