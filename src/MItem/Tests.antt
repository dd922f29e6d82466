-- ===== src/MItem/Tests.antt =====
-- The price of an item of the master table, at its first two purchases.
use isucon7_final.Prelude.{arith}
use isucon7_final.Prelude.Int.{pos, ◌≤ℤ◌}
use isucon7_final.Bigint.Exact.{exact}
use isucon7_final.MItem.{MItem, get_price}
use isucon7_final.MItem.Formula.{get_price-mono}

abbrev chair : MItem
chair = record {
  item_id = 2;
  power1 = 1;
  power2 = 1;
  power3 = 3;
  power4 = 2;
  price1 = 1;
  price2 = 1;
  price3 = 7;
  price4 = 6;
}

get_price-mono_example :
    (pos 1 ≤ℤ get_price ⦃B = exact⦄ chair 1)
    × (get_price ⦃B = exact⦄ chair 1 ≤ℤ get_price ⦃B = exact⦄ chair 2)
get_price-mono_example = get_price-mono ⦃B = exact⦄ chair 1 2 (omega arith) (omega arith)
