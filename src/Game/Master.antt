-- ===== src/Game/Master.antt =====
-- The master table of items: db/m_item.sql, which db/init.sh loads.
use isucon7_final.Prelude.{ℕ, List, [], ◌∷◌, arith}
use isucon7_final.MItem.{ItemRow}
use isucon7_final.Game.Items.{IsKeyed}

abbrev item_row : (item_id power1 power2 power3 power4 price1 price2 price3 price4 : ℕ) → ItemRow
item_row item_id power1 power2 power3 power4 price1 price2 price3 price4 = record {
  item_id = item_id;
  power1 = power1;
  power2 = power2;
  power3 = power3;
  power4 = power4;
  price1 = price1;
  price2 = price2;
  price3 = price3;
  price4 = price4;
}

abbrev pub master_rows : List ItemRow
master_rows =
    item_row 1 0 1 0 1 0 1 1 1
    ∷ item_row 2 0 1 1 1 0 1 2 1
    ∷ item_row 3 1 10 0 2 1 3 1 2
    ∷ item_row 4 1 24 1 2 1 10 0 3
    ∷ item_row 5 1 25 100 3 2 20 20 2
    ∷ item_row 6 1 30 147 13 1 22 69 17
    ∷ item_row 7 5 80 128 6 6 61 200 5
    ∷ item_row 8 20 340 180 3 9 105 134 14
    ∷ item_row 9 55 520 335 5 48 243 600 7
    ∷ item_row 10 157 1071 1700 12 157 625 1000 13
    ∷ item_row 11 2000 7500 2600 3 2001 5430 1000 3
    ∷ item_row 12 1000 9000 0 17 963 7689 1 19
    ∷ item_row 13 11000 11000 11000 23 10000 2 2 29
    ∷ []

-- Its items have numbers of their own.
pub master_rows-IsKeyed : IsKeyed master_rows
master_rows-IsKeyed = ground arith
