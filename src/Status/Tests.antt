-- ===== src/Status/Tests.antt =====
-- The cases of nodejs/test/game.js, and the theorems on `calcStatus` at concrete tables.
use isucon7_final.Prelude.{some, List, [], ◌∷◌, ◌≡◌, refl, arith, Returns}
use isucon7_final.Js.Object.{Object, get}
use isucon7_final.Prelude.Int.{ℤ}
use isucon7_final.Exponential.{big2exp}
use isucon7_final.Bigint.Exact.{exact}
use isucon7_final.MItem.{MItem}
use isucon7_final.Status.Types.{Adding, Buying, Locals}
use isucon7_final.Status.Simulate.{tick}
use isucon7_final.Status.Report.{start, calc_status}
use isucon7_final.Status.Books.{IsConsistent, Books, FirstOnSale}
use isucon7_final.Status.Opening.{start-Books}
use isucon7_final.Status.Ticking.{Ticked, tick-Ticked}
use isucon7_final.Status.Outcome.{IsOutcome, calc_status-IsOutcome}

abbrev item : MItem
item = record {
  item_id = 1;
  power1 = 0;
  power2 = 1;
  power3 = 0;
  power4 = 1;
  price1 = 0;
  price2 = 1;
  price3 = 0;
  price4 = 1;
}

abbrev one_adding : List Adding
one_adding = record { time = 0; isu = b'1' ∷ [] } ∷ []

abbrev one_buying : List Buying
one_buying = record { item_id = 1; ordinal = 1; time = 0 } ∷ []

one_item-IsConsistent : IsConsistent ((1, item) ∷ []) one_buying
unfolding get
one_item-IsConsistent = record {
  keyed = λ id m h. ground arith;
  known = (refl, tt);
  numbered = (refl, tt);
}

calc_status-IsOutcome_example :
    Returns
      (IsOutcome ⦃B = exact⦄ ((1, item) ∷ []) one_adding one_buying 1)
      (calc_status ⦃B = exact⦄ 1 ((1, item) ∷ []) one_adding one_buying)
calc_status-IsOutcome_example =
    calc_status-IsOutcome ⦃B = exact⦄ 1 ((1, item) ∷ []) one_adding one_buying one_item-IsConsistent
      (tt, tt)

abbrev chairs : Object MItem
chairs = (1, item) ∷ []

start-Books_example :
    (s : Locals ℤ) × (start ⦃B = exact⦄ 1 chairs one_adding one_buying ≡ some s)
    × Books ⦃B = exact⦄ chairs one_adding one_buying 1 1 s
    × FirstOnSale ⦃B = exact⦄ chairs one_buying s
    × (s.schedule
        ≡ record {
          time = 1;
          milli_isu = big2exp ⦃B = exact⦄ s.total_milli_isu;
          total_power = big2exp ⦃B = exact⦄ s.total_power;
        }
          ∷ [])
start-Books_example = start-Books ⦃B = exact⦄ 1 chairs one_adding one_buying one_item-IsConsistent

-- The state in which the simulation of the example starts.
abbrev first_state : Locals ℤ
first_state = (start-Books ⦃B = exact⦄ 1 chairs one_adding one_buying one_item-IsConsistent).0

tick-Ticked_example :
    (s : Locals ℤ) × (tick ⦃B = exact⦄ chairs 2 first_state ≡ some s)
    × Ticked ⦃B = exact⦄ chairs one_adding one_buying 1 2 first_state s
tick-Ticked_example =
    tick-Ticked ⦃B = exact⦄ chairs one_adding one_buying 1 1 first_state one_item-IsConsistent
      (tt, tt) (omega arith)
      (start-Books ⦃B = exact⦄ 1 chairs one_adding one_buying one_item-IsConsistent).2
