-- ===== src/Client/View/Tests.antt =====
-- A status of a room with one machine, and two addings that are still to come.
use isucon7_final.Prelude.{Option, none, some, ◌≡◌, refl, List, [], ◌∷◌, arith, Returns}
use mathlib.Core.List.{Perm}
use isucon7_final.Js.Digits.{Text, codes}
use isucon7_final.Js.Object.{Object, get}
use isucon7_final.Bigint.Exact.{exact}
use isucon7_final.MItem.{MItem}
use isucon7_final.Status.Types.{Adding, Buying, GameStatus}
use isucon7_final.Status.Books.{IsConsistent}
use isucon7_final.Status.Report.{calc_status}
use isucon7_final.Status.Outcome.{IsOutcome, calc_status-IsOutcome}
use isucon7_final.Client.View.{calc_mapping, entry_by}
use isucon7_final.Client.View.Account.{ShowsAccount, entry_by-ShowsAccount}
use isucon7_final.Client.View.Order.{AreOrdered, future, calc_mapping-AreOrdered}

abbrev mapping : Object Text
mapping = (10, codes "3") ∷ (40, codes "1") ∷ (30, codes "2") ∷ []

calc_mapping-AreOrdered_example :
    AreOrdered (calc_mapping mapping 20) × Perm (calc_mapping mapping 20) (future 20 mapping)
calc_mapping-AreOrdered_example = calc_mapping-AreOrdered mapping 20

abbrev machines : Object MItem
machines =
    (
      1,
      record {
        item_id = 1;
        power1 = 0;
        power2 = 1;
        power3 = 0;
        power4 = 1;
        price1 = 0;
        price2 = 1;
        price3 = 0;
        price4 = 1;
      },
    )
    ∷ []

abbrev addings : List Adding
addings = record { time = 0; isu = codes "9" } ∷ []

abbrev buyings : List Buying
buyings = record { item_id = 1; ordinal = 1; time = 3 } ∷ []

machines-IsConsistent : IsConsistent machines buyings
unfolding get
machines-IsConsistent = record {
  keyed = λ id m h. ground arith;
  known = (refl, tt);
  numbered = (refl, tt);
}

what_returned {ℓ} :
    {A : Type ℓ} (P : A → Type 0) (o : Option A) → Returns P o → (a : A) × (o ≡ some a) × P a
what_returned P none h = absurd h
what_returned P (some a) h = (a, refl, h)

abbrev first_status :
    (status : GameStatus) × (calc_status ⦃B = exact⦄ 1 machines addings buyings ≡ some status)
    × IsOutcome ⦃B = exact⦄ machines addings buyings 1 status
first_status =
    what_returned (IsOutcome ⦃B = exact⦄ machines addings buyings 1) _
      (calc_status-IsOutcome ⦃B = exact⦄ 1 machines addings buyings machines-IsConsistent (tt, tt))

entry_by-ShowsAccount_example :
    ShowsAccount ⦃B = exact⦄ machines addings buyings 500
      (entry_by 500 first_status.0.schedule none)
entry_by-ShowsAccount_example =
    entry_by-ShowsAccount ⦃B = exact⦄ machines addings buyings 1 500 first_status.0 first_status.2
      (omega arith) (omega arith)
