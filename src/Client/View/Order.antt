-- ===== src/Client/View/Order.antt =====
-- The list that `calcMapping` returns.
use mathlib.Core.List.{Perm}
use mathlib.Core.List.Perm
use isucon7_final.Prelude.{
  ℕ, ◌-◌, ◌≤◌, ◌≡◌, refl, List, [], ◌∷◌, All, arith, leb, leb→le, ltb, if◌then◌else◌, Bool-cases,
  inl, inr,
}
use isucon7_final.Js.Digits.{Text}
use isucon7_final.Js.Object.{Object}
use isucon7_final.Client.View.{Waiting, still_waiting, insert, sort, calc_mapping}

-- The times never fall.
abbrev pub AreOrdered : List Waiting → Type 0
AreOrdered [] = Unit
AreOrdered (a ∷ bs) = All (λ b. a.dt ≤ b.dt) bs × AreOrdered bs

insert-All :
    (n : ℕ) (a : Waiting) (bs : List Waiting)
    → n ≤ a.dt
    → All (λ b. n ≤ b.dt) bs
    → All (λ b. n ≤ b.dt) (insert a bs)
unfolding insert
insert-All n a [] h all = (h, tt)
insert-All n a (b ∷ bs) h all = elim (Bool-cases (leb a.dt b.dt)) [
  | inl first ↦ rw first (h, all)
  | inr after ↦ rw after (all.0, insert-All n a bs h all.1)
]

All-trans : (m n : ℕ) (bs : List Waiting) → m ≤ n → All (λ b. n ≤ b.dt) bs → All (λ b. m ≤ b.dt) bs
All-trans m n [] h all = tt
All-trans m n (b ∷ bs) h all = (omega (arith, all.0), All-trans m n bs h all.1)

insert-AreOrdered : (a : Waiting) (bs : List Waiting) → AreOrdered bs → AreOrdered (insert a bs)
unfolding insert
insert-AreOrdered a [] h = (tt, tt)
insert-AreOrdered a (b ∷ bs) h = elim (Bool-cases (leb a.dt b.dt)) [
  | inl first ↦ let l = leb→le a.dt b.dt first in rw first ((l, All-trans a.dt b.dt bs l h.0), h)
  | inr after ↦ rw after (insert-All b.dt a bs (ground arith) h.0, insert-AreOrdered a bs h.1)
]

sort-AreOrdered : (as' : List Waiting) → AreOrdered (sort as')
unfolding sort
sort-AreOrdered [] = tt
sort-AreOrdered (a ∷ as') = insert-AreOrdered a (sort as') (sort-AreOrdered as')

insert-perm : (a : Waiting) (bs : List Waiting) → Perm (insert a bs) (a ∷ bs)
unfolding insert
insert-perm a [] = Perm.refl _
insert-perm a (b ∷ bs) = elim (Bool-cases (leb a.dt b.dt)) [
  | inl first ↦ rw first (Perm.refl _)
  | inr after ↦ rw after (Perm.trans (Perm.cons b (insert-perm a bs)) (Perm.swap a b bs))
]

sort-perm : (as' : List Waiting) → Perm (sort as') as'
unfolding sort
sort-perm [] = Perm.refl _
sort-perm (a ∷ as') = Perm.trans (insert-perm a (sort as')) (Perm.cons a (sort-perm as'))

-- The addings of a map whose time is still to come, each with what is left of its time.
abbrev pub future : ℕ → Object Text → List Waiting
future time [] = []
future time ((t, isu) ∷ mapping) =
    if ltb time t
    then record { isu = isu; dt = t - time } ∷ future time mapping
    else future time mapping

still_waiting-future :
    (time : ℕ) (mapping : Object Text) → still_waiting time mapping ≡ future time mapping
unfolding still_waiting
still_waiting-future time [] = refl
still_waiting-future time ((t, isu) ∷ mapping) = rw (still_waiting-future time mapping) refl

-- `calcMapping` returns the addings whose time is still to come, each once with what is left of its
-- time, and those that come sooner stand first.
pub calc_mapping-AreOrdered :
    (mapping : Object Text) (time : ℕ)
    → AreOrdered (calc_mapping mapping time)
      × Perm (calc_mapping mapping time) (future time mapping)
unfolding calc_mapping
calc_mapping-AreOrdered mapping time =
    rw (still_waiting-future time mapping)
      (sort-AreOrdered (future time mapping), sort-perm (future time mapping))
