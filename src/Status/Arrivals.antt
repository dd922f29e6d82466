-- ===== src/Status/Arrivals.antt =====
-- The addings in the simulation of `calcStatus`.
use isucon7_final.Prelude.{
  ℕ, ◌≡◌, refl, sym, ◌∙◌, ap, ◌≢◌, false, Option, none, some, List, [], ◌∷◌, arith, All, is_some,
  ◌==◌, inl, inr, Bool-cases, Option-cases, ==_iff,
}
use isucon7_final.Prelude.Int.{ℤ, pos, ◌+ℤ◌, int_laws}
use isucon7_final.Js.Object.{get}
use isucon7_final.Bigint.{Bigint}
use isucon7_final.Status.Types.{Adding, Locals}
use isucon7_final.Status.Simulate.{produce, apply_adding}
use isucon7_final.Status.Balance.{amount, arriving, zero-+ℤ}
use isucon7_final.Status.Queues.{last_at}
use isucon7_final.Status.Counting.{val-credit}
use isucon7_final.Status.Books.{IsDistinct}

module _ ⦃B : Bigint⦄ where
  open B use {Big, val, val-add}

  abbrev pub amount_of : Option Adding → ℤ
  amount_of none = pos 0
  amount_of (some a) = amount a

  nothing_else :
      (t : ℕ) (a : Adding) (addings : List Adding)
      → a.time ≡ t
      → All (λ b. b.time ≢ a.time) addings
      → (last_at t addings ≡ none) × (arriving t addings ≡ pos 0)
  unfolding last_at arriving
  nothing_else t a [] e h = (refl, refl)
  nothing_else t a (b ∷ addings) e h =
      let rest = nothing_else t a addings e h.1 in
      let other : (b.time == t) ≡ false = ground (arith, h.0) in
      (rw (rest.0, other), rw (rest.1, other) (omega int_laws))

  last_at-other :
      (t : ℕ) (a : Adding) (addings : List Adding)
      → (a.time == t) ≡ false
      → last_at t (a ∷ addings) ≡ last_at t addings
  unfolding last_at
  last_at-other t a addings other = ground arith

  -- With distinct times the one adding that the code keeps for a time is all that arrives then.
  pub last_at-arriving :
      (t : ℕ) (addings : List Adding)
      → IsDistinct addings
      → amount_of (last_at t addings) ≡ arriving t addings
  unfolding last_at arriving
  last_at-arriving t [] h = refl
  last_at-arriving t (a ∷ addings) h = elim (Bool-cases (a.time == t)) [
    | inl here ↦
        let rest = nothing_else t a addings ((==_iff a.time t).0 here) h.0 in
        rw (rest.0, rest.1, here) (omega int_laws)
    | inr other ↦
        ap amount_of (last_at-other t a addings other)
        ∙ last_at-arriving t addings h.1
        ∙ rw other (sym (zero-+ℤ (arriving t addings)))
  ]

  pub val-produce :
      (s : Locals Big)
      → val (produce s).total_milli_isu ≡ val s.total_milli_isu +ℤ val s.total_power
  unfolding produce
  val-produce s = val-add s.total_milli_isu s.total_power

  pub apply_adding-lem :
      (t : ℕ) (s : Locals Big)
      → let (s', found) = apply_adding t s in
        (val s'.total_milli_isu ≡ val s.total_milli_isu +ℤ amount_of (get t s.adding_at))
        × (s' ≡ record s { total_milli_isu = s'.total_milli_isu })
        × (found ≡ is_some (get t s.adding_at))
  unfolding apply_adding
  apply_adding-lem t s = elim (Option-cases (get t s.adding_at)) [
    | inl e ↦ rw (e, apply_adding) (omega int_laws, refl, refl)
    | inr (a, e) ↦ rw (e, apply_adding) (val-credit s.total_milli_isu a, refl, refl)
  ]
