-- ===== src/Status/Balance.antt =====
-- An independent account of a room: what it owns at a time, as a sum over its history.
-- An adding brings its amount at its time; a buying costs its price at once and, from its time on,
-- brings its power each millisecond. Amounts are in thousandths of a chair.
use mathlib.Core.Path.{ap₂}
use native.Mathlib.Decide.{dec_le}
use isucon7_final.Prelude.{
  ◌∙◌, le→leb, ℕ, suc, ◌+◌, ◌-◌, ◌*◌, ◌≡◌, none, some, List, [], ◌∷◌, arith, leb, ◌==◌,
  if◌then◌else◌,
}
use isucon7_final.Prelude.Int.{ℤ, pos, ◌+ℤ◌, ◌-ℤ◌, ◌*ℤ◌, int_laws}
use isucon7_final.Js.Object.{Object, get}
use isucon7_final.Bigint.{Bigint}
use isucon7_final.MItem.{MItem}
use isucon7_final.MItem.Formula.{price_of, power_of}
use isucon7_final.Status.Types.{Adding, Buying}

+ℤ-zero : (z : ℤ) → z +ℤ pos 0 ≡ z
+ℤ-zero z = omega int_laws

pub zero-+ℤ : (z : ℤ) → pos 0 +ℤ z ≡ z
zero-+ℤ z = omega int_laws

-- What has arrived one millisecond later.
arrived-suc :
    (x t : ℕ) (z : ℤ)
    → (if leb x (t + 1) then z else pos 0)
      ≡ (if leb x t then z else pos 0) +ℤ (if x == t + 1 then z else pos 0)
arrived-suc x t z = ground (arith, +ℤ-zero z, zero-+ℤ z, +ℤ-zero (pos 0))

regroup : (a b c d : ℤ) → a +ℤ b +ℤ (c +ℤ d) ≡ a +ℤ c +ℤ (b +ℤ d)
regroup a b c d = omega int_laws

worked-suc :
    (x t p : ℕ)
    → (if leb x (t + 1) then p * (t + 1 - x) else 0)
      ≡ (if leb x t then p * (t - x) else 0) + (if leb x t then p else 0)
worked-suc x t p = elim (dec_le x t) [
  | yes h ↦
      let e : t + 1 - x ≡ suc (t - x) = omega arith in
      rw (le→leb x (t + 1) (omega arith), le→leb x t h, e) (omega arith)
  | no h ↦ let e : t + 1 - x ≡ 0 = omega arith in rw e (ground arith)
]

module _ ⦃B : Bigint⦄ where
  open B use {val, of_string}

  abbrev pub amount : Adding → ℤ
  amount a = val (of_string a.isu) *ℤ pos 1000

  -- The amounts that have arrived by time t, and those that arrive exactly then.
  unfoldable pub earned : ℕ → List Adding → ℤ
  earned t [] = pos 0
  earned t (a ∷ addings) = (if leb a.time t then amount a else pos 0) +ℤ earned t addings

  unfoldable pub arriving : ℕ → List Adding → ℤ
  arriving t [] = pos 0
  arriving t (a ∷ addings) = (if a.time == t then amount a else pos 0) +ℤ arriving t addings

  pub earned-suc :
      (t : ℕ) (addings : List Adding)
      → earned (t + 1) addings ≡ earned t addings +ℤ arriving (t + 1) addings
  unfolding earned arriving
  earned-suc t [] = omega int_laws
  earned-suc t (a ∷ addings) =
      ap₂ ◌+ℤ◌ (arrived-suc a.time t (amount a)) (earned-suc t addings)
      ∙ regroup (if leb a.time t then amount a else pos 0)
          (if a.time == t + 1 then amount a else pos 0) (earned t addings)
          (arriving (t + 1) addings)

module _ (items : Object MItem) where
  abbrev pub price_paid : Buying → ℕ
  price_paid b = elim (get b.item_id items) [ none ↦ 0 | some m ↦ price_of m b.ordinal ]

  abbrev pub power_bought : Buying → ℕ
  power_bought b = elim (get b.item_id items) [ none ↦ 0 | some m ↦ power_of m b.ordinal ]

  unfoldable pub spent : List Buying → ℕ
  spent [] = 0
  spent (b ∷ buyings) = price_paid b * 1000 + spent buyings

  -- The power at time t, the power that sets in exactly then, and what was produced up to then.
  unfoldable pub power_at : ℕ → List Buying → ℕ
  power_at t [] = 0
  power_at t (b ∷ buyings) = (if leb b.time t then power_bought b else 0) + power_at t buyings

  unfoldable pub power_from : ℕ → List Buying → ℕ
  power_from t [] = 0
  power_from t (b ∷ buyings) = (if b.time == t then power_bought b else 0) + power_from t buyings

  unfoldable pub produced : ℕ → List Buying → ℕ
  produced t [] = 0
  produced t (b ∷ buyings) =
      (if leb b.time t then power_bought b * (t - b.time) else 0) + produced t buyings

  pub power_at-suc :
      (t : ℕ) (buyings : List Buying)
      → power_at (t + 1) buyings ≡ power_at t buyings + power_from (t + 1) buyings
  unfolding power_at power_from
  power_at-suc t [] = omega arith
  power_at-suc t (b ∷ buyings) = ground (arith, power_at-suc t buyings)

  pub produced-suc :
      (t : ℕ) (buyings : List Buying)
      → produced (t + 1) buyings ≡ produced t buyings + power_at t buyings
  unfolding produced power_at
  produced-suc t [] = omega arith
  produced-suc t (b ∷ buyings) =
      omega (arith, worked-suc b.time t (power_bought b), produced-suc t buyings)

module _ ⦃B : Bigint⦄ (items : Object MItem) where
  unfoldable pub balance : ℕ → List Adding → List Buying → ℤ
  balance t addings buyings =
      earned t addings +ℤ pos (produced items t buyings) -ℤ pos (spent items buyings)

  pub balance-suc :
      (t : ℕ) (addings : List Adding) (buyings : List Buying)
      → balance (t + 1) addings buyings
        ≡ balance t addings buyings +ℤ pos (power_at items t buyings) +ℤ arriving (t + 1) addings
  unfolding balance
  balance-suc t addings buyings = rw (earned-suc, produced-suc) (omega int_laws)
