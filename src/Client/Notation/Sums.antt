-- ===== src/Client/Notation/Sums.antt =====
-- `add_xx` needs no more than three calls, and what it then returns.
use isucon7_final.Prelude.{ℕ, suc, ◌-◌, ◌≡◌, arith, ltb, ◌==◌, if◌then◌else◌}
use isucon7_final.Js.Float.{Float}
use isucon7_final.Client.Notation.{add_xx}

module _ ⦃D : Float⦄ where
  open D use {F, add, div, pow10}

  -- The sum at the higher of the two powers of ten; the mantissa of that power stands first.
  abbrev pub aligned_sum : F × ℕ → F × ℕ → F × ℕ
  aligned_sum (m, a) (n, b) =
      if ltb a b
      then (add n (div m (pow10 (b - a))), b)
      else if a == b
      then (add m n, a)
      else (add m (div n (pow10 (a - b))), a)

  -- Three calls of `add_xx` are enough, for any two numbers: it returns the sum at the higher power
  -- of ten, with the mantissa of the other number divided by the power of ten between them.
  pub add_xx-aligned_sum :
      (fuel : ℕ) (x y : F × ℕ) → add_xx (suc (suc (suc fuel))) x y ≡ aligned_sum x y
  unfolding add_xx
  add_xx-aligned_sum fuel (m, a) (n, b) = ground arith
