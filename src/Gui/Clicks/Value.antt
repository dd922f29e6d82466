-- ===== src/Gui/Clicks/Value.antt =====
-- What a click on the chair is worth.
use isucon7_final.Prelude.{◌⊎◌, false, ℕ, ◌≡◌, leb, if◌then◌else◌}
use isucon7_final.Js.Float.{Float, IsExact}
use isucon7_final.Client.Notation.{whole}

abbrev pub at_most : ℕ → ℕ → ℕ
at_most bound n = if leb n bound then n else bound

module _ ⦃D : Float⦄ (exact : IsExact D) where
  open D use {F, le}

  -- What the state shows as its step: an integer, or a number below zero.
  abbrev pub IsStep : F → ℕ → Type 0
  IsStep x n = (x ≡ whole n) ⊎ ((le (whole 0) x ≡ false) × (n ≡ 0))
