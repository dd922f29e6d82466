-- ===== src/Client/Notation/Powers.antt =====
-- How `exp2unicode` of webapp/public/game.js writes a power.
use mathlib.Core.Path.{ap₂}
use isucon7_final.Prelude.{
  ℕ, zero, suc, ◌+◌, ◌-◌, ◌≤◌, ◌≡◌, refl, Bool, true, false, [], ◌∷◌, ◌++◌, All, arith, ◌==◌,
  if◌then◌else◌, ◌||◌,
}
use isucon7_final.Prelude.Int.{pos}
use isucon7_final.Js.Digits.{Text, IsDigit, is_digit, IsNumeral}
use isucon7_final.Js.Decimal.{print, print-IsDecimal}
use isucon7_final.Client.Notation.{superscript, superscripts, exp2unicode}

-- The code point of a raised digit: 1, 2 and 3 stand among the Latin letters, the others in a block of
-- their own.
abbrev pub raised : ℕ → ℕ
raised d = if d == 1 then 185 else if d == 2 || d == 3 then 176 + d else 8304 + d

abbrev pub raise_all : Text → Text
raise_all [] = []
raise_all (c ∷ s) = raised (c - b'0') ∷ raise_all s

-- A text that writes k as a power: with raised digits, or behind a caret.
pub data IsPower (k : ℕ) : Bool → Text → Type 0 where
  in_raised_digits : (s : Text) → IsNumeral k s → IsPower k true (raise_all s)
  behind_caret : (s : Text) → IsNumeral k s → IsPower k false (b'^' ∷ s)

superscript_lem : (i : ℕ) → i ≤ 9 → superscript i ≡ raised i ∷ []
superscript_lem zero h = refl
superscript_lem (suc zero) h = refl
superscript_lem (suc (suc zero)) h = refl
superscript_lem (suc (suc (suc zero))) h = refl
superscript_lem (suc (suc (suc (suc zero)))) h = refl
superscript_lem (suc (suc (suc (suc (suc zero))))) h = refl
superscript_lem (suc (suc (suc (suc (suc (suc zero)))))) h = refl
superscript_lem (suc (suc (suc (suc (suc (suc (suc zero))))))) h = refl
superscript_lem (suc (suc (suc (suc (suc (suc (suc (suc zero)))))))) h = refl
superscript_lem (suc (suc (suc (suc (suc (suc (suc (suc (suc zero))))))))) h = refl
superscript_lem (suc (suc (suc (suc (suc (suc (suc (suc (suc (suc i)))))))))) h =
    absurd (omega (arith, h))

superscripts_lem : (s : Text) → All IsDigit s → superscripts s ≡ raise_all s
unfolding superscripts
superscripts_lem [] h = refl
superscripts_lem (c ∷ s) h =
    let known : is_digit c ≡ true = ground (arith, h.0) in
    rw known (
      ap₂ (λ t u. t ++ u) (superscript_lem (c - b'0') (omega (arith, h.0)))
        (superscripts_lem s h.1))

pub exp2unicode-IsPower :
    (unicode_mode : Bool) (k : ℕ)
    → IsPower k unicode_mode (exp2unicode unicode_mode (print (pos k)))
unfolding exp2unicode
exp2unicode-IsPower true k =
    let h : IsNumeral k (print (pos k)) = print-IsDecimal (pos k) in
    rw (superscripts_lem (print (pos k)) h.digits) (in_raised_digits (print (pos k)) h)
exp2unicode-IsPower false k = behind_caret (print (pos k)) (print-IsDecimal (pos k))
