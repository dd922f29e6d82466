-- ===== src/Bigint/Exact.antt =====
-- The integers meet the interface of the `bigint` package; used where a theorem is applied.
use isucon7_final.Prelude.{ℕ, ◌^◌, ◌≡◌, refl, arith}
use isucon7_final.Prelude.Int.{ℤ, pos, negsuc, pos_part, ◌+ℤ◌, ◌-ℤ◌, ◌*ℤ◌, ltb_ℤ, leb_ℤ}
use isucon7_final.Prelude.{Bool, true, false, ◌&&◌, ◌||◌, ◌==◌, All, [], ◌∷◌}
use isucon7_final.Js.Digits.{int, Text, IsDigit, is_digit, IsDecimal}
use isucon7_final.Js.Decimal.{print, read, print-IsDecimal, read-IsDecimal}
use isucon7_final.Bigint.{Bigint}

abbrev pub power : ℤ → ℤ → ℤ
power a (pos n) = pos (pos_part a ^ n)
power a (negsuc n) = pos 0

pub power-pos : (a b : ℤ) (m n : ℕ) → a ≡ pos m → b ≡ pos n → power a b ≡ pos (m ^ n)
power-pos a b m n p q = rw (p, q)

pub difference-le : (a b : ℤ) → leb_ℤ (pos 0) (a -ℤ b) ≡ leb_ℤ b a
unfolding ◌-ℤ◌
difference-le a b = ground arith

pub difference-lt : (a b : ℤ) → ltb_ℤ (a -ℤ b) (pos 0) ≡ ltb_ℤ a b
unfolding ◌-ℤ◌
difference-lt a b = ground arith

abbrev pub all_digits : Text → Bool
all_digits [] = true
all_digits (c ∷ s) = is_digit c && all_digits s

-- Digits, with a sign before them or not.
abbrev pub is_written : Text → Bool
is_written [] = false
is_written (c ∷ s) = (c == b'-' || is_digit c) && all_digits s

all_digits_lem : (s : Text) → All IsDigit s → all_digits s ≡ true
all_digits_lem [] h = refl
all_digits_lem (c ∷ s) h = ground (arith, all_digits_lem s h.1)

pub is_written-IsDecimal : (s : Text) (z : ℤ) → IsDecimal z s → is_written s ≡ true
is_written-IsDecimal [] (pos n) h = absurd (omega (arith, h.not_empty))
is_written-IsDecimal [] (negsuc n) h = absurd h
is_written-IsDecimal (c ∷ s) (pos n) h = ground (arith, h.digits, all_digits_lem s h.digits.1)
is_written-IsDecimal (c ∷ s) (negsuc n) h = ground (arith, all_digits_lem s h.1.digits)

abbrev pub exact : Bigint
exact = record {
  Big = ℤ;
  of_number = λ z. z;
  of_string = read;
  accepts = is_written;
  add = ◌+ℤ◌;
  sub = ◌-ℤ◌;
  mul = ◌*ℤ◌;
  pow = power;
  cmp = ◌-ℤ◌;
  to_string = print;
  to_number = int;
  val = λ z. z;
  val-of_number = λ z. refl;
  val-of_string = read-IsDecimal;
  accepts-IsDecimal = is_written-IsDecimal;
  val-add = λ a b. refl;
  val-sub = λ a b. refl;
  val-mul = λ a b. refl;
  val-pow = power-pos;
  cmp-le = difference-le;
  cmp-lt = difference-lt;
  to_string-IsDecimal = print-IsDecimal;
  to_number-val = λ a p q. refl;
}
