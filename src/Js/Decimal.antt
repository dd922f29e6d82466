-- ===== src/Js/Decimal.antt =====
-- Integers written in decimal and read back: a way to meet the interface of the `bigint` package.
use native.Mathlib.Numerals.{unary_clauses}
use isucon7_final.Prelude.{
  ℕ, zero, suc, ◌+◌, ◌-◌, ◌*◌, ◌/◌, ◌%◌, ◌^◌, ◌≤◌, ◌<◌, ◌≡◌, refl, ap, inl, inr, [], ◌∷◌, ◌++◌,
  arith, ltb, ◌==◌, if◌then◌else◌, length, length-append, All-append, Bool-cases,
}
use isucon7_final.Prelude.Int.{ℤ, pos, negsuc, ◌-ℤ◌}
use isucon7_final.Js.Digits.{Text, IsDigit, digits_value, digits_value-append, IsNumeral, IsDecimal}

print_digits : ℕ → ℕ → Text
print_digits zero n = []
print_digits (suc f) n =
    let rest = print_digits f (n / 10) in
    if ltb n 10 then (b'0' + n) ∷ [] else rest ++ (b'0' + n % 10) ∷ []

unfoldable pub print : ℤ → Text
unfolding print_digits
print (pos n) = print_digits (suc n) n
print (negsuc n) = b'-' ∷ print_digits (suc (suc n)) (suc n)

unfoldable pub read : Text → ℤ
unfolding digits_value ◌-ℤ◌
read [] = pos 0
read (c ∷ s) = if c == b'-' then pos 0 -ℤ pos (digits_value 0 s) else pos (digits_value 0 (c ∷ s))

one_digit-IsNumeral : (n : ℕ) → n < 10 → IsNumeral n ((b'0' + n) ∷ [])
unfolding digits_value
one_digit-IsNumeral n h = omega arith

longer_numeral : (n k : ℕ) (s : Text) → 10 ≤ n → IsNumeral (n / 10) s → length s ≡ k → 10 ^ k ≤ n
longer_numeral n zero s big h e = simp unary_clauses (omega arith)
longer_numeral n (suc zero) s big h e = big
longer_numeral n (suc (suc k)) s big h e = simp unary_clauses (omega (arith, shorter))
  where
    shorter : 10 ^ k * 10 ≤ n / 10
    shorter =
        let p = h.no_zero_in_front (omega arith) in
        let q : length s - 1 ≡ suc k = omega arith in simp unary_clauses at (rw q at p)

more_digits-IsNumeral :
    (n : ℕ) (s : Text) → 10 ≤ n → IsNumeral (n / 10) s → IsNumeral n (s ++ (b'0' + n % 10) ∷ [])
unfolding digits_value
more_digits-IsNumeral n s big h = record {
  digits = All-append IsDigit s _ h.digits (omega arith);
  denotes = rw (digits_value-append 0 s ((b'0' + n % 10) ∷ []), h.denotes) (omega arith);
  not_empty = omega (arith, length-append s ((b'0' + n % 10) ∷ []));
  no_zero_in_front = λ _.
      let e : length (s ++ (b'0' + n % 10) ∷ []) - 1 ≡ length s =
        omega (arith, length-append s ((b'0' + n % 10) ∷ [])) in
      rw e (longer_numeral n (length s) s big h refl);
}

print_digits-IsNumeral : (f n : ℕ) → n ≤ f → IsNumeral n (print_digits (suc f) n)
unfolding print_digits
print_digits-IsNumeral zero n h =
    let e : n ≡ 0 = omega arith in rw e (one_digit-IsNumeral 0 (omega arith))
print_digits-IsNumeral (suc f) n h = elim (Bool-cases (ltb n 10)) [
  | inl small ↦ rw small (one_digit-IsNumeral n (ground arith))
  | inr big ↦ rw big (
      more_digits-IsNumeral n (print_digits (suc f) (n / 10)) (ground arith)
        (print_digits-IsNumeral f (n / 10) (ground arith)))
]

pub print-IsDecimal : (z : ℤ) → IsDecimal z (print z)
unfolding print
print-IsDecimal (pos n) = print_digits-IsNumeral n n (omega arith)
print-IsDecimal (negsuc n) = (refl, print_digits-IsNumeral (suc n) (suc n) (omega arith))

pub read-IsDecimal : (s : Text) (z : ℤ) → IsDecimal z s → read s ≡ z
unfolding read digits_value ◌-ℤ◌
read-IsDecimal [] (pos n) h = ap pos h.denotes
read-IsDecimal [] (negsuc n) h = absurd h
read-IsDecimal (c ∷ s) (pos n) h = ground (arith, h.digits, h.denotes)
read-IsDecimal (c ∷ s) (negsuc n) h = ground (arith, h.1.denotes)
