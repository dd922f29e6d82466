-- ===== src/Exponential/Bounds.antt =====
-- How close `big2exp` comes to the number that it abbreviates.
use mathlib.Core.Path.{subst}
use native.Mathlib.Nat.{lt_of_mul-lt-mul_right, pow-le-pow_right}
use isucon7_final.Prelude.{
  ℕ, suc, ◌+◌, ◌-◌, ◌*◌, ◌^◌, ◌≤◌, ◌<◌, ◌≡◌, sym, ◌∙◌, ap, arith, length, take, drop, leb, leb→le,
  Bool-cases, inl, inr, take-append-drop, length-take, length-drop, All-take, All-drop,
}
use isucon7_final.Prelude.Int.{pos}
use isucon7_final.Js.Digits.{
  Text, int, IsNumeral, IsDigit, IsDecimal, digits_value, digits_value-append, digits_value_bounds,
  pow10-add, parse_int_digits,
}
use isucon7_final.Bigint.{Bigint}
use isucon7_final.Exponential.{Exponential, big2exp, exp_of_text}

-- `mantissa` times ten to the `exponent` is `n` with all but its first fifteen digits cut off.
pub record Abbreviates (n : ℕ) (e : Exponential) : Type 0 where
  pub digits : ℕ
  pub is_mantissa : e.mantissa ≡ int (pos digits)
  pub from_below : digits * 10 ^ e.exponent ≤ n
  pub within_one : n < (digits + 1) * 10 ^ e.exponent
  pub at_most_fifteen : digits < 10 ^ 15
  pub all_fifteen : 1 ≤ e.exponent → 10 ^ 14 ≤ digits

pub cancel_scale : (a m p n : ℕ) → a * p ≤ n → n < (m + 1) * p → a ≤ m
cancel_scale a m p n lower upper =
    let scaled : a * p < (m + 1) * p = omega arith in omega (arith, lt_of_mul-lt-mul_right p scaled)

-- The first fifteen digits of a longer numeral.
cut_numeral :
    (n k e : ℕ) (s : Text)
    → IsNumeral n s
    → length s ≡ suc k + e
    → 1 ≤ e
    → let m = digits_value 0 (take (suc k) s) in
      (m * 10 ^ e ≤ n) × (n < (m + 1) * 10 ^ e) × (m < 10 ^ suc k) × (10 ^ k ≤ m)
cut_numeral n k e s h l some_cut =
    let front = take (suc k) s in
    let back = drop (suc k) s in
    let m = digits_value 0 front in
    let all : digits_value m back ≡ n =
      sym (digits_value-append 0 front back)
      ∙ ap (digits_value 0) (take-append-drop (suc k) s)
      ∙ h.denotes in
    let front_length : length front ≡ suc k = omega (arith, length-take (suc k) s) in
    let back_length : length back ≡ e = omega (arith, length-drop (suc k) s) in
    let more = digits_value_bounds m back (All-drop IsDigit (suc k) s h.digits) in
    let first = digits_value_bounds 0 front (All-take IsDigit (suc k) s h.digits) in
    let upper : n < (m + 1) * 10 ^ e =
      subst (λ j. n < (m + 1) * 10 ^ j) back_length (rw all at more.1) in
    let lower : 10 ^ k * 10 ^ e ≤ n =
      let j : length s - 1 ≡ k + e = omega arith in
      subst (λ t. t ≤ n) (ap (λ t. 10 ^ t) j ∙ pow10-add k e) (h.no_zero_in_front (omega arith)) in
    (
      subst (λ j. m * 10 ^ j ≤ n) back_length (rw all at more.0),
      upper,
      subst (λ j. m < 10 ^ j) front_length (omega (arith, first.1)),
      cancel_scale (10 ^ k) m (10 ^ e) n lower upper,
    )

module _ ⦃B : Bigint⦄ where
  open B use {Big, val, to_string, to_number-val, to_string-IsDecimal}

  small_value : (n : ℕ) (s : Text) → IsNumeral n s → length s ≤ 15 → n < 10 ^ 15
  small_value n s h l =
      let b = digits_value_bounds 0 s h.digits in
      let p : 10 ^ length s ≤ 10 ^ 15 = pow-le-pow_right (omega arith) l in
      omega (arith, b.1, h.denotes)

  text_Abbreviates :
      (b : Big) (n : ℕ) (s : Text) → val b ≡ pos n → IsNumeral n s → Abbreviates n (exp_of_text b s)
  text_Abbreviates b n s v h = elim (Bool-cases (leb (length s) 15)) [
    | inl short ↦
        let small = small_value n s h (leb→le (length s) 15 short) in
        rw (short) (record {
          digits = n;
          is_mantissa = rw (to_number-val b (rw v small) (rw v (omega arith)), v);
          from_below = omega arith;
          within_one = omega arith;
          at_most_fifteen = small;
          all_fifteen = λ l. absurd (omega arith);
        })
    | inr long ↦
        let l : length s ≡ 15 + (length s - 15) = ground arith in
        let c = cut_numeral n 14 (length s - 15) s h l (ground arith) in
        rw (long) (record {
          digits = digits_value 0 (take 15 s);
          is_mantissa =
              parse_int_digits (take 15 s) (All-take IsDigit 15 s h.digits)
                (omega (arith, length-take 15 s));
          from_below = c.0;
          within_one = c.1;
          at_most_fifteen = c.2;
          all_fifteen = λ _. c.3;
        })
  ]

  -- Of every integer from zero up, `big2exp` keeps the first fifteen digits, and the exponent
  -- counts the digits that were cut off: the result is exact up to one unit of its last digit.
  pub big2exp-Abbreviates : (b : Big) (n : ℕ) → val b ≡ pos n → Abbreviates n (big2exp b)
  unfolding big2exp
  big2exp-Abbreviates b n h =
      text_Abbreviates b n (to_string b) h
        (subst (λ z. IsDecimal z (to_string b)) h (to_string-IsDecimal b))
