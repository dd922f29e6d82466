-- ===== src/Js/Float.antt =====
-- The floating-point numbers of JavaScript, as an interface: the operations that the client
-- calls, and what is documented of them for integers that are exact, those below 10 ^ 15.
use native.Mathlib.Nat.{div-one}
use isucon7_final.Prelude.{subst, sym, ℕ, ◌+◌, ◌*◌, ◌/◌, ◌^◌, ◌<◌, ◌≡◌, refl, Bool, leb, arith}
use isucon7_final.Prelude.Int.{pos, negsuc}
use isucon7_final.Js.Decimal.{print, print-IsDecimal}
use isucon7_final.Js.Digits.{Text, Number, int, nan, IsNumeral}

pub record Float : Type 1 where
  pub F : Type 0
  pub of_number : Number → F
  pub add : F → F → F
  pub mul : F → F → F
  pub div : F → F → F
  pub le : F → F → Bool
  -- `Math.floor`, `Math.log10` and `Math.pow(10, n)`
  pub floor : F → F
  pub log10 : F → F
  pub pow10 : ℕ → F
  -- `x + ""`
  pub to_text : F → Text

-- Comparing and printing exact integers is exact. A quotient is rounded to the nearest number,
-- and the whole numbers below 10 ^ 9 are far enough apart not to be reached by rounding.
pub record IsExact (D : Float) : Type 0 where
  pub le-int :
      (m n : ℕ)
      → m < 10 ^ 15
      → n < 10 ^ 15
      → D.le (D.of_number (int (pos m))) (D.of_number (int (pos n))) ≡ leb m n
  pub le-quotient :
      (k m x : ℕ)
      → k < 10 ^ 15
      → m < 10 ^ 15
      → x < 15
      → D.le (D.of_number (int (pos k))) (D.div (D.of_number (int (pos m))) (D.pow10 x))
        ≡ leb (k * 10 ^ x) m
  pub floor-quotient :
      (m x : ℕ)
      → m < 10 ^ 15
      → x < 15
      → D.floor (D.div (D.of_number (int (pos m))) (D.pow10 x))
        ≡ D.of_number (int (pos (m / 10 ^ x)))
  pub to_text-IsNumeral :
      (m : ℕ) → m < 10 ^ 15 → IsNumeral m (D.to_text (D.of_number (int (pos m))))

-- Fractions of natural numbers meet the laws; used where a theorem is applied. No law concerns
-- `Math.log10`, which has no value among them.
abbrev pub fractions : Float
fractions = record {
  F = ℕ × ℕ;
  of_number =
      λ x. elim x [ int z ↦ (elim z [ pos n ↦ (n, 1) | negsuc n ↦ (0, 1) ]) | nan ↦ (0, 1) ];
  add = λ x y. (x.0 * y.1 + y.0 * x.1, x.1 * y.1);
  mul = λ x y. (x.0 * y.0, x.1 * y.1);
  div = λ x y. (x.0 * y.1, x.1 * y.0);
  le = λ x y. leb (x.0 * y.1) (y.0 * x.1);
  floor = λ x. (x.0 / x.1, 1);
  log10 = λ x. x;
  pow10 = λ n. (10 ^ n, 1);
  to_text = λ x. print (pos (x.0 / x.1));
}

pub fractions-IsExact : IsExact fractions
fractions-IsExact = record {
  le-int = λ m n h k. ground arith;
  le-quotient = λ k m x h l u.
      let e : 1 * 10 ^ x ≡ 10 ^ x = omega arith in
      let e' : m * 1 * 1 ≡ m = omega arith in rw (e, e') refl;
  floor-quotient = λ m x h l.
      let e : 1 * 10 ^ x ≡ 10 ^ x = omega arith in
      let e' : m * 1 ≡ m = omega arith in rw (e, e') refl;
  to_text-IsNumeral =
      λ m h. subst (λ n. IsNumeral m (print (pos n))) (sym (div-one m)) (print-IsDecimal (pos m));
}
