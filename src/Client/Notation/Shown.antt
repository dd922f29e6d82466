-- ===== src/Client/Notation/Shown.antt =====
-- What `conv` shows of a number that the server has written with `big2exp`.
use native.Mathlib.Nat.{
  lt_of_mul-lt-mul_right, mul-le-mul_right, div-mul-le_self, lt-div-mul-add, one-le-pow,
}
use isucon7_final.Prelude.{
  ℕ, zero, suc, ◌+◌, ◌*◌, ◌/◌, ◌^◌, ◌≤◌, ◌<◌, ◌≡◌, ◌⊎◌, inl, inr, refl, subst, Bool, false, arith,
  leb, ltb, ◌==◌, if◌then◌else◌, Bool-cases, take, drop, ◌++◌, leb→le,
}
use isucon7_final.Prelude.Int.{pos}
use isucon7_final.Js.Digits.{Text, codes, IsNumeral, pow10-add}
use isucon7_final.Js.Decimal.{print}
use isucon7_final.Js.Float.{Float, IsExact}
use isucon7_final.Bigint.{Bigint}
use isucon7_final.Exponential.{big2exp}
use isucon7_final.Exponential.Bounds.{cancel_scale, big2exp-Abbreviates}
use isucon7_final.Client.Notation.Powers.{IsPower, exp2unicode-IsPower}
use isucon7_final.Client.Notation.{
  whole, least, greatest, scale, scale_fuel, conv, exp2unicode, read_exp,
}

-- A text that shows n: all of it below 10 ^ 9, else its first nine digits and the power of ten that
-- the first of them has, with raised digits or behind a caret.
pub data Shows (unicode_mode : Bool) (n : ℕ) : Text → Type 0 where
  in_full : {s : Text} → n < 10 ^ 9 → IsNumeral n s → Shows unicode_mode n s
  in_part :
      (s t : Text) (d k : ℕ)
      → IsNumeral d s
      → 10 ^ 8 ≤ d
      → d < 10 ^ 9
      → d * 10 ^ k ≤ n
      → n < (d + 1) * 10 ^ k
      → IsPower (k + 8) unicode_mode t
      → Shows unicode_mode n (take 1 s ++ codes "." ++ drop 1 s ++ codes "×10" ++ t)

-- The power of ten by which `conv` divides m.
record IsScale (m x r : ℕ) : Type 0 where
  small : r ≤ 6
  fits : m < 10 ^ 9 * 10 ^ r
  least_one : (r ≡ x) ⊎ (10 ^ 8 * 10 ^ r ≤ m)

six_at_most : (m x : ℕ) → m < 10 ^ 15 → x ≤ 6 → 1000000000 * 10 ^ x ≤ m → x + 1 ≤ 6
six_at_most m x h l more = elim (Bool-cases (ltb x 6)) [
  | inl below ↦ ground arith
  | inr at_six ↦
      let e : x ≡ 6 = ground arith in
      let big : 1000000000 * 10 ^ 6 ≤ m = subst (λ y. 1000000000 * 10 ^ y ≤ m) e more in
      absurd (omega arith)
]

one_more :
    (m x r : ℕ)
    → 1000000000 * 10 ^ x ≤ m
    → (r ≡ x + 1) ⊎ (10 ^ 8 * 10 ^ r ≤ m)
    → 10 ^ 8 * 10 ^ r ≤ m
one_more m x r more (inl e) = rw e (omega (arith, pow10-add x 1))
one_more m x r more (inr enough) = enough

-- The digits that are left when r of them are cut off.
record IsFront (m r d : ℕ) : Type 0 where
  below : d * 10 ^ r ≤ m
  above : m < (d + 1) * 10 ^ r

quotient-IsFront : (m r : ℕ) → IsFront m r (m / 10 ^ r)
quotient-IsFront m r =
    let some_power = one-le-pow r 10 (omega arith) in
    record {
      below = div-mul-le_self m (10 ^ r);
      above = omega (arith, lt-div-mul-add {a = m} some_power);
    }

front_bounds :
    (m r d lo hi : ℕ) → IsFront m r d → lo * 10 ^ r ≤ m → m < hi * 10 ^ r → (lo ≤ d) × (d < hi)
front_bounds m r d lo hi f l u =
    let scaled : d * 10 ^ r < hi * 10 ^ r = omega (arith, f.below) in
    (cancel_scale lo d (10 ^ r) m l f.above, lt_of_mul-lt-mul_right (10 ^ r) scaled)

-- Cutting off digits twice.
cut_twice :
    (d m n p q : ℕ)
    → d * q ≤ m
    → m < (d + 1) * q
    → m * p ≤ n
    → n < (m + 1) * p
    → (d * (p * q) ≤ n) × (n < (d + 1) * (p * q))
cut_twice d m n p q l u l' u' =
    let low : d * q * p ≤ m * p = mul-le-mul_right p l in
    let high : (m + 1) * p ≤ (d + 1) * q * p = mul-le-mul_right p (omega arith) in
    (omega (arith, low), omega (arith, high))

nothing_cut : (m n d : ℕ) → m * 10 ^ 0 ≤ n → n < (m + 1) * 10 ^ 0 → IsFront m 0 d → d ≡ n
nothing_cut m n d l u f = omega (arith, f.below, f.above)

module _ ⦃D : Float⦄ (exact : IsExact D) where
  open D use {F, pow10, floor, div, to_text}

  scale-IsScale :
      (fuel m x : ℕ) → m < 10 ^ 15 → x ≤ 6 → 7 ≤ x + fuel → IsScale m x (scale fuel (whole m) x)
  unfolding scale
  scale-IsScale zero m x h l e = absurd (omega arith)
  scale-IsScale (suc fuel) m x h l e =
      let test = exact.le-quotient 1000000000 m x (omega arith) h (omega arith) in
      elim (Bool-cases (leb (1000000000 * 10 ^ x) m)) [
        | inl more ↦
            let rest =
              scale-IsScale fuel m (x + 1) h (six_at_most m x h l (leb→le _ _ more))
                (omega arith) in
            rw (test, more)
              (record {
                small = rest.small;
                fits = rest.fits;
                least_one = inr (one_more m x _ (leb→le _ _ more) rest.least_one);
              })
        | inr done ↦
            rw (test, done) (record { small = l; fits = ground arith; least_one = inl refl })
      ]

  -- The first nine digits of an exact mantissa survive the bounds that `conv` sets.
  clamped :
      (d : ℕ)
      → 10 ^ 8 ≤ d
      → d < 10 ^ 9
      → greatest (whole 100000000) (least (whole 999999999) (whole d)) ≡ whole d
  clamped d l u = ground (
    arith,
    exact.le-int 999999999 d (omega arith) (omega arith),
    exact.le-int 100000000 d (omega arith) (omega arith),
    exact.le-int 100000000 999999999 (omega arith) (omega arith),
  )

  shown_in_full :
      (unicode_mode : Bool) (m e n r d : ℕ)
      → e ≡ 0
      → r ≡ 0
      → m * 10 ^ e ≤ n
      → n < (m + 1) * 10 ^ e
      → IsFront m r d
      → IsScale m 0 r
      → Shows unicode_mode n (to_text (whole d))
  shown_in_full unicode_mode m e n r d e0 r0 lower upper front s =
      let l : m * 10 ^ 0 ≤ n = subst (λ x. m * 10 ^ x ≤ n) e0 lower in
      let u : n < (m + 1) * 10 ^ 0 = subst (λ x. n < (m + 1) * 10 ^ x) e0 upper in
      let fits : m < 10 ^ 9 * 10 ^ 0 = subst (λ x. m < 10 ^ 9 * 10 ^ x) r0 s.fits in
      let same = nothing_cut m n d l u (subst (λ x. IsFront m x d) r0 front) in
      in_full (omega arith) (
        subst (λ x. IsNumeral x (to_text (whole d))) same (exact.to_text-IsNumeral d (omega arith)))

  eight :
      (m e r : ℕ)
      → (1 ≤ e → 10 ^ 14 ≤ m)
      → IsScale m 0 r
      → (e + r) == 0 ≡ false
      → 10 ^ 8 * 10 ^ r ≤ m
  eight m e r full s some_cut = elim s.least_one [
    | inl none_cut ↦
        let fits : m < 10 ^ 9 * 10 ^ 0 = subst (λ x. m < 10 ^ 9 * 10 ^ x) none_cut s.fits in
        let long : 10 ^ 14 ≤ m = full (ground arith) in absurd (omega arith)
    | inr enough ↦ enough
  ]

  shown_in_part :
      (unicode_mode : Bool) (m e n r d : ℕ)
      → m * 10 ^ e ≤ n
      → n < (m + 1) * 10 ^ e
      → IsFront m r d
      → 10 ^ 8 ≤ d
      → d < 10 ^ 9
      → Shows unicode_mode n (
          let s = to_text (whole d) in
          take 1 s
          ++ codes "."
          ++ drop 1 s
          ++ codes "×10"
          ++ exp2unicode unicode_mode (print (pos (e + r + 8))))
  shown_in_part unicode_mode m e n r d lower upper front l u =
      let cut = cut_twice d m n (10 ^ e) (10 ^ r) front.below front.above lower upper in
      let power = pow10-add e r in
      in_part (to_text (whole d)) (exp2unicode unicode_mode (print (pos (e + r + 8)))) d (e + r)
        (exact.to_text-IsNumeral d (omega arith)) l u (rw power cut.0) (rw power cut.1)
        (exp2unicode-IsPower unicode_mode (e + r + 8))

  pub conv-Shows :
      (unicode_mode : Bool) (m e n : ℕ)
      → m < 10 ^ 15
      → (1 ≤ e → 10 ^ 14 ≤ m)
      → m * 10 ^ e ≤ n
      → n < (m + 1) * 10 ^ e
      → Shows unicode_mode n (conv unicode_mode (whole m, e))
  unfolding conv
  conv-Shows unicode_mode m e n small full lower upper =
      let s = scale-IsScale scale_fuel m 0 small (omega arith) (omega arith) in
      go (scale scale_fuel (whole m) 0) s
    where
      go :
          (r : ℕ)
          → IsScale m 0 r
          → Shows unicode_mode n (
              let m' = floor (div (whole m) (pow10 r)) in
              let s = to_text (greatest (whole 100000000) (least (whole 999999999) m')) in
              if (e + r) == 0
              then to_text m'
              else take 1 s
                ++ codes "."
                ++ drop 1 s
                ++ codes "×10"
                ++ exp2unicode unicode_mode (print (pos (e + r + 8))))
      go r s =
          let floors = exact.floor-quotient m r small (omega (arith, s.small)) in
          let front = quotient-IsFront m r in
          elim (Bool-cases ((e + r) == 0)) [
            | inl zeros ↦
                rw (zeros, floors)
                  (shown_in_full unicode_mode m e n r (m / 10 ^ r) (ground arith) (ground arith)
                    lower upper front s)
            | inr some_cut ↦
                let bounds =
                  front_bounds m r (m / 10 ^ r) (10 ^ 8) (10 ^ 9) front
                    (eight m e r full s some_cut) s.fits in
                rw (some_cut, floors, clamped (m / 10 ^ r) bounds.0 bounds.1)
                  (shown_in_part unicode_mode m e n r (m / 10 ^ r) lower upper front bounds.0
                    bounds.1)
          ]

  -- Where floating-point numbers are exact on integers below 10 ^ 15, what the server abbreviates
  -- with `big2exp` and the client writes with `conv` shows the number, if it is not negative: all of
  -- it below 10 ^ 9, else its first nine digits, not rounded up, with the right power
  -- of ten, in raised digits in the Unicode mode and behind a caret otherwise.
  pub conv-big2exp :
      ⦃B : Bigint⦄ (unicode_mode : Bool) (b : B.Big) (n : ℕ)
      → B.val b ≡ pos n
      → Shows unicode_mode n (conv unicode_mode (read_exp (big2exp b)))
  conv-big2exp unicode_mode b n h =
      let a = big2exp-Abbreviates b n h in
      rw (a.is_mantissa) (
        conv-Shows unicode_mode a.digits (big2exp b).exponent n a.at_most_fifteen a.all_fifteen
          a.from_below a.within_one)
