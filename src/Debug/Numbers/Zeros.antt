-- ===== src/Debug/Numbers/Zeros.antt =====
-- The doubling loop writes the zeros that it should, and the text stands for x times ten to the y.
use native.Mathlib.Nat.{pow-suc}
use mathlib.Core.List.{append-nil}
use isucon7_final.Prelude.{
  ℕ, zero, suc, ◌+◌, ◌-◌, ◌*◌, ◌/◌, ◌%◌, ◌^◌, ◌<◌, ◌≤◌, ◌≡◌, refl, sym, ◌∙◌, ap, true, ◌||◌, [],
  ◌∷◌, ◌++◌, arith, ltb, ◌==◌, if◌then◌else◌, Bool-cases, inl, inr,
}
use isucon7_final.Js.Digits.{Text, codes, digits_value, digits_value-append}
use isucon7_final.Store.Tables.{text_eq}
use isucon7_final.Debug.Numbers.{double_zeros, with_zeros, is_positive, accepted, typed_power}

abbrev pub zeros : ℕ → Text
zeros zero = []
zeros (suc n) = b'0' ∷ zeros n

zeros-append : (m n : ℕ) → zeros m ++ zeros n ≡ zeros (m + n)
zeros-append zero n = let e : 0 + n ≡ n = omega arith in rw e refl
zeros-append (suc m) n =
    let e : suc m + n ≡ suc (m + n) = omega arith in rw e (ap (λ s. b'0' ∷ s) (zeros-append m n))

halved : (j k y : ℕ) → j + k * (y % 2) + (k + k) * (y / 2) ≡ j + k * y
halved j k y =
    let e : y % 2 + 2 * (y / 2) ≡ y = omega arith in omega (arith, ap (λ (t : ℕ). k * t) e)

one_round :
    (j k y : ℕ) → (if (y % 2) == 1 then zeros j ++ zeros k else zeros j) ≡ zeros (j + k * (y % 2))
one_round j k y = elim (Bool-cases ((y % 2) == 1)) [
  | inl odd ↦
      let e : y % 2 ≡ 1 = ground arith in
      let f : j + k * 1 ≡ j + k = omega arith in
      rw odd (zeros-append j k ∙ ap zeros (sym f) ∙ ap (λ t. zeros (j + k * t)) (sym e))
  | inr even ↦
      let e : y % 2 ≡ 0 = ground arith in
      let f : j + k * 0 ≡ j = omega arith in
      rw even (ap zeros (sym f) ∙ ap (λ t. zeros (j + k * t)) (sym e))
]

double_zeros-zeros :
    (fuel y j k : ℕ)
    → 0 < y
    → y < 2 ^ fuel
    → double_zeros fuel y (zeros j) (zeros k) ≡ zeros (j + k * y)
unfolding double_zeros
double_zeros-zeros zero y j k h l = absurd (omega arith)
double_zeros-zeros (suc fuel) y j k h l = elim (Bool-cases ((y / 2) == 0)) [
  | inl last ↦
      let e : y % 2 ≡ y = ground arith in rw last (one_round j k y ∙ ap (λ t. zeros (j + k * t)) e)
  | inr more ↦
      let small : y / 2 < 2 ^ fuel = omega (arith, pow-suc 2 fuel) in
      rw (more, one_round j k y, zeros-append k k)
        (double_zeros-zeros fuel (y / 2) (j + k * (y % 2)) (k + k) (ground arith) small
          ∙ ap zeros (halved j k y))
]

digits_value-zeros : (acc n : ℕ) → digits_value acc (zeros n) ≡ acc * 10 ^ n
unfolding digits_value
digits_value-zeros acc zero = omega arith
digits_value-zeros acc (suc n) =
    digits_value-zeros (acc * 10 + (b'0' - b'0')) n
    ∙ omega (arith, pow-suc 10 n, ap (λ (t : ℕ). acc * t) (pow-suc 10 n))

-- Behind x stand exactly y zeros, for every y that the loop's numbers of 32 bits can hold.
with_zeros_lem : (x : Text) (y : ℕ) → y < 2 ^ 32 → with_zeros x y ≡ x ++ zeros y
unfolding with_zeros
with_zeros_lem x y h = elim (Bool-cases (ltb 0 y)) [
  | inl some_zeros ↦
      let e : 0 + 1 * y ≡ y = omega arith in
      rw some_zeros (ap (λ t. x ++ t) (double_zeros-zeros 32 y 0 1 (ground arith) h ∙ ap zeros e))
  | inr none_left ↦
      let e : y ≡ 0 = ground arith in
      rw none_left (sym (append-nil x) ∙ ap (λ n. x ++ zeros n) (sym e))
]

accepted_power :
    (x y v : Text)
    → typed_power x y ≡ accepted v
    → (v ≡ with_zeros x (digits_value 0 y)) × (is_positive x ≡ true) × (digits_value 0 y ≤ 100000)
unfolding typed_power
accepted_power x y v h = elim (Bool-cases (is_positive x)) [
  | inr wrong ↦ absurd (ground arith)
  | inl positive ↦ elim (Bool-cases (text_eq y (codes "0") || is_positive y)) [
    | inr wrong ↦ absurd (ground arith)
    | inl right ↦ elim (Bool-cases (ltb 100000 (digits_value 0 y))) [
      | inl large ↦ absurd (ground arith)
      | inr small ↦
          let e : accepted (with_zeros x (digits_value 0 y)) ≡ accepted v =
            rw (positive, right, small) at h in
          (cc, positive, ground arith)
    ]
  ]
]

-- A text that is accepted for x and y stands for x times ten to the power y, x is a positive
-- integer without leading zeros, and y is at most 100000.
pub typed_power-value :
    (x y v : Text)
    → typed_power x y ≡ accepted v
    → (digits_value 0 v ≡ digits_value 0 x * 10 ^ digits_value 0 y)
      × (is_positive x ≡ true)
      × (digits_value 0 y ≤ 100000)
unfolding typed_power
typed_power-value x y v h =
    let (e, p, l) = accepted_power x y v h in
    (
      ap (digits_value 0) (e ∙ with_zeros_lem x (digits_value 0 y) (omega arith))
          ∙ digits_value-append 0 x (zeros (digits_value 0 y))
          ∙ digits_value-zeros (digits_value 0 x) (digits_value 0 y),
      p,
      l,
    )
