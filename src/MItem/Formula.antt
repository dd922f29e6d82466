-- ===== src/MItem/Formula.antt =====
-- The formula that the comments of `getPrice` and `getPower` give, and what follows from it.
use native.Mathlib.Nat.{pow-le-pow_right, mul-le-mul, one-le-pow}
use isucon7_final.Prelude.{ℕ, ◌+◌, ◌*◌, ◌^◌, ◌≤◌, ◌≡◌, refl, arith}
use isucon7_final.Prelude.Int.{pos, ◌≤ℤ◌, *ℤ-pos}
use isucon7_final.Bigint.{Bigint}
use isucon7_final.MItem.{ItemRow, MItem, new_item, to_json, get_price, get_power}

-- (c x + 1) * d ^ (a x + b)
abbrev pub formula : ℕ → ℕ → ℕ → ℕ → ℕ → ℕ
formula a b c d x = (c * x + 1) * d ^ (a * x + b)

abbrev pub price_of : MItem → ℕ → ℕ
price_of m x = formula m.price1 m.price2 m.price3 m.price4 x

abbrev pub power_of : MItem → ℕ → ℕ
power_of m x = formula m.power1 m.power2 m.power3 m.power4 x

module _ ⦃B : Bigint⦄ where
  open B use {Big, val, val-of_number, val-mul, val-pow, of_number, mul, pow}

  product_val :
      (s d u : Big) (k m n : ℕ)
      → val s ≡ pos k
      → val d ≡ pos m
      → val u ≡ pos n
      → val (mul s (pow d u)) ≡ pos (k * m ^ n)
  product_val s d u k m n hs hd hu = rw (val-mul, hs, val-pow d u m n hd hu) (*ℤ-pos k (m ^ n))

  pub val-get_price : (m : MItem) (x : ℕ) → val (get_price m x) ≡ pos (price_of m x)
  unfolding get_price
  val-get_price m x = product_val _ _ _ _ _ _ (val-of_number _) (val-of_number _) (val-of_number _)

  pub val-get_power : (m : MItem) (x : ℕ) → val (get_power m x) ≡ pos (power_of m x)
  unfolding get_power
  val-get_power m x = product_val _ _ _ _ _ _ (val-of_number _) (val-of_number _) (val-of_number _)

scale_mono : (c x y k : ℕ) → x ≤ y → c * x + k ≤ c * y + k
scale_mono c x y k h = grind arith

formula_mono : (a b c d x y : ℕ) → 1 ≤ d → x ≤ y → formula a b c d x ≤ formula a b c d y
formula_mono a b c d x y one h =
    mul-le-mul (scale_mono c x y 1 h) (pow-le-pow_right one (scale_mono a x y b h))

pow_pos : (d n : ℕ) → 1 ≤ d → 1 ≤ d ^ n
pow_pos d n h = one-le-pow n d h

formula_pos : (a b c d x : ℕ) → 1 ≤ d → 1 ≤ formula a b c d x
formula_pos a b c d x h = let p = pow_pos d (a * x + b) h in grind arith

module _ ⦃B : Bigint⦄ where
  open B use {val}

  -- An item with a positive base has a positive price, which never falls from one purchase to a
  -- later one.
  pub get_price-mono :
      (m : MItem) (x y : ℕ)
      → 1 ≤ m.price4
      → x ≤ y
      → (pos 1 ≤ℤ val (get_price m x)) × (val (get_price m x) ≤ℤ val (get_price m y))
  get_price-mono m x y one h =
      rw (val-get_price, val-get_price)
        (omega (
          arith,
          formula_pos m.price1 m.price2 m.price3 m.price4 x one,
          formula_mono m.price1 m.price2 m.price3 m.price4 x y one h,
        ))

-- Nothing of a row is lost: what `toJSON` returns of a new item is the row that it was made from.
pub to_json-new_item : (r : ItemRow) → to_json (new_item r) ≡ r
unfolding to_json new_item
to_json-new_item r = refl
