-- ===== src/Debug/Numbers.antt =====
-- The texts of webapp/public/debugview.js: the tests of what is typed in, `x` with `y` zeros behind
-- it, and `debugIsu`.
pub mod Zeros
use isucon7_final.Prelude.{
  ℕ, zero, suc, ◌+◌, ◌-◌, ◌*◌, ◌/◌, ◌%◌, Bool, true, false, ◌&&◌, ◌||◌, not, List, [], ◌∷◌, ◌++◌,
  Option, none, some, ltb, leb, ◌==◌, if◌then◌else◌, length, take, drop,
}
use isucon7_final.Prelude.Int.{pos}
use isucon7_final.Js.Digits.{Text, codes, is_digit, digits_value}
use isucon7_final.Js.Decimal.{print}
use isucon7_final.Store.Tables.{text_eq}

abbrev pub all_digits : Text → Bool
all_digits [] = true
all_digits (c ∷ s) = is_digit c && all_digits s

-- `/^[1-9][0-9]*$/.test(x)`
abbrev pub is_positive : Text → Bool
is_positive [] = false
is_positive (c ∷ s) = leb b'1' c && leb c b'9' && all_digits s

-- `for (;;) { if ((y & 1) == 1) r += s; y >>>= 1; if (y == 0) break; s += s; }`, on fuel. The loop
-- is entered with a `y` from 1 to 100000.
unfoldable pub double_zeros : ℕ → ℕ → Text → Text → Text
double_zeros zero y r s = r
double_zeros (suc fuel) y r s =
    let r' = if (y % 2) == 1 then r ++ s else r in
    let rest = double_zeros fuel (y / 2) r' (s ++ s) in if (y / 2) == 0 then r' else rest

-- What becomes of `x` and `y` when both pass their tests; `32` bits are enough for the loop.
unfoldable pub with_zeros : Text → ℕ → Text
with_zeros x y = if ltb 0 y then x ++ double_zeros 32 y [] (b'0' ∷ []) else x

pub data Typed : Type 0 where
  refused : (message : Text) → Typed
  accepted : (value : Text) → Typed

-- The listener of `game_button3`.
unfoldable pub typed_number : Text → Typed
typed_number x = if not (is_positive x) then refused (codes "error: 正整数でない") else accepted x

-- The listener of `game_button4`.
unfoldable pub typed_power : Text → Text → Typed
typed_power x y =
    if not (is_positive x)
    then refused (codes "error: 正整数でない")
    else if not (text_eq y (codes "0") || is_positive y)
    then refused (codes "error: 非負整数でない")
    else if ltb 100000 (digits_value 0 y)
    then refused (codes "error: 指数の上限は100000")
    else accepted (with_zeros x (digits_value 0 y))

-- `debugIsu`
unfoldable pub debug_isu : Text → Text
unfolding print
debug_isu n =
    if leb (length n) 20
    then n
    else take 1 n ++ codes "." ++ take 8 (drop 1 n) ++ codes "×10^" ++ print (pos (length n - 1))
