-- ===== src/Client/Notation.antt =====
-- How webapp/public/game.js writes numbers: `exp2unicode`, `conv`, `conv_exp`, `add_xx` and
-- `getIsuDelta`. A number is a pair of a mantissa and a power of ten.
pub mod Powers
pub mod Shown
pub mod Sums
mod Tests
use isucon7_final.Prelude.{
  ℕ, zero, suc, ◌+◌, ◌-◌, Bool, true, false, List, [], ◌∷◌, ◌++◌, leb, ltb, ◌==◌, if◌then◌else◌,
  take, drop, map,
}
use isucon7_final.Prelude.Int.{ℤ, pos}
use isucon7_final.Js.Digits.{Text, Number, int, codes, is_digit}
use isucon7_final.Js.Decimal.{print}
use isucon7_final.Js.Float.{Float}
use isucon7_final.Exponential.{Exponential}

-- `"⁰¹²³⁴⁵⁶⁷⁸⁹".charAt(i)`
abbrev superscript : ℕ → Text
superscript i = take 1 (drop i (codes "⁰¹²³⁴⁵⁶⁷⁸⁹"))

unfoldable pub superscripts : Text → Text
superscripts [] = []
superscripts (c ∷ s) = (if is_digit c then superscript (c - b'0') else c ∷ []) ++ superscripts s

-- `exp2unicode`, of the text that its argument becomes.
unfoldable pub exp2unicode : (unicode_mode : Bool) → Text → Text
unfolding superscripts
exp2unicode unicode_mode exp = if unicode_mode then superscripts exp else b'^' ∷ exp

module _ ⦃D : Float⦄ where
  open D use {F, of_number, add, mul, div, le, floor, log10, pow10, to_text}

  abbrev pub whole : ℕ → F
  whole n = of_number (int (pos n))

  abbrev pub least : F → F → F
  least a b = if le a b then a else b

  abbrev pub greatest : F → F → F
  greatest a b = if le a b then b else a

  -- `while (m / Math.pow(10, x) >= 1e+9) x++`, on fuel.
  unfoldable pub scale : ℕ → F → ℕ → ℕ
  scale zero m x = x
  scale (suc fuel) m x =
      let rest = scale fuel m (x + 1) in if le (whole 1000000000) (div m (pow10 x)) then rest else x

  -- A finite number is below 10 ^ 309.
  abbrev pub scale_fuel : ℕ
  scale_fuel = 309

  -- `conv`
  unfoldable pub conv : Bool → F × ℕ → Text
  unfolding scale
  conv unicode_mode (m, n) =
      let x = scale scale_fuel m 0 in
      let m' = floor (div m (pow10 x)) in
      let n' = n + x in
      let s = to_text (greatest (whole 100000000) (least (whole 999999999) m')) in
      if n' == 0
      then to_text m'
      else take 1 s
        ++ codes "."
        ++ drop 1 s
        ++ codes "×10"
        ++ exp2unicode unicode_mode (print (pos (n' + 8)))

  -- `conv_exp`
  unfoldable pub conv_exp : F × ℕ → F
  conv_exp (m, n) = floor (log10 (mul m (pow10 n)))

  -- `add_xx`, which calls itself at most twice.
  unfoldable pub add_xx : ℕ → F × ℕ → F × ℕ → F × ℕ
  add_xx zero x y = x
  add_xx (suc fuel) x y =
      let swapped = add_xx fuel y x in
      let scaled = add_xx fuel x (div (y.0) (pow10 (x.1 - y.1)), x.1) in
      if ltb x.1 y.1 then swapped else if x.1 == y.1 then (add x.0 y.0, x.1) else scaled

  -- `getIsuDelta`
  unfoldable pub get_isu_delta : F × ℕ → F
  get_isu_delta (m, n) =
      least (whole 50) (greatest (whole 0) (floor (log10 (mul (div m (whole 10)) (pow10 n)))))

  -- What the JSON text of an `Exponential` is read as.
  abbrev pub read_exp : Exponential → F × ℕ
  read_exp e = (of_number e.mantissa, e.exponent)
