-- ===== src/Js/Digits.antt =====
-- Texts of decimal digits: `parseInt(s, 10)` and the usual decimal writing of an integer.
use native.Mathlib.Nat.{pow-suc}
use native.Mathlib.Numerals.{unary_clauses}
use Prim.Native.Char.{code}
use Prim.Native.String.{String}
use isucon7_final.Prelude.{
  ℕ, zero, suc, ◌+◌, ◌-◌, ◌*◌, ◌^◌, ◌≤◌, ◌<◌, ◌≡◌, refl, Bool, true, false, ◌&&◌, List, [], ◌∷◌,
  ◌++◌, arith, leb, ◌==◌, if◌then◌else◌, length, All, ap,
}
use isucon7_final.Prelude.Int.{ℤ, pos, negsuc, ◌-ℤ◌}

-- A text is the list of its character codes.
abbrev pub Text : Type 0
Text = List ℕ

-- A text that stands in the source.
abbrev pub codes : String → Text
codes String.[] = []
codes (String.◌∷◌ c s) = code c ∷ codes s

-- A JavaScript number: an integer, or NaN.
pub data Number : Type 0 where
  int : ℤ → Number
  nan : Number

abbrev pub is_digit : ℕ → Bool
is_digit c = leb b'0' c && leb c b'9'

abbrev pub IsDigit : ℕ → Type 0
IsDigit c = (b'0' ≤ c) × (c ≤ b'9')

-- The number that a text of digits denotes, read from the left behind what was read before.
unfoldable pub digits_value : ℕ → Text → ℕ
digits_value acc [] = acc
digits_value acc (c ∷ s) = digits_value (acc * 10 + (c - b'0')) s

-- The longest prefix of digits.
unfoldable pub digits_prefix : Text → Text
digits_prefix [] = []
digits_prefix (c ∷ s) = let rest = digits_prefix s in if is_digit c then c ∷ rest else []

abbrev unsigned_number : Bool → Text → Number
unsigned_number negative [] = nan
unsigned_number true (c ∷ s) = int (pos 0 -ℤ pos (digits_value 0 (c ∷ s)))
unsigned_number false (c ∷ s) = int (pos (digits_value 0 (c ∷ s)))

-- `parseInt(s, 10)` of a text with no blanks in front.
unfoldable pub parse_int : Text → Number
unfolding digits_prefix digits_value ◌-ℤ◌
parse_int [] = nan
parse_int (c ∷ s) =
    if c == b'-'
    then unsigned_number true (digits_prefix s)
    else unsigned_number false (digits_prefix (c ∷ s))

-- The decimal writing of a natural number: digits only, and no zero in front of another digit.
pub record IsNumeral (n : ℕ) (s : Text) : Type 0 where
  pub digits : All IsDigit s
  pub denotes : digits_value 0 s ≡ n
  pub not_empty : 1 ≤ length s
  pub no_zero_in_front : 2 ≤ length s → 10 ^ (length s - 1) ≤ n

-- The decimal writing of an integer, with a sign before a negative one.
abbrev pub IsDecimal : ℤ → Text → Type 0
IsDecimal (pos n) s = IsNumeral n s
IsDecimal (negsuc n) [] = ⊥
IsDecimal (negsuc n) (c ∷ s) = (c ≡ b'-') × IsNumeral (suc n) s

pub pow10-add : (m n : ℕ) → 10 ^ (m + n) ≡ 10 ^ m * 10 ^ n
pow10-add m zero = simp unary_clauses (omega arith)
pow10-add m (suc n) = simp unary_clauses (omega (arith, ap (λ (t : ℕ). t * 10) (pow10-add m n)))

pub digits_value-append :
    (acc : ℕ) (xs ys : Text) → digits_value acc (xs ++ ys) ≡ digits_value (digits_value acc xs) ys
unfolding digits_value
digits_value-append acc [] ys = refl
digits_value-append acc (x ∷ xs) ys = digits_value-append (acc * 10 + (x - b'0')) xs ys

one_digit_bounds :
    (acc d p q v : ℕ)
    → d ≤ 9
    → q ≡ p * 10
    → (acc * 10 + d) * p ≤ v
    → v < (acc * 10 + d + 1) * p
    → (acc * q ≤ v) × (v < (acc + 1) * q)
one_digit_bounds acc d p q v small e lo hi = rw e (lower, upper)
  where
    tail_le : d * p ≤ 9 * p
    tail_le = grind arith

    lower : acc * (p * 10) ≤ v
    lower = omega arith

    upper : v < (acc + 1) * (p * 10)
    upper = omega (arith, tail_le)

-- Reading k more digits multiplies by 10 ^ k and adds less than that.
pub digits_value_bounds :
    (acc : ℕ) (s : Text)
    → All IsDigit s
    → (acc * 10 ^ length s ≤ digits_value acc s) × (digits_value acc s < (acc + 1) * 10 ^ length s)
unfolding digits_value
digits_value_bounds acc [] h = omega arith
digits_value_bounds acc (c ∷ s) h =
    let rest = digits_value_bounds (acc * 10 + (c - b'0')) s h.1 in
    one_digit_bounds acc (c - b'0') (10 ^ length s) (10 ^ length (c ∷ s)) (digits_value acc (c ∷ s))
      (omega arith) (pow-suc 10 (length s)) rest.0 rest.1

pub digits_prefix-All : (s : Text) → All IsDigit s → digits_prefix s ≡ s
unfolding digits_prefix
digits_prefix-All [] h = refl
digits_prefix-All (c ∷ s) h = ground (arith, digits_prefix-All s h.1)

-- A text of digits is read as the number that it denotes.
pub parse_int_digits :
    (s : Text) → All IsDigit s → 1 ≤ length s → parse_int s ≡ int (pos (digits_value 0 s))
unfolding parse_int
parse_int_digits [] h l = elim l [ ]
parse_int_digits (c ∷ s) h l = ground (arith, digits_prefix-All s h.1)
