-- ===== src/Bigint.antt =====
-- The `bigint` package (a binding of GMP, no part of the repository), as an interface: the
-- operations that nodejs/Game.js, nodejs/MItem.js and nodejs/index.js call, and what the package
-- documents of them: exact integers of any size, written in decimal.
pub mod Exact
use isucon7_final.Prelude.{Bool, true, ℕ, ◌^◌, ◌<◌, ◌≡◌, arith}
use isucon7_final.Prelude.Int.{ℤ, pos, pos_part, neg_part, ◌+ℤ◌, ◌-ℤ◌, ◌*ℤ◌, ltb_ℤ, leb_ℤ}
use isucon7_final.Js.Digits.{Text, Number, int, IsDecimal}

pub record Bigint : Type 1 where
  pub Big : Type 0
  -- `bigint(n)` and `bigint(s)`
  pub of_number : ℤ → Big
  pub of_string : Text → Big
  -- Whether `bigint(s)` throws nothing.
  pub accepts : Text → Bool
  pub add : Big → Big → Big
  pub sub : Big → Big → Big
  pub mul : Big → Big → Big
  pub pow : Big → Big → Big
  pub cmp : Big → Big → ℤ
  pub to_string : Big → Text
  pub to_number : Big → Number
  -- The integer that a value stands for, and what is documented of each operation.
  pub val : Big → ℤ
  pub val-of_number : (z : ℤ) → val (of_number z) ≡ z
  pub val-of_string : (s : Text) (z : ℤ) → IsDecimal z s → val (of_string s) ≡ z
  pub accepts-IsDecimal : (s : Text) (z : ℤ) → IsDecimal z s → accepts s ≡ true
  pub val-add : (a b : Big) → val (add a b) ≡ val a +ℤ val b
  pub val-sub : (a b : Big) → val (sub a b) ≡ val a -ℤ val b
  pub val-mul : (a b : Big) → val (mul a b) ≡ val a *ℤ val b
  pub val-pow : (a b : Big) (m n : ℕ) → val a ≡ pos m → val b ≡ pos n → val (pow a b) ≡ pos (m ^ n)
  pub cmp-le : (a b : Big) → leb_ℤ (pos 0) (cmp a b) ≡ leb_ℤ (val b) (val a)
  pub cmp-lt : (a b : Big) → ltb_ℤ (cmp a b) (pos 0) ≡ ltb_ℤ (val a) (val b)
  pub to_string-IsDecimal : (a : Big) → IsDecimal (val a) (to_string a)
  -- A value of at most fifteen digits is a number exactly.
  pub to_number-val :
      (a : Big)
      → pos_part (val a) < 10 ^ 15
      → neg_part (val a) < 10 ^ 15
      → to_number a ≡ int (val a)
