-- ===== src/Exponential.antt =====
-- nodejs/Exponential.js, and `big2exp` of nodejs/Game.js, which makes such numbers.
pub mod Bounds
mod Tests
use isucon7_final.Prelude.{ℕ, ◌-◌, if◌then◌else◌, leb, length, take}
use isucon7_final.Js.Digits.{Text, Number, parse_int}
use isucon7_final.Bigint.{Bigint}

pub record Exponential : Type 0 where
  pub mantissa : Number
  pub exponent : ℕ

-- The array that `toJSON` returns.
unfoldable pub to_json : Exponential → Number × ℕ
to_json e = (e.mantissa, e.exponent)

module _ ⦃B : Bigint⦄ where
  open B use {Big, to_string, to_number}

  abbrev exp_of_text : Big → Text → Exponential
  exp_of_text n s =
      if leb (length s) 15
      then record { mantissa = to_number n; exponent = 0 }
      else record { mantissa = parse_int (take 15 s); exponent = length s - 15 }

  unfoldable pub big2exp : Big → Exponential
  big2exp n = exp_of_text n (to_string n)
