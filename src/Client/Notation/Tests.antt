-- ===== src/Client/Notation/Tests.antt =====
-- A number of sixteen digits, and two numbers that are added.
use isucon7_final.Prelude.{true, ◌≡◌, refl}
use isucon7_final.Prelude.Int.{pos}
use isucon7_final.Bigint.Exact.{exact}
use isucon7_final.Js.Float.{fractions, fractions-IsExact}
use isucon7_final.Exponential.{big2exp}
use isucon7_final.Client.Notation.{conv, read_exp, add_xx}
use isucon7_final.Client.Notation.Shown.{Shows, conv-big2exp}
use isucon7_final.Client.Notation.Sums.{aligned_sum, add_xx-aligned_sum}

conv-big2exp_example : Shows true 1234567890123456 (
    conv ⦃D = fractions⦄ true
      (read_exp ⦃D = fractions⦄ (big2exp ⦃B = exact⦄ (pos 1234567890123456))))
conv-big2exp_example =
    conv-big2exp ⦃D = fractions⦄ fractions-IsExact ⦃B = exact⦄ true (pos 1234567890123456)
      1234567890123456 refl

add_xx-aligned_sum_example :
    add_xx ⦃D = fractions⦄ 3 ((5, 1), 2) ((70, 1), 0)
    ≡ aligned_sum ⦃D = fractions⦄ ((5, 1), 2) ((70, 1), 0)
add_xx-aligned_sum_example = add_xx-aligned_sum ⦃D = fractions⦄ 0 ((5, 1), 2) ((70, 1), 0)
