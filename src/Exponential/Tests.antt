-- ===== src/Exponential/Tests.antt =====
-- `big2exp` at a number of sixteen digits, of which it cuts off one.
use isucon7_final.Prelude.{refl}
use isucon7_final.Prelude.Int.{pos}
use isucon7_final.Bigint.Exact.{exact}
use isucon7_final.Exponential.{big2exp}
use isucon7_final.Exponential.Bounds.{Abbreviates, big2exp-Abbreviates}

big2exp-Abbreviates_example :
    Abbreviates 1234567890123456 (big2exp ⦃B = exact⦄ (pos 1234567890123456))
big2exp-Abbreviates_example =
    big2exp-Abbreviates ⦃B = exact⦄ (pos 1234567890123456) 1234567890123456 refl
