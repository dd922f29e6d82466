-- ===== src/Client/Clock.antt =====
-- `Clock` of webapp/public/game.js: the time of the server, estimated from the last status. Times
-- are milliseconds of the epoch; `now` is what `getTime()` returns.
use isucon7_final.Prelude.{ℕ, ◌≤◌, ◌≡◌, refl, Option, none, some, arith, leb, if◌then◌else◌}
use isucon7_final.Prelude.Int.{ℤ, pos, pos_part, ◌+ℤ◌, ◌-ℤ◌}

-- `none` is `null`.
pub record Clock : Type 0 where
  pub delta : Option ℤ
  pub time : Option ℕ

unfoldable pub new_clock : Clock
new_clock = record { delta = none; time = none }

abbrev pub max : ℕ → ℕ → ℕ
max a b = if leb a b then b else a

-- `Clock.prototype.get`. The second argument of `Math.max` may be negative, the first is not;
-- `null` counts as 0 there.
unfoldable pub get_time : ℕ → Clock → Option ℕ
get_time now c = elim c.delta [
  | none ↦ none
  | some delta ↦
      some (max (elim c.time [ none ↦ 0 | some time ↦ time ]) (pos_part (pos now +ℤ delta)))
]

-- `Clock.prototype.set`; what its first line computes is not used.
unfoldable pub set_time : ℕ → ℕ → Clock → Clock
set_time now t c = record { delta = some (pos t -ℤ pos now); time = some t }

pos_part_mono : (u v : ℕ) (d : ℤ) → u ≤ v → pos_part (pos u +ℤ d) ≤ pos_part (pos v +ℤ d)
unfolding ◌+ℤ◌
pos_part_mono u v d h = ground arith

-- Between two statuses the clock never goes back, and it never shows less than the last status said.
pub get_time_mono :
    (now u v t : ℕ) (c : Clock)
    → u ≤ v
    → (x y : ℕ) × (get_time u (set_time now t c) ≡ some x)
      × (get_time v (set_time now t c) ≡ some y)
      × (t ≤ x)
      × (x ≤ y)
unfolding get_time set_time
get_time_mono now u v t c h =
    (_, _, refl, refl, ground arith, ground (arith, pos_part_mono u v (pos t -ℤ pos now) h))
