-- ===== src/Gui/Clicks.antt =====
-- The clicks in the scenes of webapp/public/gui.js, and the application that runs the scenes.
pub mod Value
use isucon7_final.Prelude.{
  get_or, ◌>>=◌, ℕ, zero, suc, ◌+◌, ◌/◌, Bool, true, false, Option, none, some, List, [], ◌∷◌, ◌++◌,
  drop, if◌then◌else◌,
}
use isucon7_final.Prelude.Int.{ℤ, pos}
use isucon7_final.Js.Digits.{Text, codes}
use isucon7_final.Js.Float.{Float}
use isucon7_final.Client.Notation.{whole, least, greatest}
use isucon7_final.Client.View.{isu_delta_of, isu_delta_unicode_of, View}
use isucon7_final.Client.Page.{
  Page, get_state, state_or_throw, add_type, add_value_directly, buy_one,
}
use isucon7_final.Gui.Assets.{screen_width, screen_height, assets}
use isucon7_final.Gui.Stage.{repeat}
use isucon7_final.Gui.Buttons.{BuyButton}
use isucon7_final.Gui.Main.{Main, new_main, Word, Tween}

-- `scaleTo(…, 50)` four times.
abbrev twice : ℕ → List (ℕ × ℕ)
twice large = (large, 50) ∷ (100, 50) ∷ (large, 50) ∷ (100, 50) ∷ []

abbrev pub nth_button : ℕ → List BuyButton → Option BuyButton
nth_button n [] = none
nth_button zero (b ∷ buttons) = some b
nth_button (suc n) (b ∷ buttons) = nth_button n buttons

module _ ⦃D : Float⦄ where
  open D use {F, le, pow10, to_text}

  -- Counting up to the whole part of a number, on fuel.
  unfoldable pub repetitions : ℕ → (k : ℕ) → F → ℕ
  repetitions zero k x = k
  repetitions (suc fuel) k x =
      let rest = repetitions fuel (k + 1) x in if le (whole (k + 1)) x then rest else k

  -- The numbers of `getIsuDelta` are at most 50.
  abbrev pub repeat_fuel : ℕ
  repeat_fuel = 100

  -- How often `repeat` repeats; of a negative number it throws.
  unfoldable pub repeat_count : F → Option ℕ
  unfolding repetitions
  repeat_count x = if le (whole 0) x then some (repetitions repeat_fuel 0 x) else none

  -- `Math.min(10, Math.max(0, delta))`, as `repeat` takes it; of `undefined` it is `NaN`, for which
  -- nothing is repeated.
  unfoldable pub click_exponent : Option F → Option ℕ
  unfolding repeat_count
  click_exponent none = some 0
  click_exponent (some delta) = repeat_count (least (whole 10) (greatest (whole 0) delta))

  -- `"1" + "0".repeat(isuDeltaExp)`
  unfoldable pub click_value : Option F → Option Text
  unfolding click_exponent
  click_value delta = do n ← click_exponent delta; some (b'1' ∷ repeat n b'0')

  -- Whether the word of a click is written in full; a comparison with `NaN` fails.
  abbrev pub is_small_click : Option F → Bool
  is_small_click none = false
  is_small_click (some delta) = le (least (whole 10) (greatest (whole 0) delta)) (whole 8)

  abbrev pub or_undefined : Option Text → Text
  or_undefined none = codes "undefined"
  or_undefined (some s) = s

  -- The text of the word, which reads the state again when it is not written in full.
  unfoldable pub click_text : ℕ → Option F → Page → Page × Option Text
  unfolding click_exponent
  click_text now delta page =
      if is_small_click delta
      then (page, some (codes "+" ++ to_text (pow10 (get_or (click_exponent delta) 0))))
      else let (page', state) = get_state now page in
        (
          page',
          elim (state_or_throw state) [
            | none ↦ none
            | some v ↦ some (codes "+10" ++ or_undefined (isu_delta_unicode_of v))
          ],
        )

  -- The word rises, and the chair moves unless it does so already.
  unfoldable pub show_click : ℤ × ℤ → Text → Main → Main
  show_click pointer content m = record m {
    words =
        m.words
        ++ record { content = content; font_size = 24; start_at = pointer; rise = 250 } ∷ [];
    in_animation = true;
    tweens =
        if m.in_animation
        then m.tweens
        else m.tweens ++ record { target = codes "main_chair"; scales = twice 102 } ∷ [];
  }

  -- A click on the chair. With no state it throws before anything is added; with none when the word
  -- is written, after.
  unfoldable pub press_chair : ℕ → ℤ × ℤ → Page → Main → Page × Main
  unfolding click_value click_text show_click
  press_chair now pointer page m =
      let (page1, state) = get_state now page in
      elim (state_or_throw state) [
        | none ↦ (page1, m)
        | some v ↦ elim (click_value (isu_delta_of v)) [
          | none ↦ (page1, m)
          | some value ↦
              let (page2, content) =
                click_text now (isu_delta_of v) (add_value_directly now value page1) in
              (page2, elim content [ none ↦ m | some s ↦ show_click pointer s m ])
        ]
      ]

  -- A click on `Type2Button`.
  unfoldable pub press_type2 : ℤ × ℤ → Page → Main → Page × Main
  press_type2 pointer page m = (
    add_type true page,
    record m {
      words =
          m.words
          ++ record {
            content = codes "+5.0×10¹⁵";
            font_size = 40;
            start_at = pointer;
            rise = screen_height / 2;
          }
            ∷ [];
      tweens = m.tweens ++ record { target = codes "type2"; scales = twice 150 } ∷ [];
    },
  )

  -- A click on a button to buy, which phina passes on only when the button is interactive.
  unfoldable pub press_button : ℕ → ℕ → Page → Main → Page
  press_button now i page m = elim (nth_button i m.buy_buttons) [
    | none ↦ page
    | some b ↦ if b.interactive then buy_one now b.item_id page else page
  ]

  -- The last lines of the tweens: the chair may move again, and the first word goes.
  unfoldable pub end_animation : Main → Main
  end_animation m = record m { in_animation = false }

  unfoldable pub remove_word : Main → Main
  remove_word m = record m { words = drop 1 m.words }

-- What `phina.main` hands to `GameApp`.
pub record App : Type 0 where
  pub width : ℕ
  pub height : ℕ
  pub start_label : Text
  pub images : List (Text × Text)
  pub scenes : List (Text × Text)

abbrev pub game_app : App
game_app = record {
  width = screen_width;
  height = screen_height;
  start_label = codes "opening_scene";
  images = assets;
  scenes =
      (codes "opening_scene", codes "OpeningScene") ∷ (codes "main_scene", codes "MainScene") ∷ [];
}
