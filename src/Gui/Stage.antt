-- ===== src/Gui/Stage.antt =====
-- The icons that `MainScene.update` of webapp/public/gui.js places on the stage.
pub mod Icons
use isucon7_final.Prelude.{
  ℕ, zero, suc, ◌+◌, ◌*◌, ◌%◌, Bool, true, false, ◌&&◌, not, Option, none, some, List, [], ◌∷◌,
  ◌++◌, ltb, ◌==◌, if◌then◌else◌, ◌>>=◌,
}
use isucon7_final.Prelude.Int.{pos}
use isucon7_final.Js.Digits.{Text}
use isucon7_final.Gui.Assets.{ItemEntry, item_list, nth_item, stage_icon}
use isucon7_final.Gui.Nodes.{Base, span, origin, Value, at, Node, sprite}
use isucon7_final.Gui.Buttons.{BuyButton}

abbrev pub item_count : ℕ
item_count = 13

abbrev pub display_icon_count : ℕ
display_icon_count = 20

-- `STAGE_BACKGROUND_HEIGHT`
abbrev pub stage_background_height : ℕ
stage_background_height = 78

abbrev pub repeat {ℓ} : {A : Type ℓ} → ℕ → A → List A
repeat zero a = []
repeat (suc n) a = a ∷ repeat n a

-- `stage_icons`, as `init` fills it.
unfoldable pub no_icons : List (List Bool)
no_icons = repeat item_count (repeat display_icon_count false)

-- The sprite of machine j of item i; every other one stands lower.
unfoldable pub icon_sprite : (i j : ℕ) → ItemEntry → Node
icon_sprite i j e = sprite (stage_icon e) (at (span (53 + 3 * j)) (pos 0)) (
    if (j % 2) == 0
    then at origin (pos (30 + i * stage_background_height))
    else at (span 9) (pos (i * stage_background_height)))

-- The loop over the machines of an item, along the row of `stage_icons`, from machine j on: the row
-- afterwards, and the sprites that are new.
unfoldable pub place_icons : (i j owned : ℕ) → ItemEntry → List Bool → List Bool × List Node
unfolding icon_sprite
place_icons i j owned e [] = ([], [])
place_icons i j owned e (b ∷ row) =
    let rest = place_icons i (j + 1) owned e row in
    if ltb j owned && ltb j 19
    then (true ∷ rest.0, (if b then [] else icon_sprite i j e ∷ []) ++ rest.1)
    else (b ∷ row, [])

-- `Number(label.text)`
abbrev pub owned_of : BuyButton → ℕ
owned_of b = elim b.num_owned [ none ↦ 0 | some n ↦ n ]

-- The loop over the buttons, from button i on, along the rows.
unfoldable pub place_all :
    ℕ → List BuyButton → List (List Bool) → Option (List (List Bool) × List Node)
place_all i [] rows = some (rows, [])
place_all i (b ∷ buttons) [] = none
place_all i (b ∷ buttons) (row ∷ rows) = do
  e ← nth_item i item_list
  rest ← place_all (i + 1) buttons rows
  let placed = place_icons i 0 (owned_of b) e row
  some (placed.0 ∷ rest.0, placed.1 ++ rest.1)
