-- ===== src/Gui/Stage/Icons.antt =====
-- No machine is put on the stage twice.
use isucon7_final.Prelude.{
  not, none, ◌||◌, ℕ, ◌+◌, ◌≡◌, Bool, ◌&&◌, some, List, [], ◌∷◌, ◌++◌, ltb, if◌then◌else◌,
}
use isucon7_final.Gui.Assets.{ItemEntry, nth_item, item_list}
use isucon7_final.Gui.Nodes.{Node}
use isucon7_final.Gui.Buttons.{BuyButton}
use isucon7_final.Gui.Stage.{icon_sprite, place_all, owned_of}

-- Whether machine j is to stand on the stage when so many are owned: the first nineteen do.
abbrev pub is_placed : (j owned : ℕ) → Bool
is_placed j owned = ltb j owned && ltb j 19

-- The marks of the machines from j on: those that were marked, and those that are to stand there.
abbrev pub mark_row : (j owned : ℕ) → List Bool → List Bool
mark_row j owned [] = []
mark_row j owned (b ∷ row) = (b || is_placed j owned) ∷ mark_row (j + 1) owned row

-- One sprite, at its own place, for each machine from j on that was not marked and is to stand there.
abbrev pub new_sprites : (i j owned : ℕ) → ItemEntry → List Bool → List Node
new_sprites i j owned e [] = []
new_sprites i j owned e (b ∷ row) =
    (if not b && is_placed j owned then icon_sprite i j e ∷ [] else [])
    ++ new_sprites i (j + 1) owned e row

abbrev pub mark_all : List BuyButton → List (List Bool) → List (List Bool)
mark_all [] rows = rows
mark_all (b ∷ buttons) [] = []
mark_all (b ∷ buttons) (row ∷ rows) = mark_row 0 (owned_of b) row ∷ mark_all buttons rows

abbrev pub all_sprites : ℕ → List BuyButton → List (List Bool) → List Node
all_sprites i [] rows = []
all_sprites i (b ∷ buttons) [] = []
all_sprites i (b ∷ buttons) (row ∷ rows) =
    elim (nth_item i item_list) [ none ↦ [] | some e ↦ new_sprites i 0 (owned_of b) e row ]
    ++ all_sprites (i + 1) buttons rows

-- After the icons of some buttons are placed: the marks, the sprites, and that the same buttons need
-- no more.
pub record PlacedOnce (i : ℕ) (buttons : List BuyButton) (rows rows' : List (List Bool))
    (placed : List Node) : Type 0 where
  pub marked : rows' ≡ mark_all buttons rows
  pub new : placed ≡ all_sprites i buttons rows
  pub again : place_all i buttons rows' ≡ some (rows', [])
