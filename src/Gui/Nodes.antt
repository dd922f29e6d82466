-- ===== src/Gui/Nodes.antt =====
-- What webapp/public/gui.js asks the library phina to put on the screen. A place is kept as it is
-- written: phina works out the grid.
use isucon7_final.Prelude.{ℕ, Bool, List, [], ◌∷◌}
use isucon7_final.Prelude.Int.{ℤ, pos}
use isucon7_final.Js.Digits.{Text, codes}

pub data Base : Type 0 where
  origin : Base
  -- `span(n)`, in tenths of a cell, and `center(n)`
  span : (tenths : ℕ) → Base
  center : (cells : ℤ) → Base
  -- So many sixteenths of the width or the height of the grid.
  sixteenths : ℕ → Base
  -- Half of the own width or height, and the same to the left.
  half minus_half : Base
  -- The width or the height of the scene.
  whole_scene : Base

pub data Value : Type 0 where
  at : Base → (offset : ℤ) → Value
  text : Text → Value
  number : ℕ → Value
  percent : ℕ → Value
  flag : Bool → Value

-- An object that is made, with its options and what is set at once.
pub record Node : Type 0 where
  pub class_name : Text
  pub options : List (Text × Value)

abbrev pub middle : Value
middle = at (center (pos 0)) (pos 0)

abbrev pub option : Text → Text → Text × Value
option key value = (key, text value)

-- `Sprite(image).addChildTo(this).setPosition(x, y)`
abbrev pub sprite : Text → Value → Value → Node
sprite image x y = record {
  class_name = codes "Sprite";
  options = (codes "image", text image) ∷ (codes "x", x) ∷ (codes "y", y) ∷ [];
}
