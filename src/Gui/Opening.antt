-- ===== src/Gui/Opening.antt =====
-- `OpeningScene` of webapp/public/gui.js: the name of a room is typed in, and the game starts.
use isucon7_final.Prelude.{ℕ, Bool, true, false, List, [], ◌∷◌, if◌then◌else◌}
use isucon7_final.Prelude.Int.{pos, negsuc}
use isucon7_final.Js.Digits.{Text, codes}
use isucon7_final.Js.Float.{Float}
use isucon7_final.Store.Tables.{text_eq}
use isucon7_final.Client.Page.{Page, start_game}
use isucon7_final.Gui.Assets.{screen_width, screen_height}
use isucon7_final.Gui.Nodes.{center, whole_scene, at, number, flag, Node, middle, option}

abbrev pub default_text : Text
default_text = codes "Enter room id"

abbrev opening_background : Node
opening_background = record {
  class_name = codes "Sprite";
  options =
      option (codes "image") (codes "bg_op")
      ∷ (codes "x", middle)
      ∷ (codes "y", middle)
      ∷ (codes "width", at whole_scene (pos 0))
      ∷ (codes "height", at whole_scene (pos 0))
      ∷ [];
}

abbrev title : Node
title = record {
  class_name = codes "Label";
  options =
      (codes "x", middle)
      ∷ (codes "y", at (center (negsuc 4)) (pos 0))
      ∷ option (codes "text") (codes "Chair Constructor Online")
      ∷ option (codes "fill") (codes "white")
      ∷ (codes "fontSize", number 48)
      ∷ option (codes "fontFamily") (codes "Merriweather")
      ∷ [];
}

abbrev form : Node
form = record {
  class_name = codes "Button";
  options =
      (codes "width", number 400)
      ∷ (codes "height", number 80)
      ∷ option (codes "text") default_text
      ∷ (codes "fontSize", number 50)
      ∷ option (codes "fontFamily") (codes "Merriweather")
      ∷ option (codes "fontColor") (codes "black")
      ∷ option (codes "fill") (codes "white")
      ∷ (codes "stroke", number 1)
      ∷ (codes "cornerRadius", number 10)
      ∷ (codes "interactive", flag true)
      ∷ (codes "x", middle)
      ∷ (codes "y", middle)
      ∷ [];
}

abbrev go_button : Node
go_button = record {
  class_name = codes "Button";
  options =
      (codes "x", middle)
      ∷ (codes "y", at (center (pos 2)) (pos 0))
      ∷ option (codes "text") (codes "GO")
      ∷ option (codes "fontFamily") (codes "Merriweather")
      ∷ [];
}

-- The player types in the element `go_text`, presses the form, or presses `GO`.
pub data OpeningEvent : Type 0 where
  typed : Text → OpeningEvent
  form_pressed go_pressed : OpeningEvent

module _ ⦃D : Float⦄ (encode : Text → Text) where
  -- The objects on the screen, the text of the form, the value of `go_text` and whether it has the
  -- focus, whether the scene is left, and the game.
  pub record Opening : Type 0 where
    pub width : ℕ
    pub height : ℕ
    pub nodes : List Node
    pub form_text : Text
    pub input : Text
    pub focused : Bool
    pub is_left : Bool
    pub page : Page

  -- `init`
  unfoldable pub new_opening : Page → Opening
  new_opening page = record {
    width = screen_width;
    height = screen_height;
    nodes = opening_background ∷ title ∷ form ∷ go_button ∷ [];
    form_text = default_text;
    input = [];
    focused = false;
    is_left = false;
    page = page;
  }

  -- `input.oninput`, `form.onpointstart` and `go_button.onpointstart`
  unfoldable pub opening_step : OpeningEvent → Opening → Opening
  opening_step (typed value) o = record o { input = value; form_text = value }
  opening_step form_pressed o = record o {
    form_text = if text_eq o.form_text default_text then [] else o.form_text;
    focused = true;
  }
  opening_step go_pressed o =
      if text_eq o.input []
      then o
      else record o { page = start_game encode o.input o.page; is_left = true }

  unfoldable pub opening_steps : List OpeningEvent → Opening → Opening
  unfolding opening_step
  opening_steps [] o = o
  opening_steps (e ∷ events) o = opening_steps events (opening_step e o)
