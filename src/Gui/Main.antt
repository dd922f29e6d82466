-- ===== src/Gui/Main.antt =====
-- `MainScene` of webapp/public/gui.js: what is on the screen, and `update`, which runs every frame.
pub mod Messages
use isucon7_final.Prelude.{
  ℕ, ◌+◌, ◌*◌, ◌-◌, Bool, true, false, ◌&&◌, not, Option, none, some, List, [], ◌∷◌, ◌++◌, length,
  if◌then◌else◌, ◌>>=◌,
}
use isucon7_final.Prelude.Int.{ℤ, pos, negsuc}
use isucon7_final.Js.Digits.{Text, codes}
use isucon7_final.Js.Float.{Float}
use isucon7_final.Client.View.{
  get_isu, get_power, get_num_item, get_sending, get_adding, ItemView, View, get_item,
}
use isucon7_final.Client.Page.{Page, get_state, null_state, state_of, threw, is_connected}
use isucon7_final.Gui.Assets.{screen_width, screen_height}
use isucon7_final.Gui.Nodes.{
  Base, span, center, origin, sixteenths, whole_scene, Value, at, text, number, percent, flag, Node,
  middle, option, sprite,
}
use isucon7_final.Gui.Buttons.{BuyButton, add_buttons, show_item, colored_label}
use isucon7_final.Gui.Stage.{no_icons, place_all}

-- A sprite with one of its measures set to that of the scene.
abbrev stretched : Text → Text → Value → Value → Node
stretched image measure x y = record {
  class_name = codes "Sprite";
  options =
      option (codes "image") image
      ∷ (codes "x", x)
      ∷ (codes "y", y)
      ∷ (measure, at whole_scene (pos 0))
      ∷ [];
}

-- A white label on the left.
abbrev left_label : Value → List (Text × Value) → Node
left_label y more = record {
  class_name = codes "Label";
  options =
      (codes "x", at (span 25) (pos 0))
      ∷ (codes "y", y)
      ∷ option (codes "text") []
      ∷ option (codes "fill") (codes "white")
      ∷ more;
}

-- The background, the stage, and the lines between the parts of the screen.
abbrev frame_nodes : List Node
frame_nodes =
    record {
      class_name = codes "Sprite";
      options =
          option (codes "image") (codes "background")
          ∷ (codes "x", middle)
          ∷ (codes "y", middle)
          ∷ (codes "width", at whole_scene (pos 0))
          ∷ (codes "height", at whole_scene (pos 0))
          ∷ [];
    }
    ∷ sprite (codes "stage_background") middle middle
    ∷ stretched (codes "line_v") (codes "height") (at (span 50) (pos 0)) middle
    ∷ stretched (codes "line_v") (codes "height") (at (span 110) (pos 0)) middle
    ∷ stretched (codes "line_h") (codes "width") middle (at (span 0) (pos 4))
    ∷ stretched (codes "line_h") (codes "width") middle (at (span 160) (negsuc 3))
    ∷ []

-- The two things that can be clicked, the shade behind the labels, and the labels.
abbrev left_nodes : List Node
left_nodes =
    sprite (codes "type2") (at (span 25) (pos 0)) (at (span 130) (pos 0))
    ∷ sprite (codes "main_chair") (at (span 25) (pos 0)) middle
    ∷ record {
      class_name = codes "RectangleShape";
      options =
          (codes "x", at origin (pos 0))
          ∷ (codes "y", at (center (negsuc 4)) (pos 0))
          ∷ (codes "width", at (sixteenths 10) (negsuc 16))
          ∷ (codes "height", at (sixteenths 3) (pos 0))
          ∷ option (codes "fill") (codes "black")
          ∷ (codes "alpha", percent 50)
          ∷ [];
    }
    ∷ left_label (at (center (negsuc 5)) (pos 0)) []
    ∷ left_label (at (center (negsuc 4)) (pos 0))
        ((codes "fontSize", number 32) ∷ option (codes "fontFamily") (codes "play") ∷ [])
    ∷ left_label (at (center (negsuc 3)) (negsuc 9))
        ((codes "fontSize", number 16) ∷ option (codes "fontFamily") (codes "play") ∷ [])
    ∷ []

abbrev first_message : Text
first_message = codes "Connecting...\n"

-- The options of `msgArea`.
abbrev message_options : List (Text × Value)
message_options =
    (codes "x", at (span 135) (pos 4))
    ∷ (codes "y", at (span 150) (negsuc 3))
    ∷ (codes "width", at (sixteenths 5) (negsuc 15))
    ∷ (codes "height", at (sixteenths 2) (negsuc 15))
    ∷ option (codes "text") first_message
    ∷ option (codes "fill") (codes "red")
    ∷ option (codes "background") (codes "black")
    ∷ (codes "fontSize", number 24)
    ∷ option (codes "fontFamily") (codes "play")
    ∷ option (codes "align") (codes "left")
    ∷ option (codes "verticalAlign") (codes "top")
    ∷ []

-- A word that rises from a click and fades; it goes after 2500 milliseconds.
pub record Word : Type 0 where
  pub content : Text
  pub font_size : ℕ
  -- Where the click was; for a word of a button, seen from the button.
  pub start_at : ℤ × ℤ
  pub rise : ℕ

-- A sprite that grows and shrinks: the scales in percent, and the milliseconds of each.
pub record Tween : Type 0 where
  pub target : Text
  pub scales : List (ℕ × ℕ)

-- What `init` sets, and what the handlers and `update` change.
pub record Main : Type 0 where
  pub width : ℕ
  pub height : ℕ
  pub background_color : Text
  pub nodes : List Node
  pub in_animation : Bool
  pub already_connected : Bool
  pub room_name : Text
  pub label : Text
  pub label_per_chair : Text
  pub message : Text
  pub buy_buttons : List BuyButton
  pub stage_icons : List (List Bool)
  pub placed : List Node
  pub words : List Word
  pub tweens : List Tween

-- `init`
unfoldable pub new_main : Main
unfolding no_icons colored_label
new_main = record {
  width = screen_width;
  height = screen_height;
  background_color = codes "white";
  nodes = frame_nodes ++ left_nodes ++ colored_label message_options (codes "black");
  in_animation = false;
  already_connected = false;
  room_name = [];
  label = [];
  label_per_chair = [];
  message = first_message;
  buy_buttons = [];
  stage_icons = no_icons;
  placed = [];
  words = [];
  tweens = [];
}

-- The first lines of `update`.
unfoldable pub update_message : Bool → Main → Main
update_message connected m = record m {
  message =
      if m.already_connected && not connected
      then codes "ERROR: disconnected\n"
      else if not m.already_connected && connected
      then m.message ++ codes "OK"
      else m.message;
  already_connected = connected;
}

module _ ⦃D : Float⦄ where
  -- The loop over the buttons; an item that the state does not have throws.
  unfoldable pub show_buttons : View → List BuyButton → Option (List BuyButton)
  unfolding show_item
  show_buttons state [] = some []
  show_buttons state (b ∷ buttons) = do
    item ← get_item b.item_id state
    rest ← show_buttons state buttons
    some (show_item item b ∷ rest)

  -- `update` when there is a state; `none` is an exception, which ends the game in the browser.
  unfoldable pub update_state : View → Main → Option Main
  unfolding add_buttons show_buttons place_all
  update_state state m = do
    made ←
        add_buttons (get_num_item state - length m.buy_buttons) (length m.buy_buttons) m.buy_buttons
    shown ← show_buttons state made
    placed ← place_all 0 shown m.stage_icons
    some (record m {
      label = get_isu state ++ codes " 脚";
      label_per_chair = get_power state ++ codes " 脚毎秒";
      room_name = codes "部屋名:" ++ state.name;
      buy_buttons = shown;
      stage_icons = placed.0;
      placed = m.placed ++ placed.1;
    })

  -- `update`
  unfoldable pub update_main : Bool → Option View → Main → Option Main
  unfolding update_message update_state
  update_main connected none m = some (update_message connected m)
  update_main connected (some state) m = update_state state (update_message connected m)

  -- A frame: the connection is looked at before the state is brought up to date.
  unfoldable pub frame : ℕ → Page → Main → Page × Option Main
  unfolding update_main
  frame now page m =
      let (page', state) = get_state now page in
      (
        page',
        elim state [
          | null_state ↦ update_main (is_connected page) none m
          | state_of v ↦ update_main (is_connected page) (some v) m
          | threw ↦ none
        ],
      )
