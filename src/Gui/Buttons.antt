-- ===== src/Gui/Buttons.antt =====
-- `BuyButton`, `ColoredLabel` and `Type2Button` of webapp/public/gui.js.
pub mod Shown
use isucon7_final.Prelude.{
  ℕ, ◌+◌, ◌*◌, ◌-◌, Bool, true, false, ◌&&◌, not, Option, none, some, List, [], ◌∷◌, ◌++◌, ltb,
  ◌==◌, if◌then◌else◌, ◌>>=◌, zero, suc, map,
}
use isucon7_final.Prelude.Int.{ℤ, ◌-ℤ◌, pos, negsuc}
use isucon7_final.Js.Digits.{Text, codes}
use isucon7_final.Js.Decimal.{print}
use isucon7_final.Js.Float.{Float}
use isucon7_final.Store.Tables.{text_eq}
use isucon7_final.Client.View.{ItemView}
use isucon7_final.Gui.Assets.{ItemEntry, item_list, nth_item, screen_width}
use isucon7_final.Gui.Nodes.{
  Base, span, center, origin, sixteenths, half, minus_half, Value, at, text, number, percent, Node,
  option,
}

-- What `BuyButton` gets when it is made, and what changes. The label of a number of machines shows
-- nothing first, which is `none`.
pub record BuyButton : Type 0 where
  pub item_id : ℕ
  pub dom_element : Text
  pub nodes : List Node
  pub num_owned : Option ℕ
  pub next_price : Text
  pub disabled : Bool
  pub interactive : Bool
  pub background_alpha : ℕ
  pub name_fill : Text
  pub price_fill : Text

-- `disable`
unfoldable pub disable : BuyButton → BuyButton
disable b = record b {
  disabled = true;
  interactive = false;
  background_alpha = 50;
  name_fill = codes "silver";
  price_fill = codes "orange";
}

-- `enable`
unfoldable pub enable : BuyButton → BuyButton
enable b = record b {
  disabled = false;
  interactive = true;
  background_alpha = 100;
  name_fill = codes "white";
  price_fill = codes "lime";
}

-- The button, its background, its three labels and its icon.
abbrev pub button_nodes : ℕ → ItemEntry → List Node
button_nodes item_id e =
    record {
      class_name = codes "Button";
      options =
          (codes "x", at (span 136) (pos 0))
          ∷ (codes "y", at (span (10 * item_id)) (negsuc 23))
          ∷ option (codes "text") []
          ∷ option (codes "fill") (codes "black")
          ∷ (codes "width", number 425)
          ∷ (codes "height", number 64)
          ∷ (codes "cornerRadius", number 0)
          ∷ [];
    }
    ∷ record {
      class_name = codes "Sprite";
      options = option (codes "image") (codes "buybutton_background") ∷ [];
    }
    ∷ record {
      class_name = codes "Label";
      options =
          (codes "x", at origin (pos 0))
          ∷ (codes "y", at origin (negsuc 7))
          ∷ option (codes "text") e.item_name
          ∷ (codes "fontSize", number 24)
          ∷ [];
    }
    ∷ record {
      class_name = codes "Label";
      options =
          (codes "x", at half (negsuc 17))
          ∷ (codes "y", at origin (pos 0))
          ∷ option (codes "text") []
          ∷ option (codes "fill") (codes "#404040")
          ∷ option (codes "align") (codes "right")
          ∷ (codes "fontSize", number 32)
          ∷ option (codes "fontFamily") (codes "Merriweather")
          ∷ [];
    }
    ∷ record {
      class_name = codes "Label";
      options =
          (codes "x", at origin (pos 0))
          ∷ (codes "y", at half (negsuc 15))
          ∷ option (codes "text") []
          ∷ (codes "fontSize", number 16)
          ∷ option (codes "fontFamily") (codes "play")
          ∷ [];
    }
    ∷ record {
      class_name = codes "Sprite";
      options = option (codes "image") e.icon_name ∷ (codes "x", at minus_half (pos 33)) ∷ [];
    }
    ∷ []

-- `BuyButton(…)`, as `MainScene` makes it.
unfoldable pub new_button : ℕ → ItemEntry → BuyButton
unfolding disable
new_button item_id e = disable (record {
  item_id = item_id;
  dom_element = codes "b_button" ++ print (pos item_id);
  nodes = button_nodes item_id e;
  num_owned = none;
  next_price = [];
  disabled = false;
  interactive = true;
  background_alpha = 100;
  name_fill = codes "white";
  price_fill = codes "white";
})

-- The loop that makes the buttons that are missing, with the rounds that are left. An item with no
-- entry in `itemList` throws.
unfoldable pub add_buttons : ℕ → ℕ → List BuyButton → Option (List BuyButton)
unfolding nth_item new_button
add_buttons zero made buttons = some buttons
add_buttons (suc rounds) made buttons = do
  e ← nth_item made item_list
  add_buttons rounds (made + 1) (buttons ++ new_button (made + 1) e ∷ [])

-- `'💰 ' + item.next_price + ' 脚'`
abbrev pub price_text : Text → Text
price_text next_price = codes "💰 " ++ next_price ++ codes " 脚"

abbrev pub is_shown : ℕ → Option ℕ → Bool
is_shown n none = false
is_shown n (some m) = n == m

unfoldable pub show_owned : ℕ → BuyButton → BuyButton
show_owned count_built b =
    if ltb 0 count_built && not (is_shown count_built b.num_owned)
    then record b { num_owned = some count_built }
    else b

unfoldable pub show_price : Text → BuyButton → BuyButton
show_price next_price b =
    if not (text_eq next_price []) && not (text_eq (price_text next_price) b.next_price)
    then record b { next_price = price_text next_price }
    else b

unfoldable pub switch_button : Bool → BuyButton → BuyButton
unfolding disable enable
switch_button disabled b =
    if disabled && not b.disabled
    then disable b
    else if not disabled && b.disabled
    then enable b
    else b

module _ ⦃D : Float⦄ where
  -- One round of the loop over the buttons.
  unfoldable pub show_item : ItemView → BuyButton → BuyButton
  unfolding show_owned show_price switch_button
  show_item item b =
      switch_button item.disabled (show_price item.next_price (show_owned item.count_built b))

abbrev pub narrower : ℤ → Value → Value
narrower n (at base offset) = at base (offset -ℤ n)
narrower n v = v

-- What `ColoredLabel` changes of its options for the label that it contains.
abbrev pub inner_value : Text → Value → Value
inner_value key v =
    if text_eq key (codes "x")
    then at origin (pos 8)
    else if text_eq key (codes "y")
    then at origin (pos 4)
    else if text_eq key (codes "width")
    then narrower (pos 16) v
    else if text_eq key (codes "height")
    then narrower (pos 8) v
    else v

-- `ColoredLabel`: a rectangle with a label in it, of which the accessor `text` reads and writes the
-- text.
unfoldable pub colored_label : List (Text × Value) → (background : Text) → List Node
colored_label options background =
    record {
      class_name = codes "RectangleShape";
      options = options ++ option (codes "fill") background ∷ [];
    }
    ∷ record {
      class_name = codes "LabelArea";
      options = map (λ o. (o.0, inner_value o.0 o.1)) options;
    }
    ∷ []
