-- ===== src/Gui/Tests.antt =====
-- The scenes at small examples.
use isucon7_final.Prelude.{◌≡◌, refl, Bool, true, false, ◌&&◌, some, List, [], ◌∷◌, All}
use isucon7_final.Js.Digits.{codes}
use isucon7_final.Js.Float.{fractions}
use isucon7_final.Js.Object.{get}
use isucon7_final.Client.View.{View, ItemView, new_view}
use isucon7_final.Gui.Assets.{
  ItemEntry, entry, nth_item, has_image, assets, stage_icon, nth_item-has_image,
}
use isucon7_final.Gui.Buttons.{BuyButton, new_button}
use isucon7_final.Gui.Buttons.Shown.{IsShown, show_buttons-IsShown, new_button-IsSwitched}
use isucon7_final.Gui.Main.{new_main, show_buttons}
use isucon7_final.Gui.Main.Messages.{Says, last_seen, update_messages, new_main-Says}

abbrev farm : ItemEntry
farm = entry (codes "椅子畑") (codes "icon_farm")

nth_item-has_image_example :
    (has_image farm.icon_name assets && has_image (stage_icon farm) assets) ≡ true
unfolding nth_item
nth_item-has_image_example = nth_item-has_image 1 farm refl

new_main-Says_example :
    Says
      (last_seen false (true ∷ false ∷ true ∷ []))
      (update_messages (true ∷ false ∷ true ∷ []) new_main).message
new_main-Says_example = new_main-Says (true ∷ false ∷ true ∷ [])

-- A button for the first item, of which two machines are built.
abbrev button : BuyButton
button = record (new_button 1 farm) { num_owned = some 2 }

abbrev rows : List (List Bool)
rows = (true ∷ false ∷ false ∷ []) ∷ []

abbrev one_item : ItemView ⦃D = fractions⦄
one_item = record {
  count_built = 2;
  next_price = codes "5";
  power = codes "7";
  disabled = false;
  building = [];
}

abbrev state : View ⦃D = fractions⦄
state = record (new_view ⦃D = fractions⦄ (codes "r")) { num_item = 1; items = (1, one_item) ∷ [] }

show_buttons-IsShown_example :
    (shown : List BuyButton) × (show_buttons ⦃D = fractions⦄ state (new_button 1 farm ∷ [])
      ≡ some shown)
    × All (IsShown ⦃D = fractions⦄ state) shown
unfolding new_button get
show_buttons-IsShown_example =
    show_buttons-IsShown ⦃D = fractions⦄ state (new_button 1 farm ∷ [])
      (record { item = one_item; has = refl; switched = new_button-IsSwitched 1 farm }, tt)
