-- ===== src/Gui/Assets.antt =====
-- The images and the items of webapp/public/gui.js.
use isucon7_final.Prelude.{
  ℕ, zero, suc, arith, ◌≡◌, refl, subst, Bool, true, false, ◌&&◌, Option, none, some, List, [], ◌∷◌,
  ◌++◌, if◌then◌else◌,
}
use isucon7_final.Js.Digits.{Text, codes}
use isucon7_final.Store.Tables.{text_eq}

abbrev pub screen_width : ℕ
screen_width = 1360

abbrev pub screen_height : ℕ
screen_height = 1024

-- `ASSETS.image`: the key and the file of each image.
abbrev pub assets : List (Text × Text)
assets =
    (codes "main_chair", codes "images/chair-2421605.png")
    ∷ (codes "background", codes "images/background.png")
    ∷ (codes "stage_background", codes "images/stage_background.png")
    ∷ (codes "bg_op", codes "images/bg_op.png")
    ∷ (codes "buybutton_background", codes "images/buybutton_background.png")
    ∷ (codes "line_v", codes "images/line_v.png")
    ∷ (codes "line_h", codes "images/line_h.png")
    ∷ (codes "icon_jenkins", codes "images/icon_jenkins.png")
    ∷ (codes "icon_factory", codes "images/icon_factory.png")
    ∷ (codes "icon_mine", codes "images/icon_mine.png")
    ∷ (codes "icon_temple", codes "images/icon_temple.png")
    ∷ (codes "icon_solar", codes "images/icon_solar.png")
    ∷ (codes "icon_bluering", codes "images/icon_bluering.png")
    ∷ (codes "icon_circle", codes "images/icon_circle.png")
    ∷ (codes "icon_sphere", codes "images/icon_sphere.png")
    ∷ (codes "icon_torii", codes "images/icon_torii.png")
    ∷ (codes "icon_chair", codes "images/icon_chair.png")
    ∷ (codes "icon_clone", codes "images/icon_clone.png")
    ∷ (codes "icon_atom", codes "images/icon_atom.png")
    ∷ (codes "icon_farm", codes "images/icon_farm.png")
    ∷ (codes "stage_icon_jenkins", codes "images/stage_jenkins.png")
    ∷ (codes "stage_icon_farm", codes "images/stage_icon_farm.png")
    ∷ (codes "stage_icon_mine", codes "images/stage_icon_mine.png")
    ∷ (codes "stage_icon_factory", codes "images/stage_icon_factory.png")
    ∷ (codes "stage_icon_circle", codes "images/stage_icon_candle.png")
    ∷ (codes "stage_icon_chair", codes "images/stage_icon_gold.png")
    ∷ (codes "stage_icon_clone", codes "images/stage_icon_clone.png")
    ∷ (codes "stage_icon_bluering", codes "images/stage_icon_circle4.png")
    ∷ (codes "stage_icon_solar", codes "images/stage_icon_solar.png")
    ∷ (codes "stage_icon_atom", codes "images/stage_icon_atom.png")
    ∷ (codes "stage_icon_sphere", codes "images/stage_icon_sphere.png")
    ∷ (codes "stage_icon_torii", codes "images/stage_icon_torii.png")
    ∷ (codes "stage_icon_temple", codes "images/stage_icon_temple.png")
    ∷ (codes "type2", codes "images/5000_button.png")
    ∷ []

pub record ItemEntry : Type 0 where
  pub item_name : Text
  pub icon_name : Text

abbrev pub entry : Text → Text → ItemEntry
entry item_name icon_name = record { item_name = item_name; icon_name = icon_name }

-- `itemList`
abbrev pub item_list : List ItemEntry
item_list =
    entry (codes "おじいちゃん") (codes "icon_jenkins")
    ∷ entry (codes "椅子畑") (codes "icon_farm")
    ∷ entry (codes "椅子採掘場") (codes "icon_mine")
    ∷ entry (codes "椅子工場") (codes "icon_factory")
    ∷ entry (codes "禁断の秘術†椅子†") (codes "icon_circle")
    ∷ entry (codes "確定拠出椅子") (codes "icon_chair")
    ∷ entry (codes "クローン椅子技術") (codes "icon_clone")
    ∷ entry (codes "椅子錬成陣") (codes "icon_bluering")
    ∷ entry (codes "太陽光発椅子") (codes "icon_solar")
    ∷ entry (codes "加圧水型椅子炉") (codes "icon_atom")
    ∷ entry (codes "椅子テラフォーミング") (codes "icon_sphere")
    ∷ entry (codes "椅子界への門") (codes "icon_torii")
    ∷ entry (codes "椅子神託") (codes "icon_temple")
    ∷ []

-- `itemList[i]`; `none` is `undefined`.
unfoldable pub nth_item : ℕ → List ItemEntry → Option ItemEntry
nth_item n [] = none
nth_item zero (e ∷ items) = some e
nth_item (suc n) (e ∷ items) = nth_item n items

unfoldable pub has_image : Text → List (Text × Text) → Bool
has_image key [] = false
has_image key ((k, file) ∷ images) = if text_eq key k then true else has_image key images

-- The name of the sprite that stands on the stage.
abbrev pub stage_icon : ItemEntry → Text
stage_icon e = codes "stage_" ++ e.icon_name

abbrev HasImages : List ItemEntry → Type 0
HasImages [] = Unit {0}
HasImages (e ∷ items) =
    (((has_image e.icon_name assets && has_image (stage_icon e) assets) ≡ true) × HasImages items)

nth_item-HasImages :
    (items : List ItemEntry)
    → HasImages items
    → (i : ℕ) (e : ItemEntry) → nth_item i items ≡ some e
    → ((has_image e.icon_name assets && has_image (stage_icon e) assets) ≡ true)
unfolding nth_item
nth_item-HasImages [] h i e found = absurd (ground arith)
nth_item-HasImages (x ∷ items) h zero e found =
    let same : x ≡ e = ground arith in
    subst (λ y. (has_image y.icon_name assets && has_image (stage_icon y) assets) ≡ true) same h.0
nth_item-HasImages (x ∷ items) h (suc i) e found = nth_item-HasImages items h.1 i e found

-- Every item of the list has its image for the button and its image for the stage.
pub nth_item-has_image :
    (i : ℕ) (e : ItemEntry)
    → nth_item i item_list ≡ some e
    → ((has_image e.icon_name assets && has_image (stage_icon e) assets) ≡ true)
unfolding has_image
nth_item-has_image i e found =
    nth_item-HasImages item_list
      (
        refl,
        (
          refl,
          (
            refl,
            (refl, (refl, (refl, (refl, (refl, (refl, (refl, (refl, (refl, (refl, tt)))))))))),
          ),
        ),
      )
      i e found
