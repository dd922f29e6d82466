-- ===== src/Debug/Table.antt =====
-- `ItemRow` of webapp/public/debugview.js, and the timer that shows the state of the game.
pub mod Rows
use isucon7_final.Prelude.{
  ℕ, zero, suc, ◌+◌, ◌-◌, Bool, true, false, ◌||◌, not, Option, none, some, List, [], ◌∷◌, ◌++◌,
  length, ltb, ◌==◌, if◌then◌else◌, ◌>>=◌,
}
use isucon7_final.Prelude.Int.{pos}
use isucon7_final.Js.Digits.{Text, codes}
use isucon7_final.Js.Decimal.{print}
use isucon7_final.Js.Float.{Float}
use isucon7_final.Js.Object.{get}
use isucon7_final.Store.Tables.{text_eq}
use isucon7_final.Client.Items.{Coming}
use isucon7_final.Client.View.{
  get_isu, get_power, get_num_item, get_sending, get_adding, Waiting, View, ItemView,
}
use isucon7_final.Debug.Numbers.{debug_isu}
use isucon7_final.Debug.Dom.{
  Listener, buy_item, Element, Document, create_element, set_attribute, remove_attribute, set_text,
  find, change,
}

-- `ItemNames`; a number that is not listed gives `undefined`, which `textContent` shows as nothing.
abbrev pub item_names : List Text
item_names =
    codes "おじいちゃん"
    ∷ codes "椅子畑"
    ∷ codes "椅子採掘場"
    ∷ codes "椅子工場"
    ∷ codes "禁断の秘術†椅子†"
    ∷ codes "確定拠出椅子"
    ∷ codes "クローン椅子技術"
    ∷ codes "椅子錬成陣"
    ∷ codes "太陽光発椅子"
    ∷ codes "加圧水型椅子炉"
    ∷ codes "椅子テラフォーミング"
    ∷ codes "椅子界への門"
    ∷ codes "椅子神託"
    ∷ []

-- The entry of a list, counted from 1.
abbrev pub nth_text : ℕ → List Text → Text
nth_text n [] = []
nth_text zero (s ∷ ss) = []
nth_text (suc zero) (s ∷ ss) = s
nth_text (suc (suc n)) (s ∷ ss) = nth_text (suc n) ss

-- `attrs`
abbrev pub attrs : List (List (Text × Text))
attrs =
    ((codes "id", codes "b_name") ∷ (codes "align", codes "center") ∷ [])
    ∷ ((codes "id", codes "b_n") ∷ (codes "align", codes "right") ∷ [])
    ∷ ((codes "id", codes "b_button")
        ∷ (codes "type", codes "button")
        ∷ (codes "value", codes "建造")
        ∷ [])
    ∷ ((codes "id", codes "b_p") ∷ (codes "align", codes "right") ∷ [])
    ∷ ((codes "id", codes "b_v") ∷ (codes "align", codes "right") ∷ [])
    ∷ ((codes "id", codes "b_msg") ∷ [])
    ∷ []

-- An `id` with the number of the item behind it.
abbrev pub id_of : Text → ℕ → Text
id_of name item_id = name ++ print (pos item_id)

-- `for (var k in attrs[i])`
unfoldable pub set_attributes : ℕ → List (Text × Text) → Element → Element
unfolding set_attribute
set_attributes item_id [] e = e
set_attributes item_id ((k, v) ∷ more) e =
    set_attributes item_id more
      (set_attribute k (if text_eq k (codes "id") then id_of v item_id else v) e)

-- The loop of the constructor: an element for each cell, and one more for the button in the third.
unfoldable pub new_cells : ℕ → ℕ → List (List (Text × Text)) → List Element
unfolding set_attributes create_element
new_cells item_id i [] = []
new_cells item_id i (cell ∷ cells) =
    (if i == 2
      then create_element (codes "td")
        ∷ record (set_attributes item_id cell (create_element (codes "input"))) {
          listener = some (buy_item item_id);
        }
        ∷ []
      else set_attributes item_id cell (create_element (codes "td")) ∷ [])
    ++ new_cells item_id (i + 1) cells

-- `new ItemRow(item_id)`
unfoldable pub new_row : ℕ → List Element
unfolding new_cells
new_row item_id = new_cells item_id 0 attrs

unfoldable pub coming_text : List Coming → Text
coming_text [] = []
coming_text (c ∷ building) =
    print (pos c.ordinal) ++ codes " (" ++ print (pos c.dt) ++ codes "ms後) " ++ coming_text building

-- A button that can be clicked, or not.
unfoldable pub set_enabled : Bool → Element → Element
set_enabled true e = remove_attribute (codes "disabled") e
set_enabled false e = set_attribute (codes "disabled") (codes "disabled") e

unfoldable pub waiting_text : List Waiting → Text
unfolding debug_isu
waiting_text [] = []
waiting_text (w ∷ waiting) =
    debug_isu w.isu ++ codes " (" ++ print (pos w.dt) ++ codes "ms後) " ++ waiting_text waiting

-- `while (item_table.length < numItem)`, with the rounds that are left. `document` puts the new
-- row at the end of the table.
unfoldable pub add_rows : ℕ → List ℕ → Document → List ℕ × Document
unfolding new_row
add_rows zero table doc = (table, doc)
add_rows (suc rounds) table doc =
    let item_id = length table + 1 in
    add_rows rounds (table ++ item_id ∷ []) (doc ++ new_row item_id)

-- The four buttons of the page.
unfoldable pub set_buttons : Bool → Document → Option Document
unfolding set_enabled
set_buttons active doc = do
  doc1 ← change (codes "game_button1") (set_enabled active) doc
  doc2 ← change (codes "game_button2") (set_enabled active) doc1
  doc3 ← change (codes "game_button3") (set_enabled active) doc2
  change (codes "game_button4") (set_enabled active) doc3

module _ ⦃D : Float⦄ where
  -- `ItemRow.prototype.set`
  unfoldable pub set_row : ℕ → ItemView → Bool → Document → Option Document
  unfolding coming_text set_enabled
  set_row item_id item active doc = do
    doc1 ← change (id_of (codes "b_name") item_id) (set_text (nth_text item_id item_names)) doc
    doc2 ← change (id_of (codes "b_n") item_id) (set_text (print (pos item.count_built))) doc1
    doc3 ←
        change (id_of (codes "b_button") item_id) (set_enabled (not (item.disabled || not active)))
          doc2
    doc4 ← change (id_of (codes "b_p") item_id) (set_text (item.next_price ++ codes " 脚")) doc3
    doc5 ← change (id_of (codes "b_v") item_id) (set_text (item.power ++ codes " 脚毎秒")) doc4
    change (id_of (codes "b_msg") item_id) (set_text (coming_text item.building)) doc5

  -- The last loop: an item that the state does not have throws.
  unfoldable pub set_rows : List ℕ → View → Bool → Document → Option Document
  unfolding set_row
  set_rows [] state active doc = some doc
  set_rows (item_id ∷ table) state active doc = do
    item ← get item_id state.items
    doc' ← set_row item_id item active doc
    set_rows table state active doc'

  -- The function that the timer calls.
  unfoldable pub refresh : Option View → Bool → List ℕ → Document → Option (List ℕ × Document)
  unfolding waiting_text set_buttons add_rows set_rows
  refresh none active table doc = some (table, doc)
  refresh (some state) active table doc = do
    doc1 ← change (codes "t_name") (set_text state.name) doc
    doc2 ← change (codes "t_x") (set_text (get_isu state ++ codes " 脚")) doc1
    doc3 ← change (codes "t_v") (set_text (get_power state ++ codes " 脚毎秒")) doc2
    doc4 ← change (codes "t_sending") (set_text (waiting_text (get_sending state))) doc3
    doc5 ← change (codes "t_waiting") (set_text (waiting_text (get_adding state))) doc4
    doc6 ← set_buttons active doc5
    let (table', doc7) = add_rows (get_num_item state - length table) table doc6
    doc8 ← set_rows table' state active doc7
    some (table', doc8)
