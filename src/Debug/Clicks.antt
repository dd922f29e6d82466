-- ===== src/Debug/Clicks.antt =====
-- The listeners of webapp/public/debugview.js and its timer, over the game and the elements.
use isucon7_final.Prelude.{ℕ, true, false, Option, none, some, List, [], ◌>>=◌}
use isucon7_final.Js.Digits.{Text, codes}
use isucon7_final.Js.Float.{Float}
use isucon7_final.Prelude.{none, Option}
use isucon7_final.Client.Page.{
  Page, start_game, get_state, null_state, state_of, threw, is_connected, add_type,
  add_value_directly, buy_one, set_debug,
}
use isucon7_final.Debug.Numbers.{Typed, refused, accepted, typed_number, typed_power}
use isucon7_final.Debug.Dom.{
  Listener, go, add_one, add_large, type_number, type_power, buy_item, Element, Document, set_text,
  set_value, find, change,
}
use isucon7_final.Debug.Table.{refresh}

abbrev value_of : Text → Document → Option Text
value_of id doc = elim (find id doc) [ none ↦ none | some e ↦ some e.value ]

unfoldable pub set_listener : Listener → Element → Element
set_listener l e = record e { listener = some l }

module _ ⦃D : Float⦄ (encode : Text → Text) where
  -- The game, the elements of the page, and `item_table`.
  pub record DebugPage : Type 0 where
    pub page : Page
    pub elements : Document
    pub table : List ℕ

  -- The last lines of the script: five listeners, and `game.setDebug()`.
  unfoldable pub load : Page → Document → Option DebugPage
  unfolding set_listener
  load page doc = do
    doc1 ← change (codes "go_button") (set_listener go) doc
    doc2 ← change (codes "game_button1") (set_listener add_one) doc1
    doc3 ← change (codes "game_button2") (set_listener add_large) doc2
    doc4 ← change (codes "game_button3") (set_listener type_number) doc3
    doc5 ← change (codes "game_button4") (set_listener type_power) doc4
    some (record { page = set_debug page; elements = doc5; table = [] })

  -- A text that was refused is only followed by a message.
  unfoldable pub use_typed : ℕ → Typed → (Document → Option Document) → DebugPage → Option DebugPage
  use_typed now (refused message) clear d = do
    doc ← change (codes "message") (set_text message) d.elements
    some (record d { elements = doc })
  use_typed now (accepted value) clear d = do
    doc ← clear d.elements
    some (record d { elements = doc; page = add_value_directly now value d.page })

  abbrev clear_power : Document → Option Document
  clear_power doc = do
    doc1 ← change (codes "game_text4_1") (set_value []) doc
    change (codes "game_text4_2") (set_value []) doc1

  -- A click; `none` is an exception.
  unfoldable pub on_click : ℕ → Listener → DebugPage → Option DebugPage
  unfolding use_typed
  on_click now go d = do
    name ← value_of (codes "go_text") d.elements
    some (record d { page = start_game encode name d.page })
  on_click now add_one d = some (record d { page = add_type false d.page })
  on_click now add_large d = some (record d { page = add_type true d.page })
  on_click now type_number d = do
    x ← value_of (codes "game_text3") d.elements
    use_typed now (typed_number x) (change (codes "game_text3") (set_value [])) d
  on_click now type_power d = do
    x ← value_of (codes "game_text4_1") d.elements
    y ← value_of (codes "game_text4_2") d.elements
    use_typed now (typed_power x y) clear_power d
  on_click now (buy_item item_id) d = some (record d { page = buy_one now item_id d.page })

  -- The function of the timer, every 55 milliseconds. An exception leaves what was sent as sent.
  unfoldable pub on_timer : ℕ → DebugPage → DebugPage
  on_timer now d =
      let (page, state) = get_state now d.page in
      let done : Option (List ℕ × Document) = elim state [
        | null_state ↦ refresh none (is_connected page) d.table d.elements
        | state_of v ↦ refresh (some v) (is_connected page) d.table d.elements
        | threw ↦ none
      ] in
      elim done [
        | none ↦ record d { page = page }
        | some (table, doc) ↦ record d { page = page; table = table; elements = doc }
      ]
