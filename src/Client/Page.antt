-- ===== src/Client/Page.antt =====
-- The object `game` that webapp/public/game.js gives to a page: `startGame`, and the methods that
-- pass on to the room.
use isucon7_final.Prelude.{
  ℕ, ◌+◌, Bool, true, false, Option, none, some, List, [], ◌∷◌, ◌++◌, leb, if◌then◌else◌, get_or,
  ◌>>=◌,
}
use isucon7_final.Js.Digits.{Text, codes}
use isucon7_final.Js.Float.{Float}
use isucon7_final.Status.Types.{GameStatus}
use isucon7_final.Store.Tables.{text_eq}
use isucon7_final.Client.Clock.{Clock, new_clock, get_time}
use isucon7_final.Client.Room.{Room, new_room, update, add, add_directly, buy, Event, react, told}
use isucon7_final.Client.View.{View, new_view, update_view}

module _ ⦃D : Float⦄ where
  -- The variables of the script, and what it has asked of the browser: the rooms requested from
  -- the server, the sockets opened and the number of those closed.
  pub record Page : Type 0 where
    pub room : Option (Text × Room)
    pub view : Option View
    pub clock : Clock
    pub unicode_mode : Bool
    pub requested : List Text
    pub opened : List Text
    pub closed : ℕ

  -- `var unicodeMode = true` and `var clock = new Clock()`
  abbrev first_unicode_mode : Bool
  first_unicode_mode = true

  abbrev first_clock : Clock
  first_clock = new_clock

  unfoldable pub new_page : Page
  new_page = record {
    room = none;
    view = none;
    clock = first_clock;
    unicode_mode = first_unicode_mode;
    requested = [];
    opened = [];
    closed = 0;
  }

  -- `Room.prototype.close`
  unfoldable pub close_room : Page → Page
  close_room page = record page { closed = page.closed + 1 }

  -- `startGame`, up to `xhr.send`. `encode` is `encodeURIComponent`.
  unfoldable pub start_game : (encode : Text → Text) → Text → Page → Page
  start_game encode name page =
      let asked = page.requested ++ (codes "/room/" ++ encode name) ∷ [] in
      elim page.room [
        | none ↦ record page { requested = asked }
        | some (old, r) ↦ record (close_room page) {
          room = none;
          view = none;
          clock = r.clock;
          requested = asked;
        }
      ]

  -- `xhr.onreadystatechange` with the answer of the server. A room that is there is replaced.
  unfoldable pub join_room : (name host path location_host : Text) → Page → Page
  join_room name host path location_host page =
      let to = if text_eq host [] then location_host else host in
      let clock : Clock = elim page.room [ none ↦ page.clock | some (old, r) ↦ r.clock ] in
      record page {
        room = some (name, new_room clock);
        view = none;
        opened = page.opened ++ (codes "ws://" ++ to ++ path) ∷ [];
      }

  -- Whether `receiveData` makes a new `GameState`.
  unfoldable pub is_taken : GameStatus → Room → Bool
  is_taken status r = elim status.schedule [
    | [] ↦ false
    | entry ∷ entries ↦ elim r.state_time [ none ↦ true | some time ↦ leb time entry.time ]
  ]

  -- Something happens to the room.
  unfoldable pub on_room : Event → Page → Page
  unfolding is_taken
  on_room e page = elim page.room [
    | none ↦ page
    | some (name, r) ↦
        let fresh : Bool = elim e [ told now status ↦ is_taken status r | _ ↦ false ] in
        record page {
          room = some (name, react e r);
          view = if fresh then some (new_view name) else page.view;
        }
  ]

  -- `Room.prototype.getState`: `none` is `null`, else the state and whether `update` came to its end.
  -- A clock that is `null` counts as 0.
  unfoldable pub room_state : Bool → ℕ → Room → Option View → Option (View × Bool)
  room_state unicode_mode now r view = do
    s ← r.game_state
    v ← view
    some (update_view unicode_mode s (get_or (get_time now r.clock) 0) r.sending r.buying v)

  -- What `getState` comes to: `null`, a state, or an exception.
  pub data StateAnswer : Type 0 where
    null_state : StateAnswer
    state_of : View → StateAnswer
    threw : StateAnswer

  -- `getState`: what has been clicked is sent, and the state is brought up to date, as far as it goes
  -- if that throws.
  unfoldable pub get_state : ℕ → Page → Page × StateAnswer
  unfolding room_state
  get_state now page = elim page.room [
    | none ↦ (page, null_state)
    | some (name, r) ↦
        let r' = update now r in
        let page' = record page { room = some (name, r') } in
        elim (room_state page.unicode_mode now r' page.view) [
          | none ↦ (page', null_state)
          | some (v, ended) ↦ (record page' { view = some v }, if ended then state_of v else threw)
        ]
  ]

  -- A method of the state, which throws on `null`.
  abbrev pub state_or_throw : StateAnswer → Option View
  state_or_throw null_state = none
  state_or_throw (state_of v) = some v
  state_or_throw threw = none

  -- `isConnected`
  unfoldable pub is_connected : Page → Bool
  is_connected page = elim page.room [ none ↦ false | some (name, r) ↦ r.is_open ]

  -- A method of the room, if there is one.
  unfoldable pub in_room : (Room → Room) → Page → Page
  in_room f page = elim page.room [
    | none ↦ page
    | some (name, r) ↦ record page { room = some (name, f r) }
  ]

  -- `add`, `addDirectly` and `buy`
  abbrev pub add_type : (large : Bool) → Page → Page
  add_type large = in_room (add large)

  abbrev pub add_value_directly : ℕ → Text → Page → Page
  add_value_directly now value = in_room (add_directly now value)

  abbrev pub buy_one : ℕ → (item_id : ℕ) → Page → Page
  buy_one now item_id = in_room (buy now item_id)

  -- `setDebug`
  unfoldable pub set_debug : Page → Page
  set_debug page = record page { unicode_mode = false }

  -- The object that the script returns, over the state of the page.
  pub record GameObject : Type 0 where
    pub start : (encode : Text → Text) → Text → Page → Page
    pub state_at : ℕ → Page → Page × StateAnswer
    pub has_connection : Page → Bool
    pub add_one_of : (large : Bool) → Page → Page
    pub add_value : ℕ → Text → Page → Page
    pub buy_item_at : ℕ → ℕ → Page → Page
    pub debug : Page → Page

  unfoldable pub game : GameObject
  game = record {
    start = start_game;
    state_at = get_state;
    has_connection = is_connected;
    add_one_of = add_type;
    add_value = add_value_directly;
    buy_item_at = buy_one;
    debug = set_debug;
  }
