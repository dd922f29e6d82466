-- ===== src/Client/Room.antt =====
-- `Room` of webapp/public/game.js: the requests of a player and the answers to them.
pub mod Callbacks
pub mod Coherent
pub mod Purchases
pub mod Waiting
pub mod Clicks
use isucon7_final.Prelude.{
  ℕ, zero, suc, ◌+◌, ◌*◌, ◌≡◌, Bool, true, false, not, Option, none, some, List, [], ◌∷◌, ◌++◌, leb,
  ltb, ◌==◌, is_some, get_or, if◌then◌else◌, length,
}
use isucon7_final.Prelude.Int.{pos}
use isucon7_final.Js.Digits.{Text}
use isucon7_final.Js.Decimal.{print}
use isucon7_final.Js.Object.{Object, get, put, remove, above}
use isucon7_final.Status.Types.{GameStatus, ItemStatus, ScheduleEntry, Adding, OnSale}
use isucon7_final.Store.Tables.{text_eq}
use isucon7_final.Client.Clock.{Clock, new_clock, get_time, set_time}

-- What is sent to the server. The number of the request is `request_id`; `none` is a property
-- that the JSON text leaves out.
pub data Action : Type 0 where
  add_isu : (time : ℕ) → (isu : Text) → Action
  buy_item : (item_id time : ℕ) → (count_bought : Option ℕ) → Action

-- The two callbacks: `delete self.sending[t]` and `self.buying = false`.
pub data Callback : Type 0 where
  forget : ℕ → Callback
  finish_buying : Callback

-- `GameState`, as its constructor leaves it.
pub record GameState : Type 0 where
  pub data_adding : Object Text
  pub data_schedule : List ScheduleEntry
  pub data_items : List ItemStatus
  pub on_sale : Object ℕ

-- The fields of `Room`, the clock, and what was handed to the connection.
pub record Room : Type 0 where
  pub is_open : Bool
  pub req_count : ℕ
  pub callbacks : Object (Option Callback)
  pub state_time : Option ℕ
  pub game_state : Option GameState
  pub count_bought : Option (Object ℕ)
  pub sending : Object Text
  pub buying : Bool
  pub add_value : ℕ × ℕ
  pub clock : Clock
  pub sent : List (ℕ × Action)

unfoldable pub new_room : Clock → Room
new_room clock = record {
  is_open = false;
  req_count = 0;
  callbacks = [];
  state_time = none;
  game_state = none;
  count_bought = none;
  sending = [];
  buying = false;
  add_value = (0, 0);
  clock = clock;
  sent = [];
}

-- `sendRequest`
unfoldable pub send_request : Action → Callback → Room → Room
send_request action callback r =
    if r.is_open
    then record r {
      req_count = r.req_count + 1;
      callbacks = put (r.req_count + 1) (some callback) r.callbacks;
      sent = r.sent ++ (r.req_count + 1, action) ∷ [];
    }
    else r

-- `while (t in self.sending) t++`, on fuel.
unfoldable pub free_time : ℕ → ℕ → Object Text → ℕ
free_time zero t sending = t
free_time (suc fuel) t sending =
    let rest = free_time fuel (t + 1) sending in if is_some (get t sending) then rest else t

-- `sendAdd`
unfoldable pub send_add : ℕ → Text → Room → Room
unfolding free_time send_request
send_add time isu r =
    let t = free_time (above r.sending) time r.sending in
    send_request (add_isu t isu) (forget t) (record r { sending = put t isu r.sending })

-- `while (s.length < 15) s = "0" + s`, on fuel.
unfoldable pub pad : ℕ → Text → Text
pad zero s = s
pad (suc fuel) s = let rest = pad fuel (b'0' ∷ s) in if ltb (length s) 15 then rest else s

-- `getAddValue`
unfoldable pub get_add_value : ℕ × ℕ → Text
unfolding pad print
get_add_value (small, large) =
    if large == 0 then print (pos small) else print (pos (large * 5)) ++ pad 15 (print (pos small))

abbrev pub add_value_delay : ℕ
add_value_delay = 1000

abbrev pub buy_item_delay : ℕ
buy_item_delay = 1000

-- `clock.get() + BuyItemDelay`, where `null` counts as 0.
unfoldable pub buy_time : ℕ → Room → ℕ
buy_time now r = get_or (get_time now r.clock) 0 + buy_item_delay

-- `clock.get() + AddValueDelay`
unfoldable pub a_second_later : ℕ → Room → ℕ
a_second_later now r = get_or (get_time now r.clock) 0 + add_value_delay

-- `update`
unfoldable pub update : ℕ → Room → Room
unfolding send_add get_add_value a_second_later
update now r =
    if text_eq (get_add_value r.add_value) (b'0' ∷ [])
    then r
    else send_add (a_second_later now r) (get_add_value r.add_value)
        (record r { add_value = (0, 0) })

-- `add`, for the two buttons.
unfoldable pub add : Bool → Room → Room
add large r = record r {
  add_value =
      if large then (r.add_value.0, r.add_value.1 + 1) else (r.add_value.0 + 1, r.add_value.1);
}

-- `addDirectly`
unfoldable pub add_directly : ℕ → Text → Room → Room
unfolding send_add a_second_later
add_directly now value r = send_add (a_second_later now r) value r

-- `buy`. Without a status `self.count_bought[item_id]` throws, after `buying` is set.
unfoldable pub buy : ℕ → ℕ → Room → Room
unfolding send_request buy_time
buy now item_id r = if r.buying then r else elim r.count_bought [
  | none ↦ record r { buying = true }
  | some counts ↦
      send_request (buy_item item_id (buy_time now r) (get item_id counts)) finish_buying
        (record r { buying = true })
]

-- The loops of the constructor of `GameState` and of `receiveData`.
unfoldable pub addings_by_time : List Adding → Object Text → Object Text
addings_by_time [] m = m
addings_by_time (a ∷ addings) m = addings_by_time addings (put a.time a.isu m)

unfoldable pub sales_by_item : List OnSale → Object ℕ → Object ℕ
sales_by_item [] m = m
sales_by_item (s ∷ sales) m = sales_by_item sales (put s.item_id s.time m)

unfoldable pub counts_by_item : List ItemStatus → Object ℕ → Object ℕ
counts_by_item [] m = m
counts_by_item (i ∷ items) m = counts_by_item items (put i.item_id i.count_bought m)

unfoldable pub new_game_state : GameStatus → GameState
unfolding addings_by_time sales_by_item
new_game_state status = record {
  data_adding = addings_by_time status.adding [];
  data_schedule = status.schedule;
  data_items = status.items;
  on_sale = sales_by_item status.on_sale [];
}

-- The status takes the place of the one before it.
unfoldable pub accept : ℕ → ℕ → GameStatus → Room → Room
unfolding new_game_state counts_by_item
accept now time status r = record r {
  state_time = some time;
  clock = set_time now status.time r.clock;
  count_bought = some (counts_by_item status.items []);
  game_state = some (new_game_state status);
}

-- `receiveData`. A status with no schedule throws before anything has changed, unless it is the
-- first one, which throws as well.
unfoldable pub receive_data : ℕ → GameStatus → Room → Room
unfolding accept
receive_data now status r = elim status.schedule [
  | [] ↦ r
  | entry ∷ entries ↦ elim r.state_time [
    | none ↦ accept now entry.time status r
    | some time ↦ if leb time entry.time then accept now entry.time status r else r
  ]
]

-- One callback.
unfoldable pub call_back : Callback → Room → Room
call_back (forget t) r = record r { sending = remove t r.sending }
call_back finish_buying r = record r { buying = false }

-- `onmessage` with an answer to a request. A number with no callback throws.
unfoldable pub receive_answer : ℕ → Room → Room
unfolding call_back
receive_answer request_id r = elim (get request_id r.callbacks) [
  | none ↦ r
  | some pending ↦ elim pending [
    | none ↦ r
    | some callback ↦
        let r' = call_back callback r in record r' { callbacks = put request_id none r'.callbacks }
  ]
]

-- What can happen to a room.
pub data Event : Type 0 where
  opened : Event
  closed : Event
  answered : (request_id : ℕ) → Event
  told : (now : ℕ) → (status : GameStatus) → Event
  clicked_add : (large : Bool) → Event
  added_directly : (now : ℕ) → (value : Text) → Event
  updated : (now : ℕ) → Event
  clicked_buy : (now item_id : ℕ) → Event

unfoldable pub react : Event → Room → Room
react opened r = record r { is_open = true }
react closed r = record r { is_open = false }
react (answered request_id) r = receive_answer request_id r
react (told now status) r = receive_data now status r
react (clicked_add large) r = add large r
react (added_directly now value) r = add_directly now value r
react (updated now) r = update now r
react (clicked_buy now item_id) r = buy now item_id r

unfoldable pub react_all : List Event → Room → Room
react_all [] r = r
react_all (e ∷ events) r = react_all events (react e r)
