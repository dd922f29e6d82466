-- ===== src/Web/Handler.antt =====
-- The routes of webapp/nodejs/index.js: `/initialize`, `/room/…`, and the messages of a websocket.
pub mod Answers
use isucon7_final.Prelude.{
  ℕ, ◌+◌, Bool, true, false, Option, none, some, List, [], ◌∷◌, ◌++◌, if◌then◌else◌, get_or,
}
use isucon7_final.Js.Digits.{Text, codes}
use isucon7_final.Bigint.{Bigint}
use isucon7_final.Status.Types.{GameStatus}
use isucon7_final.Store.Tables.{Db}
use isucon7_final.Store.Session.{
  Error, server_failure, type_error, throw, Result, ok, err, Server, World, M, pure, ◌>>=◌, ◌>>◌,
  call,
}
use isucon7_final.Game.{add_isu, buy_item, get_status}

-- A statement that runs on the pool, outside of a transaction.
abbrev pub execute_at_once : Server → (Db → Db) → M (Unit {0})
execute_at_once server f = call server (λ now w. (tt, record w { committed = f w.committed }))

-- `getInitializeHandler`, which answers with 204.
unfoldable pub initialize : Server → M ℕ
initialize server = do
  execute_at_once server (λ db. record db { adding = [] })
  execute_at_once server (λ db. record db { buying = [] })
  execute_at_once server (λ db. record db { room_time = [] })
  pure 204

pub record RoomAnswer : Type 0 where
  pub host : Text
  pub path : Text

-- A path with no room has the room "".
abbrev pub room_name_of : Option Text → Text
room_name_of room_name = get_or room_name []

-- `getRoomHandler`
unfoldable pub get_room : Option Text → RoomAnswer
get_room room_name = record { host = []; path = codes "/ws/" ++ room_name_of room_name }

pub data Action : Type 0 where
  add_isu_action buy_item_action other_action : Action

-- What `JSON.parse` makes of a message; `isu` and `count_bought` may be missing.
pub record Request : Type 0 where
  pub request_id : ℕ
  pub action : Action
  pub time : ℕ
  pub isu : Option Text
  pub item_id : ℕ
  pub count_bought : Option ℕ

pub data Reply : Type 0 where
  status_reply : GameStatus → Reply
  response : (request_id : ℕ) → (is_success : Bool) → Reply

pub data ReadyState : Type 0 where
  connecting open_state closing closed : ReadyState

-- A websocket: its state, and what has been sent. Writing to it may fail.
pub record Socket : Type 0 where
  pub ready : ReadyState
  pub sent : List Reply
  pub can_write : Bool

abbrev pub is_open : ReadyState → Bool
is_open open_state = true
is_open _ = false

-- `send`
unfoldable pub send : Reply → Socket → Result (Unit {0}) × Socket
send reply s =
    if is_open s.ready
    then if s.can_write
      then (ok tt, record s { sent = s.sent ++ reply ∷ [] })
      else (err server_failure, s)
    else (ok tt, s)

-- What a handler leaves: the database, the socket, and whether it threw.
pub record Handled : Type 0 where
  pub world : World
  pub socket : Socket
  pub outcome : Result (Unit {0})

module _ ⦃B : Bigint⦄ (server : Server) where
  open B use {accepts, of_string}

  -- `bigint(isu)`, which throws on a missing `isu` and on a text that is no integer.
  unfoldable pub amount_of : Option Text → Option B.Big
  amount_of none = none
  amount_of (some s) = if accepts s then some (of_string s) else none

  abbrev pub add_amount : Text → ℕ → Option B.Big → M Bool
  add_amount room time none = throw type_error
  add_amount room time (some amount) = add_isu server room amount time

  -- The `switch` over the action.
  unfoldable pub run_action : Text → Request → M Bool
  unfolding amount_of
  run_action room q = elim q.action [
    | add_isu_action ↦ add_amount room q.time (amount_of q.isu)
    | buy_item_action ↦ buy_item server room q.item_id (get_or q.count_bought 0) q.time
    | other_action ↦ pure false
  ]

  unfoldable pub send_in : World → Reply → Socket → Handled
  unfolding send
  send_in w reply s =
      let (outcome, s') = send reply s in record { world = w; socket = s'; outcome = outcome }

  unfoldable pub after_status : Socket → Result GameStatus × World → Handled
  unfolding send_in
  after_status s (ok gs, w) = send_in w (status_reply gs) s
  after_status s (err e, w) = record { world = w; socket = s; outcome = err e }

  -- `await send(ctx.websocket, await game.getStatus())`
  unfoldable pub send_status : Text → World → Socket → Handled
  unfolding after_status
  send_status room w s = after_status s (get_status server room w)

  -- The last step: the answer to the request, if nothing threw before.
  unfoldable pub respond : ℕ → Bool → Handled → Handled
  unfolding send_in
  respond request_id is_success h = elim h.outcome [
    | ok u ↦ send_in h.world (response request_id is_success) h.socket
    | err e ↦ h
  ]

  -- What follows the `switch`.
  unfoldable pub after_action : Text → ℕ → Socket → Result Bool × World → Handled
  unfolding send_status respond
  after_action room request_id s (ok true, w) = respond request_id true (send_status room w s)
  after_action room request_id s (ok false, w) =
      respond request_id false (record { world = w; socket = s; outcome = ok tt })
  after_action room request_id s (err e, w) = record { world = w; socket = s; outcome = err e }

  -- The listener of `message`; a message that is no JSON throws before anything is done.
  unfoldable pub on_message : Text → Option Request → World → Socket → Handled
  unfolding after_action run_action
  on_message room none w s = record { world = w; socket = s; outcome = err server_failure }
  on_message room (some q) w s = after_action room q.request_id s (run_action room q w)

  -- What `wsGameHandler` does when a socket has connected, after its listeners are set.
  unfoldable pub on_connect : Option Text → World → Socket → Handled
  unfolding send_status
  on_connect room_name w s = send_status (room_name_of room_name) w s
