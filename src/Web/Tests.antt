-- ===== src/Web/Tests.antt =====
-- A request on an open socket, and a loop of a socket that closes.
use isucon7_final.Prelude.{false, ◌+◌, ◌==◌, none, some, List, [], ◌∷◌}
use isucon7_final.Prelude.{refl, ◌≤◌}
use isucon7_final.Web.Timer.Going.{number, count_sent, concat, statuses_keep_coming}
use isucon7_final.Js.Digits.{Text, codes}
use isucon7_final.Bigint.Exact.{exact}
use isucon7_final.Store.Tables.{Db}
use isucon7_final.Store.Session.{Server, World}
use isucon7_final.Web.Handler.{Request, add_isu_action, on_message}
use isucon7_final.Web.Handler.Answers.{Answered, open_socket, on_message-Answered}
use isucon7_final.Web.Timer.{
  LoopEvent, fired, status_sent, IsSingle, new_loop, loop_steps, new_loop-IsSingle,
}

abbrev room : Text
room = codes "r"

-- The server whose third call fails.
abbrev failing : Server
failing = record { fails = λ n. n == 3; clock = λ n. 10 + n }

abbrev empty_world : World
empty_world =
    let db : Db = record { m_item = []; room_time = []; adding = []; buying = [] } in
    record {
      committed = db;
      working = db;
      calls = 0;
      taken = 0;
      released = 0;
      is_open = false;
      given_open = 0;
    }

abbrev request : Request
request = record {
  request_id = 1;
  action = add_isu_action;
  time = 20;
  isu = some (codes "7");
  item_id = 0;
  count_bought = none;
}

on_message-Answered_example :
    Answered ⦃B = exact⦄ failing room request empty_world []
      (on_message ⦃B = exact⦄ failing room (some request) empty_world (open_socket []))
on_message-Answered_example = on_message-Answered ⦃B = exact⦄ failing room request empty_world []

abbrev busy : List LoopEvent
busy = fired ∷ status_sent ∷ fired ∷ []

new_loop-IsSingle_example : IsSingle (loop_steps busy new_loop)
new_loop-IsSingle_example = new_loop-IsSingle busy

statuses_keep_coming_example :
    number ((fired ∷ status_sent ∷ []) ∷ (fired ∷ fired ∷ status_sent ∷ []) ∷ [])
    ≤ count_sent
        (concat ((fired ∷ status_sent ∷ []) ∷ (fired ∷ fired ∷ status_sent ∷ []) ∷ []))
        new_loop
statuses_keep_coming_example =
    statuses_keep_coming ((fired ∷ status_sent ∷ []) ∷ (fired ∷ fired ∷ status_sent ∷ []) ∷ [])
      ((((tt, (tt, tt)), refl), (((tt, (tt, (tt, tt))), refl), tt)))
