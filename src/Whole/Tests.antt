-- ===== src/Whole/Tests.antt =====
-- The master table of the game: a room that earns and buys, another one, and a request that is none,
-- on a server of which the last calls fail.
use isucon7_final.Prelude.{false, none, some, List, [], ◌∷◌, ◌+◌, ltb}
use isucon7_final.Js.Digits.{Text, codes}
use isucon7_final.Bigint.Exact.{exact}
use isucon7_final.Store.Tables.{Db}
use isucon7_final.Store.Session.{Server, World}
use isucon7_final.Game.Master.{master_rows}
use isucon7_final.Web.Handler.{Action, Request, add_isu_action, buy_item_action}
use isucon7_final.Web.Handler.Answers.{open_socket}
use isucon7_final.Web.Serving.{Served, connected, received, looped}

abbrev room : Text
room = codes "r"

abbrev server : Server
server = record { fails = ltb 40; clock = λ n. 40 + n }

-- What an earlier game has left.
abbrev used : World
used =
    let db : Db = record {
      m_item = master_rows;
      room_time = [];
      adding = record { room_name = room; time = 10; isu = codes "5" } ∷ [];
      buying = record { room_name = room; item_id = 1; ordinal = 3; time = 10 } ∷ [];
    } in
    record {
      committed = db;
      working = db;
      calls = 0;
      taken = 0;
      released = 0;
      is_open = false;
      given_open = 0;
    }

abbrev request : Action → Request
request action = record {
  request_id = 1;
  action = action;
  time = 90;
  isu = some (codes "99");
  item_id = 1;
  count_bought = none;
}

abbrev events : List (Served ⦃B = exact⦄)
events =
    connected (some room) (open_socket [])
    ∷ received room (some (request add_isu_action)) (open_socket [])
    ∷ received room (some (request buy_item_action)) (open_socket [])
    ∷ received (codes "b") none (open_socket [])
    ∷ looped (codes "b") (open_socket [])
    ∷ []
