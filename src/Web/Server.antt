-- ===== src/Web/Server.antt =====
-- How webapp/nodejs/index.js puts the server together: the pool, the routes, and what is set up for
-- a websocket.
use isucon7_final.Prelude.{ℕ, Option, none, some, List, [], ◌∷◌}
use isucon7_final.Js.Digits.{Text, codes}
use isucon7_final.Bigint.{Bigint}
use isucon7_final.Store.Session.{Server, World}
use isucon7_final.Web.Handler.{Request, Socket, Handled, room_name_of, on_message, on_connect}
use isucon7_final.Web.Timer.{Loop, new_loop, loop_step, closes}

-- The options of `mysql.createPool`.
pub record PoolOptions : Type 0 where
  pub connection_limit : ℕ
  pub host : Text
  pub port : Text
  pub user : Text
  pub password : Text
  pub database : Text
  pub charset : Text

-- An environment variable, unless it is missing or empty.
abbrev or_else : Option Text → Text → Text
or_else none default = default
or_else (some []) default = default
or_else (some (c ∷ s)) default = c ∷ s

unfoldable pub pool_options : (env : Text → Option Text) → PoolOptions
pool_options env = record {
  connection_limit = 20;
  host = or_else (env (codes "ISU_DB_HOST")) (codes "127.0.0.1");
  port = or_else (env (codes "ISU_DB_PORT")) (codes "3306");
  user = or_else (env (codes "ISU_DB_USER")) (codes "root");
  password = or_else (env (codes "ISU_DB_PASSWORD")) [];
  database = codes "isudb";
  charset = codes "utf8mb4";
}

pub data Route : Type 0 where
  serve_public : (folder : Text) → Route
  initialize_route room_route socket_route : (pattern : Text) → Route

-- The routes, in the order in which they are used, and the port.
abbrev pub routes : List Route
routes =
    serve_public (codes "../public")
    ∷ initialize_route (codes "/initialize")
    ∷ room_route (codes "/room")
    ∷ room_route (codes "/room/:room_name")
    ∷ socket_route (codes "/ws")
    ∷ socket_route (codes "/ws/:room_name")
    ∷ []

abbrev pub listen_port : ℕ
listen_port = 5000

-- The object of the class `Game`: its methods take the two fields as `server` and `room`.
pub record RoomGame : Type 0 where
  pub room_name : Text
  pub pool : Server

unfoldable pub new_game : Text → Server → RoomGame
new_game room_name pool = record { room_name = room_name; pool = pool }

-- What `wsGameHandler` sets up: the game of the room, the listeners, the timer, and what it sends.
pub record Listening : Type 0 where
  pub game : RoomGame
  pub message : Option Request → World → Socket → Handled
  pub close : Loop → Loop
  pub timer : Loop
  pub first : World → Socket → Handled

unfoldable pub ws_game_handler : ⦃B : Bigint⦄ → Server → Option Text → Listening
unfolding new_game
ws_game_handler pool room_name =
    let game = new_game (room_name_of room_name) pool in
    record {
      game = game;
      message = on_message game.pool game.room_name;
      close = loop_step closes;
      timer = new_loop;
      first = on_connect game.pool room_name;
    }
