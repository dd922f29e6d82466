-- ===== src/Web/Serving.antt =====
-- The server as a whole: `/initialize`, messages, new sockets and the statuses of `loop`, in any
-- order, and the databases that they lead to.
use isucon7_final.Prelude.{
  ℕ, ◌≡◌, refl, ap, sym, subst, Bool, true, false, Option, none, some, get_or, List, [], ◌∷◌,
}
use isucon7_final.Js.Digits.{Text}
use isucon7_final.Bigint.{Bigint}
use isucon7_final.Status.Types.{GameStatus}
use isucon7_final.Store.Tables.{Db, select_addings, select_buyings}
use isucon7_final.Store.Session.{Error, Result, ok, err, Server, World}
use isucon7_final.Store.Success.{IfOk->>=, IfOk-pure, IfOk-call, IfOk-answer}
use isucon7_final.Store.Total.{Ensures->>=, Ensures-pure, Ensures-call, Ensures-always}
use isucon7_final.Game.{get_status}
use isucon7_final.Game.Sound.{IsSound}
use isucon7_final.Game.Reachable.{
  adding_call, buying_call, status_call, run_call, run_call-IsSound, fresh_db,
}
use isucon7_final.Web.Handler.{
  Action, add_isu_action, buy_item_action, other_action, Request, Reply, Socket, Handled,
  initialize, room_name_of, run_action, amount_of, add_amount, send_in, after_status, send_status,
  respond, after_action, on_message, on_connect,
}

-- When `/initialize` answers, what is committed is the master table alone.
pub initialize-fresh :
    (server : Server) (w : World)
    → (initialize server w).0 ≡ ok 204
    → (initialize server w).1.committed ≡ fresh_db w.committed.m_item
unfolding initialize
initialize-fresh server w h =
    IfOk-answer (initialize server) (λ _ w'. w'.committed ≡ fresh_db w.committed.m_item) w 204
      (IfOk->>= _ _ (λ _ w1. w1.committed ≡ record w.committed { adding = [] }) _ w
        (IfOk-call server _ _ w refl)
        λ _ w1 h1.
          IfOk->>= _ _ (λ _ w2. w2.committed ≡ record w.committed { adding = []; buying = [] }) _ w1
            (IfOk-call server _ _ w1 (ap {A = Db} {B = Db} (λ d. record d { buying = [] }) h1))
            λ _ w2 h2.
              IfOk->>= _ _ (λ _ w3. w3.committed ≡ fresh_db w.committed.m_item) _ w2
                (IfOk-call server _ _ w2
                  (ap {A = Db} {B = Db} (λ d. record d { room_time = [] }) h2))
                λ _ w3 h3. IfOk-pure 204 _ w3 h3)
      h

no_addings : (d : Db) → IsSound d → IsSound (record d { adding = [] })
unfolding select_addings
no_addings d sound = record {
  keyed = sound.keyed;
  known = sound.known;
  numbered = sound.numbered;
  distinct = λ room. tt;
}

no_buyings : (d : Db) → IsSound d → IsSound (record d { buying = [] })
unfolding select_buyings
no_buyings d sound = record {
  keyed = sound.keyed;
  known = tt;
  numbered = λ room. tt;
  distinct = sound.distinct;
}

no_times : (d : Db) → IsSound d → IsSound (record d { room_time = [] })
no_times d sound = record {
  keyed = sound.keyed;
  known = sound.known;
  numbered = sound.numbered;
  distinct = sound.distinct;
}

-- Whichever of its statements fails.
initialize-IsSound :
    (server : Server) (w : World) → IsSound w.committed → IsSound (initialize server w).1.committed
unfolding initialize
initialize-IsSound server w sound =
    let E = λ (e : Error) (w' : World). IsSound w'.committed in
    Ensures-always (initialize server) (λ w'. IsSound w'.committed) w
      (Ensures->>= E _ _ (λ _ w1. IsSound w1.committed) _ w
        (Ensures-call E server _ _ w sound (no_addings w.committed sound))
        λ _ w1 h1.
          Ensures->>= E _ _ (λ _ w2. IsSound w2.committed) _ w1
            (Ensures-call E server _ _ w1 h1 (no_buyings w1.committed h1))
            λ _ w2 h2.
              Ensures->>= E _ _ (λ _ w3. IsSound w3.committed) _ w2
                (Ensures-call E server _ _ w2 h2 (no_times w2.committed h2))
                λ _ w3 h3. Ensures-pure E 204 _ w3 h3)

module _ ⦃B : Bigint⦄ where
  open B use {Big}

  -- What the server is asked to do.
  pub data Served : Type 0 where
    initialized : Served
    connected : (room_name : Option Text) (s : Socket) → Served
    received : (room : Text) (message : Option Request) (s : Socket) → Served
    looped : (room : Text) (s : Socket) → Served

  unfoldable pub serve : Server → Served → World → World
  serve server initialized w = (initialize server w).1
  serve server (connected room_name s) w = (on_connect server room_name w s).world
  serve server (received room message s) w = (on_message server room message w s).world
  serve server (looped room s) w = (send_status server room w s).world

  unfoldable pub serve_all : Server → List Served → World → World
  unfolding serve
  serve_all server [] w = w
  serve_all server (e ∷ events) w = serve_all server events (serve server e w)

  send_in_world :
      (server : Server) (w : World) (r : Reply) (s : Socket) → (send_in server w r s).world ≡ w
  unfolding send_in
  send_in_world server w r s = refl

  after_status_world :
      (server : Server) (s : Socket) (r : Result GameStatus × World)
      → (after_status server s r).world ≡ r.1
  unfolding after_status
  after_status_world server s (ok gs, w) = refl
  after_status_world server s (err e, w) = refl

  respond_world :
      (server : Server) (request_id : ℕ) (b : Bool) (h : Handled)
      → (respond server request_id b h).world ≡ h.world
  unfolding respond send_in
  respond_world server request_id b h = go h.outcome
    where
      go :
          (o : Result (Unit {0}))
          → (respond server request_id b (record h { outcome = o })).world ≡ h.world
      go (ok u) = refl
      go (err e) = refl

  run_action-IsSound :
      (server : Server) (room : Text) (q : Request) (w : World)
      → IsSound w.committed
      → IsSound (run_action server room q w).1.committed
  unfolding run_action run_call
  run_action-IsSound server room q w sound = go q.action
    where
      add_up : (o : Option Big) → IsSound (add_amount server room q.time o w).1.committed
      add_up none = sound
      add_up (some amount) = run_call-IsSound server (adding_call room amount q.time) w sound

      go : (a : Action) → IsSound (run_action server room (record q { action = a }) w).1.committed
      go add_isu_action = add_up (amount_of server q.isu)
      go buy_item_action =
          run_call-IsSound server (buying_call room q.item_id (get_or q.count_bought 0) q.time) w
            sound
      go other_action = sound

  send_status-IsSound :
      (server : Server) (room : Text) (w : World) (s : Socket)
      → IsSound w.committed
      → IsSound (send_status server room w s).world.committed
  unfolding send_status run_call
  send_status-IsSound server room w s sound =
      subst (λ v. IsSound v.committed)
        (sym (after_status_world server s (get_status server room w)))
        (run_call-IsSound server (status_call room) w sound)

  after_action-IsSound :
      (server : Server) (room : Text) (request_id : ℕ) (s : Socket) (r : Result Bool × World)
      → IsSound r.1.committed
      → IsSound (after_action server room request_id s r).world.committed
  unfolding after_action respond send_in
  after_action-IsSound server room request_id s (ok true, w) sound =
      subst (λ v. IsSound v.committed)
        (sym (respond_world server request_id true (send_status server room w s)))
        (send_status-IsSound server room w s sound)
  after_action-IsSound server room request_id s (ok false, w) sound = sound
  after_action-IsSound server room request_id s (err e, w) sound = sound

  serve-IsSound :
      (server : Server) (e : Served) (w : World)
      → IsSound w.committed
      → IsSound (serve server e w).committed
  unfolding serve on_message on_connect
  serve-IsSound server initialized w sound = initialize-IsSound server w sound
  serve-IsSound server (connected room_name s) w sound =
      send_status-IsSound server (room_name_of room_name) w s sound
  serve-IsSound server (received room none s) w sound = sound
  serve-IsSound server (received room (some q) s) w sound =
      after_action-IsSound server room q.request_id s _ (run_action-IsSound server room q w sound)
  serve-IsSound server (looped room s) w sound = send_status-IsSound server room w s sound

  pub serve_all-IsSound :
      (server : Server) (events : List Served) (w : World)
      → IsSound w.committed
      → IsSound (serve_all server events w).committed
  unfolding serve_all
  serve_all-IsSound server [] w sound = sound
  serve_all-IsSound server (e ∷ events) w sound =
      serve_all-IsSound server events (serve server e w) (serve-IsSound server e w sound)
