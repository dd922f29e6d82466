-- ===== src/Web/Handler/Answers.antt =====
-- What is sent for a request, and what a negative answer says of the database.
use isucon7_final.Prelude.{
  Option, none, ◌∙◌, ◌≡◌, refl, ap, inl, inr, Bool, true, false, some, List, [], ◌∷◌, ◌++◌,
}
use mathlib.Core.List.{append_assoc}
use isucon7_final.Js.Digits.{Text}
use isucon7_final.Bigint.{Bigint}
use isucon7_final.Status.Types.{GameStatus}
use isucon7_final.Store.Session.{Error, type_error, Result, ok, err, Server, World}
use isucon7_final.Game.{get_status}
use isucon7_final.Game.Atomic.{DoneOrUnchanged, add_isu-DoneOrUnchanged, buy_item-DoneOrUnchanged}
use isucon7_final.Web.Handler.{
  Action, add_isu_action, buy_item_action, other_action, Request, Reply, status_reply, response,
  open_state, Socket, send, Handled, run_action, amount_of, add_amount, send_in, after_status,
  send_status, respond, after_action, on_message,
}

-- A socket that is open and can be written to.
abbrev pub open_socket : List Reply → Socket
open_socket before = record { ready = open_state; sent = before; can_write = true }

module _ ⦃B : Bigint⦄ (server : Server) (room : Text) where
  open B use {Big}

  -- What `run_action` comes to: a method has run, or `bigint(isu)` threw before anything was done.
  data Acted (q : Request) (w : World) (r : Result Bool × World) : Type 0 where
    ran : DoneOrUnchanged w r → Acted q w r
    threw :
        q.action ≡ add_isu_action
        → amount_of server q.isu ≡ none
        → r ≡ (err type_error, w)
        → Acted q w r

  run_action-Acted : (q : Request) (w : World) → Acted q w (run_action server room q w)
  unfolding run_action
  run_action-Acted q w = go q.action refl
    where
      add_up :
          (o : Option Big)
          → q.action ≡ add_isu_action
          → amount_of server q.isu ≡ o
          → Acted q w (add_amount server room q.time o w)
      add_up none e k = threw e k refl
      add_up (some amount) e k = ran (add_isu-DoneOrUnchanged server room amount q.time w)

      go :
          (a : Action)
          → q.action ≡ a
          → Acted q w (run_action server room (record q { action = a }) w)
      go add_isu_action e = add_up (amount_of server q.isu) e refl
      go buy_item_action e = ran (buy_item-DoneOrUnchanged server room q.item_id _ q.time w)
      go other_action e = ran (inr (refl, refl))

  -- How a request has been dealt with on an open socket.
  pub data Answered (q : Request) (w : World) (before : List Reply) (h : Handled) : Type 0 where
    -- Done: first the status that `getStatus` then returns, then the answer.
    agreed :
        (gs : GameStatus)
        → (run_action server room q w).0 ≡ ok true
        → get_status server room (run_action server room q w).1 ≡ (ok gs, h.world)
        → h.outcome ≡ ok tt
        → h.socket.sent ≡ before ++ status_reply gs ∷ response q.request_id true ∷ []
        → Answered q w before h
    -- Not done: the answer alone, and nothing is committed.
    denied :
        h.outcome ≡ ok tt
        → h.socket.sent ≡ before ++ response q.request_id false ∷ []
        → h.world.committed ≡ w.committed
        → Answered q w before h
    -- Done, but `getStatus` throws: nothing is sent.
    unanswered :
        (e : Error)
        → (run_action server room q w).0 ≡ ok true
        → get_status server room (run_action server room q w).1 ≡ (err e, h.world)
        → h.outcome ≡ err e
        → h.socket.sent ≡ before
        → Answered q w before h
    -- The isu of an adding is missing or no integer: nothing is done, and nothing is sent.
    refused :
        q.action ≡ add_isu_action
        → amount_of server q.isu ≡ none
        → h.outcome ≡ err type_error
        → h.socket.sent ≡ before
        → h.world ≡ w
        → Answered q w before h

  -- Every request on an open socket that can be written to is dealt with in one of four ways: it is
  -- done, and the status that `getStatus` then returns and a positive answer are sent; or it is not,
  -- a negative answer is sent and nothing is committed; or it is done, `getStatus` throws, and
  -- nothing is sent; or it is an adding of no integer, nothing is done and nothing is sent.
  pub on_message-Answered :
      (q : Request) (w : World) (before : List Reply)
      → Answered q w before (on_message server room (some q) w (open_socket before))
  unfolding on_message after_action respond send_in send after_status send_status
  on_message-Answered q w before = go (run_action server room q w) refl (run_action-Acted q w)
    where
      shown :
          (w1 : World) (r : Result GameStatus × World)
          → get_status server room w1 ≡ r
          → run_action server room q w ≡ (ok true, w1)
          → Answered q w before
              (respond server q.request_id true (after_status server (open_socket before) r))
      shown w1 (ok gs, w') read done =
          agreed gs (ap (λ r. r.0) done) (ap (λ r. get_status server room r.1) done ∙ read) refl
            (append_assoc before _ _)
      shown w1 (err x, w') read done =
          unanswered x (ap (λ r. r.0) done) (ap (λ r. get_status server room r.1) done ∙ read) refl
            refl

      go :
          (r : Result Bool × World)
          → run_action server room q w ≡ r
          → Acted q w r
          → Answered q w before (after_action server room q.request_id (open_socket before) r)
      go (ok true, w') e h = shown w' (get_status server room w') refl e
      go (ok false, w') e (ran (inr (f, same))) = denied refl refl same
      go (ok false, w') e (ran (inl wrong)) = absurd (cc)
      go (ok false, w') e (threw a k wrong) = absurd (cc)
      go (err x, w') e (ran (inl wrong)) = absurd (cc)
      go (err x, w') e (ran (inr (wrong, same))) = absurd (cc)
      go (err x, w') e (threw a k h) =
          refused a k (ap (λ r. elim r.0 [ ok b ↦ ok tt | err y ↦ err y ]) h) refl (ap (λ r. r.1) h)
