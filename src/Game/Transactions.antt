-- ===== src/Game/Transactions.antt =====
-- What the transactions of the methods have in common.
use isucon7_final.Prelude.{
  ℕ, ◌≡◌, refl, subst, ◌∙◌, ap, Bool, true, false, ltb, ◌==◌, not, ◌&&◌, arith,
}
use isucon7_final.Js.Digits.{Text}
use isucon7_final.Store.Tables.{Db}
use isucon7_final.Store.Session.{
  Error, room_time_is_future, req_time_is_past, ok, M, Server, World, handle, pure,
}
use isucon7_final.Store.Success.{
  IfOk, IfOk->>=, IfOk-pure, IfOk-throw, IfOk-first_row, IfOk-throw_if, IfOk-handle, IfOk-query,
  IfOk-execute, IfOk-read_clock, IfOk-call, IfOk-answer, IfOk-release, IfOk-get_connection,
  IfOk-begin_transaction, IfOk-consequence,
}
use isucon7_final.Game.{update_room_time, undo, transaction}

-- Two databases that differ in the times of rooms at most.
abbrev pub HasSameRows : Db → Db → Type 0
HasSameRows d d' = (d'.m_item ≡ d.m_item) × (d'.adding ≡ d.adding) × (d'.buying ≡ d.buying)

module _ (server : Server) (room : Text) where
  pub update_room_time_lem :
      (req_time : ℕ) (w : World)
      → IfOk (update_room_time server room req_time) (λ _ w'. HasSameRows w.working w'.working) w
  unfolding update_room_time
  update_room_time_lem req_time w = IfOk->>= _ _ _ _ _ (IfOk-execute server _ w) λ _ w1 e1.
      IfOk->>= _ _ _ _ _ (IfOk-query server _ w1) λ row w2 e2.
        IfOk->>= _ _ _ _ _ (IfOk-first_row row w2) λ time w3 e3.
          IfOk->>= _ _ _ _ _ (IfOk-read_clock server w3) λ current_time w4 e4.
            IfOk->>= _ _ _ _ _ (IfOk-throw_if (ltb current_time time) room_time_is_future w4)
              λ _ w5 e5.
                IfOk->>= _ _ _ _ _
                  (IfOk-throw_if (not (req_time == 0) && ltb req_time current_time) req_time_is_past
                    w5)
                  λ _ w6 e6. IfOk->>= _ _ _ _ _ (IfOk-execute server _ w6) λ _ w7 e7.
                    IfOk-pure current_time _ w7 (
                      let e = e6.1 ∙ e5.1 ∙ e4 ∙ e3.1 ∙ e2.1 ∙ e1 in
                      (
                        ap (λ d. d.m_item) e7 ∙ ap (λ d. d.m_item) e,
                        ap (λ d. d.adding) e7 ∙ ap (λ d. d.adding) e,
                        ap (λ d. d.buying) e7 ∙ ap (λ d. d.buying) e,
                      ))

  undo_lem : (e : Error) (P : Bool → World → Type 0) (w : World) → IfOk (undo server room e) P w
  unfolding undo
  undo_lem e P w =
      IfOk->>= _ _ (λ _ _. Unit {0}) _ _ (IfOk-call server _ _ w tt)
        λ _ w1 e1. IfOk->>= _ _ _ _ _ (IfOk-release w1) λ _ w2 e2. IfOk-throw e P w2

  -- A transaction that is answered `true` has done what its body does to what was committed before.
  pub transaction_answer :
      (body : M Bool) (Done : Db → World → Type 0) (w : World)
      → ((w1 : World) → IfOk body (λ _ w'. Done w1.working w') w1)
      → (handle (transaction server room body) (λ e. pure false) w).0 ≡ ok true
      → Done w.committed (handle (transaction server room body) (λ e. pure false) w).1
  unfolding transaction
  transaction_answer body Done w does h =
      IfOk-answer _ Answer w true
        (IfOk-handle _ _ Answer w (IfOk-consequence _ _ _ w transaction_lem (λ b w' e _. e))
          (λ e w'. IfOk-pure false Answer w' (λ wrong. absurd (ground arith))))
        h refl
    where
      Answer : Bool → World → Type 0
      Answer b w' = b ≡ true → Done w.committed w'

      transaction_lem : IfOk (transaction server room body) (λ _ w'. Done w.committed w') w
      transaction_lem = IfOk->>= _ _ _ _ _ (IfOk-get_connection server w) λ _ w1 e1.
          IfOk->>= _ _ _ _ _ (IfOk-begin_transaction server w1) λ _ w2 e2.
            IfOk-handle _ _ _ w2
              (IfOk-consequence _ _ _ w2 (does w2) (λ b w' e. subst (λ d. Done d w') (e2 ∙ e1) e))
              (λ e w'. undo_lem e _ w')
