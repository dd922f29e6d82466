-- ===== src/Game/Addings.antt =====
-- What `addIsu` has written when it answers `true`.
use isucon7_final.Prelude.{ℕ, ◌≡◌, sym, ◌∙◌, ap, true, some}
use isucon7_final.Js.Digits.{Text}
use isucon7_final.Bigint.{Bigint}
use isucon7_final.Store.Tables.{Db, select_isu, insert_adding, update_isu}
use isucon7_final.Store.Session.{ok, Server, World}
use isucon7_final.Store.Success.{
  IfOk, IfOk->>=, IfOk-pure, IfOk-first_row, IfOk-query, IfOk-execute, IfOk-commit, IfOk-release,
}
use isucon7_final.Game.{add_isu_body, add_isu}
use isucon7_final.Game.Transactions.{update_room_time_lem, transaction_answer}

module _ (server : Server) (room : Text) ⦃B : Bigint⦄ where
  open B use {Big, of_string, to_string, add}

  -- What an adding has made of a database: the row of the room and the time, which is new or has
  -- been there, holds so much more.
  pub record IsAdded (req_isu : Big) (req_time : ℕ) (d d' : Db) : Type 0 where
    pub isu : Text
    pub was : select_isu room req_time (insert_adding room req_time d.adding) ≡ some isu
    pub written :
        d'.adding
        ≡ update_isu room req_time
            (to_string (add req_isu (of_string isu)))
            (insert_adding room req_time d.adding)
    pub same_buying : d'.buying ≡ d.buying
    pub same_items : d'.m_item ≡ d.m_item

  add_isu_body_lem :
      (req_isu : Big) (req_time : ℕ) (w : World)
      → IfOk
          (add_isu_body server room req_isu req_time)
          (λ _ w'. IsAdded req_isu req_time w.working w'.committed)
          w
  unfolding add_isu_body
  add_isu_body_lem req_isu req_time w =
      IfOk->>= _ _ _ _ _ (update_room_time_lem server room req_time w) λ _ w1 e1.
        IfOk->>= _ _ _ _ _ (IfOk-execute server _ w1) λ _ w2 e2.
          IfOk->>= _ _ _ _ _ (IfOk-query server _ w2) λ row w3 e3.
            IfOk->>= _ _ _ _ _ (IfOk-first_row row w3) λ isu w4 e4.
              IfOk->>= _ _ _ _ _ (IfOk-execute server _ w4) λ _ w5 e5.
                IfOk->>= _ _ _ _ _ (IfOk-commit server w5) λ _ w6 e6.
                  IfOk->>= _ _ _ _ _ (IfOk-release w6) λ _ w7 e7.
                    let inserted : w2.working.adding
                        ≡ insert_adding room req_time w.working.adding =
                      ap (λ d. d.adding) e2 ∙ ap (insert_adding room req_time) e1.1 in
                    let before = e4.1 ∙ e3.1 in
                    let last = e7 ∙ e6 ∙ e5 in
                    let same = before ∙ e2 in
                    IfOk-pure true _ w7 (record {
                      isu = isu;
                      was = ap (select_isu room req_time) (sym inserted) ∙ sym e3.0 ∙ e4.0;
                      written =
                          ap (λ d. d.adding) last
                          ∙ ap (update_isu room req_time (to_string (add req_isu (of_string isu))))
                              (ap (λ d. d.adding) before ∙ inserted);
                      same_buying = ap (λ d. d.buying) last ∙ ap (λ d. d.buying) same ∙ e1.2;
                      same_items = ap (λ d. d.m_item) last ∙ ap (λ d. d.m_item) same ∙ e1.0;
                    })

  -- When `addIsu` answers `true`, the row of the room and the time, made if it was missing, holds so
  -- much more than before, and what is committed is otherwise the same but for the times of rooms.
  pub add_isu-IsAdded :
      (req_isu : Big) (req_time : ℕ) (w : World)
      → (add_isu server room req_isu req_time w).0 ≡ ok true
      → IsAdded req_isu req_time w.committed (add_isu server room req_isu req_time w).1.committed
  unfolding add_isu
  add_isu-IsAdded req_isu req_time w h =
      transaction_answer server room (add_isu_body server room req_isu req_time)
        (λ d w'. IsAdded req_isu req_time d w'.committed) w (add_isu_body_lem req_isu req_time) h
