-- ===== src/Game/Returned.antt =====
-- The connections that are out after any calls of the methods.
use isucon7_final.Prelude.{ℕ, ◌+◌, ◌≤◌, ◌≡◌, refl, false, List, [], ◌∷◌, arith}
use isucon7_final.Js.Digits.{Text}
use isucon7_final.Bigint.{Bigint}
use isucon7_final.Status.Types.{GameStatus}
use isucon7_final.Store.Tables.{Db, select_addings, select_buyings}
use isucon7_final.Store.Session.{type_error, Server, World, M, call, ◌>>=◌}
use isucon7_final.Store.Total.{
  Ensures, Ensures->>=, Ensures-pure, Ensures-or_throw, Ensures-handle, Ensures-call_or,
  Ensures-and, Ensures-weaken, Ensures-always,
}
use isucon7_final.Game.{get_current_time, get_status_body, get_status}
use isucon7_final.Game.Transactions.{HasSameRows}
use isucon7_final.Game.Statuses.{Holds, Failed, returned, update_room_time-Holds}
use isucon7_final.Game.Sound.{IsSound}
use isucon7_final.Game.Connections.Methods.{update_room_time_lem, add_isu_lem, buy_item_lem}
use isucon7_final.Game.Connections.{
  Ended, commit_lem, Owes, After, Thrown, same_counts, statement, release_lem, transaction_lem,
}
use isucon7_final.Game.Reachable.{
  Call, adding_call, buying_call, status_call, run_call, run_calls, run_call-IsSound,
}

module _ (server : Server) (g : ℕ) (room : Text) (c : Db) where
  -- A read of the open transaction.
  then_query :
      (n : ℕ) {A C : Type 0} (f : Db → A) (f' : A → M C) (P : C → World → Type 0) (w : World)
      → Holds server room c w × Owes server g n w
      → ((a : A) (w' : World)
          → (Holds server room c w' × Owes server g n w') × (a ≡ f w'.working)
          → Ensures (f' a) P (Thrown server g n) w')
      → Ensures (call server (λ now v. (f v.working, v)) >>= f') P (Thrown server g n) w
  then_query n f f' P w (h, o) k =
      Ensures->>= (Thrown server g n) _ f'
        (λ a w'. (Holds server room c w' × Owes server g n w') × (a ≡ f w'.working)) P w
        (Ensures-call_or (Thrown server g n) server _ _ w
          (λ fails. same_counts server g n w _ refl refl refl o)
          ((h, same_counts server g n w _ refl refl refl o), refl))
        k

  module _ ⦃B : Bigint⦄ where
    get_status_body_lem :
        (n : ℕ) (w : World)
        → IsSound c
        → Holds server room c w
        → Owes server g (n + 1) w
        → Ensures
            (get_status_body server room)
            (After server g GameStatus n)
            (Thrown server g (n + 1))
            w
    unfolding get_status_body get_current_time
    get_status_body_lem n w sound h o =
        let E = Thrown server g (n + 1) in
        Ensures->>= E _ _ (λ _ w'. Holds server room c w' × Owes server g (n + 1) w') _ w
          (Ensures-weaken _ _ _ _ E w
            (Ensures-and _ _ _ (Failed server room c) E w
              (update_room_time-Holds server room c w.calls w (h, refl))
              (update_room_time_lem server g room (n + 1) 0 w o))
            (λ _ w' p. (p.0.0.0, p.1)) (λ _ w' p. p.1))
          λ now w1 h1.
            then_query (n + 1) (λ d. d.m_item) _ _ w1 h1
              λ rows w2 (h2, items).
                then_query (n + 1) (λ d. select_addings room d.adding) _ _ w2 h2
                  λ addings w3 (h3, added).
                    then_query (n + 1) (λ d. select_buyings room d.buying) _ _ w3 h3
                      λ buyings w4 (h4, bought).
                        Ensures->>= E _ _ (Ended server g (n + 1)) _ w4
                          (commit_lem server g (n + 1) w4 h4.1)
                          λ _ w5 h5.
                            Ensures->>= E _ _ (λ _ w'. Owes server g n w') _ w5
                              (release_lem server g n w5 E h5)
                              λ _ w6 h6.
                                let (status, done, outcome) = returned server room c now sound in
                                Ensures->>= E _ _ (λ _ w'. Owes server g n w') _ w6
                                  (Ensures-or_throw E _ type_error status w6 _
                                    (rw (items, h2.0.0.0, added, h3.0.0.1, bought, h4.0.0.2) done)
                                    h6)
                                  λ s w7 h7.
                                    Ensures->>= E _ _ (λ _ w'. Owes server g n w') _ w7
                                      (Ensures-handle E _ _ (Thrown server g n)
                                        (λ _ w'. Owes server g n w') w7
                                        (statement server g n _ w7 (λ t v. (refl, refl, refl)) h7)
                                        (λ e w' h'. Ensures-pure E 0 _ w' h'))
                                      λ latest w8 h8.
                                        Ensures-pure E _ (After server g GameStatus n) w8 h8

    pub get_status_lem :
        (n : ℕ) (w : World)
        → IsSound c
        → HasSameRows c w.committed
        → Owes server g n w
        → Ensures (get_status server room) (After server g GameStatus n) (Thrown server g n) w
    unfolding get_status
    get_status_lem n w sound h o =
        transaction_lem server g room n (get_status_body server room) w o
          (λ w' (begun, kept) o'. get_status_body_lem n w' sound (rw (begun, kept) (h, h)) o')

module _ ⦃B : Bigint⦄ where
  run_call-Owes :
      (server : Server) (g : ℕ) (c : Call) (n : ℕ) (w : World)
      → IsSound w.committed
      → Owes server g n w
      → Owes server g n (run_call server c w)
  unfolding run_call
  run_call-Owes server g (adding_call room req_isu req_time) n w sound o =
      Ensures-always _ (Owes server g n) w (add_isu_lem server g room n req_isu req_time w o)
  run_call-Owes server g (buying_call room item_id count_bought req_time) n w sound o =
      Ensures-always _ (Owes server g n) w
        (buy_item_lem server g room n item_id count_bought req_time w o)
  run_call-Owes server g (status_call room) n w sound o =
      Ensures-always _ (Owes server g n) w
        (get_status_lem server g room w.committed n w sound (refl, refl, refl) o)

  run_calls-Owes :
      (server : Server) (g : ℕ) (calls : List Call) (n : ℕ) (w : World)
      → IsSound w.committed
      → Owes server g n w
      → Owes server g n (run_calls server calls w)
  unfolding run_calls
  run_calls-Owes server g [] n w sound o = o
  run_calls-Owes server g (c ∷ calls) n w sound o =
      run_calls-Owes server g calls n (run_call server c w) (run_call-IsSound server c w sound)
        (run_call-Owes server g c n w sound o)

  kept :
      (server : Server) (calls : List Call) (w : World)
      → IsSound w.committed
      → w.taken ≡ w.released
      → Owes server w.given_open 0 (run_calls server calls w)
  kept server calls w sound even = run_calls-Owes server w.given_open calls 0 w sound (record {
    at_least = omega (arith, even);
    at_most = λ calm. omega (arith, even);
    tidy = λ calm. refl;
  })

  -- From a database that the methods keep, with as many connections given back as taken: after any
  -- calls of the methods, whichever calls of the server fail, no more connections have been given
  -- back than taken.
  pub returned_once :
      (server : Server) (calls : List Call) (w : World)
      → IsSound w.committed
      → w.taken ≡ w.released
      → (let w' = run_calls server calls w in w'.released ≤ w'.taken)
  returned_once server calls w sound even =
      let end = kept server calls w sound even in omega (arith, end.at_least)

  -- From a database that the methods keep, with as many connections given back as taken: if no call
  -- of the server fails, then after any calls of the methods all connections that were taken have
  -- been given back.
  pub all_returned :
      (server : Server) (calls : List Call) (w : World)
      → ((k : ℕ) → server.fails k ≡ false)
      → IsSound w.committed
      → w.taken ≡ w.released
      → (let w' = run_calls server calls w in w'.taken ≡ w'.released)
  all_returned server calls w calm sound even =
      let end = kept server calls w sound even in omega (arith, end.at_least, end.at_most calm)

  -- From a database that the methods keep, with as many connections given back as taken: if no call
  -- of the server fails, then whatever methods are called, no connection is given back before its
  -- transaction has ended.
  pub all_ended :
      (server : Server) (calls : List Call) (w : World)
      → ((k : ℕ) → server.fails k ≡ false)
      → IsSound w.committed
      → w.taken ≡ w.released
      → (run_calls server calls w).given_open ≡ w.given_open
  all_ended server calls w calm sound even = (kept server calls w sound even).tidy calm
