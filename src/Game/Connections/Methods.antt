-- ===== src/Game/Connections/Methods.antt =====
-- The connections that each method that writes takes and gives back.
use isucon7_final.Prelude.{ℕ, ◌+◌, refl, Bool, true, false, List, [], ◌∷◌}
use isucon7_final.Js.Digits.{Text}
use isucon7_final.Bigint.{Bigint}
use isucon7_final.Status.Types.{Buying}
use isucon7_final.Store.Session.{
  room_time_is_future, req_time_is_past, already_bought, not_enough, duplicate_key, Server, World,
  M, pure, release, commit, handle, ◌>>=◌,
}
use isucon7_final.Store.Total.{Ensures, Ensures->>=, Ensures-pure, Ensures-handle}
use isucon7_final.Game.{
  update_room_time, transaction, add_isu_body, add_isu, sum_buyings, insert_buying, buy_item_body,
  buy_item,
}
use isucon7_final.Game.Connections.{
  Ended, commit_lem, Owes, After, Thrown, statement, release_lem, then_statement, then_first_row,
  then_throw_if, then_any, transaction_lem,
}

module _ (server : Server) (g : ℕ) (room : Text) where
  pub update_room_time_lem :
      (n req_time : ℕ) (w : World)
      → Owes server g n w
      → Ensures (update_room_time server room req_time) (After server g ℕ n) (Thrown server g n) w
  unfolding update_room_time
  update_room_time_lem n req_time w h =
      then_statement server g n _ _ _ w (λ t v. (refl, refl, refl)) h
        λ _ w1 h1.
          then_statement server g n _ _ _ w1 (λ t v. (refl, refl, refl)) h1
            λ row w2 h2. then_first_row server g n row _ _ w2 h2 λ time w3 h3.
              then_statement server g n _ _ _ w3 (λ t v. (refl, refl, refl)) h3
                λ now w4 h4. then_throw_if server g n _ room_time_is_future _ _ w4 h4 λ _ w5 h5.
                  then_throw_if server g n _ req_time_is_past _ _ w5 h5 λ _ w6 h6.
                    then_statement server g n _ _ _ w6 (λ t v. (refl, refl, refl)) h6
                      λ _ w7 h7. Ensures-pure (Thrown server g n) now (After server g ℕ n) w7 h7

  -- `commit`, `release` and the answer, which end the methods that write.
  finish :
      (n : ℕ) (w : World)
      → Owes server g (n + 1) w
      → Ensures
          (commit server >>= λ _. release >>= λ _. pure true)
          (After server g Bool n)
          (Thrown server g (n + 1))
          w
  finish n w h =
      Ensures->>= (Thrown server g (n + 1)) _ _ (Ended server g (n + 1)) _ w
        (commit_lem server g (n + 1) w h)
        λ _ w1 h1.
          Ensures->>= (Thrown server g (n + 1)) release _ (After server g (Unit {0}) n) _ w1
            (release_lem server g n w1 (Thrown server g (n + 1)) h1)
            λ _ w2 h2. Ensures-pure (Thrown server g (n + 1)) true (After server g Bool n) w2 h2

  -- `catch (e) { return false }`
  caught :
      (n : ℕ) (body : M Bool) (w : World)
      → Owes server g n w
      → ((w' : World)
          → Owes server g (n + 1) w'
          → Ensures body (After server g Bool n) (Thrown server g (n + 1)) w')
      → Ensures
          (handle (transaction server room body) (λ e. pure false))
          (After server g Bool n)
          (Thrown server g n)
          w
  caught n body w h k =
      Ensures-handle (Thrown server g n) _ _ (Thrown server g n) (After server g Bool n) w
        (transaction_lem server g room n body w h (λ w' begun h'. k w' h'))
        (λ e w' h'. Ensures-pure (Thrown server g n) false (After server g Bool n) w' h')

  module _ ⦃B : Bigint⦄ where
    open B use {Big}

    add_isu_body_lem :
        (n : ℕ) (req_isu : Big) (req_time : ℕ) (w : World)
        → Owes server g (n + 1) w
        → Ensures
            (add_isu_body server room req_isu req_time)
            (After server g Bool n)
            (Thrown server g (n + 1))
            w
    unfolding add_isu_body
    add_isu_body_lem n req_isu req_time w h =
        then_any server g (n + 1) _ _ _ w (update_room_time_lem (n + 1) req_time w h) λ _ w1 h1.
          then_statement server g (n + 1) _ _ _ w1 (λ t v. (refl, refl, refl)) h1
            λ _ w2 h2.
              then_statement server g (n + 1) _ _ _ w2 (λ t v. (refl, refl, refl)) h2
                λ row w3 h3. then_first_row server g (n + 1) row _ _ w3 h3 λ isu w4 h4.
                  then_statement server g (n + 1) _ _ _ w4 (λ t v. (refl, refl, refl)) h4
                    λ _ w5 h5. finish n w5 h5

    sum_buyings_lem :
        (n req_time : ℕ) (buyings : List Buying) (total : Big) (w : World)
        → Owes server g n w
        → Ensures
            (sum_buyings server room req_time buyings total)
            (After server g Big n)
            (Thrown server g n)
            w
    unfolding sum_buyings
    sum_buyings_lem n req_time [] total w h =
        Ensures-pure (Thrown server g n) total (After server g Big n) w h
    sum_buyings_lem n req_time (b ∷ buyings) total w h =
        then_statement server g n _ _ _ w (λ t v. (refl, refl, refl)) h
          λ row w1 h1.
            then_first_row server g n row _ _ w1 h1
              λ m_item w2 h2. sum_buyings_lem n req_time buyings _ w2 h2

    insert_buying_lem :
        (n item_id ordinal time : ℕ) (w : World)
        → Owes server g n w
        → Ensures
            (insert_buying server room item_id ordinal time)
            (After server g (Unit {0}) n)
            (Thrown server g n)
            w
    unfolding insert_buying
    insert_buying_lem n item_id ordinal time w h =
        then_statement server g n _ _ _ w (λ t v. (refl, refl, refl)) h
          λ used w1 h1.
            then_throw_if server g n used duplicate_key _ _ w1 h1
              λ _ w2 h2. statement server g n _ w2 (λ t v. (refl, refl, refl)) h2

    buy_item_body_lem :
        (n item_id count_bought req_time : ℕ) (w : World)
        → Owes server g (n + 1) w
        → Ensures
            (buy_item_body server room item_id count_bought req_time)
            (After server g Bool n)
            (Thrown server g (n + 1))
            w
    unfolding buy_item_body
    buy_item_body_lem n item_id count_bought req_time w h =
        then_any server g (n + 1) _ _ _ w (update_room_time_lem (n + 1) req_time w h) λ _ w1 h1.
          then_statement server g (n + 1) _ _ _ w1 (λ t v. (refl, refl, refl)) h1
            λ count w2 h2. then_throw_if server g (n + 1) _ already_bought _ _ w2 h2 λ _ w3 h3.
              then_statement server g (n + 1) _ _ _ w3 (λ t v. (refl, refl, refl)) h3
                λ addings w4 h4.
                  then_statement server g (n + 1) _ _ _ w4 (λ t v. (refl, refl, refl)) h4
                    λ buyings w5 h5.
                      then_any server g (n + 1) _ _ _ w5
                        (sum_buyings_lem (n + 1) req_time buyings _ w5 h5)
                        λ total w6 h6.
                          then_statement server g (n + 1) _ _ _ w6 (λ t v. (refl, refl, refl)) h6
                            λ row w7 h7.
                              then_first_row server g (n + 1) row _ _ w7 h7 λ m_item w8 h8.
                                then_throw_if server g (n + 1) _ not_enough _ _ w8 h8 λ _ w9 h9.
                                  then_any server g (n + 1) _ _ _ w9
                                    (insert_buying_lem (n + 1) item_id (count_bought + 1) req_time
                                      w9 h9)
                                    λ _ w10 h10. finish n w10 h10

    pub add_isu_lem :
        (n : ℕ) (req_isu : Big) (req_time : ℕ) (w : World)
        → Owes server g n w
        → Ensures
            (add_isu server room req_isu req_time)
            (After server g Bool n)
            (Thrown server g n)
            w
    unfolding add_isu
    add_isu_lem n req_isu req_time w h =
        caught n _ w h (λ w' h'. add_isu_body_lem n req_isu req_time w' h')

    pub buy_item_lem :
        (n item_id count_bought req_time : ℕ) (w : World)
        → Owes server g n w
        → Ensures
            (buy_item server room item_id count_bought req_time)
            (After server g Bool n)
            (Thrown server g n)
            w
    unfolding buy_item
    buy_item_lem n item_id count_bought req_time w h =
        caught n _ w h (λ w' h'. buy_item_body_lem n item_id count_bought req_time w' h')
