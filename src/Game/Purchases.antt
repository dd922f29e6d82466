-- ===== src/Game/Purchases.antt =====
-- What `buyItem` has written when it answers `true`.
use isucon7_final.Prelude.{ℕ, ◌≡◌, sym, ◌∙◌, ap, true, false, [], ◌∷◌, ◌++◌, ◌+◌, ◌==◌, not, arith}
use isucon7_final.Prelude.Int.{pos, ltb_ℤ}
use isucon7_final.Js.Digits.{Text}
use isucon7_final.Bigint.{Bigint}
use isucon7_final.MItem.{new_item, get_price}
use isucon7_final.Status.Start.{thousand}
use isucon7_final.Store.Tables.{Db, count_buyings, has_buying, select_item}
use isucon7_final.Store.Session.{already_bought, not_enough, duplicate_key, ok, Server, World}
use isucon7_final.Store.Success.{
  IfOk, IfOk->>=, IfOk-pure, IfOk-first_row, IfOk-throw_if, IfOk-query, IfOk-execute, IfOk-commit,
  IfOk-release, IfOk-consequence,
}
use isucon7_final.Game.Transactions.{HasSameRows, update_room_time_lem, transaction_answer}
use isucon7_final.Game.{insert_buying, append_buying, buy_item_body, buy_item}
use isucon7_final.Game.Paid.{IsPaid, IsPaid-same, sum_buyings_lem}

-- What a purchase has made of a database.
abbrev pub IsBought : Text → (item_id count_bought req_time : ℕ) → Db → Db → Type 0
IsBought room item_id count_bought req_time d d' =
    (count_buyings room item_id d.buying ≡ count_bought)
    × (has_buying room item_id (count_bought + 1) d.buying ≡ false)
    × (d'.buying
        ≡ d.buying
          ++ record {
            room_name = room;
            item_id = item_id;
            ordinal = count_bought + 1;
            time = req_time;
          }
            ∷ [])
    × (d'.adding ≡ d.adding)
    × (d'.m_item ≡ d.m_item)

counted :
    (room : Text) (item_id count count_bought : ℕ) (d d' : Db)
    → d'.buying ≡ d.buying
    → count ≡ count_buyings room item_id d'.buying
    → not (count == count_bought) ≡ false
    → count_buyings room item_id d.buying ≡ count_bought
counted room item_id count count_bought d d' same e agrees =
    let equal : count ≡ count_bought = ground arith in
    ap (count_buyings room item_id) (sym same) ∙ sym e ∙ equal

module _ (server : Server) (room : Text) where
  module _ ⦃B : Bigint⦄ where
    open B use {Big, cmp, mul}

    insert_buying_lem :
        (item_id ordinal time : ℕ) (w : World)
        → IfOk
            (insert_buying server room item_id ordinal time)
            (λ _ w'.
              (has_buying room item_id ordinal w.working.buying ≡ false)
              × (w'.working ≡ append_buying server room item_id ordinal time w.working))
            w
    unfolding insert_buying
    insert_buying_lem item_id ordinal time w =
        IfOk->>= _ _ _ _ _ (IfOk-query server _ w) λ taken w1 e1.
          IfOk->>= _ _ _ _ _ (IfOk-throw_if taken duplicate_key w1) λ _ w2 e2.
            IfOk-consequence _ _ _ w2 (IfOk-execute server _ w2) λ _ w3 e3. (
              sym e1.0 ∙ e2.0,
              e3 ∙ ap (append_buying server room item_id ordinal time) (e2.1 ∙ e1.1),
            )

    append_buying-IsBought :
        (item_id count_bought req_time : ℕ) (d d' d'' : Db)
        → HasSameRows d d'
        → count_buyings room item_id d.buying ≡ count_bought
        → has_buying room item_id (count_bought + 1) d'.buying ≡ false
        → d'' ≡ append_buying server room item_id (count_bought + 1) req_time d'
        → IsBought room item_id count_bought req_time d d''
    unfolding append_buying
    append_buying-IsBought item_id count_bought req_time d d' d'' (items, addings, buyings) count
          free e =
        (
          count,
          ap (has_buying room item_id (count_bought + 1)) (sym buyings) ∙ free,
          ap (λ d. d.buying) e
              ∙ ap
                  (λ b.
                    b
                    ++ record {
                      room_name = room;
                      item_id = item_id;
                      ordinal = count_bought + 1;
                      time = req_time;
                    }
                      ∷ [])
                  buyings,
          ap (λ d. d.adding) e ∙ addings,
          ap (λ d. d.m_item) e ∙ items,
        )

    buy_item_body_lem :
        (item_id count_bought req_time : ℕ) (w : World)
        → IfOk
            (buy_item_body server room item_id count_bought req_time)
            (λ _ w'.
              IsBought room item_id count_bought req_time w.working w'.committed
              × IsPaid server room item_id count_bought req_time w.working)
            w
    unfolding buy_item_body
    buy_item_body_lem item_id count_bought req_time w =
        IfOk->>= _ _ _ _ _ (update_room_time_lem server room req_time w) λ _ w1 e1.
          IfOk->>= _ _ _ _ _ (IfOk-query server _ w1) λ count w2 e2.
            IfOk->>= _ _ _ _ _ (IfOk-throw_if (not (count == count_bought)) already_bought w2)
              λ _ w3 e3. IfOk->>= _ _ _ _ _ (IfOk-query server _ w3) λ addings w4 e4.
                IfOk->>= _ _ _ _ _ (IfOk-query server _ w4) λ buyings w5 e5.
                  IfOk->>= _ _ _ _ _ (sum_buyings_lem server room req_time buyings _ w5)
                    λ total w6 e6. IfOk->>= _ _ _ _ _ (IfOk-query server _ w6) λ row w7 e7.
                      IfOk->>= _ _ _ _ _ (IfOk-first_row row w7) λ m_item w8 e8.
                        IfOk->>= _ _ _ _ _
                          (IfOk-throw_if
                            (ltb_ℤ
                              (cmp total
                                (mul (get_price (new_item m_item) (count_bought + 1)) thousand))
                              (pos 0))
                            not_enough w8)
                          λ _ w9 e9.
                            IfOk->>= _ _ _ _ _
                              (insert_buying_lem item_id (count_bought + 1) req_time w9)
                              λ _ w10 e10. IfOk->>= _ _ _ _ _ (IfOk-commit server w10) λ _ w11 e11.
                                IfOk->>= _ _ _ _ _ (IfOk-release w11) λ _ w12 e12.
                                  let to_buyings = e4.1 ∙ e3.1 ∙ e2.1 in
                                  let to_row = e6.1 ∙ e5.1 ∙ to_buyings in
                                  let same = e9.1 ∙ e8.1 ∙ e7.1 ∙ to_row in
                                  let rows : HasSameRows w.working w9.working = (
                                    ap (λ d. d.m_item) same ∙ e1.0,
                                    ap (λ d. d.adding) same ∙ e1.1,
                                    ap (λ d. d.buying) same ∙ e1.2,
                                  ) in
                                  let paid : IsPaid server room item_id count_bought req_time
                                      w1.working =
                                    record {
                                      row = m_item;
                                      listed =
                                          ap (λ d. select_item item_id d.m_item) (sym to_row)
                                          ∙ sym e7.0
                                          ∙ e8.0;
                                      total = total;
                                      adds_up = cc;
                                      enough = e9.0;
                                    } in
                                  IfOk-pure true _ w12 (
                                    (append_buying-IsBought item_id count_bought req_time w.working
                                        w9.working w12.committed rows
                                        (counted room item_id count count_bought w.working
                                          w1.working e1.2 e2.0 e3.0)
                                        e10.0 (e12 ∙ e11 ∙ e10.1)),
                                    IsPaid-same server room item_id count_bought req_time w.working
                                        w1.working e1 paid,
                                  )

    -- What is true of the database when `buyItem` answers `true`.
    buy_item_lem :
        (item_id count_bought req_time : ℕ) (w : World)
        → (buy_item server room item_id count_bought req_time w).0 ≡ ok true
        → IsBought room item_id count_bought req_time w.committed
            (buy_item server room item_id count_bought req_time w).1.committed
          × IsPaid server room item_id count_bought req_time w.committed
    unfolding buy_item
    buy_item_lem item_id count_bought req_time w h =
        transaction_answer server room (buy_item_body server room item_id count_bought req_time)
          (λ d w'.
            IsBought room item_id count_bought req_time d w'.committed
            × IsPaid server room item_id count_bought req_time d)
          w (buy_item_body_lem item_id count_bought req_time) h

    -- When `buyItem` answers `true`, what was committed before held as many purchases of the item as
    -- the request said and none with the next ordinal; and what is committed now has that purchase
    -- as its last row, and is otherwise the same but for the times of rooms.
    pub buy_item-IsBought :
        (item_id count_bought req_time : ℕ) (w : World)
        → (buy_item server room item_id count_bought req_time w).0 ≡ ok true
        → IsBought room item_id count_bought req_time w.committed
            (buy_item server room item_id count_bought req_time w).1.committed
    buy_item-IsBought item_id count_bought req_time w h =
        (buy_item_lem item_id count_bought req_time w h).0

    pub buy_item-IsPaid :
        (item_id count_bought req_time : ℕ) (w : World)
        → (buy_item server room item_id count_bought req_time w).0 ≡ ok true
        → IsPaid server room item_id count_bought req_time w.committed
    buy_item-IsPaid item_id count_bought req_time w h =
        (buy_item_lem item_id count_bought req_time w h).1
