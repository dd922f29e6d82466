-- ===== src/Game/Paid.antt =====
-- The price of a purchase, as `buyItem` adds up the means of the room.
use isucon7_final.Prelude.{
  ℕ, ◌≡◌, refl, sym, ◌∙◌, ap, false, Option, none, some, List, [], ◌∷◌, ◌+◌,
}
use isucon7_final.Prelude.Int.{pos, ltb_ℤ}
use isucon7_final.Js.Digits.{Text}
use isucon7_final.Bigint.{Bigint}
use isucon7_final.MItem.{ItemRow, new_item, get_price}
use isucon7_final.Status.Types.{Buying}
use isucon7_final.Status.Start.{thousand, zero_isu}
use isucon7_final.Store.Tables.{Db, select_item, select_buyings, select_addings_until}
use isucon7_final.Store.Session.{Server, World}
use isucon7_final.Store.Success.{
  IfOk, IfOk->>=, IfOk-pure, IfOk-first_row, IfOk-query, IfOk-consequence,
}
use isucon7_final.Game.Transactions.{HasSameRows}
use isucon7_final.Game.{sum_buyings, settle, sum_addings}

module _ (server : Server) (room : Text) where
  module _ ⦃B : Bigint⦄ where
    open B use {Big, cmp, mul}

    -- What the loop over the buyings comes to, unless an item is missing.
    unfoldable pub paid_total : ℕ → List ItemRow → List Buying → Big → Option Big
    paid_total req_time items [] total = some total
    paid_total req_time items (b ∷ buyings) total = elim (select_item b.item_id items) [
      | none ↦ none
      | some row ↦
          paid_total req_time items buyings (settle server room req_time (new_item row) b total)
    ]

    pub paid_total-cons :
        (req_time : ℕ) (items : List ItemRow) (b : Buying) (buyings : List Buying) (total : Big)
        (row : ItemRow)
        → select_item b.item_id items ≡ some row
        → paid_total req_time items (b ∷ buyings) total
          ≡ paid_total req_time items buyings (settle server room req_time (new_item row) b total)
    unfolding paid_total
    paid_total-cons req_time items b buyings total row h = rw (h, paid_total)

    -- The item is in the master table, and what the code adds up is enough for its price.
    pub record IsPaid (item_id count_bought req_time : ℕ) (d : Db) : Type 0 where
      pub row : ItemRow
      pub listed : select_item item_id d.m_item ≡ some row
      pub total : Big
      pub adds_up :
          paid_total req_time d.m_item
            (select_buyings room d.buying)
            (sum_addings server room (select_addings_until room req_time d.adding) zero_isu)
          ≡ some total
      pub enough :
          ltb_ℤ (cmp total (mul (get_price (new_item row) (count_bought + 1)) thousand)) (pos 0)
          ≡ false

    -- The same of a database with the same rows.
    pub IsPaid-same :
        (item_id count_bought req_time : ℕ) (d d' : Db)
        → HasSameRows d d'
        → IsPaid item_id count_bought req_time d'
        → IsPaid item_id count_bought req_time d
    IsPaid-same item_id count_bought req_time d d' (items, addings, buyings) h = record {
      row = h.row;
      listed = ap (select_item item_id) (sym items) ∙ h.listed;
      total = h.total;
      adds_up =
          ap
            (λ m.
              paid_total req_time m (select_buyings room d.buying)
                (sum_addings server room (select_addings_until room req_time d.adding) zero_isu))
            (sym items)
          ∙ ap
              (λ a.
                paid_total req_time d'.m_item (select_buyings room d.buying)
                  (sum_addings server room (select_addings_until room req_time a) zero_isu))
              (sym addings)
          ∙ ap
              (λ b.
                paid_total req_time d'.m_item (select_buyings room b)
                  (sum_addings server room (select_addings_until room req_time d'.adding) zero_isu))
              (sym buyings)
          ∙ h.adds_up;
      enough = h.enough;
    }

    pub sum_buyings_lem :
        (req_time : ℕ) (buyings : List Buying) (total : Big) (w : World)
        → IfOk
            (sum_buyings server room req_time buyings total)
            (λ total' w'.
              (paid_total req_time w.working.m_item buyings total ≡ some total')
              × (w'.working ≡ w.working))
            w
    unfolding sum_buyings paid_total
    sum_buyings_lem req_time [] total w = IfOk-pure total _ w (refl, refl)
    sum_buyings_lem req_time (b ∷ buyings) total w =
        IfOk->>= _ _ _ _ _ (IfOk-query server _ w) λ row w1 e1.
          IfOk->>= _ _ _ _ _ (IfOk-first_row row w1) λ m_item w2 e2.
            IfOk-consequence _ _ _ w2 (sum_buyings_lem req_time buyings _ w2) λ total' w3 e3.
              let same = e2.1 ∙ e1.1 in
              (
                paid_total-cons req_time w.working.m_item b buyings total m_item (sym e1.0 ∙ e2.0)
                    ∙ ap
                        (λ d.
                          paid_total req_time d.m_item buyings
                            (settle server room req_time (new_item m_item) b total))
                        (sym same)
                    ∙ e3.0,
                e3.1 ∙ same,
              )
