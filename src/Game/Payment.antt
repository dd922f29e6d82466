-- ===== src/Game/Payment.antt =====
-- A purchase is made only if the room can pay for it: what `buyItem` adds up is the account of the
-- room.
use mathlib.Core.Path.{ap₂}
use isucon7_final.Prelude.{
  ℕ, ◌+◌, ◌-◌, ◌*◌, ◌≡◌, refl, sym, ◌∙◌, ap, Bool, true, false, none, some, List, [], ◌∷◌, arith,
  leb, if◌then◌else◌, Bool-cases, Option-cases, inl, inr,
}
use isucon7_final.Prelude.Int.{ℤ, pos, ◌+ℤ◌, ◌-ℤ◌, ltb_ℤ, leb_ℤ, *ℤ-pos, int_laws}
use isucon7_final.Js.Digits.{Text}
use isucon7_final.Js.Object.{Object, get}
use isucon7_final.Bigint.{Bigint}
use isucon7_final.MItem.{ItemRow, MItem, new_item, get_price}
use isucon7_final.MItem.Formula.{price_of, power_of, val-get_price}
use isucon7_final.Status.Types.{Buying}
use isucon7_final.Status.Start.{thousand, zero_isu}
use isucon7_final.Status.Balance.{
  zero-+ℤ, balance, earned, amount, produced, spent, price_paid, power_bought,
}
use isucon7_final.Status.Counting.{rows_of, val-thousand, val-zero_isu, val-credit}
use isucon7_final.Status.Counting.Buyings.{val-paid, val-gain}
use isucon7_final.Status.Sales.{is_affordable}
use isucon7_final.Store.Tables.{
  Db, AddingRow, BuyingRow, text_eq, select_addings, select_addings_until, select_buyings,
  count_buyings, select_item,
}
use isucon7_final.Store.Session.{Server, World, ok}
use isucon7_final.Game.{build_items, sum_addings, settle, buy_item}
use isucon7_final.Game.Items.{IsKeyed, build_items-select_item}
use isucon7_final.Game.Purchases.{buy_item-IsPaid, buy_item-IsBought}
use isucon7_final.Game.Paid.{paid_total, paid_total-cons}

-- The rows of an item, counted by the database and by the account.
pub rows_of-select_buyings :
    (room : Text) (id : ℕ) (rows : List BuyingRow)
    → rows_of id (select_buyings room rows) ≡ count_buyings room id rows
unfolding rows_of select_buyings count_buyings
rows_of-select_buyings room id [] = refl
rows_of-select_buyings room id (r ∷ rows) = ground (arith, rows_of-select_buyings room id rows)

module _ (server : Server) (room : Text) ⦃B : Bigint⦄ where
  open B use {Big, val, cmp, cmp-lt, mul, val-mul}

  zero_left : (z y : ℤ) → z +ℤ (pos 0 +ℤ y) ≡ z +ℤ y
  zero_left z y = omega int_laws

  regroup : (x y z : ℤ) → x +ℤ y +ℤ z ≡ x +ℤ (y +ℤ z)
  regroup x y z = omega int_laws

  val-sum_addings :
      (t : ℕ) (rows : List AddingRow) (total : Big)
      → val (sum_addings server room (select_addings_until room t rows) total)
        ≡ val total +ℤ earned t (select_addings room rows)
  unfolding sum_addings select_addings_until select_addings earned
  val-sum_addings t [] total = omega int_laws
  val-sum_addings t (r ∷ rows) total = elim (Bool-cases (text_eq room r.room_name)) [
    | inl here ↦ elim (Bool-cases (leb r.time t)) [
      | inl come ↦
          rw (here, come)
            (val-sum_addings t rows _
              ∙ ap (λ z. z +ℤ earned t (select_addings room rows))
                  (val-credit total (record { time = r.time; isu = r.isu }))
              ∙ regroup (val total) (amount (record { time = r.time; isu = r.isu }))
                  (earned t (select_addings room rows)))
      | inr later ↦
          rw (here, later)
            (val-sum_addings t rows total
              ∙ sym (zero_left (val total) (earned t (select_addings room rows))))
    ]
    | inr elsewhere ↦ rw elsewhere (val-sum_addings t rows total)
  ]

  -- Each item that is selected is the one that `getStatus` works with.
  abbrev Agrees : Object MItem → List ItemRow → Type 0
  Agrees items rows =
      (id : ℕ) (row : ItemRow) → select_item id rows ≡ some row → get id items ≡ some (new_item row)

  price_known :
      (items : Object MItem) (b : Buying) (m : MItem)
      → get b.item_id items ≡ some m
      → price_paid items b ≡ price_of m b.ordinal
  price_known items b m known =
      ap (λ o. elim o as (λ x. ℕ) [ none ↦ 0 | some m' ↦ price_of m' b.ordinal ]) known

  power_known :
      (items : Object MItem) (b : Buying) (m : MItem)
      → get b.item_id items ≡ some m
      → power_bought items b ≡ power_of m b.ordinal
  power_known items b m known =
      ap (λ o. elim o as (λ x. ℕ) [ none ↦ 0 | some m' ↦ power_of m' b.ordinal ]) known

  swapped : (v : ℤ) (p q : ℕ) → v -ℤ pos q +ℤ pos p ≡ v +ℤ pos p -ℤ pos q
  swapped v p q = omega int_laws

  nothing_gained : (v q : ℤ) → v -ℤ q ≡ v +ℤ pos 0 -ℤ q
  nothing_gained v q = omega int_laws

  val-settle :
      (t : ℕ) (items : Object MItem) (b : Buying) (m : MItem) (total : Big)
      → get b.item_id items ≡ some m
      → val (settle server room t m b total)
        ≡ val total
          +ℤ pos (if leb b.time t then power_bought items b * (t - b.time) else 0)
          -ℤ pos (price_paid items b * 1000)
  unfolding settle
  val-settle t items b m total known = elim (Bool-cases (leb b.time t)) [
    | inl come ↦ rw come (
        val-gain _ m b.ordinal (t - b.time)
        ∙ ap (λ z. z +ℤ pos (power_of m b.ordinal * (t - b.time))) (val-paid total m b.ordinal)
        ∙ swapped (val total) (power_of m b.ordinal * (t - b.time)) (price_of m b.ordinal * 1000)
        ∙ ap₂ (λ p q. val total +ℤ pos (p * (t - b.time)) -ℤ pos (q * 1000))
            (sym (power_known items b m known)) (sym (price_known items b m known)))
    | inr later ↦ rw later (
        val-paid total m b.ordinal
        ∙ ap (λ q. val total -ℤ pos (q * 1000)) (sym (price_known items b m known))
        ∙ nothing_gained (val total) (pos (price_paid items b * 1000)))
  ]

  sum_up :
      (v : ℤ) (p c ps cs : ℕ)
      → v +ℤ pos p -ℤ pos c +ℤ pos ps -ℤ pos cs ≡ v +ℤ pos (p + ps) -ℤ pos (c + cs)
  sum_up v p c ps cs = omega int_laws

  val-paid_total :
      (t : ℕ) (items : Object MItem) (rows : List ItemRow) (buyings : List Buying) (total r : Big)
      → Agrees items rows
      → paid_total server room t rows buyings total ≡ some r
      → val r ≡ val total +ℤ pos (produced items t buyings) -ℤ pos (spent items buyings)
  unfolding paid_total produced spent
  val-paid_total t items rows [] total r agrees h =
      let e : total ≡ r = ground arith in rw (sym e) (omega int_laws)
  val-paid_total t items rows (b ∷ buyings) total r agrees h =
      elim (Option-cases (select_item b.item_id rows)) [
        | inl missing ↦ absurd (ground (arith, missing))
        | inr (row, listed) ↦
            let more : paid_total server room t rows buyings
                  (settle server room t (new_item row) b total)
                ≡ some r =
              sym (paid_total-cons server room t rows b buyings total row listed) ∙ h in
            val-paid_total t items rows buyings _ r agrees more
            ∙ ap (λ z. z +ℤ pos (produced items t buyings) -ℤ pos (spent items buyings))
                (val-settle t items b (new_item row) total (agrees b.item_id row listed))
            ∙ sum_up (val total) _ (price_paid items b * 1000) (produced items t buyings)
                (spent items buyings)
      ]

  paid_balance :
      (t : ℕ) (d : Db) (total : Big)
      → IsKeyed d.m_item
      → paid_total server room t d.m_item
          (select_buyings room d.buying)
          (sum_addings server room (select_addings_until room t d.adding) zero_isu)
        ≡ some total
      → val total
        ≡ balance
            (build_items d.m_item [])
            t
            (select_addings room d.adding)
            (select_buyings room d.buying)
  unfolding balance
  paid_balance t d total keyed h =
      let items = build_items d.m_item [] in
      let buyings = select_buyings room d.buying in
      val-paid_total t items d.m_item buyings _ total
        (λ id row listed. build_items-select_item id d.m_item [] row keyed listed) h
      ∙ ap (λ z. z +ℤ pos (produced items t buyings) -ℤ pos (spent items buyings))
          (val-sum_addings t d.adding zero_isu
            ∙ ap (λ z. z +ℤ earned t (select_addings room d.adding)) val-zero_isu
            ∙ zero-+ℤ (earned t (select_addings room d.adding)))

  enough-affordable :
      (total : Big) (m : MItem) (x : ℕ) (v : ℤ)
      → val total ≡ v
      → ltb_ℤ (cmp total (mul (get_price m x) thousand)) (pos 0) ≡ false
      → leb_ℤ (pos (price_of m x * 1000)) v ≡ true
  enough-affordable total m x v e h =
      let need : val (mul (get_price m x) thousand) ≡ pos (price_of m x * 1000) =
        rw (val-mul, val-get_price, val-thousand) (*ℤ-pos (price_of m x) 1000) in
      let h' : ltb_ℤ v (pos (price_of m x * 1000)) ≡ false =
        sym (cmp-lt total (mul (get_price m x) thousand) ∙ ap₂ ltb_ℤ e need) ∙ h in
      ground arith

  -- Where no two items have the same number: when `buyItem` answers `true`, the account of the room
  -- held the price of the purchase at the time of the request, all purchases made before being paid.
  pub buy_item-is_affordable :
      (item_id count_bought req_time : ℕ) (w : World)
      → IsKeyed w.committed.m_item
      → (buy_item server room item_id count_bought req_time w).0 ≡ ok true
      → is_affordable
          (build_items w.committed.m_item [])
          (select_addings room w.committed.adding)
          (select_buyings room w.committed.buying)
          item_id
          req_time
        ≡ true
  buy_item-is_affordable item_id count_bought req_time w keyed h =
      let d = w.committed in
      let items = build_items d.m_item [] in
      let addings = select_addings room d.adding in
      let buyings = select_buyings room d.buying in
      let paid = buy_item-IsPaid server room item_id count_bought req_time w h in
      let m = new_item paid.row in
      let known : get item_id items ≡ some m =
        build_items-select_item item_id d.m_item [] paid.row keyed paid.listed in
      let count : rows_of item_id buyings ≡ count_bought =
        rows_of-select_buyings room item_id d.buying
        ∙ (buy_item-IsBought server room item_id count_bought req_time w h).0 in
      ap
        (λ o. elim o as (λ x. Bool) [
          | none ↦ false
          | some n ↦
              leb_ℤ (pos (price_of n (rows_of item_id buyings + 1) * 1000))
                (balance items req_time addings buyings)
        ])
        known
      ∙ ap (λ k. leb_ℤ (pos (price_of m (k + 1) * 1000)) (balance items req_time addings buyings))
          count
      ∙ enough-affordable paid.total m (count_bought + 1) (balance items req_time addings buyings)
          (paid_balance req_time d paid.total keyed paid.adds_up) paid.enough
