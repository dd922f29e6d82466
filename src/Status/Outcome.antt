-- ===== src/Status/Outcome.antt =====
-- What `calcStatus` returns on consistent tables, as it can be read from its result.
use mathlib.Core.Path.{ap₂}
use isucon7_final.Prelude.{
  ℕ, ◌+◌, ◌≡◌, refl, ◌∙◌, ap, inl, inr, true, Option, none, some, List, [], ◌∷◌, map, arith, All,
  is_some, get_or, ◌==◌, if◌then◌else◌, Bool-cases, Option-cases, Returns,
}
use isucon7_final.Prelude.Int.{pos}
use isucon7_final.Js.Object.{Object, get, keys, keys-present}
use isucon7_final.Bigint.{Bigint}
use isucon7_final.Exponential.{big2exp}
use isucon7_final.MItem.{MItem, get_price}
use isucon7_final.MItem.Formula.{price_of, val-get_price}
use isucon7_final.Status.Types.{Adding, Buying, Locals, ItemStatus, OnSale, GameStatus}
use isucon7_final.Status.Report.{report_on_sale, report_item, report_items, report, calc_status}
use isucon7_final.Status.Counting.{rows_of, rows_built}
use isucon7_final.Status.Pricing.{is_payable}
use isucon7_final.Status.Books.{IsConsistent, IsDistinct, Books, FirstOnSale, price_after}
use isucon7_final.Status.Opening.{start-Books}
use isucon7_final.Status.Sales.{is_affordable, is_payable-affordable}
use isucon7_final.Status.Forecast.{
  event_times, SaleBetween, IsTrueEntry, Forecast, entry_at-IsTrueEntry, simulate-Forecast,
}
use isucon7_final.Status.Ticking.{entry_at}

-- The time that a status gives for the sale of an item.
unfoldable pub sale_time : ℕ → List OnSale → Option ℕ
sale_time id [] = none
sale_time id (sale ∷ sales) = if id == sale.item_id then some sale.time else sale_time id sales

sale_time-report : (id : ℕ) (m : Object ℕ) → sale_time id (report_on_sale m) ≡ get id m
unfolding sale_time report_on_sale get
sale_time-report id [] = refl
sale_time-report id ((j, t) ∷ m) = ground (arith, sale_time-report id m)

module _ ⦃B : Bigint⦄ where
  open B use {Big, val}

  -- The entry of an item agrees with the tables.
  pub record IsTrueItem (items : Object MItem) (buyings : List Buying) (now : ℕ) (i : ItemStatus)
      : Type 0 where
    pub item : MItem
    pub listed : get i.item_id items ≡ some item
    pub price : Big
    pub price-formula : val price ≡ pos (price_of item (rows_of i.item_id buyings + 1))
    pub shows_price : i.next_price ≡ big2exp price
    pub bought : i.count_bought ≡ rows_of i.item_id buyings
    pub built : i.count_built ≡ rows_built now i.item_id buyings

  pub record IsOutcome (items : Object MItem) (addings : List Adding) (buyings : List Buying)
      (now : ℕ) (status : GameStatus) : Type 0 where
    pub true_entries : All (IsTrueEntry items addings buyings) status.schedule
    pub entry_times :
        map (λ e. e.time) status.schedule ≡ now ∷ event_times addings buyings 1000 (now + 1)
    pub sales :
        (id : ℕ)
        → SaleBetween
            (is_affordable items addings buyings id)
            now
            (now + 1000)
            (sale_time id status.on_sale)
    pub true_items : All (IsTrueItem items buyings now) status.items
    pub item_ids : map (λ i. i.item_id) status.items ≡ keys items

  first_sale :
      (items : Object MItem) (addings : List Adding) (buyings : List Buying) (now id : ℕ)
      (s : Locals Big)
      → Books items addings buyings now now s
      → FirstOnSale items buyings s
      → SaleBetween (is_affordable items addings buyings id) now now (get id s.item_on_sale)
  first_sale items addings buyings now id s books first =
      elim (Bool-cases (is_affordable items addings buyings id now)) [
        | inl at_once ↦ rw (first id, e, at_once) (inl (refl, at_once))
        | inr not_yet ↦
            rw (first id, e, not_yet) (λ u p q. let same : u ≡ now = omega arith in rw same not_yet)
      ]
    where
      e :
          is_payable s.total_milli_isu (price_after items buyings id)
          ≡ is_affordable items addings buyings id now
      e = is_payable-affordable items addings buyings id now s.total_milli_isu books.milli

  report_item-IsTrueItem :
      (items : Object MItem) (addings : List Adding) (buyings : List Buying) (now t id : ℕ)
      (s : Locals Big)
      → Books items addings buyings now t s
      → is_some (get id items) ≡ true
      → (i : ItemStatus) × (report_item s id ≡ some i)
        × IsTrueItem items buyings now i
        × (i.item_id ≡ id)
  unfolding report_item
  report_item-IsTrueItem items addings buyings now t id s books known =
      elim (Option-cases (get id items)) [
        | inl missing ↦ absurd (ground (arith))
        | inr (m, e) ↦
            let price = get_price m (rows_of id buyings + 1) in
            let priced : get id s.item_price ≡ some price =
              books.prices id
              ∙ ap
                  (λ o. elim o [
                    | none ↦ none
                    | some m ↦ some (get_price m (rows_of id buyings + 1))
                  ])
                  e in
            (
              record {
                item_id = id;
                count_bought = get_or (get id s.item_bought) 0;
                count_built = get_or (get_or (get id s.item_built0) none) 0;
                next_price = big2exp price;
                power = get id s.item_power0;
                building = get id s.item_building;
              },
              rw priced,
              record {
                item = m;
                listed = e;
                price = price;
                price-formula = val-get_price m (rows_of id buyings + 1);
                shows_price = refl;
                bought = books.bought id;
                built = books.built id known;
              },
              refl,
            )
      ]

  report_items-IsTrueItem :
      (items : Object MItem) (addings : List Adding) (buyings : List Buying) (now t : ℕ)
      (s : Locals Big) (ids : List ℕ)
      → Books items addings buyings now t s
      → All (λ id. is_some (get id items) ≡ true) ids
      → (is : List ItemStatus) × (report_items s ids ≡ some is)
        × All (IsTrueItem items buyings now) is
        × (map (λ i. i.item_id) is ≡ ids)
  unfolding report_items
  report_items-IsTrueItem items addings buyings now t s [] books known = ([], refl, tt, refl)
  report_items-IsTrueItem items addings buyings now t s (id ∷ ids) books known =
      let (i, done, fine, e) =
        report_item-IsTrueItem items addings buyings now t id s books known.0 in
      let (is, done', all, es) =
        report_items-IsTrueItem items addings buyings now t s ids books known.1 in
      (i ∷ is, rw (done, report_items) (rw done'), (fine, all), ap₂ ◌∷◌ e es)

  -- On consistent tables with distinct adding times, `calcStatus` throws nothing. In what it returns,
  -- the entries of the schedule stand at the present time and at the times of the next second at
  -- which an adding or a buying takes effect, and show the account of the room at their times; an
  -- item is on sale from the first time of that second at which the account holds its price (0 for
  -- the present time), and not at all if there is none; and the items are those of the master table,
  -- with their next price and the numbers of their buyings and of those that have taken effect.
  pub calc_status-IsOutcome :
      (now : ℕ) (items : Object MItem) (addings : List Adding) (buyings : List Buying)
      → IsConsistent items buyings
      → IsDistinct addings
      → Returns (IsOutcome items addings buyings now) (calc_status now items addings buyings)
  unfolding calc_status report
  calc_status-IsOutcome now items addings buyings consistent distinct =
      let (s, started, books, first, opening) = start-Books now items addings buyings consistent in
      let f : Forecast items addings buyings now now (now ∷ []) s = record {
        books = books;
        true_entries = rw opening (unfold entry_at in (entry_at-IsTrueEntry books, tt));
        entry_times = rw opening;
        sales = λ id. first_sale items addings buyings now id s books first;
      } in
      let (s', simulated, end) =
        simulate-Forecast items addings buyings now 1000 now (now + 1000) (now ∷ []) s consistent
          distinct (omega arith) refl f in
      let (is, reported, all, ids) =
        report_items-IsTrueItem items addings buyings now (now + 1000) s' (keys items) end.books
          (keys-present items) in
      rw (started, simulated, reported)
        (record {
          true_entries = end.true_entries;
          entry_times = end.entry_times;
          sales = λ id. rw (sale_time-report id s'.item_on_sale) (end.sales id);
          true_items = all;
          item_ids = ids;
        })
