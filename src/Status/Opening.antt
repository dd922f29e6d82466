-- ===== src/Status/Opening.antt =====
-- `calcStatus` up to its simulation: it succeeds on consistent tables, and its totals are those of
-- the account.
use isucon7_final.Prelude.{
  ℕ, ◌+◌, ◌≡◌, refl, ◌∙◌, ap, true, none, some, List, [], ◌∷◌, arith, is_some, get_or,
}
use isucon7_final.Prelude.Int.{int_laws}
use isucon7_final.Js.Object.{Object, get, among-keys, keys, keys-present}
use isucon7_final.Bigint.{Bigint}
use isucon7_final.MItem.{MItem, get_price}
use isucon7_final.Exponential.{big2exp}
use isucon7_final.Status.Types.{Adding, Buying, Locals}
use isucon7_final.Status.Report.{start}
use isucon7_final.Status.Balance.{balance}
use isucon7_final.Status.Counting.{rows_of, rows_built, Counted}
use isucon7_final.Status.Counting.Buyings.{count_buyings-Counted}
use isucon7_final.Status.Pricing.{Priced, price_items-Priced, next_price}
use isucon7_final.Status.Ready.{Ready, ready, ready-Ready}
use isucon7_final.Status.Books.{IsConsistent, Books, Books-schedule, FirstOnSale, price_after}

module _ ⦃B : Bigint⦄ where
  open B use {Big, val}

  next_price-after :
      (items : Object MItem) (buyings : List Buying) (c : Locals Big) (id : ℕ)
      → get_or (get id c.item_bought) 0 ≡ rows_of id buyings
      → next_price items c id ≡ price_after items buyings id
  next_price-after items buyings c id e =
      ap (λ (n : ℕ). elim (get id items) [ none ↦ none | some m ↦ some (get_price m (n + 1)) ]) e

  module _ {now : ℕ} {items : Object MItem} {addings : List Adding} {buyings : List Buying}
      {r c p : Locals Big} (ready : Ready now items addings r)
      (counts : Counted now items buyings r c) (prices : Priced items (keys items) c p) where
    bought_rows : (id : ℕ) → get_or (get id c.item_bought) 0 ≡ rows_of id buyings
    unfolding get
    bought_rows id = omega (arith, counts.bought id, none_before)
      where
        none_before : get_or (get id r.item_bought) 0 ≡ 0
        none_before = rw ready.none_bought

    built_rows :
        (id : ℕ)
        → is_some (get id items) ≡ true
        → get_or (get_or (get id p.item_built0) none) 0 ≡ rows_built now id buyings
    unfolding get
    built_rows id known =
        let listed : get id p.item_built0 ≡ some (get id c.item_built) =
          prices.built id ∙ rw (among-keys id items ∙ known) in
        ap (λ o. get_or (get_or o none) 0) listed ∙ omega (arith, counts.built id, none_before)
      where
        none_before : get_or (get id r.item_built) 0 ≡ 0
        none_before = rw ready.none_built

    same_milli : p.total_milli_isu ≡ c.total_milli_isu
    same_milli = ap (λ s. s.total_milli_isu) prices.frame

    unpriced : (id : ℕ) → get id c.item_price ≡ none
    unfolding get
    unpriced id = ap (get id) (counts.same_prices ∙ ready.no_prices)

    unsold : (id : ℕ) → get id c.item_on_sale ≡ none
    unfolding get
    unsold id = ap (get id) (counts.same_on_sale ∙ ready.none_on_sale)

    price_listed : (id : ℕ) → get id p.item_price ≡ price_after items buyings id
    unfolding get
    price_listed id = ground (
      arith,
      prices.price id,
      among-keys id items,
      next_price-after items buyings c id (bought_rows id),
      unpriced id,
    )

    sale_listed : FirstOnSale items buyings p
    unfolding get
    sale_listed id = ground (
      arith,
      prices.on_sale id,
      same_milli,
      among-keys id items,
      next_price-after items buyings c id (bought_rows id),
      unsold id,
    )

    pub totals-Books : Books items addings buyings now now p
    unfolding get balance
    totals-Books = record {
      milli = rw (same_milli, counts.milli, ready.milli);
      power = rw (ap (λ s. s.total_power) prices.frame, counts.power, ready.power) (omega int_laws);
      addings_left = λ u l.
          ap (λ s. get u s.adding_at) prices.frame
          ∙ ap (get u) counts.same_addings
          ∙ ready.addings_left u l;
      buyings_left =
          λ u l. ap (λ s. get u s.buying_at) prices.frame ∙ counts.queued u l ∙ rw ready.no_buyings;
      powered = λ id h. ap (λ s. is_some (get id s.item_power)) prices.frame ∙ counts.powered id h;
      housed = λ id h.
          ap (λ s. is_some (get id s.item_building)) prices.frame
          ∙ ap (λ m. is_some (get id m)) counts.same_buildings
          ∙ ready.housed id h;
      bought = λ id. ap (λ s. get_or (get id s.item_bought) 0) prices.frame ∙ bought_rows id;
      built = built_rows;
      prices = price_listed;
    }

  abbrev with_first_entry : ℕ → Locals Big → Locals Big
  with_first_entry now s = record s {
    schedule =
        record {
          time = now;
          milli_isu = big2exp s.total_milli_isu;
          total_power = big2exp s.total_power;
        }
        ∷ [];
  }

  -- On consistent tables, what `calcStatus` does before the simulation throws nothing and leaves the
  -- account of the room at the present time in the variables, those items on sale at 0 whose price
  -- the room holds, and a schedule with one entry, for the present time.
  pub start-Books :
      (now : ℕ) (items : Object MItem) (addings : List Adding) (buyings : List Buying)
      → IsConsistent items buyings
      → (s : Locals Big) × (start now items addings buyings ≡ some s)
        × Books items addings buyings now now s
        × FirstOnSale items buyings s
        × (s.schedule
            ≡ record {
              time = now;
              milli_isu = big2exp s.total_milli_isu;
              total_power = big2exp s.total_power;
            }
              ∷ [])
  unfolding start get
  start-Books now items addings buyings h =
      let r = ready-Ready now items addings in
      let (c, counts, counted) =
        count_buyings-Counted now items (λ id. 0) buyings (ready now items addings) h.known
          r.powered (λ id. rw r.none_bought) h.numbered in
      let (p, prices, priced) =
        price_items-Priced items (keys items) c h.keyed (keys-present items) counted.powered in
      (
        with_first_entry now p,
        rw (counts) (rw prices),
        Books-schedule _ (totals-Books r counted priced),
        sale_listed r counted priced,
        refl,
      )
