-- ===== src/Status/Books.antt =====
-- What the variables of `calcStatus` hold at a time, in terms of the account of the room.
use isucon7_final.Prelude.{
  ℕ, ◌+◌, ◌<◌, ◌≡◌, true, Option, none, some, List, [], ◌∷◌, All, is_some, get_or, if◌then◌else◌,
  ◌≢◌,
}
use isucon7_final.Prelude.Int.{pos}
use isucon7_final.Js.Object.{Object, get}
use isucon7_final.Bigint.{Bigint}
use isucon7_final.MItem.{MItem, get_price}
use isucon7_final.Status.Types.{Adding, Buying, Locals, ScheduleEntry}
use isucon7_final.Status.Balance.{balance, power_at}
use isucon7_final.Status.Queues.{last_at, all_at, enqueued}
use isucon7_final.Status.Counting.{HasKeys, IsKnown, IsNumbered, rows_of, rows_built}
use isucon7_final.Status.Pricing.{IsWellKeyed, is_payable}

-- The tables fit together: each item stands under its number, each buying is of a known item, and
-- the ordinals of an item count from one in the order of the rows.
pub record IsConsistent (items : Object MItem) (buyings : List Buying) : Type 0 where
  pub keyed : IsWellKeyed items
  pub known : All (IsKnown items) buyings
  pub numbered : IsNumbered buyings

-- No two addings have the same time, as the primary key of the table demands.
abbrev pub IsDistinct : List Adding → Type 0
IsDistinct [] = Unit
IsDistinct (a ∷ addings) = All (λ b. b.time ≢ a.time) addings × IsDistinct addings

module _ ⦃B : Bigint⦄ where
  open B use {Big, val}

  -- The price of the next purchase of an item, after all buyings.
  abbrev pub price_after : Object MItem → List Buying → ℕ → Option Big
  price_after items buyings id = elim (get id items) [
    | none ↦ none
    | some m ↦ some (get_price m (rows_of id buyings + 1))
  ]

  pub record Books (items : Object MItem) (addings : List Adding) (buyings : List Buying)
      (now t : ℕ) (s : Locals Big) : Type 0 where
    pub milli : val s.total_milli_isu ≡ balance items t addings buyings
    pub power : val s.total_power ≡ pos (power_at items t buyings)
    pub addings_left : (u : ℕ) → now < u → get u s.adding_at ≡ last_at u addings
    pub buyings_left : (u : ℕ) → now < u → get u s.buying_at ≡ enqueued none (all_at u buyings)
    pub powered : HasKeys items s.item_power
    pub housed : HasKeys items s.item_building
    pub bought : (id : ℕ) → get_or (get id s.item_bought) 0 ≡ rows_of id buyings
    pub built :
        (id : ℕ)
        → is_some (get id items) ≡ true
        → get_or (get_or (get id s.item_built0) none) 0 ≡ rows_built now id buyings
    pub prices : (id : ℕ) → get id s.item_price ≡ price_after items buyings id

  -- The schedule is not part of the books.
  pub Books-schedule :
      {items : Object MItem} {addings : List Adding} {buyings : List Buying} {now t : ℕ}
      {s : Locals Big} (entries : List ScheduleEntry)
      → Books items addings buyings now t s
      → Books items addings buyings now t (record s { schedule = entries })
  Books-schedule entries h = record {
    milli = h.milli;
    power = h.power;
    addings_left = h.addings_left;
    buyings_left = h.buyings_left;
    powered = h.powered;
    housed = h.housed;
    bought = h.bought;
    built = h.built;
    prices = h.prices;
  }

  -- What is on sale after the first look at the prices.
  abbrev pub FirstOnSale : Object MItem → List Buying → Locals Big → Type 0
  FirstOnSale items buyings s =
      (id : ℕ)
      → get id s.item_on_sale
        ≡ (if is_payable s.total_milli_isu (price_after items buyings id) then some 0 else none)
