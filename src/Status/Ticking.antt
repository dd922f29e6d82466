-- ===== src/Status/Ticking.antt =====
-- One round of the simulation of `calcStatus` moves its variables on by one millisecond.
use isucon7_final.Prelude.{
  ℕ, ◌+◌, ◌<◌, ◌≡◌, refl, sym, ◌∙◌, ap, Bool, true, false, ◌||◌, Option, none, some, List, [], ◌∷◌,
  ◌++◌, arith, All, is_some, get_or, if◌then◌else◌,
}
use isucon7_final.Prelude.Int.{pos, ◌+ℤ◌, int_laws}
use isucon7_final.Js.Object.{Object, get, keys, among-keys, All-among}
use isucon7_final.Bigint.{Bigint}
use isucon7_final.Exponential.{big2exp}
use isucon7_final.MItem.{MItem}
use isucon7_final.Status.Types.{Adding, Buying, Locals, ScheduleEntry}
use isucon7_final.Status.Simulate.{
  produce, apply_adding, apply_buyings, note_schedule, note_all_on_sale, tick,
}
use isucon7_final.Status.Balance.{balance-suc, arriving, power_at-suc, power_from}
use isucon7_final.Status.Queues.{last_at, all_at, enqueued}
use isucon7_final.Status.Books.{IsConsistent, IsDistinct, Books, price_after}
use isucon7_final.Status.Arrivals.{amount_of, last_at-arriving, val-produce, apply_adding-lem}
use isucon7_final.Status.Builds.{Settled, with_settled, apply_buyings-Settled}
use isucon7_final.Status.Sales.{Noted, noted as noted_sale, with_on_sale, note_all_on_sale-Noted}

-- Whether an adding or a buying takes effect at a time.
unfoldable pub is_eventful : List Adding → List Buying → ℕ → Bool
is_eventful addings buyings t =
    is_some (last_at t addings) || is_some (enqueued none (all_at t buyings))

module _ ⦃B : Bigint⦄ where
  open B use {Big, val}

  unfoldable pub entry_at : ℕ → Locals Big → ScheduleEntry
  entry_at t s = record {
    time = t;
    milli_isu = big2exp s.total_milli_isu;
    total_power = big2exp s.total_power;
  }

  -- What one round does.
  pub record Ticked (items : Object MItem) (addings : List Adding) (buyings : List Buying)
      (now t : ℕ) (s s' : Locals Big) : Type 0 where
    pub books : Books items addings buyings now t s'
    pub on_sale :
        (id : ℕ)
        → get id s'.item_on_sale
          ≡ noted_sale t s'.total_milli_isu (price_after items buyings id) (get id s.item_on_sale)
    pub scheduled :
        s'.schedule
        ≡ (if is_eventful addings buyings t then s.schedule ++ entry_at t s' ∷ [] else s.schedule)

  note_schedule_lem :
      (t : ℕ) (updated : Bool) (s : Locals Big)
      → note_schedule t updated s
        ≡ record s { schedule = if updated then s.schedule ++ entry_at t s ∷ [] else s.schedule }
  unfolding note_schedule entry_at
  note_schedule_lem t true s = refl
  note_schedule_lem t false s = refl

  abbrev with_schedule : Locals Big → Locals Big → Locals Big
  with_schedule s r = record s { schedule = r.schedule }

  abbrev with_milli : Locals Big → Locals Big → Locals Big
  with_milli s r = record s { total_milli_isu = r.total_milli_isu }

  tick-step :
      (items : Object MItem) (t : ℕ) (s b s' : Locals Big) (found : Bool)
      → let added = apply_adding t (produce s) in
        apply_buyings items t added.0 ≡ some (b, found)
        → note_all_on_sale t (keys items) (note_schedule t (added.1 || found) b) ≡ some s'
        → tick items t s ≡ some s'
  unfolding tick
  tick-step items t s b s' found p q = rw p q

  price_after-known :
      (items : Object MItem) (buyings : List Buying) (id : ℕ)
      → is_some (get id items) ≡ true
      → is_some (price_after items buyings id) ≡ true
  price_after-known items buyings id h = ground arith

  -- The state after the addings and buyings of the round.
  module _ {items : Object MItem} {addings : List Adding} {buyings : List Buying} {now t : ℕ}
      {s : Locals Big} (consistent : IsConsistent items buyings) (distinct : IsDistinct addings)
      (later : now < t + 1) (h : Books items addings buyings now t s) where
    abbrev added : Locals Big × Bool
    added = apply_adding (t + 1) (produce s)

    added_frame : added.0 ≡ with_milli s added.0
    unfolding produce
    added_frame = (apply_adding-lem (t + 1) (produce s)).1

    added_milli :
        val added.0.total_milli_isu
        ≡ val s.total_milli_isu +ℤ val s.total_power +ℤ arriving (t + 1) addings
    unfolding produce
    added_milli =
        (apply_adding-lem (t + 1) (produce s)).0
        ∙ ap (λ z. val (produce s).total_milli_isu +ℤ z)
            (ap amount_of (h.addings_left (t + 1) later)
              ∙ last_at-arriving (t + 1) addings distinct)
        ∙ ap (λ z. z +ℤ arriving (t + 1) addings) (val-produce s)

    found_adding : added.1 ≡ is_some (last_at (t + 1) addings)
    unfolding produce
    found_adding =
        (apply_adding-lem (t + 1) (produce s)).2 ∙ ap is_some (h.addings_left (t + 1) later)

    abbrev waiting : Option (List Buying)
    waiting = enqueued none (all_at (t + 1) buyings)

    settling :
        (b : Locals Big) × (apply_buyings items (t + 1) added.0 ≡ some (b, is_some waiting))
        × Settled items (t + 1) buyings added.0 b
    settling =
        apply_buyings-Settled items (t + 1) buyings added.0 consistent.known
          (λ id k. ap (λ r. is_some (get id r.item_power)) added_frame ∙ h.powered id k)
          (λ id k. ap (λ r. is_some (get id r.item_building)) added_frame ∙ h.housed id k)
          (ap (λ r. get (t + 1) r.buying_at) added_frame ∙ h.buyings_left (t + 1) later)

    -- The rest of the round, from the state `b` after the buyings.
    module _ {b n s' : Locals Big} (settled : Settled items (t + 1) buyings added.0 b)
        (scheduled : n ≡ with_schedule b n) (noted : Noted (t + 1) (keys items) n s') where
      whole_frame : s' ≡ with_on_sale (with_schedule (with_settled (with_milli s added.0) b) n) s'
      whole_frame =
          noted.frame
          ∙ ap (λ r. with_on_sale r s') scheduled
          ∙ ap (λ r. with_on_sale (with_schedule r n) s') settled.frame
          ∙ ap (λ r. with_on_sale (with_schedule (with_settled r b) n) s') added_frame

      round-Books : Books items addings buyings now (t + 1) s'
      round-Books = record {
        milli =
            ap (λ r. val r.total_milli_isu) whole_frame
            ∙ added_milli
            ∙ rw (h.milli, h.power) (sym (balance-suc items t addings buyings));
        power =
            ap (λ r. val r.total_power) noted.frame
            ∙ ap (λ r. val r.total_power) scheduled
            ∙ settled.power
            ∙ ap (λ r. val r.total_power +ℤ pos (power_from items (t + 1) buyings)) added_frame
            ∙ rw (h.power, power_at-suc) (omega int_laws);
        addings_left = λ u l. ap (λ r. get u r.adding_at) whole_frame ∙ h.addings_left u l;
        buyings_left = λ u l. ap (λ r. get u r.buying_at) whole_frame ∙ h.buyings_left u l;
        powered =
            λ id k. ap (λ r. is_some (get id r.item_power)) whole_frame ∙ settled.powered id k;
        housed =
            λ id k. ap (λ r. is_some (get id r.item_building)) whole_frame ∙ settled.housed id k;
        bought = λ id. ap (λ r. get_or (get id r.item_bought) 0) whole_frame ∙ h.bought id;
        built = λ id k.
            ap (λ r. get_or (get_or (get id r.item_built0) none) 0) whole_frame ∙ h.built id k;
        prices = λ id. ap (λ r. get id r.item_price) whole_frame ∙ h.prices id;
      }

      same_milli : n.total_milli_isu ≡ s'.total_milli_isu
      same_milli = sym (ap (λ r. r.total_milli_isu) noted.frame)

      same_price : (id : ℕ) → get id n.item_price ≡ price_after items buyings id
      same_price id = sym (ap (λ r. get id r.item_price) noted.frame) ∙ round-Books.prices id

      same_sales : (id : ℕ) → get id n.item_on_sale ≡ get id s.item_on_sale
      same_sales id =
          ap (λ r. get id r.item_on_sale) scheduled
          ∙ ap (λ r. get id r.item_on_sale) settled.frame
          ∙ ap (λ r. get id r.item_on_sale) added_frame

      round-on_sale :
          (id : ℕ)
          → get id s'.item_on_sale
            ≡ noted_sale
                (t + 1)
                s'.total_milli_isu
                (price_after items buyings id)
                (get id s.item_on_sale)
      round-on_sale id =
          ground
            (arith, noted.on_sale id, same_milli, same_price id, same_sales id, among-keys id items)

      same_entry : entry_at (t + 1) s' ≡ entry_at (t + 1) b
      unfolding entry_at
      same_entry =
          ap (entry_at (t + 1)) noted.frame
          ∙ ap (λ r. entry_at (t + 1) (with_on_sale r s')) scheduled

      same_schedule : b.schedule ≡ s.schedule
      same_schedule = ap (λ r. r.schedule) settled.frame ∙ ap (λ r. r.schedule) added_frame

      schedule_of_round :
          (if added.1 || is_some waiting then b.schedule ++ entry_at (t + 1) b ∷ [] else b.schedule)
          ≡ (if is_eventful addings buyings (t + 1)
              then s.schedule ++ entry_at (t + 1) s' ∷ []
              else s.schedule)
      unfolding is_eventful last_at all_at entry_at
      schedule_of_round = rw (found_adding, same_schedule, same_entry)

    round :
        (s' : Locals Big) × (tick items (t + 1) s ≡ some s')
        × Ticked items addings buyings now (t + 1) s s'
    round =
        let (b, built, settled) = settling in
        let n = note_schedule (t + 1) (added.1 || is_some waiting) b in
        let listed = note_schedule_lem (t + 1) (added.1 || is_some waiting) b in
        let prices : (id : ℕ) → get id n.item_price ≡ price_after items buyings id = λ id.
          ap (λ r. get id r.item_price) listed
          ∙ ap (λ r. get id r.item_price) settled.frame
          ∙ ap (λ r. get id r.item_price) added_frame
          ∙ h.prices id in
        let known : All (λ id. is_some (get id n.item_price) ≡ true) (keys items) =
          All-among _ (keys items) (λ id k.
            ap is_some (prices id)
            ∙ price_after-known items buyings id (sym (among-keys id items) ∙ k)) in
        let (s', sold, noted) = note_all_on_sale-Noted (t + 1) (keys items) n known in
        let frame : n ≡ with_schedule b n = listed ∙ ap (with_schedule b) (sym listed) in
        (
          s',
          tick-step items (t + 1) s b s' _ built sold,
          record {
            books = round-Books settled frame noted;
            on_sale = round-on_sale settled frame noted;
            scheduled =
                ap (λ r. r.schedule) noted.frame
                ∙ ap (λ r. r.schedule) listed
                ∙ schedule_of_round settled frame noted;
          },
        )

  -- On consistent tables with distinct adding times, a round of the simulation after the present
  -- time throws nothing and takes variables that hold the account at one time to variables that hold
  -- it at the next. The round puts an item on sale when its price is first held, and adds an entry
  -- to the schedule when an adding or a buying takes effect.
  pub tick-Ticked :
      (items : Object MItem) (addings : List Adding) (buyings : List Buying) (now t : ℕ)
      (s : Locals Big)
      → IsConsistent items buyings
      → IsDistinct addings
      → now < t + 1
      → Books items addings buyings now t s
      → (s' : Locals Big) × (tick items (t + 1) s ≡ some s')
        × Ticked items addings buyings now (t + 1) s s'
  tick-Ticked items addings buyings now t s consistent distinct later h =
      round consistent distinct later h
