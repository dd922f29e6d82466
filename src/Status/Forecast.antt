-- ===== src/Status/Forecast.antt =====
-- The simulation of `calcStatus` as a whole: it agrees with the account of the room at every
-- millisecond, notes each time at which something happens, and finds the first time at which each
-- item can be bought.
use mathlib.Core.List.{append-nil, append_assoc, map-append}
use native.Mathlib.Decide.{dec_le}
use isucon7_final.Status.Pricing.{is_payable}
use isucon7_final.Prelude.{
  ℕ, zero, suc, ◌+◌, ◌<◌, ◌≤◌, ◌≡◌, refl, sym, ◌∙◌, ap, subst, ◌⊎◌, inl, inr, Bool, true, false,
  Option, none, some, List, [], ◌∷◌, ◌++◌, map, arith, All, All-append, if◌then◌else◌, Bool-cases,
}
use isucon7_final.Prelude.Int.{pos}
use isucon7_final.Js.Object.{Object, get}
use isucon7_final.Bigint.{Bigint}
use isucon7_final.Exponential.{big2exp}
use isucon7_final.MItem.{MItem}
use isucon7_final.Status.Types.{Adding, Buying, Locals, ScheduleEntry}
use isucon7_final.Status.Simulate.{simulate}
use isucon7_final.Status.Balance.{balance, power_at}
use isucon7_final.Status.Books.{IsConsistent, IsDistinct, Books, price_after}
use isucon7_final.Status.Sales.{noted, is_affordable, is_payable-affordable}
use isucon7_final.Status.Ticking.{Ticked, tick-Ticked, entry_at, is_eventful}

-- The times from t on, in the given number of milliseconds, at which something happens.
unfoldable pub event_times : List Adding → List Buying → ℕ → ℕ → List ℕ
event_times addings buyings zero t = []
event_times addings buyings (suc rounds) t =
    let rest = event_times addings buyings rounds (t + 1) in
    if is_eventful addings buyings t then t ∷ rest else rest

-- What is known of an item between two times: it could not be bought at any of them; or it could
-- at the first, which is written as 0; or it could from a later one on and not before.
abbrev pub SaleBetween : (ℕ → Bool) → ℕ → ℕ → Option ℕ → Type 0
SaleBetween affordable now t none = (u : ℕ) → now ≤ u → u ≤ t → affordable u ≡ false
SaleBetween affordable now t (some first) =
    ((first ≡ 0) × (affordable now ≡ true))
    ⊎ ((now < first)
        × (first ≤ t)
        × (affordable first ≡ true)
        × ((u : ℕ) → now ≤ u → u < first → affordable u ≡ false))

module _ ⦃B : Bigint⦄ where
  open B use {Big, val}

  -- An entry of the schedule that agrees with the account.
  pub record IsTrueEntry (items : Object MItem) (addings : List Adding) (buyings : List Buying)
      (e : ScheduleEntry) : Type 0 where
    pub isu : Big
    pub power : Big
    pub isu-balance : val isu ≡ balance items e.time addings buyings
    pub power-account : val power ≡ pos (power_at items e.time buyings)
    pub shows_isu : e.milli_isu ≡ big2exp isu
    pub shows_power : e.total_power ≡ big2exp power

  pub entry_at-IsTrueEntry :
      {items : Object MItem} {addings : List Adding} {buyings : List Buying} {now t : ℕ}
      {s : Locals Big}
      → Books items addings buyings now t s
      → IsTrueEntry items addings buyings (entry_at t s)
  unfolding entry_at
  entry_at-IsTrueEntry {s = s} h = record {
    isu = s.total_milli_isu;
    power = s.total_power;
    isu-balance = h.milli;
    power-account = h.power;
    shows_isu = refl;
    shows_power = refl;
  }

  -- What the simulation has done when its variables stand at time t.
  pub record Forecast (items : Object MItem) (addings : List Adding) (buyings : List Buying)
      (now t : ℕ) (times : List ℕ) (s : Locals Big) : Type 0 where
    pub books : Books items addings buyings now t s
    pub true_entries : All (IsTrueEntry items addings buyings) s.schedule
    pub entry_times : map (λ e. e.time) s.schedule ≡ times
    pub sales :
        (id : ℕ)
        → SaleBetween (is_affordable items addings buyings id) now t (get id s.item_on_sale)

  -- One more millisecond of the search for a sale.
  noted-SaleBetween :
      (affordable : ℕ → Bool) (now t : ℕ) (total : Big) (price : Option Big) (o : Option ℕ)
      → now ≤ t
      → is_payable total price ≡ affordable (t + 1)
      → SaleBetween affordable now t o
      → SaleBetween affordable now (t + 1) (noted (t + 1) total price o)
  noted-SaleBetween affordable now t total price (some first) h e (inl at_once) = inl at_once
  noted-SaleBetween affordable now t total price (some first) h e (inr later) =
      inr (later.0, omega arith, later.2, later.3)
  noted-SaleBetween affordable now t total price none h e never =
      elim (Bool-cases (affordable (t + 1))) [
        | inl yet ↦
            rw (e, yet) (inr (omega arith, omega arith, yet, λ u p q. never u p (omega arith)))
        | inr not_yet ↦
            rw (e, not_yet)
              (λ u p q. elim (dec_le u t) [
                | yes early ↦ never u p early
                | no last ↦ let same : u ≡ t + 1 = omega arith in rw same not_yet
              ])
      ]

  module _ {items : Object MItem} {addings : List Adding} {buyings : List Buying} {now t : ℕ}
      {times : List ℕ} {s s' : Locals Big} (ordered : now ≤ t)
      (f : Forecast items addings buyings now t times s)
      (step : Ticked items addings buyings now (t + 1) s s') where
    abbrev eventful : Bool
    eventful = is_eventful addings buyings (t + 1)

    new_entries :
        (u : Bool)
        → All
            (IsTrueEntry items addings buyings)
            (if u then s.schedule ++ entry_at (t + 1) s' ∷ [] else s.schedule)
    new_entries true =
        All-append _ s.schedule _ f.true_entries (entry_at-IsTrueEntry step.books, tt)
    new_entries false = f.true_entries

    new_times :
        (u : Bool)
        → map (λ e. e.time) (if u then s.schedule ++ entry_at (t + 1) s' ∷ [] else s.schedule)
          ≡ times ++ (if u then (t + 1) ∷ [] else [])
    unfolding entry_at
    new_times true = rw (map-append, f.entry_times)
    new_times false = f.entry_times ∙ sym (append-nil times)

    Ticked-Forecast :
        Forecast items addings buyings now
          (t + 1)
          (times ++ (if eventful then (t + 1) ∷ [] else []))
          s'
    Ticked-Forecast = record {
      books = step.books;
      true_entries = rw step.scheduled (new_entries eventful);
      entry_times = ap (map (λ e. e.time)) step.scheduled ∙ new_times eventful;
      sales = λ id. rw (step.on_sale id) (
          noted-SaleBetween (is_affordable items addings buyings id) now t s'.total_milli_isu
            (price_after items buyings id) (get id s.item_on_sale) ordered
            (is_payable-affordable items addings buyings id (t + 1) s'.total_milli_isu
              step.books.milli)
            (f.sales id));
    }

  event_times-suc :
      (addings : List Adding) (buyings : List Buying) (rounds t : ℕ) (times : List ℕ)
      → (times ++ (if is_eventful addings buyings t then t ∷ [] else []))
          ++ event_times addings buyings rounds (t + 1)
        ≡ times ++ event_times addings buyings (suc rounds) t
  unfolding event_times
  event_times-suc addings buyings rounds t times =
      elim (Bool-cases (is_eventful addings buyings t)) [
        | inl here ↦ rw (here, append_assoc)
        | inr nothing ↦ rw (nothing, append-nil)
      ]

  -- The loop succeeds.
  pub simulate-Forecast :
      (items : Object MItem) (addings : List Adding) (buyings : List Buying) (now rounds t last : ℕ)
      (times : List ℕ) (s : Locals Big)
      → IsConsistent items buyings
      → IsDistinct addings
      → now ≤ t
      → t + rounds ≡ last
      → Forecast items addings buyings now t times s
      → (s' : Locals Big) × (simulate items rounds (t + 1) s ≡ some s')
        × Forecast items addings buyings now last
            (times ++ event_times addings buyings rounds (t + 1))
            s'
  unfolding simulate
  simulate-Forecast items addings buyings now zero t last times s consistent distinct ordered e f =
      let same : t ≡ last = omega arith in
      (
        s,
        refl,
        subst
            (λ u.
              Forecast items addings buyings now u
                (times ++ event_times addings buyings zero (t + 1)) s)
            same (unfold event_times in rw append-nil f),
      )
  simulate-Forecast items addings buyings now (suc rounds) t last times s consistent distinct
        ordered e f =
      let (s1, done, step) =
        tick-Ticked items addings buyings now t s consistent distinct (omega arith) f.books in
      let (s', done', rest) =
        simulate-Forecast items addings buyings now rounds (t + 1) last _ s1 consistent distinct
          (omega arith) (omega arith) (Ticked-Forecast ordered f step) in
      (
        s',
        rw (done, simulate) done',
        subst (λ ts. Forecast items addings buyings now last ts s')
            (event_times-suc addings buyings rounds (t + 1) times) rest,
      )
