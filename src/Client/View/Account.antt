-- ===== src/Client/View/Account.antt =====
-- The entry that `calcSchedule` picks from a status of the server, and the account of the room.
use isucon7_final.Prelude.{
  ℕ, zero, suc, ◌+◌, ◌-◌, ◌*◌, ◌≤◌, ◌<◌, ◌≡◌, refl, ◌∙◌, subst, true, false, Option, none, some,
  List, [], ◌∷◌, map, All, arith, leb, ltb, ◌==◌, inl, inr, Bool-cases, Option-cases,
}
use isucon7_final.Prelude.Int.{pos, ◌+ℤ◌, int_laws}
use isucon7_final.Js.Object.{Object}
use isucon7_final.Bigint.{Bigint}
use isucon7_final.MItem.{MItem}
use isucon7_final.Status.Types.{Adding, Buying, ScheduleEntry, GameStatus}
use isucon7_final.Status.Balance.{
  balance, balance-suc, arriving, power_at, power_at-suc, power_from,
}
use isucon7_final.Status.Queues.{last_at, all_at, enqueued}
use isucon7_final.Status.Ticking.{is_eventful}
use isucon7_final.Status.Forecast.{event_times, IsTrueEntry}
use isucon7_final.Status.Outcome.{IsOutcome}
use isucon7_final.Client.View.{entry_by}

-- Nothing happens from just after k up to t, as far as the times before `bound` go.
abbrev IsQuiet : List Adding → List Buying → (k bound t : ℕ) → Type 0
IsQuiet addings buyings k bound t =
    (u : ℕ) → k < u → u < bound → u ≤ t → is_eventful addings buyings u ≡ false

module _ ⦃B : Bigint⦄ where
  nothing_arrives :
      (u : ℕ) (addings : List Adding) → last_at u addings ≡ none → arriving u addings ≡ pos 0
  unfolding last_at arriving
  nothing_arrives u [] h = refl
  nothing_arrives u (a ∷ addings) h = elim (Option-cases (last_at u addings)) [
    | inr (later, e) ↦ absurd (ground arith)
    | inl e ↦
        let other : (a.time == u) ≡ false = ground arith in
        rw (other, nothing_arrives u addings e) (omega int_laws)
  ]

  nothing_sets_in :
      (items : Object MItem) (u : ℕ) (buyings : List Buying)
      → enqueued none (all_at u buyings) ≡ none
      → power_from items u buyings ≡ 0
  unfolding all_at power_from
  nothing_sets_in items u [] h = refl
  nothing_sets_in items u (b ∷ buyings) h = elim (Bool-cases (b.time == u)) [
    | inl here ↦ absurd (ground arith)
    | inr other ↦
        let rest : enqueued none (all_at u buyings) ≡ none = ground arith in
        rw (other, nothing_sets_in items u buyings rest) (omega arith)
  ]

  module _ (items : Object MItem) (addings : List Adding) (buyings : List Buying) where
    quiet_round :
        (u : ℕ)
        → is_eventful addings buyings (u + 1) ≡ false
        → (balance items (u + 1) addings buyings
            ≡ balance items u addings buyings +ℤ pos (power_at items u buyings))
          × (power_at items (u + 1) buyings ≡ power_at items u buyings)
    unfolding is_eventful
    quiet_round u h =
        let no_adding : last_at (u + 1) addings ≡ none = ground arith in
        let no_buying : enqueued none (all_at (u + 1) buyings) ≡ none = ground arith in
        let power = nothing_sets_in items (u + 1) buyings no_buying in
        (
          balance-suc items u addings buyings
              ∙ rw (nothing_arrives (u + 1) addings no_adding) (omega int_laws),
          omega (arith, power_at-suc items u buyings, power),
        )

    -- While nothing happens the room gains its power each millisecond.
    quiet_time :
        (rounds k : ℕ)
        → ((u : ℕ) → k < u → u ≤ k + rounds → is_eventful addings buyings u ≡ false)
        → (balance items (k + rounds) addings buyings
            ≡ balance items k addings buyings +ℤ pos (rounds * power_at items k buyings))
          × (power_at items (k + rounds) buyings ≡ power_at items k buyings)
    quiet_time zero k h = let e : k + 0 ≡ k = omega arith in rw e (omega int_laws, refl)
    quiet_time (suc rounds) k h =
        let ih = quiet_time rounds k (λ u p q. h u p (omega arith)) in
        let last = quiet_round (k + rounds) (h (k + rounds + 1) (omega arith) (omega arith)) in
        let e : k + suc rounds ≡ k + rounds + 1 = omega arith in
        rw e (last.0 ∙ rw (ih.0, ih.1) (omega int_laws), last.1 ∙ ih.1)

-- The entry that is picked, when the times of the entries are those at which something happens.
record IsLatest (addings : List Adding) (buyings : List Buying) (P : ScheduleEntry → Type 0) (t : ℕ)
    (o : Option ScheduleEntry) : Type 0 where
  entry : ScheduleEntry
  picked : o ≡ some entry
  has_come : entry.time ≤ t
  since : (u : ℕ) → entry.time < u → u ≤ t → is_eventful addings buyings u ≡ false
  fits : P entry

extend-IsQuiet :
    (addings : List Adding) (buyings : List Buying) (k from t : ℕ)
    → is_eventful addings buyings from ≡ false
    → IsQuiet addings buyings k from t
    → IsQuiet addings buyings k (from + 1) t
extend-IsQuiet addings buyings k from t not_here quiet u l m h = elim (Bool-cases (ltb u from)) [
  | inl before ↦ quiet u l (ground arith) h
  | inr not_before ↦ let e : u ≡ from = ground arith in rw e not_here
]

entry_by-IsLatest :
    (addings : List Adding) (buyings : List Buying) (P : ScheduleEntry → Type 0) (rounds from t : ℕ)
    (e : ScheduleEntry) (schedule : List ScheduleEntry)
    → map (λ x. x.time) schedule ≡ event_times addings buyings rounds from
    → All P schedule
    → P e
    → t < from + rounds
    → e.time ≤ t
    → IsQuiet addings buyings e.time from t
    → IsLatest addings buyings P t (entry_by t schedule (some e))
unfolding entry_by event_times
entry_by-IsLatest addings buyings P zero from t e [] times all p end come quiet = record {
  entry = e;
  picked = refl;
  has_come = come;
  since = λ u l h. quiet u l (omega arith) h;
  fits = p;
}
entry_by-IsLatest addings buyings P zero from t e (x ∷ schedule) times all p end come quiet =
    absurd (cc)
entry_by-IsLatest addings buyings P (suc rounds) from t e [] times all p end come quiet =
    elim (Bool-cases (is_eventful addings buyings from)) [
      | inl here ↦ absurd (ground arith)
      | inr not_here ↦
          entry_by-IsLatest addings buyings P rounds (from + 1) t e [] (ground arith) all p
            (omega arith) come (extend-IsQuiet addings buyings e.time from t not_here quiet)
    ]
entry_by-IsLatest addings buyings P (suc rounds) from t e (x ∷ schedule) times all p end come
      quiet =
    elim (Bool-cases (is_eventful addings buyings from)) [
      | inl here ↦
          let now : x.time ≡ from = ground arith in
          let rest : map (λ y. y.time) schedule ≡ event_times addings buyings rounds (from + 1) =
            ground arith in
          elim (Bool-cases (leb x.time t)) [
            | inl has_come ↦ rw has_come (
                entry_by-IsLatest addings buyings P rounds (from + 1) t x schedule rest all.1 all.0
                  (omega arith) (ground arith) (λ u l m h. absurd (omega arith)))
            | inr ahead ↦
                let later : t < from = ground arith in
                rw ahead (
                  entry_by-IsLatest addings buyings P rounds (from + 1) t e schedule rest all.1 p
                    (omega arith) come (λ u l m h. quiet u l (omega arith) h))
          ]
      | inr not_here ↦
          entry_by-IsLatest addings buyings P rounds (from + 1) t e (x ∷ schedule) (ground arith)
            all p (omega arith) come (extend-IsQuiet addings buyings e.time from t not_here quiet)
    ]

module _ ⦃B : Bigint⦄ where
  -- What a status shows at a time of the next second, in terms of the account of the room.
  pub record ShowsAccount (items : Object MItem) (addings : List Adding) (buyings : List Buying)
      (t : ℕ) (o : Option ScheduleEntry) : Type 0 where
    pub entry : ScheduleEntry
    pub picked : o ≡ some entry
    pub has_come : entry.time ≤ t
    pub is_true : IsTrueEntry items addings buyings entry
    pub same_power : power_at items t buyings ≡ power_at items entry.time buyings
    pub grown :
        balance items t addings buyings
        ≡ balance items entry.time addings buyings
          +ℤ pos ((t - entry.time) * power_at items t buyings)

  -- In a status that agrees with the account of the room, `calcSchedule` finds an entry for every
  -- time of the next second; the entry is true at its own time, and the account at the time asked
  -- for is what the entry holds and its power times the milliseconds since.
  pub entry_by-ShowsAccount :
      (items : Object MItem) (addings : List Adding) (buyings : List Buying) (now t : ℕ)
      (status : GameStatus)
      → IsOutcome items addings buyings now status
      → now ≤ t
      → t ≤ now + 1000
      → ShowsAccount items addings buyings t (entry_by t status.schedule none)
  unfolding entry_by
  entry_by-ShowsAccount items addings buyings now t status h early late =
      go status.schedule h.true_entries h.entry_times
    where
      latest :
          (schedule : List ScheduleEntry)
          → IsLatest addings buyings
              (IsTrueEntry items addings buyings)
              t
              (entry_by t schedule none)
          → ShowsAccount items addings buyings t (entry_by t schedule none)
      latest schedule l =
          let e : l.entry.time + (t - l.entry.time) ≡ t = omega (arith, l.has_come) in
          let q =
            quiet_time items addings buyings (t - l.entry.time) l.entry.time
              (λ u p r. l.since u p (omega arith)) in
          let same : power_at items t buyings ≡ power_at items l.entry.time buyings =
            subst (λ v. power_at items v buyings ≡ power_at items l.entry.time buyings) e q.1 in
          let grown : balance items t addings buyings
              ≡ balance items l.entry.time addings buyings
                +ℤ pos ((t - l.entry.time) * power_at items l.entry.time buyings) =
            subst
              (λ v.
                balance items v addings buyings
                ≡ balance items l.entry.time addings buyings
                  +ℤ pos ((t - l.entry.time) * power_at items l.entry.time buyings))
              e q.0 in
          record {
            entry = l.entry;
            picked = l.picked;
            has_come = l.has_come;
            is_true = l.fits;
            same_power = same;
            grown = rw same grown;
          }

      go :
          (schedule : List ScheduleEntry)
          → All (IsTrueEntry items addings buyings) schedule
          → map (λ e. e.time) schedule ≡ now ∷ event_times addings buyings 1000 (now + 1)
          → ShowsAccount items addings buyings t (entry_by t schedule none)
      go [] all times = absurd (cc)
      go (x ∷ schedule) all times =
          let first : x.time ≡ now = cc in
          let has_come : leb x.time t ≡ true = ground arith in
          latest (x ∷ schedule) (
            rw has_come (
              entry_by-IsLatest addings buyings (IsTrueEntry items addings buyings) 1000 (now + 1) t
                x schedule (cc) all.1 all.0 (omega arith) (omega arith)
                (λ u p m r. absurd (omega arith))))
