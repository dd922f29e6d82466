-- ===== src/Game/Statuses.antt =====
-- `getStatus` on a database that the methods keep: the status agrees with the account of the room,
-- and it fails only if the server does or its clock went back.
use isucon7_final.Prelude.{ℕ, ◌+◌, ◌∙◌, subst, if◌then◌else◌, arith}
use isucon7_final.Prelude.{
  ◌≡◌, refl, ap, Option, none, some, List, [], ◌∷◌, ◌++◌, ◌⊎◌, inl, inr, ltb, Option-cases, Returns,
}
use isucon7_final.Js.Digits.{Text}
use isucon7_final.Bigint.{Bigint}
use isucon7_final.Status.Types.{GameStatus}
use isucon7_final.Status.Report.{calc_status}
use isucon7_final.Status.Outcome.{IsOutcome, calc_status-IsOutcome}
use isucon7_final.Store.Tables.{
  Db, RoomTime, text_eq_refl, select_room_time, insert_room_time, select_addings, select_buyings,
}
use isucon7_final.Store.Session.{
  Error, server_failure, type_error, room_time_is_future, Server, World,
}
use isucon7_final.Store.Total.{
  Outcomes, Ensures, Ensures->>=, Ensures-pure, Ensures-release, Ensures-throw, Ensures-first_row,
  Ensures-or_throw, Ensures-throw_if, Ensures-handle, Ensures-weaken, Ensures-call_either,
  Ensures-call,
}
use isucon7_final.Game.{
  build_items, update_room_time, get_current_time, undo, transaction, get_status_body, get_status,
}
use isucon7_final.Game.Transactions.{HasSameRows}
use isucon7_final.Game.Sound.{IsSound}
use isucon7_final.Game.Consistent.{IsSound-IsConsistent}

what_returned {ℓ} :
    {A : Type ℓ} (P : A → Type 0) (o : Option A) → Returns P o → (a : A) × (o ≡ some a) × P a
what_returned P none h = absurd h
what_returned P (some a) h = (a, refl, h)

-- The errors that the program does not make itself.
abbrev pub IsExpected : Error → Type 0
IsExpected e = (e ≡ server_failure) ⊎ (e ≡ room_time_is_future)

same_rows : (d : Db) → HasSameRows d d
same_rows d = (refl, refl, refl)

select-new_room_time :
    (room : Text) (rows : List RoomTime)
    → select_room_time room rows ≡ none
    → select_room_time room (rows ++ record { room_name = room; time = 0 } ∷ []) ≡ some 0
unfolding select_room_time
select-new_room_time room [] h = rw (text_eq_refl room)
select-new_room_time room (r ∷ rows) h = ground (arith, select-new_room_time room rows)

select-insert_room_time :
    (room : Text) (rows : List RoomTime)
    → (t : ℕ) × (select_room_time room (insert_room_time room rows) ≡ some t)
unfolding insert_room_time select_room_time
select-insert_room_time room rows = elim (Option-cases (select_room_time room rows)) [
  | inl new ↦ (0, rw (new, insert_room_time) (select-new_room_time room rows new))
  | inr (t, there) ↦ (t, rw (there, insert_room_time) there)
]

next : (n k : ℕ) → k ≡ n → k + 1 ≡ n + 1
next n k e = omega (arith, e)

next_of : (n m k : ℕ) → k ≡ n + m → k + 1 ≡ n + (m + 1)
next_of n m k e = omega (arith, e)

module _ (server : Server) (room : Text) (c : Db) where
  -- What is left when the method throws: an error that is not its own, and the rows as they were.
  abbrev pub Failed : Error → World → Type 0
  Failed e w = IsExpected e × HasSameRows c w.committed

  abbrev pub Holds : World → Type 0
  Holds w = HasSameRows c w.working × HasSameRows c w.committed

  -- So many calls of the server have been made.
  abbrev pub HoldsAt : ℕ → World → Type 0
  HoldsAt n w = Holds w × (w.calls ≡ n)

  abbrev Committed : ℕ → World → Type 0
  Committed n w = HasSameRows c w.committed × (w.calls ≡ n)

  -- The time that is returned is that of the third call.
  pub update_room_time-Holds :
      (n : ℕ) (w : World)
      → HoldsAt n w
      → Ensures
          (update_room_time server room 0)
          (λ now w'. HoldsAt (n + 4) w' × (now ≡ server.clock (n + 2)))
          Failed
          w
  unfolding update_room_time
  update_room_time-Holds n w (h, k) =
      Ensures->>= Failed _ _
        (λ _ w1.
          HoldsAt (n + 1) w1 × ((t : ℕ) × (select_room_time room w1.working.room_time ≡ some t)))
        _ w
        (Ensures-call Failed server _ _ w (inl refl, h.1)
          ((h, next n w.calls k), select-insert_room_time room w.working.room_time))
        λ _ w1 ((h1, k1), (time, there)).
          Ensures->>= Failed _ _ (λ row w2. HoldsAt (n + 2) w2 × (row ≡ some time)) _ w1
            (Ensures-call Failed server _ _ w1 (inl refl, h1.1)
              ((h1, next_of n 1 w1.calls k1), there))
            λ row w2 ((h2, k2), e).
              Ensures->>= Failed _ _ (λ _ w3. HoldsAt (n + 2) w3) _ w2
                (Ensures-first_row Failed row time w2 _ e (h2, k2))
                λ time' w3 (h3, k3).
                  Ensures->>= Failed _ _
                    (λ now w4. HoldsAt (n + 3) w4 × (now ≡ server.clock (n + 2))) _ w3
                    (Ensures-call Failed server _ _ w3 (inl refl, h3.1)
                      ((h3, next_of n 2 w3.calls k3), ap server.clock k3))
                    λ now w4 ((h4, k4), e4).
                      Ensures->>= Failed _ _ (λ _ w5. HoldsAt (n + 3) w5) _ w4
                        (Ensures-throw_if Failed (ltb now time') room_time_is_future _ w4
                          (inr refl, h4.1) (h4, k4))
                        λ _ w5 h5.
                          Ensures->>= Failed _ _ (λ _ w6. HoldsAt (n + 3) w6) _ w5
                            (Ensures-pure Failed tt _ w5 h5)
                            λ _ w6 (h6, k6).
                              Ensures->>= Failed _ _ (λ _ w7. HoldsAt (n + 4) w7) _ w6
                                (Ensures-call Failed server _ _ w6 (inl refl, h6.1)
                                  (h6, next_of n 3 w6.calls k6))
                                λ _ w7 h7. Ensures-pure Failed now _ w7 (h7, e4)

  -- The first look at the clock of `getStatus`, which begins after so many calls, and the last one,
  -- for which 0 stands when it fails.
  abbrev pub first_look : ℕ → ℕ
  first_look n = server.clock (n + 4)

  abbrev pub last_look : ℕ → ℕ
  last_look n = if server.fails (n + 10) then 0 else server.clock (n + 10)

  -- A status that agrees with the account of the room at the time of the first look at the clock, and
  -- carries the time of the last one.
  pub record Shows ⦃B : Bigint⦄ (n : ℕ) (gs : GameStatus) : Type 0 where
    pub status : GameStatus
    pub carries : gs ≡ record status { time = last_look n }
    pub outcome :
        IsOutcome
          (build_items c.m_item [])
          (select_addings room c.adding)
          (select_buyings room c.buying)
          (first_look n)
          status

  look_now :
      (w : World)
      → HasSameRows c w.committed
      → Ensures
          (get_current_time server room)
          (λ t w'.
            HasSameRows c w'.committed
            × (t ≡ (if server.fails w.calls then 0 else server.clock w.calls)))
          Failed
          w
  unfolding get_current_time
  look_now w h =
      let shown : ℕ = if server.fails w.calls then 0 else server.clock w.calls in
      Ensures-handle Failed _ _ (λ _ w'. HasSameRows c w'.committed × (0 ≡ shown)) _ w
        (Ensures-call_either (λ _ w'. HasSameRows c w'.committed × (0 ≡ shown)) server _ _ w
          (λ fails. (h, rw fails refl)) (λ works. (h, rw works refl)))
        (λ _ w' h'. Ensures-pure Failed 0 _ w' h')

  look_again_lem :
      (n : ℕ) (w : World)
      → Committed n w
      → Ensures
          (get_current_time server room)
          (λ t w'.
            HasSameRows c w'.committed × (t ≡ (if server.fails n then 0 else server.clock n)))
          Failed
          w
  look_again_lem n w (h, k) =
      subst
        (λ m.
          Ensures (get_current_time server room)
            (λ t w'.
              HasSameRows c w'.committed × (t ≡ (if server.fails m then 0 else server.clock m)))
            Failed w)
        k (look_now w h)

  module _ ⦃B : Bigint⦄ where
    pub returned :
        (now : ℕ)
        → IsSound c
        → (status : GameStatus) × (calc_status now
              (build_items c.m_item [])
              (select_addings room c.adding)
              (select_buyings room c.buying)
            ≡ some status)
          × IsOutcome
              (build_items c.m_item [])
              (select_addings room c.adding)
              (select_buyings room c.buying)
              now
              status
    returned now sound = what_returned _ _ (
        calc_status-IsOutcome now (build_items c.m_item []) (select_addings room c.adding)
          (select_buyings room c.buying) (IsSound-IsConsistent room c sound) (sound.distinct room))

    get_status_body-Shows :
        (n : ℕ) (w : World)
        → IsSound c
        → HoldsAt (n + 2) w
        → Ensures
            (get_status_body server room)
            (λ gs w'. Shows n gs × HasSameRows c w'.committed)
            Failed
            w
    unfolding get_status_body
    get_status_body-Shows n w sound h =
        Ensures->>= Failed _ _ (λ now w1. HoldsAt (n + 6) w1 × (now ≡ first_look n)) _ w
          (Ensures-weaken _ _ _ Failed Failed w (update_room_time-Holds (n + 2) w h)
            (λ now w' p. (((p.0.0), omega (arith, p.0.1)), p.1 ∙ ap server.clock (omega arith)))
            (λ e w' p. p))
          λ now w1 ((h1, k1), at).
            Ensures->>= Failed _ _ (λ rows w2. HoldsAt (n + 7) w2 × (rows ≡ c.m_item)) _ w1
              (Ensures-call Failed server _ _ w1 (inl refl, h1.1)
                ((h1, next_of n 6 w1.calls k1), h1.0.0))
              λ rows w2 ((h2, k2), items).
                Ensures->>= Failed _ _
                  (λ addings w3. HoldsAt (n + 8) w3 × (addings ≡ select_addings room c.adding)) _ w2
                  (Ensures-call Failed server _ _ w2 (inl refl, h2.1)
                    ((h2, next_of n 7 w2.calls k2), ap (select_addings room) h2.0.1))
                  λ addings w3 ((h3, k3), added).
                    Ensures->>= Failed _ _
                      (λ buyings w4. HoldsAt (n + 9) w4 × (buyings ≡ select_buyings room c.buying))
                      _ w3
                      (Ensures-call Failed server _ _ w3 (inl refl, h3.1)
                        ((h3, next_of n 8 w3.calls k3), ap (select_buyings room) h3.0.2))
                      λ buyings w4 ((h4, k4), bought).
                        Ensures->>= Failed _ _ (λ _ w5. Committed (n + 10) w5) _ w4
                          (Ensures-call Failed server _ _ w4 (inl refl, h4.1)
                            (h4.0, next_of n 9 w4.calls k4))
                          λ _ w5 h5.
                            Ensures->>= Failed _ _ (λ _ w6. Committed (n + 10) w6) _ w5
                              (Ensures-release Failed _ w5 h5)
                              λ _ w6 h6.
                                let (status, done, outcome) = returned (first_look n) sound in
                                Ensures->>= Failed _ _
                                  (λ s w7. Committed (n + 10) w7 × (s ≡ status)) _ w6
                                  (Ensures-or_throw Failed _ type_error status w6 _
                                    (rw (at, items, added, bought) done) (h6, refl))
                                  λ s w7 (h7, e).
                                    Ensures->>= Failed _ _
                                      (λ t w8. HasSameRows c w8.committed × (t ≡ last_look n)) _ w7
                                      (look_again_lem (n + 10) w7 h7)
                                      λ latest w8 (h8, stamp). Ensures-pure Failed _ _ w8 (
                                        record {
                                          status = status;
                                          carries =
                                              ap {A = GameStatus} {B = GameStatus}
                                                (λ x. record x { time = latest }) e
                                              ∙ ap {A = ℕ} {B = GameStatus}
                                                  (λ t. record status { time = t }) stamp;
                                          outcome = outcome;
                                        },
                                        h8,
                                      )

    undo-Failed :
        {A : Type 0} (P : A → World → Type 0) (e : Error) (w : World)
        → Failed e w
        → Ensures (undo server room e) P Failed w
    unfolding undo
    undo-Failed P e w h =
        Ensures->>= Failed _ _ (λ _ w1. HasSameRows c w1.committed) _ w
          (Ensures-call Failed server _ _ w (inl refl, h.1) h.1)
          λ _ w1 h1.
            Ensures->>= Failed _ _ (λ _ w2. HasSameRows c w2.committed) _ w1
              (Ensures-release Failed _ w1 h1) λ _ w2 h2. Ensures-throw Failed e P w2 (h.0, h2)

    get_status-Ensures :
        (w : World)
        → IsSound c
        → HasSameRows c w.committed
        → Ensures
            (get_status server room)
            (λ gs w'. Shows w.calls gs × HasSameRows c w'.committed)
            Failed
            w
    unfolding get_status transaction
    get_status-Ensures w sound h =
        Ensures->>= Failed _ _ (λ _ w1. Committed (w.calls + 1) w1) _ w
          (Ensures-call Failed server _ _ w (inl refl, h) (h, refl))
          λ _ w1 (h1, k1).
            Ensures->>= Failed _ _ (λ _ w2. HoldsAt (w.calls + 2) w2) _ w1
              (Ensures-call Failed server _ _ w1 (inl refl, h1)
                ((h1, h1), next_of w.calls 1 w1.calls k1))
              λ _ w2 h2.
                Ensures-handle Failed _ _ Failed _ w2 (get_status_body-Shows w.calls w2 sound h2)
                  (λ e w' failed. undo-Failed _ e w' failed)

pub get_status-Shows :
    (server : Server) (room : Text) ⦃B : Bigint⦄ (w : World)
    → IsSound w.committed
    → Outcomes
        (λ gs w'. Shows server room w.committed w.calls gs × HasSameRows w.committed w'.committed)
        (Failed server room w.committed)
        (get_status server room w)
unfolding Ensures
get_status-Shows server room w sound =
    get_status-Ensures server room w.committed w sound (same_rows w.committed)
