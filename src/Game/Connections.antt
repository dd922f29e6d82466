-- ===== src/Game/Connections.antt =====
-- The connections that the methods take from the pool and give back.
pub mod Methods
use isucon7_final.Prelude.{
  if◌then◌else◌, ℕ, ◌+◌, ◌≤◌, ◌≡◌, refl, Bool, true, false, List, [], ◌∷◌, arith,
}
use isucon7_final.Js.Digits.{Text}
use isucon7_final.Prelude.{Option}
use isucon7_final.Bigint.{Bigint}
use isucon7_final.Status.Types.{Buying}
use isucon7_final.Store.Session.{
  Error, room_time_is_future, req_time_is_past, already_bought, not_enough, duplicate_key, Server,
  World, M, pure, call, release, first_row, throw_if, commit, handle, ◌>>=◌,
}
use isucon7_final.Store.Total.{
  Ensures, Ensures->>=, Ensures-pure, Ensures-release, Ensures-throw, Ensures-throw_if,
  Ensures-handle, Ensures-call_or, Ensures-first_row_or,
}
use isucon7_final.Game.{
  update_room_time, undo, transaction, add_isu_body, add_isu, sum_buyings, insert_buying,
  buy_item_body, buy_item,
}

module _ (server : Server) (g : ℕ) where
  abbrev pub IsCalm : Type 0
  IsCalm = (k : ℕ) → server.fails k ≡ false

  -- At least so many connections are out; and no more, if no call of the server fails, and then of
  -- those given back no more than g had an open transaction.
  pub record Owes (n : ℕ) (w : World) : Type 0 where
    pub at_least : w.released + n ≤ w.taken
    pub at_most : IsCalm → w.taken ≤ w.released + n
    pub tidy : IsCalm → w.given_open ≡ g

  -- A failing call is an excuse for a connection that is not given back.
  excused :
      (n : ℕ) (w w' : World) → server.fails w.calls ≡ true → w'.released + n ≤ w'.taken → Owes n w'
  excused n w w' fails h = record {
    at_least = h;
    at_most = λ calm. let e = calm w.calls in absurd (ground (arith, e, fails));
    tidy = λ calm. let e = calm w.calls in absurd (ground (arith, e, fails));
  }

  abbrev pub After : (A : Type 0) → ℕ → A → World → Type 0
  After A n a w = Owes n w

  abbrev pub Thrown : ℕ → Error → World → Type 0
  Thrown n e w = Owes n w

  pub same_counts :
      (n : ℕ) (w w' : World)
      → w'.taken ≡ w.taken
      → w'.released ≡ w.released
      → w'.given_open ≡ w.given_open
      → Owes n w
      → Owes n w'
  same_counts n w w' t r o h = record {
    at_least = rw (t, r) h.at_least;
    at_most = rw (t, r) h.at_most;
    tidy = rw o h.tidy;
  }

  -- A statement, of which a failure is thrown.
  pub statement :
      (n : ℕ) {A : Type 0} (f : ℕ → World → A × World) (w : World)
      → ((t : ℕ) (v : World)
          → ((f t v).1.taken ≡ v.taken)
            × ((f t v).1.released ≡ v.released)
            × ((f t v).1.given_open ≡ v.given_open))
      → Owes n w
      → Ensures (call server f) (After A n) (Thrown n) w
  statement n f w keeps h =
      let v = record w { calls = w.calls + 1 } in
      let (t, r, o) = keeps (server.clock w.calls) v in
      Ensures-call_or (Thrown n) server f _ w (λ fails. same_counts n w v refl refl refl h)
        (same_counts n w _ t r o h)

  given_back :
      (n : ℕ) (w : World)
      → (IsCalm → w.is_open ≡ false)
      → Owes (n + 1) w
      → Owes n (record w {
        released = w.released + 1;
        given_open = if w.is_open then w.given_open + 1 else w.given_open;
      })
  given_back n w ended h = record {
    at_least = omega (arith, h.at_least);
    at_most = λ calm. omega (arith, h.at_most calm);
    tidy = λ calm. rw (ended calm) (h.tidy calm);
  }

  -- After the transaction has ended.
  abbrev pub Ended : ℕ → Unit {0} → World → Type 0
  Ended n a w = Owes n w × (w.is_open ≡ false)

  pub release_lem :
      (n : ℕ) (w : World) (E : Error → World → Type 0)
      → Ended (n + 1) tt w
      → Ensures release (After (Unit {0}) n) E w
  release_lem n w E (h, ended) = Ensures-release E _ w (given_back n w (λ calm. ended) h)

  -- `commit`, of which a failure is thrown.
  pub commit_lem : (n : ℕ) (w : World) → Owes n w → Ensures (commit server) (Ended n) (Thrown n) w
  commit_lem n w h =
      Ensures-call_or (Thrown n) server _ _ w (λ fails. same_counts n w _ refl refl refl h)
        (same_counts n w _ refl refl refl h, refl)

  -- A statement and what follows it.
  pub then_statement :
      (n : ℕ) {A C : Type 0} (f : ℕ → World → A × World) (g : A → M C) (P : C → World → Type 0)
      (w : World)
      → ((t : ℕ) (v : World)
          → ((f t v).1.taken ≡ v.taken)
            × ((f t v).1.released ≡ v.released)
            × ((f t v).1.given_open ≡ v.given_open))
      → Owes n w
      → ((a : A) (w' : World) → Owes n w' → Ensures (g a) P (Thrown n) w')
      → Ensures (call server f >>= g) P (Thrown n) w
  then_statement n {A} f g P w keeps h k =
      Ensures->>= (Thrown n) (call server f) g (After A n) P w (statement n f w keeps h) k

  pub then_first_row :
      (n : ℕ) {A C : Type 0} (o : Option A) (g : A → M C) (P : C → World → Type 0) (w : World)
      → Owes n w
      → ((a : A) (w' : World) → Owes n w' → Ensures (g a) P (Thrown n) w')
      → Ensures (first_row o >>= g) P (Thrown n) w
  then_first_row n {A} o g P w h k =
      Ensures->>= (Thrown n) (first_row o) g (After A n) P w
        (Ensures-first_row_or (Thrown n) o (After A n) w h (λ a. h)) k

  pub then_throw_if :
      (n : ℕ) {C : Type 0} (test : Bool) (e : Error) (g : Unit {0} → M C) (P : C → World → Type 0)
      (w : World)
      → Owes n w
      → ((a : Unit {0}) (w' : World) → Owes n w' → Ensures (g a) P (Thrown n) w')
      → Ensures (throw_if test e >>= g) P (Thrown n) w
  then_throw_if n test e g P w h k =
      Ensures->>= (Thrown n) (throw_if test e) g (After (Unit {0}) n) P w
        (Ensures-throw_if (Thrown n) test e _ w h h) k

  pub then_any :
      (n : ℕ) {A C : Type 0} (m : M A) (g : A → M C) (P : C → World → Type 0) (w : World)
      → Ensures m (After A n) (Thrown n) w
      → ((a : A) (w' : World) → Owes n w' → Ensures (g a) P (Thrown n) w')
      → Ensures (m >>= g) P (Thrown n) w
  then_any n {A} m g P w h k = Ensures->>= (Thrown n) m g (After A n) P w h k

  module _ (room : Text) where
    undo_lem :
        (n : ℕ) (A : Type 0) (e : Error) (w : World)
        → Owes (n + 1) w
        → Ensures (undo server room {A = A} e) (After A n) (Thrown n) w
    unfolding undo
    undo_lem n A e w h =
        Ensures->>= (Thrown n) _ _ (Ended (n + 1)) _ w
          (Ensures-call_or (Thrown n) server _ _ w
            (λ fails. excused n w _ fails (omega (arith, h.at_least)))
            (same_counts (n + 1) w _ refl refl refl h, refl))
          λ _ w1 h1.
            Ensures->>= (Thrown n) _ _ (After (Unit {0}) n) _ w1 (release_lem n w1 (Thrown n) h1)
              λ _ w2 h2. Ensures-throw (Thrown n) e (After A n) w2 h2

    -- The method begins on what is committed, with one more connection.
    pub transaction_lem :
        (n : ℕ) {A : Type 0} (body : M A) (w : World)
        → Owes n w
        → ((w' : World)
            → (w'.working ≡ w.committed) × (w'.committed ≡ w.committed)
            → Owes (n + 1) w'
            → Ensures body (After A n) (Thrown (n + 1)) w')
        → Ensures (transaction server room body) (After A n) (Thrown n) w
    unfolding transaction
    transaction_lem n {A} body w h k =
        Ensures->>= (Thrown n) _ _ (λ _ w1. (w1.committed ≡ w.committed) × Owes (n + 1) w1) _ w
          (Ensures-call_or (Thrown n) server _ _ w (λ fails. same_counts n w _ refl refl refl h)
            (
              refl,
              record {
                at_least = omega (arith, h.at_least);
                at_most = λ calm. omega (arith, h.at_most calm);
                tidy = h.tidy;
              },
            ))
          λ _ w1 (e, h1).
            Ensures->>= (Thrown n) _ _
              (λ _ w2.
                ((w2.working ≡ w.committed) × (w2.committed ≡ w.committed)) × Owes (n + 1) w2)
              _ w1
              (Ensures-call_or (Thrown n) server _ _ w1
                (λ fails. excused n w1 _ fails (omega (arith, h1.at_least)))
                ((e, e), same_counts (n + 1) w1 _ refl refl refl h1))
              λ _ w2 (begun, h2).
                Ensures-handle (Thrown n) body (undo server room) (Thrown (n + 1)) (After A n) w2
                  (k w2 begun h2) (λ e w' h'. undo_lem n _ e w' h')
