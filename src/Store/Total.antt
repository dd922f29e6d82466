-- ===== src/Store/Total.antt =====
-- What a program has done in any case: when it ends with a result, and when it throws.
use isucon7_final.Prelude.{
  if◌then◌else◌, ℕ, ◌+◌, ◌≡◌, Bool, true, false, Option, none, some, inl, inr, Bool-cases,
}
use isucon7_final.Store.Session.{
  Error, server_failure, type_error, Result, ok, err, Server, World, M, pure, throw, first_row,
  or_throw, ◌>>=◌, throw_if, call, release, handle,
}

abbrev pub Outcomes :
    {A : Type 0} → (A → World → Type 0) → (Error → World → Type 0) → Result A × World → Type 0
Outcomes P E (ok a, w) = P a w
Outcomes P E (err e, w) = E e w

unfoldable pub Ensures :
    {A : Type 0} → M A → (A → World → Type 0) → (Error → World → Type 0) → World → Type 0
Ensures m P E w = Outcomes P E (m w)

module _ (E : Error → World → Type 0) where
  pub Ensures->>= :
      {A C : Type 0} (m : M A) (f : A → M C) (Q : A → World → Type 0) (P : C → World → Type 0)
      (w : World)
      → Ensures m Q E w
      → ((a : A) (w' : World) → Q a w' → Ensures (f a) P E w')
      → Ensures (m >>= f) P E w
  unfolding Ensures ◌>>=◌
  Ensures->>= {A} {C} m f Q P w h k = go (m w) h
    where
      go :
          (r : Result A × World)
          → Outcomes Q E r
          → Outcomes P E (elim r.0 [ ok a ↦ f a r.1 | err x ↦ (err x, r.1) ])
      go (ok a, w') h = k a w' h
      go (err x, w') h = h

  pub Ensures-pure :
      {A : Type 0} (a : A) (P : A → World → Type 0) (w : World) → P a w → Ensures (pure a) P E w
  unfolding Ensures
  Ensures-pure a P w h = h

  pub Ensures-throw :
      {A : Type 0} (e : Error) (P : A → World → Type 0) (w : World)
      → E e w
      → Ensures (throw e) P E w
  unfolding Ensures
  Ensures-throw e P w h = h

  pub Ensures-release :
      (P : Unit {0} → World → Type 0) (w : World)
      → P tt (record w {
        released = w.released + 1;
        given_open = if w.is_open then w.given_open + 1 else w.given_open;
      })
      → Ensures release P E w
  unfolding Ensures
  Ensures-release P w h = h

  pub Ensures-first_row :
      {A : Type 0} (o : Option A) (a : A) (w : World) (P : A → World → Type 0)
      → o ≡ some a
      → P a w
      → Ensures (first_row o) P E w
  unfolding Ensures
  Ensures-first_row o a w P e h = rw e h

  pub Ensures-or_throw :
      {A : Type 0} (o : Option A) (e : Error) (a : A) (w : World) (P : A → World → Type 0)
      → o ≡ some a
      → P a w
      → Ensures (or_throw o e) P E w
  unfolding Ensures
  Ensures-or_throw o x a w P e h = rw e h

  pub Ensures-throw_if :
      (test : Bool) (e : Error) (P : Unit {0} → World → Type 0) (w : World)
      → E e w
      → P tt w
      → Ensures (throw_if test e) P E w
  unfolding Ensures
  Ensures-throw_if true e P w thrown passed = thrown
  Ensures-throw_if false e P w thrown passed = passed

  pub Ensures-handle :
      {A : Type 0} (m : M A) (f : Error → M A) (E' : Error → World → Type 0)
      (P : A → World → Type 0) (w : World)
      → Ensures m P E' w
      → ((e : Error) (w' : World) → E' e w' → Ensures (f e) P E w')
      → Ensures (handle m f) P E w
  unfolding Ensures
  Ensures-handle {A} m f E' P w h k = go (m w) h
    where
      go :
          (r : Result A × World)
          → Outcomes P E' r
          → Outcomes P E (elim r.0 [ ok a ↦ (ok a, r.1) | err e ↦ f e r.1 ])
      go (ok a, w') h = h
      go (err e, w') h = k e w' h

  pub Ensures-call :
      (server : Server) {A : Type 0} (f : ℕ → World → A × World) (P : A → World → Type 0)
      (w : World)
      → E server_failure (record w { calls = w.calls + 1 })
      → (let (a, w') = f (server.clock w.calls) (record w { calls = w.calls + 1 }) in P a w')
      → Ensures (call server f) P E w
  unfolding Ensures call
  Ensures-call server f P w failed done = elim (Bool-cases (server.fails w.calls)) [
    | inl fails ↦ rw fails failed
    | inr works ↦ rw works done
  ]

  -- The same, where the failure may be known.
  pub Ensures-call_or :
      (server : Server) {A : Type 0} (f : ℕ → World → A × World) (P : A → World → Type 0)
      (w : World)
      → (server.fails w.calls ≡ true → E server_failure (record w { calls = w.calls + 1 }))
      → (let (a, w') = f (server.clock w.calls) (record w { calls = w.calls + 1 }) in P a w')
      → Ensures (call server f) P E w
  unfolding Ensures call
  Ensures-call_or server f P w failed done = elim (Bool-cases (server.fails w.calls)) [
    | inl fails ↦ rw fails (failed fails)
    | inr works ↦ rw works done
  ]

  -- The same, where it may be known which of the two happens.
  pub Ensures-call_either :
      (server : Server) {A : Type 0} (f : ℕ → World → A × World) (P : A → World → Type 0)
      (w : World)
      → (server.fails w.calls ≡ true → E server_failure (record w { calls = w.calls + 1 }))
      → (server.fails w.calls ≡ false
          → (let (a, w') = f (server.clock w.calls) (record w { calls = w.calls + 1 }) in P a w'))
      → Ensures (call server f) P E w
  unfolding Ensures call
  Ensures-call_either server f P w failed done = elim (Bool-cases (server.fails w.calls)) [
    | inl fails ↦ rw fails (failed fails)
    | inr works ↦ rw works (done works)
  ]

  pub Ensures-first_row_or :
      {A : Type 0} (o : Option A) (P : A → World → Type 0) (w : World)
      → E type_error w
      → ((a : A) → P a w)
      → Ensures (first_row o) P E w
  unfolding Ensures
  Ensures-first_row_or none P w missing there = missing
  Ensures-first_row_or (some a) P w missing there = there a

pub Ensures-and :
    {A : Type 0} (m : M A) (P P' : A → World → Type 0) (E E' : Error → World → Type 0) (w : World)
    → Ensures m P E w
    → Ensures m P' E' w
    → Ensures m (λ a w. P a w × P' a w) (λ e w. E e w × E' e w) w
unfolding Ensures
Ensures-and {A} m P P' E E' w h h' = both (m w) h h'
  where
    both :
        (r : Result A × World)
        → Outcomes P E r
        → Outcomes P' E' r
        → Outcomes (λ a w. P a w × P' a w) (λ e w. E e w × E' e w) r
    both (ok a, w') h h' = (h, h')
    both (err e, w') h h' = (h, h')

pub Ensures-weaken :
    {A : Type 0} (m : M A) (P P' : A → World → Type 0) (E E' : Error → World → Type 0) (w : World)
    → Ensures m P E w
    → ((a : A) (w' : World) → P a w' → P' a w')
    → ((e : Error) (w' : World) → E e w' → E' e w')
    → Ensures m P' E' w
unfolding Ensures
Ensures-weaken {A} m P P' E E' w h done thrown = go (m w) h
  where
    go : (r : Result A × World) → Outcomes P E r → Outcomes P' E' r
    go (ok a, w') h = done a w' h
    go (err e, w') h = thrown e w' h

-- What holds in either case holds of the world that is left.
pub Ensures-always :
    {A : Type 0} (m : M A) (P : World → Type 0) (w : World)
    → Ensures m (λ _ w'. P w') (λ _ w'. P w') w
    → P (m w).1
unfolding Ensures
Ensures-always {A} m P w h = go (m w) h
  where
    go : (r : Result A × World) → Outcomes (λ _ w'. P w') (λ _ w'. P w') r → P r.1
    go (ok a, w') h = h
    go (err e, w') h = h
