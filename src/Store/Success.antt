-- ===== src/Store/Success.antt =====
-- What a program has done when it ends with a result.
use isucon7_final.Prelude.{
  arith, ℕ, ◌+◌, ◌≡◌, refl, subst, Bool, true, false, Option, none, some, inl, inr, Bool-cases,
}
use isucon7_final.Store.Tables.{Db}
use isucon7_final.Store.Session.{
  Error, Result, ok, err, Server, World, M, pure, first_row, ◌>>=◌, throw, throw_if, call,
  read_clock, commit, release, query, execute, handle, begin_transaction, get_connection,
}
use isucon7_final.Store.Rules.{Post}

-- If the program ends with a result, the result and the world satisfy a predicate.
unfoldable pub IfOk : {A : Type 0} → M A → (A → World → Type 0) → World → Type 0
IfOk m P w = Post P (m w)

pub IfOk->>= :
    {A C : Type 0} (m : M A) (f : A → M C) (Q : A → World → Type 0) (P : C → World → Type 0)
    (w : World)
    → IfOk m Q w
    → ((a : A) (w' : World) → Q a w' → IfOk (f a) P w')
    → IfOk (m >>= f) P w
unfolding IfOk ◌>>=◌
IfOk->>= {A} {C} m f Q P w h k = go (m w) h
  where
    go :
        (r : Result A × World)
        → Post Q r
        → Post P (elim r.0 [ ok a ↦ f a r.1 | err x ↦ (err x, r.1) ])
    go (ok a, w') h = k a w' h
    go (err x, w') h = tt

pub IfOk-pure :
    {A : Type 0} (a : A) (P : A → World → Type 0) (w : World) → P a w → IfOk (pure a) P w
unfolding IfOk
IfOk-pure a P w h = h

pub IfOk-throw : {A : Type 0} (e : Error) (P : A → World → Type 0) (w : World) → IfOk (throw e) P w
unfolding IfOk
IfOk-throw e P w = tt

pub IfOk-release : (w : World) → IfOk release (λ _ w'. w'.committed ≡ w.committed) w
unfolding IfOk
IfOk-release w = refl

pub IfOk-first_row :
    {A : Type 0} (o : Option A) (w : World)
    → IfOk (first_row o) (λ a w'. (o ≡ some a) × (w'.working ≡ w.working)) w
unfolding IfOk
IfOk-first_row none w = tt
IfOk-first_row (some a) w = (refl, refl)

pub IfOk-throw_if :
    (test : Bool) (e : Error) (w : World)
    → IfOk (throw_if test e) (λ _ w'. (test ≡ false) × (w'.working ≡ w.working)) w
unfolding IfOk
IfOk-throw_if true e w = tt
IfOk-throw_if false e w = (refl, refl)

-- What the handler may do is of no account if it throws.
pub IfOk-handle :
    {A : Type 0} (m : M A) (f : Error → M A) (P : A → World → Type 0) (w : World)
    → IfOk m P w
    → ((e : Error) (w' : World) → IfOk (f e) P w')
    → IfOk (handle m f) P w
unfolding IfOk
IfOk-handle {A} m f P w h k = go (m w) h
  where
    go :
        (r : Result A × World)
        → Post P r
        → Post P (elim r.0 [ ok a ↦ (ok a, r.1) | err e ↦ f e r.1 ])
    go (ok a, w') h = h
    go (err e, w') h = k e w'

module _ (server : Server) where
  pub IfOk-call :
      {A : Type 0} (f : ℕ → World → A × World) (P : A → World → Type 0) (w : World)
      → (let (a, w') = f (server.clock w.calls) (record w { calls = w.calls + 1 }) in P a w')
      → IfOk (call server f) P w
  unfolding IfOk call
  IfOk-call f P w h = elim (Bool-cases (server.fails w.calls)) [
    | inl fails ↦ rw fails tt
    | inr works ↦ rw works h
  ]

  pub IfOk-query :
      {A : Type 0} (f : Db → A) (w : World)
      → IfOk (query server f) (λ a w'. (a ≡ f w.working) × (w'.working ≡ w.working)) w
  IfOk-query f w = IfOk-call (λ now w. (f w.working, w)) _ w (refl, refl)

  pub IfOk-execute :
      (f : Db → Db) (w : World) → IfOk (execute server f) (λ _ w'. w'.working ≡ f w.working) w
  IfOk-execute f w = IfOk-call (λ now w. (tt, record w { working = f w.working })) _ w refl

  pub IfOk-read_clock : (w : World) → IfOk (read_clock server) (λ _ w'. w'.working ≡ w.working) w
  IfOk-read_clock w = IfOk-call (λ now w. (now, w)) _ w refl

  pub IfOk-commit : (w : World) → IfOk (commit server) (λ _ w'. w'.committed ≡ w.working) w
  IfOk-commit w = IfOk-call _ _ w refl

  pub IfOk-get_connection :
      (w : World) → IfOk (get_connection server) (λ _ w'. w'.committed ≡ w.committed) w
  IfOk-get_connection w = IfOk-call _ _ w refl

  pub IfOk-begin_transaction :
      (w : World) → IfOk (begin_transaction server) (λ _ w'. w'.working ≡ w.committed) w
  IfOk-begin_transaction w = IfOk-call _ _ w refl

pub IfOk-consequence :
    {A : Type 0} (m : M A) (P Q : A → World → Type 0) (w : World)
    → IfOk m P w
    → ((a : A) (w' : World) → P a w' → Q a w')
    → IfOk m Q w
unfolding IfOk
IfOk-consequence {A} m P Q w h k = go (m w) h
  where
    go : (r : Result A × World) → Post P r → Post Q r
    go (ok a, w') h = k a w' h
    go (err e, w') h = tt

pub IfOk-answer :
    {A : Type 0} (m : M A) (P : A → World → Type 0) (w : World) (a : A)
    → IfOk m P w
    → (m w).0 ≡ ok a
    → P a (m w).1
unfolding IfOk
IfOk-answer {A} m P w a h e = go (m w) h e
  where
    go : (r : Result A × World) → Post P r → r.0 ≡ ok a → P a r.1
    go (ok b, w') h e = let same : b ≡ a = cc in subst (λ c. P c w') same h
    go (err x, w') h e = absurd (ground arith)
