-- ===== src/Store/Rules.antt =====
-- Rules for programs that may fail: what they leave alone, and what holds after them.
use isucon7_final.Prelude.{
  ℕ, ◌+◌, ◌≡◌, refl, subst, ◌∙◌, inl, inr, Bool, true, false, if◌then◌else◌, Bool-cases, Option,
  none, some,
}
use isucon7_final.Store.Tables.{Db}
use isucon7_final.Store.Session.{
  Error, server_failure, Result, ok, err, Server, World, M, pure, first_row, ◌>>=◌, throw_if, call,
  commit, release, query, execute, handle, ◌>>◌,
}

-- What is true when a program ends with a result.
abbrev pub Post : {A : Type 0} → (A → World → Type 0) → Result A × World → Type 0
Post Q (ok a, w) = Q a w
Post Q (err e, w) = Unit

-- The program changes nothing that is committed.
unfoldable pub Keeps : {A : Type 0} → M A → Type 0
Keeps m = (w : World) → (m w).1.committed ≡ w.committed

-- The program ends with `true`, or fails and leaves what is committed as it was.
abbrev pub Ends : Db → Result Bool × World → Type 0
Ends db (ok b, w) = b ≡ true
Ends db (err e, w) = w.committed ≡ db

unfoldable pub IsAtomic : M Bool → Type 0
IsAtomic m = (w : World) → Ends w.committed (m w)

pub Keeps-pure : {A : Type 0} (a : A) → Keeps (pure a)
unfolding Keeps
Keeps-pure a w = refl

pub Keeps-changes :
    (f : World → World)
    → ((w : World) → (f w).committed ≡ w.committed)
    → Keeps {A = Unit {0}} (λ w. (ok tt, f w))
unfolding Keeps
Keeps-changes f k = k

pub Keeps-throw_if : (test : Bool) (e : Error) → Keeps (throw_if test e)
unfolding Keeps
Keeps-throw_if test e w = refl

pub Keeps-first_row : {A : Type 0} (o : Option A) → Keeps (first_row o)
unfolding Keeps
Keeps-first_row none w = refl
Keeps-first_row (some a) w = refl

pub Keeps->>= :
    {A C : Type 0} (m : M A) (f : A → M C) → Keeps m → ((a : A) → Keeps (f a)) → Keeps (m >>= f)
unfolding Keeps ◌>>=◌
Keeps->>= {A} {C} m f k l w = go (m w) (k w)
  where
    go :
        (r : Result A × World)
        → r.1.committed ≡ w.committed
        → (let r' : Result C × World = elim r.0 [ ok a ↦ f a r.1 | err e ↦ (err e, r.1) ] in
            r'.1.committed)
          ≡ w.committed
    go (ok a, w') e = l a w' ∙ e
    go (err x, w') e = e

pub IsAtomic->>= :
    {A : Type 0} (m : M A) (f : A → M Bool)
    → Keeps m
    → ((a : A) → IsAtomic (f a))
    → IsAtomic (m >>= f)
unfolding Keeps IsAtomic ◌>>=◌
IsAtomic->>= {A} m f k l w = go (m w) (k w)
  where
    go :
        (r : Result A × World)
        → r.1.committed ≡ w.committed
        → Ends w.committed (elim r.0 [ ok a ↦ f a r.1 | err e ↦ (err e, r.1) ])
    go (ok a, w') e = subst (λ db. Ends db (f a w')) e (l a w')
    go (err x, w') e = e

module _ (server : Server) where
  pub Keeps-call :
      {A : Type 0} (f : ℕ → World → A × World)
      → ((now : ℕ) (w : World) → (f now w).1.committed ≡ w.committed)
      → Keeps (call server f)
  unfolding call Keeps
  Keeps-call f k w = elim (Bool-cases (server.fails w.calls)) [
    | inl fails ↦ rw fails
    | inr works ↦ rw works (k (server.clock w.calls) (record w { calls = w.calls + 1 }))
  ]

  pub Keeps-query : {A : Type 0} (f : Db → A) → Keeps (query server f)
  Keeps-query f = Keeps-call (λ now w. (f w.working, w)) (λ now w. refl)

  pub Keeps-execute : (f : Db → Db) → Keeps (execute server f)
  Keeps-execute f = Keeps-call (λ now w. (tt, record w { working = f w.working })) (λ now w. refl)

  -- Once the transaction is committed nothing can fail any more.
  pub finish-IsAtomic : IsAtomic (commit server >> (release >> pure true))
  unfolding IsAtomic call ◌>>=◌
  finish-IsAtomic w = go (server.fails w.calls)
    where
      done : World
      done = record w { calls = w.calls + 1; committed = w.working; is_open = false }

      go :
          (fails : Bool)
          → Ends w.committed (
              (let r : Result (Unit {0}) × World =
                  if fails
                  then (err server_failure, record w { calls = w.calls + 1 })
                  else (ok tt, done) in
                elim r.0 [ ok a ↦ (release >> pure true) r.1 | err e ↦ (err e, r.1) ]))
      go true = refl
      go false = refl

  pub handle-IsAtomic :
      (m : M Bool) (f : Error → M Bool)
      → IsAtomic m
      → ((e : Error) → IsAtomic (f e))
      → IsAtomic (handle m f)
  unfolding IsAtomic
  handle-IsAtomic m f k l w = go (m w) (k w)
    where
      go :
          (r : Result Bool × World)
          → Ends w.committed r
          → Ends w.committed (elim r.0 [ ok b ↦ (ok b, r.1) | err e ↦ f e r.1 ])
      go (ok b, w') e = e
      go (err x, w') e = subst (λ db. Ends db (f x w')) e (l x w')
