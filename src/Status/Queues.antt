-- ===== src/Status/Queues.antt =====
-- What waits for a later time after `calcStatus` has read the tables: the last adding and all the
-- buyings of each time.
use isucon7_final.Prelude.{
  ℕ, ◌<◌, ◌≡◌, refl, Option, none, some, List, [], ◌∷◌, ◌++◌, arith, ◌==◌, if◌then◌else◌, get_or,
  inl, inr, Bool-cases,
}
use mathlib.Core.List.{append_assoc}
use isucon7_final.Js.Object.{get, get-put}
use isucon7_final.Bigint.{Bigint}
use isucon7_final.Status.Types.{Adding, Buying, Locals}
use isucon7_final.Status.Start.{count_adding, count_addings, queue_buying}

unfoldable pub last_at : ℕ → List Adding → Option Adding
last_at t [] = none
last_at t (a ∷ addings) = elim (last_at t addings) [
  | none ↦ if a.time == t then some a else none
  | some later ↦ some later
]

unfoldable pub all_at : ℕ → List Buying → List Buying
all_at t [] = []
all_at t (b ∷ buyings) = if b.time == t then b ∷ all_at t buyings else all_at t buyings

abbrev pub or_else {ℓ} : {A : Type ℓ} → Option A → Option A → Option A
or_else none o = o
or_else (some a) o = some a

-- A queue that may not exist yet, with more at its end.
abbrev pub enqueued {ℓ} : {A : Type ℓ} → Option (List A) → List A → Option (List A)
enqueued o [] = o
enqueued o (x ∷ xs) = some (get_or o [] ++ x ∷ xs)

pub enqueued-cons {ℓ} :
    {A : Type ℓ} (o : Option (List A)) (x : A) (xs : List A)
    → enqueued (some (get_or o [] ++ x ∷ [])) xs ≡ enqueued o (x ∷ xs)
enqueued-cons o x [] = refl
enqueued-cons o x (y ∷ ys) = rw append_assoc

pub all_at-cons :
    (t : ℕ) (b : Buying) (buyings : List Buying) (o : Option (List Buying))
    → enqueued (enqueued o (all_at t (b ∷ []))) (all_at t buyings)
      ≡ enqueued o (all_at t (b ∷ buyings))
unfolding all_at
all_at-cons t b buyings o = elim (Bool-cases (b.time == t)) [
  | inl now ↦ rw now (enqueued-cons o b (all_at t buyings))
  | inr other ↦ rw other
]

module _ ⦃B : Bigint⦄ where
  open B use {Big}

  get-count_adding :
      (now t : ℕ) (a : Adding) (s : Locals Big)
      → now < t
      → get t (count_adding now a s).adding_at ≡ (if a.time == t then some a else get t s.adding_at)
  unfolding count_adding
  get-count_adding now t a s h = ground (arith, get-put t a.time a s.adding_at)

  pub get-count_addings :
      (now t : ℕ) (addings : List Adding) (s : Locals Big)
      → now < t
      → get t (count_addings now addings s).adding_at
        ≡ or_else (last_at t addings) (get t s.adding_at)
  unfolding count_addings last_at
  get-count_addings now t [] s h = refl
  get-count_addings now t (a ∷ addings) s h = ground (
    arith,
    get-count_addings now t addings (count_adding now a s) h,
    get-count_adding now t a s h,
  )

  pub get-queue_buying :
      (t : ℕ) (b : Buying) (s : Locals Big)
      → get t (queue_buying b s).buying_at ≡ (
          if b.time == t then some (get_or (get t s.buying_at) [] ++ b ∷ []) else get t s.buying_at)
  unfolding queue_buying
  get-queue_buying t b s =
      ground (arith, get-put t b.time (get_or (get b.time s.buying_at) [] ++ b ∷ []) s.buying_at)
