-- ===== src/Js/Object.antt =====
-- A plain JavaScript object used as a map from numbers.
use isucon7_final.Prelude.{
  ℕ, ◌+◌, ◌≤◌, ◌≡◌, refl, Bool, ◌&&◌, ◌||◌, true, false, All, is_some, sym, ◌∙◌, Option, none, some,
  List, [], ◌∷◌, arith, ltb, ◌==◌, if◌then◌else◌,
}

-- The own properties in the order of enumeration.
abbrev pub Object {ℓ} : Type ℓ → Type ℓ
Object V = List (ℕ × V)

-- Keys below 2 ^ 32 - 1 are array indices: they are enumerated first and in ascending order. All
-- others are enumerated in the order in which they were added.
abbrev pub comes_before : ℕ → ℕ → Bool
comes_before k j = ltb k 4294967295 && ltb k j

-- Whether a number stands in a list.
abbrev pub among : ℕ → List ℕ → Bool
among k [] = false
among k (j ∷ js) = k == j || among k js

pub All-among {κ} : (P : ℕ → Type κ) (ks : List ℕ) → ((k : ℕ) → among k ks ≡ true → P k) → All P ks
All-among P [] h = tt
All-among P (k ∷ ks) h = (h k (ground arith), All-among P ks (λ j e. h j (ground arith)))

module _ {ℓ} {V : Type ℓ} where
  -- `m[k]`, where `none` is `undefined`.
  unfoldable pub get : ℕ → Object V → Option V
  get k [] = none
  get k ((j, v) ∷ m) = if k == j then some v else get k m

  -- `m[k] = v`
  unfoldable pub put : ℕ → V → Object V → Object V
  put k v [] = (k, v) ∷ []
  put k v ((j, w) ∷ m) =
      let rest = put k v m in
      if k == j then (k, v) ∷ m else if comes_before k j then (k, v) ∷ (j, w) ∷ m else (j, w) ∷ rest

  -- `for (let k in m)`
  abbrev pub keys : Object V → List ℕ
  keys [] = []
  keys ((k, v) ∷ m) = k ∷ keys m

  -- `Object.values(m)`
  abbrev pub values : Object V → List V
  values [] = []
  values ((k, v) ∷ m) = v ∷ values m

  pub get-put :
      (j k : ℕ) (v : V) (m : Object V) → get j (put k v m) ≡ (if j == k then some v else get j m)
  unfolding get put
  get-put j k v [] = refl
  get-put j k v ((i, w) ∷ m) = ground (arith, get-put j k v m)

  -- The keys that are enumerated are those that are present.
  pub among-keys : (k : ℕ) (m : Object V) → among k (keys m) ≡ is_some (get k m)
  unfolding get
  among-keys k [] = refl
  among-keys k ((j, v) ∷ m) = ground (arith, among-keys k m)

  pub keys-present : (m : Object V) → All (λ k. is_some (get k m) ≡ true) (keys m)
  keys-present m = All-among _ (keys m) (λ k e. sym (among-keys k m) ∙ e)

  -- `delete m[k]`
  unfoldable pub remove : ℕ → Object V → Object V
  remove k [] = []
  remove k ((j, v) ∷ m) = let rest = remove k m in if k == j then rest else (j, v) ∷ rest

  pub get-remove :
      (j k : ℕ) (m : Object V) → get j (remove k m) ≡ (if j == k then none else get j m)
  unfolding get remove
  get-remove j k [] = ground arith
  get-remove j k ((i, w) ∷ m) = ground (arith, get-remove j k m)

  -- A number above every key.
  abbrev pub above : Object V → ℕ
  above [] = 0
  above ((j, v) ∷ m) = j + 1 + above m

  pub get-above : (k : ℕ) (m : Object V) → above m ≤ k → get k m ≡ none
  unfolding get
  get-above k [] h = refl
  get-above k ((j, v) ∷ m) h = ground (arith, get-above k m)
