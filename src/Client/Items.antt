-- ===== src/Client/Items.antt =====
-- The loop of `calcItem` of webapp/public/game.js: which machines of an item are still to come.
use isucon7_final.Prelude.{
  Bool, true, false, not, ℕ, zero, suc, ◌+◌, ◌-◌, ◌≤◌, ◌≡◌, refl, sym, subst, ◌∙◌, ap, Option, none,
  some, List, [], ◌∷◌, ◌++◌, map, All, arith, leb, if◌then◌else◌,
}
use isucon7_final.Js.Object.{Object, get}
use isucon7_final.Status.Types.{Building}

-- A machine that takes effect in `dt` milliseconds.
pub record Coming : Type 0 where
  pub dt : ℕ
  pub ordinal : ℕ

-- The variables `k` (as the entry it points to), `nn` and `building`.
pub record Progress : Type 0 where
  pub latest : Option Building
  pub nn : ℕ
  pub building : List Coming

-- `for (var y = nn + 1; y <= count; y++)` with the rounds that are left.
unfoldable pub coming_from : (dt nn rounds : ℕ) → List Coming
coming_from dt nn zero = []
coming_from dt nn (suc rounds) =
    record { dt = dt; ordinal = nn + 1 } ∷ coming_from dt (nn + 1) rounds

-- One round of the loop over `b.building`.
unfoldable pub look_at : ℕ → Building → Progress → Progress
unfolding coming_from
look_at time b p =
    if leb b.time time
    then record { latest = some b; nn = b.count_built; building = p.building }
    else record {
      latest = p.latest;
      nn = b.count_built;
      building = p.building ++ coming_from (b.time - time) p.nn (b.count_built - p.nn);
    }

unfoldable pub look_at_all : ℕ → List Building → Progress → Progress
unfolding look_at
look_at_all time [] p = p
look_at_all time (b ∷ buildings) p = look_at_all time buildings (look_at time b p)

-- `calcDisabled`
unfoldable pub calc_disabled : Object ℕ → (item_id time : ℕ) → Bool
calc_disabled on_sale item_id time = elim (get item_id on_sale) [
  | none ↦ true
  | some from ↦ not (leb from time)
]

-- The numbers from n + 1 on.
unfoldable pub numbers_after : ℕ → ℕ → List ℕ
numbers_after n zero = []
numbers_after n (suc count) = (n + 1) ∷ numbers_after (n + 1) count

-- The counts of the entries never fall, the first not below n; and the last of them.
abbrev pub Ascends : ℕ → List Building → Type 0
Ascends n [] = Unit
Ascends n (b ∷ buildings) = (n ≤ b.count_built) × Ascends b.count_built buildings

abbrev pub last_count : ℕ → List Building → ℕ
last_count n [] = n
last_count n (b ∷ buildings) = last_count b.count_built buildings

numbers_after-append :
    (n a b : ℕ) → numbers_after n a ++ numbers_after (n + a) b ≡ numbers_after n (a + b)
unfolding numbers_after
numbers_after-append n zero b =
    let here : n + 0 ≡ n = omega arith in
    let count : 0 + b ≡ b = omega arith in rw (here, count) refl
numbers_after-append n (suc a) b =
    let here : n + suc a ≡ n + 1 + a = omega arith in
    let count : suc a + b ≡ suc (a + b) = omega arith in
    rw (here, count) (ap (λ ns. (n + 1) ∷ ns) (numbers_after-append (n + 1) a b))

abbrev pub ordinals : List Coming → List ℕ
ordinals = map (λ c. c.ordinal)

ordinals-append : (xs ys : List Coming) → ordinals (xs ++ ys) ≡ ordinals xs ++ ordinals ys
ordinals-append [] ys = refl
ordinals-append (x ∷ xs) ys = ap (λ ns. x.ordinal ∷ ns) (ordinals-append xs ys)

append_assoc : (xs ys zs : List ℕ) → (xs ++ ys) ++ zs ≡ xs ++ (ys ++ zs)
append_assoc [] ys zs = refl
append_assoc (x ∷ xs) ys zs = ap (λ ns. x ∷ ns) (append_assoc xs ys zs)

ordinals-coming_from :
    (dt n rounds : ℕ) → map (λ c. c.ordinal) (coming_from dt n rounds) ≡ numbers_after n rounds
unfolding coming_from numbers_after
ordinals-coming_from dt n zero = refl
ordinals-coming_from dt n (suc rounds) =
    ap (λ ns. (n + 1) ∷ ns) (ordinals-coming_from dt (n + 1) rounds)

last_count-le :
    (n : ℕ) (buildings : List Building) → Ascends n buildings → n ≤ last_count n buildings
last_count-le n [] h = omega arith
last_count-le n (b ∷ buildings) h = omega (arith, h.0, last_count-le b.count_built buildings h.1)

append_nil : (xs : List ℕ) → xs ++ [] ≡ xs
append_nil [] = refl
append_nil (x ∷ xs) = ap (λ ns. x ∷ ns) (append_nil xs)

joined :
    (n c m : ℕ)
    → n ≤ c
    → c ≤ m
    → numbers_after n (c - n) ++ numbers_after c (m - c) ≡ numbers_after n (m - n)
joined n c m h k =
    let from : n + (c - n) ≡ c = omega arith in
    let count : c - n + (m - c) ≡ m - n = omega arith in
    subst (λ x. numbers_after n (c - n) ++ numbers_after x (m - c) ≡ numbers_after n (m - n)) from
      (subst
        (λ y. numbers_after n (c - n) ++ numbers_after (n + (c - n)) (m - c) ≡ numbers_after n y)
        count (numbers_after-append n (c - n) (m - c)))

look_later :
    (time : ℕ) (b : Building) (p : Progress)
    → leb b.time time ≡ false
    → look_at time b p ≡ record {
      latest = p.latest;
      nn = b.count_built;
      building = p.building ++ coming_from (b.time - time) p.nn (b.count_built - p.nn);
    }
unfolding look_at
look_later time b p h = rw h refl

coming_later :
    (time : ℕ) (buildings : List Building) (p : Progress)
    → All (λ b. leb b.time time ≡ false) buildings
    → Ascends p.nn buildings
    → ordinals (look_at_all time buildings p).building
      ≡ ordinals p.building ++ numbers_after p.nn (last_count p.nn buildings - p.nn)
unfolding look_at_all numbers_after
coming_later time [] p later h =
    let done : p.nn - p.nn ≡ 0 = omega arith in rw done (sym (append_nil (ordinals p.building)))
coming_later time (b ∷ buildings) p later h =
    let new = coming_from (b.time - time) p.nn (b.count_built - p.nn) in
    let next : Progress = record {
      latest = p.latest;
      nn = b.count_built;
      building = p.building ++ new;
    } in
    ap (λ q. ordinals (look_at_all time buildings q).building) (look_later time b p later.0)
    ∙ (coming_later time buildings next later.1 h.1
        ∙ ap
            (λ ns.
              ns
              ++ numbers_after b.count_built (last_count b.count_built buildings - b.count_built))
            (ordinals-append p.building new
              ∙ ap (λ ns. ordinals p.building ++ ns)
                  (ordinals-coming_from (b.time - time) p.nn (b.count_built - p.nn)))
        ∙ append_assoc (ordinals p.building) _ _
        ∙ ap (λ ns. ordinals p.building ++ ns)
            (joined p.nn b.count_built (last_count b.count_built buildings) h.0
              (last_count-le b.count_built buildings h.1)))

-- While none of the buildings of an item has taken effect and their counts never fall, the
-- machines that are listed as still to come are all those after the count that is built, up to
-- the count of the last building, each once and in order.
pub look_at_all-ordinals :
    (time n : ℕ) (buildings : List Building)
    → All (λ b. leb b.time time ≡ false) buildings
    → Ascends n buildings
    → ordinals
        (look_at_all time buildings (record { latest = none; nn = n; building = [] })).building
      ≡ numbers_after n (last_count n buildings - n)
look_at_all-ordinals time n buildings later h =
    coming_later time buildings (record { latest = none; nn = n; building = [] }) later h
