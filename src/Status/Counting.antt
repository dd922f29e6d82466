-- ===== src/Status/Counting.antt =====
-- The loops of `calcStatus` over the two tables: what they leave in its variables.
pub mod Buyings
use isucon7_final.Prelude.{
  ℕ, suc, ◌+◌, ◌-◌, ◌*◌, ◌≤◌, ◌<◌, ◌≡◌, refl, sym, ◌∙◌, ap, Bool, true, false, Option, none, some,
  List, [], ◌∷◌, ◌++◌, arith, leb, ◌==◌, if◌then◌else◌, is_some, get_or, inl, inr, Bool-cases,
  Option-cases, All, ◌>>=◌,
}
use isucon7_final.Prelude.Int.{ℤ, pos, ◌+ℤ◌, ◌-ℤ◌, ◌*ℤ◌, *ℤ-pos, int_laws}
use isucon7_final.Js.Object.{Object, get, put, get-put}
use isucon7_final.Js.Digits.{digits_value}
use isucon7_final.Bigint.{Bigint}
use isucon7_final.MItem.{MItem, get_price, get_power}
use isucon7_final.MItem.Formula.{price_of, power_of, val-get_price, val-get_power}
use isucon7_final.Status.Types.{Adding, Buying, Locals}
use isucon7_final.Status.Start.{
  thousand, zero_isu, count_up, count_adding, count_addings, count_built_buying, queue_buying,
  settle_buying, count_buying, count_buyings,
}
use isucon7_final.Status.Balance.{
  amount, earned, price_paid, power_bought, spent, power_at, produced,
}
use isucon7_final.Status.Queues.{all_at, all_at-cons, enqueued, enqueued-cons, get-queue_buying}

pub get-count_up :
    (j k : ℕ) (m : Object ℕ)
    → get j (count_up k m) ≡ (if j == k then some (get_or (get j m) 0 + 1) else get j m)
unfolding count_up
get-count_up j k m =
    ground
      (arith, get-put j k (elim (get k m) [ none ↦ 1 | some n ↦ if n == 0 then 1 else n + 1 ]) m)

-- The count of each item before each row, and the rows of one item.
abbrev pub counted : ℕ → (ℕ → ℕ) → ℕ → ℕ
counted k prior j = if j == k then prior j + 1 else prior j

-- The rows of each item stand in the order of their ordinals, and these are 1, 2, 3, … .
abbrev pub IsNumberedFrom : (ℕ → ℕ) → List Buying → Type 0
IsNumberedFrom prior [] = Unit
IsNumberedFrom prior (b ∷ buyings) =
    (b.ordinal ≡ prior b.item_id + 1) × IsNumberedFrom (counted b.item_id prior) buyings

abbrev pub IsNumbered : List Buying → Type 0
IsNumbered = IsNumberedFrom (λ id. 0)

unfoldable pub rows_of : ℕ → List Buying → ℕ
rows_of id [] = 0
rows_of id (b ∷ buyings) = (if id == b.item_id then 1 else 0) + rows_of id buyings

unfoldable pub rows_built : ℕ → ℕ → List Buying → ℕ
rows_built t id [] = 0
rows_built t id (b ∷ buyings) =
    (if leb b.time t then (if id == b.item_id then 1 else 0) else 0) + rows_built t id buyings

abbrev pub HasKeys {ℓ κ} : {A : Type ℓ} {C : Type κ} → Object A → Object C → Type 0
HasKeys items m = (id : ℕ) → is_some (get id items) ≡ true → is_some (get id m) ≡ true

abbrev pub IsKnown : Object MItem → Buying → Type 0
IsKnown items b = is_some (get b.item_id items) ≡ true

module _ ⦃B : Bigint⦄ where
  open B use {
    Big, val, val-of_string, val-add, val-sub, val-mul, val-of_number, of_string, add, sub, mul,
    of_number,
  }

  pub val-thousand : val thousand ≡ pos 1000
  unfolding digits_value
  val-thousand = val-of_string _ (pos 1000) (omega arith)

  pub val-zero_isu : val zero_isu ≡ pos 0
  unfolding digits_value
  val-zero_isu = val-of_string _ (pos 0) (omega arith)

  -- The loop over the addings changes one total and one queue.
  abbrev pub with_addings : Locals Big → Locals Big → Locals Big
  with_addings s r = record s { total_milli_isu = r.total_milli_isu; adding_at = r.adding_at }

  count_adding_frame :
      (now : ℕ) (a : Adding) (s : Locals Big)
      → count_adding now a s ≡ with_addings s (count_adding now a s)
  unfolding count_adding
  count_adding_frame now a s = elim (Bool-cases (leb a.time now)) [
    | inl past ↦ rw past
    | inr future ↦ rw future
  ]

  pub count_addings_frame :
      (now : ℕ) (addings : List Adding) (s : Locals Big)
      → count_addings now addings s ≡ with_addings s (count_addings now addings s)
  unfolding count_addings
  count_addings_frame now [] s = refl
  count_addings_frame now (a ∷ addings) s =
      let s' = count_adding now a s in
      count_addings_frame now addings s'
      ∙ ap (λ r. with_addings r (count_addings now addings s')) (count_adding_frame now a s)

  pub val-credit :
      (m : Big) (a : Adding) → val (add m (mul (of_string a.isu) thousand)) ≡ val m +ℤ amount a
  val-credit m a = rw (val-add, val-mul, val-thousand)

  val-count_adding :
      (now : ℕ) (a : Adding) (s : Locals Big)
      → val (count_adding now a s).total_milli_isu
        ≡ val s.total_milli_isu +ℤ (if leb a.time now then amount a else pos 0)
  unfolding count_adding
  val-count_adding now a s = elim (Bool-cases (leb a.time now)) [
    | inl past ↦ rw past (val-credit s.total_milli_isu a)
    | inr future ↦ rw future (omega int_laws)
  ]

  pub val-count_addings :
      (now : ℕ) (addings : List Adding) (s : Locals Big)
      → val (count_addings now addings s).total_milli_isu
        ≡ val s.total_milli_isu +ℤ earned now addings
  unfolding count_addings earned
  val-count_addings now [] s = omega int_laws
  val-count_addings now (a ∷ addings) s =
      rw (val-count_addings now addings (count_adding now a s), val-count_adding now a s)
        (omega int_laws)

  -- What the loop over the buyings does to the variables.
  pub record Counted (now : ℕ) (items : Object MItem) (buyings : List Buying) (s s' : Locals Big)
      : Type 0 where
    pub milli :
        val s'.total_milli_isu
        ≡ val s.total_milli_isu +ℤ pos (produced items now buyings) -ℤ pos (spent items buyings)
    pub power : val s'.total_power ≡ val s.total_power +ℤ pos (power_at items now buyings)
    pub bought :
        (id : ℕ)
        → get_or (get id s'.item_bought) 0 ≡ get_or (get id s.item_bought) 0 + rows_of id buyings
    pub built :
        (id : ℕ)
        → get_or (get id s'.item_built) 0
          ≡ get_or (get id s.item_built) 0 + rows_built now id buyings
    pub queued :
        (t : ℕ) → now < t → get t s'.buying_at ≡ enqueued (get t s.buying_at) (all_at t buyings)
    pub powered : HasKeys items s'.item_power
    pub same_addings : s'.adding_at ≡ s.adding_at
    pub same_buildings : s'.item_building ≡ s.item_building
    pub same_prices : s'.item_price ≡ s.item_price
    pub same_on_sale : s'.item_on_sale ≡ s.item_on_sale

  pub Counted-nil :
      (now : ℕ) (items : Object MItem) (s : Locals Big)
      → HasKeys items s.item_power
      → Counted now items [] s s
  unfolding produced spent power_at rows_of rows_built all_at
  Counted-nil now items s h = record {
    milli = omega int_laws;
    power = omega int_laws;
    bought = λ id. omega arith;
    built = λ id. omega arith;
    queued = λ t l. refl;
    powered = h;
    same_addings = refl;
    same_buildings = refl;
    same_prices = refl;
    same_on_sale = refl;
  }

  -- One row, and then the others.
  pub Counted-cons :
      (now : ℕ) (items : Object MItem) (b : Buying) (buyings : List Buying) (s s1 s' : Locals Big)
      → Counted now items (b ∷ []) s s1
      → Counted now items buyings s1 s'
      → Counted now items (b ∷ buyings) s s'
  unfolding produced spent power_at rows_of rows_built all_at
  Counted-cons now items b buyings s s1 s' h k = record {
    milli = rw (k.milli, h.milli) (omega int_laws);
    power = rw (k.power, h.power) (omega int_laws);
    bought = λ id. omega (arith, k.bought id, h.bought id);
    built = λ id. omega (arith, k.built id, h.built id);
    queued = λ t l.
        k.queued t l
        ∙ ap (λ o. enqueued o (all_at t buyings)) (h.queued t l)
        ∙ all_at-cons t b buyings (get t s.buying_at);
    powered = k.powered;
    same_addings = k.same_addings ∙ h.same_addings;
    same_buildings = k.same_buildings ∙ h.same_buildings;
    same_prices = k.same_prices ∙ h.same_prices;
    same_on_sale = k.same_on_sale ∙ h.same_on_sale;
  }
