-- ===== src/Status/Counting/Buyings.antt =====
-- The loop of `calcStatus` over the buyings succeeds, and counts each row once.
use isucon7_final.Prelude.{
  ℕ, ◌+◌, ◌-◌, ◌*◌, ◌≡◌, refl, sym, ◌∙◌, ap, true, false, none, some, List, [], ◌∷◌, arith, leb,
  get_or, inl, inr, Bool-cases, Option-cases, All,
}
use isucon7_final.Prelude.Int.{pos, ◌+ℤ◌, ◌-ℤ◌, *ℤ-pos, int_laws}
use isucon7_final.Js.Object.{Object, get, put, get-put}
use isucon7_final.Bigint.{Bigint}
use isucon7_final.MItem.{MItem, get_price, get_power}
use isucon7_final.MItem.Formula.{price_of, power_of, val-get_price, val-get_power}
use isucon7_final.Status.Types.{Buying, Locals}
use isucon7_final.Status.Start.{
  thousand, count_up, count_built_buying, queue_buying, settle_buying, count_buying, count_buyings,
}
use isucon7_final.Status.Balance.{price_paid, power_bought, spent, power_at, produced}
use isucon7_final.Status.Queues.{all_at, get-queue_buying}
use isucon7_final.Status.Counting.{
  val-thousand, get-count_up, Counted, Counted-nil, Counted-cons, HasKeys, IsKnown, IsNumberedFrom,
  counted, rows_of, rows_built,
}

-- What one row of a known item adds to the account.
module _ (now : ℕ) (items : Object MItem) (b : Buying) (m : MItem)
    (known : get b.item_id items ≡ some m) where
  price_paid-known : price_paid items b ≡ price_of m b.ordinal
  price_paid-known = ap (λ o. elim o [ none ↦ 0 | some m ↦ price_of m b.ordinal ]) known

  power_bought-known : power_bought items b ≡ power_of m b.ordinal
  power_bought-known = ap (λ o. elim o [ none ↦ 0 | some m ↦ power_of m b.ordinal ]) known

  spent-one : spent items (b ∷ []) ≡ price_of m b.ordinal * 1000
  unfolding spent
  spent-one = omega (arith, price_paid-known)

  power_at-past : leb b.time now ≡ true → power_at items now (b ∷ []) ≡ power_of m b.ordinal
  unfolding power_at
  power_at-past past = rw past (omega (arith, power_bought-known))

  produced-past :
      leb b.time now ≡ true → produced items now (b ∷ []) ≡ power_of m b.ordinal * (now - b.time)
  unfolding produced
  produced-past past =
      rw past (omega (arith, ap (λ (p : ℕ). p * (now - b.time)) power_bought-known))

power_at-future :
    (now : ℕ) (items : Object MItem) (b : Buying)
    → leb b.time now ≡ false
    → (power_at items now (b ∷ []) ≡ 0) × (produced items now (b ∷ []) ≡ 0)
unfolding power_at produced
power_at-future now items b future = rw (future) (omega arith)

module _ ⦃B : Bigint⦄ where
  open B use {Big, val, val-add, val-sub, val-mul, val-of_number, add, sub, mul, of_number}

  abbrev paid_state : Buying → MItem → Locals Big → Locals Big
  paid_state b m s = record s {
    item_bought = count_up b.item_id s.item_bought;
    total_milli_isu = sub s.total_milli_isu (mul (get_price m b.ordinal) thousand);
  }

  abbrev built_state : ℕ → Buying → MItem → Big → Locals Big → Locals Big
  built_state now b m old s =
      let paid = paid_state b m s in
      let power = get_power m b.ordinal in
      record paid {
        item_built = count_up b.item_id s.item_built;
        total_milli_isu = add paid.total_milli_isu (mul power (of_number (pos (now - b.time))));
        total_power = add s.total_power power;
        item_power = put b.item_id (add old power) s.item_power;
      }

  abbrev IsNext : Buying → Locals Big → Type 0
  IsNext b s = b.ordinal ≡ get_or (get b.item_id s.item_bought) 0 + 1

  counted_ordinal :
      (b : Buying) (s : Locals Big)
      → IsNext b s
      → get b.item_id (count_up b.item_id s.item_bought) ≡ some b.ordinal
  counted_ordinal b s h = ground (arith, get-count_up b.item_id b.item_id s.item_bought)

  count_buying-past :
      (now : ℕ) (items : Object MItem) (b : Buying) (s : Locals Big) (m : MItem) (old : Big)
      → get b.item_id items ≡ some m
      → get b.item_id s.item_power ≡ some old
      → IsNext b s
      → leb b.time now ≡ true
      → count_buying now items b s ≡ some (built_state now b m old s)
  unfolding count_buying settle_buying count_built_buying
  count_buying-past now items b s m old known powered next past =
      rw (known, past, counted_ordinal b s next, powered)

  count_buying-future :
      (now : ℕ) (items : Object MItem) (b : Buying) (s : Locals Big) (m : MItem)
      → get b.item_id items ≡ some m
      → leb b.time now ≡ false
      → count_buying now items b s ≡ some (queue_buying b (paid_state b m s))
  unfolding count_buying settle_buying
  count_buying-future now items b s m known future = rw (known, future)

  pub val-paid :
      (s : Big) (m : MItem) (x : ℕ)
      → val (sub s (mul (get_price m x) thousand)) ≡ val s -ℤ pos (price_of m x * 1000)
  val-paid s m x =
      rw (val-sub, val-mul, val-thousand, val-get_price) (ap (λ z. val s -ℤ z) (*ℤ-pos _ 1000))

  pub val-gain :
      (s : Big) (m : MItem) (x d : ℕ)
      → val (add s (mul (get_power m x) (of_number (pos d)))) ≡ val s +ℤ pos (power_of m x * d)
  val-gain s m x d =
      rw (val-add, val-mul, val-of_number, val-get_power) (ap (λ z. val s +ℤ z) (*ℤ-pos _ d))

  Counted-past :
      (now : ℕ) (items : Object MItem) (b : Buying) (s : Locals Big) (m : MItem) (old : Big)
      → get b.item_id items ≡ some m
      → leb b.time now ≡ true
      → HasKeys items s.item_power
      → Counted now items (b ∷ []) s (built_state now b m old s)
  unfolding rows_of rows_built all_at
  Counted-past now items b s m old known past keys = record {
    milli =
        rw
          (
            val-gain,
            val-paid,
            spent-one now items b m known,
            produced-past now items b m known past,
          )
          (omega int_laws);
    power = rw (val-add, val-get_power, power_at-past now items b m known past);
    bought = λ id. ground (arith, get-count_up id b.item_id s.item_bought);
    built = λ id. ground (arith, get-count_up id b.item_id s.item_built);
    queued = λ t l. ground arith;
    powered = λ id h.
        ground
          (arith, get-put id b.item_id (add old (get_power m b.ordinal)) s.item_power, keys id h);
    same_addings = refl;
    same_buildings = refl;
    same_prices = refl;
    same_on_sale = refl;
  }

  Counted-future :
      (now : ℕ) (items : Object MItem) (b : Buying) (s : Locals Big) (m : MItem)
      → get b.item_id items ≡ some m
      → leb b.time now ≡ false
      → HasKeys items s.item_power
      → Counted now items (b ∷ []) s (queue_buying b (paid_state b m s))
  unfolding rows_of rows_built all_at
  Counted-future now items b s m known future keys = record {
    milli =
        unfold queue_buying in
        rw (val-paid, spent-one now items b m known, (power_at-future now items b future).1)
          (omega int_laws);
    power = unfold queue_buying in rw ((power_at-future now items b future).0) (omega int_laws);
    bought = λ id. unfold queue_buying in ground (arith, get-count_up id b.item_id s.item_bought);
    built = λ id. unfold queue_buying in ground arith;
    queued = λ t l. ground (arith, get-queue_buying t b (paid_state b m s));
    powered = unfold queue_buying in keys;
    same_addings = unfold queue_buying in refl;
    same_buildings = unfold queue_buying in refl;
    same_prices = unfold queue_buying in refl;
    same_on_sale = unfold queue_buying in refl;
  }

  -- One row is counted.
  count_buying-Counted :
      (now : ℕ) (items : Object MItem) (b : Buying) (s : Locals Big)
      → IsKnown items b
      → HasKeys items s.item_power
      → IsNext b s
      → (s' : Locals Big) × (count_buying now items b s ≡ some s') × Counted now items (b ∷ []) s s'
  count_buying-Counted now items b s known keys next = elim (Option-cases (get b.item_id items)) [
    | inl e ↦ absurd (ground arith)
    | inr (m, e) ↦ elim (Option-cases (get b.item_id s.item_power)) [
      | inl missing ↦ absurd (ground (arith, keys b.item_id known))
      | inr (old, p) ↦ elim (Bool-cases (leb b.time now)) [
        | inl past ↦ (
          built_state now b m old s,
          count_buying-past now items b s m old e p next past,
          Counted-past now items b s m old e past keys,
        )
        | inr future ↦ (
          queue_buying b (paid_state b m s),
          count_buying-future now items b s m e future,
          Counted-future now items b s m e future keys,
        )
      ]
    ]
  ]

  -- The loop succeeds if every row is of a known item and the ordinals count from one.
  pub count_buyings-Counted :
      (now : ℕ) (items : Object MItem) (prior : ℕ → ℕ) (buyings : List Buying) (s : Locals Big)
      → All (IsKnown items) buyings
      → HasKeys items s.item_power
      → ((id : ℕ) → get_or (get id s.item_bought) 0 ≡ prior id)
      → IsNumberedFrom prior buyings
      → (s' : Locals Big) × (count_buyings now items buyings s ≡ some s')
        × Counted now items buyings s s'
  unfolding count_buyings rows_of
  count_buyings-Counted now items prior [] s known keys agrees numbered =
      (s, refl, Counted-nil now items s keys)
  count_buyings-Counted now items prior (b ∷ buyings) s known keys agrees numbered =
      let (s1, e, one) =
        count_buying-Counted now items b s known.0 keys
          (numbered.0 ∙ ap (λ (n : ℕ). n + 1) (sym (agrees b.item_id))) in
      let (s', e', rest) =
        count_buyings-Counted now items (counted b.item_id prior) buyings s1 known.1 one.powered
          (λ id. ground (arith, one.bought id, agrees id)) numbered.1 in
      (s', rw (e, count_buyings) e', Counted-cons now items b buyings s s1 s' one rest)
