-- ===== src/Status/Sales.antt =====
-- The search of `calcStatus` for the time at which each item can be bought.
use isucon7_final.Prelude.{
  ℕ, ◌+◌, ◌*◌, ◌≡◌, refl, ◌∙◌, ap, Bool, true, false, Option, none, some, List, [], ◌∷◌, arith, All,
  is_some, if◌then◌else◌, inl, inr, Bool-cases, Option-cases,
}
use isucon7_final.Prelude.Int.{pos, leb_ℤ, *ℤ-pos}
use isucon7_final.Js.Object.{Object, get, put, get-put, among}
use isucon7_final.Bigint.{Bigint}
use isucon7_final.MItem.{MItem, get_price}
use isucon7_final.MItem.Formula.{price_of, val-get_price}
use isucon7_final.Status.Types.{Adding, Buying, Locals}
use isucon7_final.Status.Start.{thousand, can_pay}
use isucon7_final.Status.Simulate.{note_on_sale, note_all_on_sale}
use isucon7_final.Status.Balance.{balance}
use isucon7_final.Status.Counting.{rows_of, val-thousand}
use isucon7_final.Status.Pricing.{is_payable}
use isucon7_final.Status.Books.{price_after}

module _ ⦃B : Bigint⦄ where
  open B use {Big, val, val-mul, cmp-le, mul}

  -- Whether the room owns the price of the next purchase of an item, by the account.
  abbrev pub is_affordable : Object MItem → List Adding → List Buying → ℕ → ℕ → Bool
  is_affordable items addings buyings id t = elim (get id items) [
    | none ↦ false
    | some m ↦
        leb_ℤ (pos (price_of m (rows_of id buyings + 1) * 1000)) (balance items t addings buyings)
  ]

  pub can_pay-val :
      (total : Big) (m : MItem) (x : ℕ)
      → can_pay total (get_price m x) ≡ leb_ℤ (pos (price_of m x * 1000)) (val total)
  can_pay-val total m x =
      rw (cmp-le total (mul (get_price m x) thousand), val-mul, val-get_price, val-thousand)
        (ap (λ z. leb_ℤ z (val total)) (*ℤ-pos (price_of m x) 1000))

  pub is_payable-affordable :
      (items : Object MItem) (addings : List Adding) (buyings : List Buying) (id t : ℕ)
      (total : Big)
      → val total ≡ balance items t addings buyings
      → is_payable total (price_after items buyings id) ≡ is_affordable items addings buyings id t
  is_payable-affordable items addings buyings id t total h = go (get id items)
    where
      go :
          (o : Option MItem)
          → is_payable total
              (elim o [ none ↦ none | some m ↦ some (get_price m (rows_of id buyings + 1)) ])
            ≡ elim o [
              | none ↦ false
              | some m ↦
                  leb_ℤ
                    (pos (price_of m (rows_of id buyings + 1) * 1000))
                    (balance items t addings buyings)
            ]
      go none = refl
      go (some m) =
          can_pay-val total m (rows_of id buyings + 1)
          ∙ ap (leb_ℤ (pos (price_of m (rows_of id buyings + 1) * 1000))) h

  -- One item.
  abbrev pub noted : ℕ → Big → Option Big → Option ℕ → Option ℕ
  noted t total price none = if is_payable total price then some t else none
  noted t total price (some earlier) = some earlier

  abbrev pub with_on_sale : Locals Big → Locals Big → Locals Big
  with_on_sale s r = record s { item_on_sale = r.item_on_sale }

  pub record Noted (t : ℕ) (ids : List ℕ) (s s' : Locals Big) : Type 0 where
    pub on_sale :
        (id : ℕ)
        → get id s'.item_on_sale ≡ (
            if among id ids
            then noted t s.total_milli_isu (get id s.item_price) (get id s.item_on_sale)
            else get id s.item_on_sale)
    pub frame : s' ≡ with_on_sale s s'

  note_on_sale-Noted :
      (t id : ℕ) (s : Locals Big)
      → is_some (get id s.item_price) ≡ true
      → (s' : Locals Big) × (note_on_sale t id s ≡ some s') × Noted t (id ∷ []) s s'
  unfolding note_on_sale
  note_on_sale-Noted t id s h = elim (Option-cases (get id s.item_price)) [
    | inl e ↦ absurd (ground arith)
    | inr (price, e) ↦ elim (Option-cases (get id s.item_on_sale)) [
      | inr (earlier, sold) ↦
          (s, rw (sold, note_on_sale), record { on_sale = λ j. ground arith; frame = refl })
      | inl unsold ↦ elim (Bool-cases (can_pay s.total_milli_isu price)) [
        | inl yet ↦ (
          record s { item_on_sale = put id t s.item_on_sale },
          rw (unsold, note_on_sale) (rw (e, yet)),
          record { on_sale = λ j. ground (arith, get-put j id t s.item_on_sale); frame = refl },
        )
        | inr never ↦ (
          s,
          rw (unsold, note_on_sale) (rw (e, never)),
          record { on_sale = λ j. ground arith; frame = refl },
        )
      ]
    ]
  ]

  same_prices :
      {t : ℕ} {ids : List ℕ} {s s' : Locals Big} → Noted t ids s s' → s'.item_price ≡ s.item_price
  same_prices h = ap (λ r. r.item_price) h.frame

  Noted-cons :
      (t id : ℕ) (ids : List ℕ) (s s1 s' : Locals Big)
      → Noted t (id ∷ []) s s1
      → Noted t ids s1 s'
      → Noted t (id ∷ ids) s s'
  Noted-cons t id ids s s1 s' h k = record {
    on_sale = λ j. ground (
      arith,
      k.on_sale j,
      h.on_sale j,
      same_prices h,
      ap (λ r. r.total_milli_isu) h.frame,
      ap (get j) (same_prices h),
    );
    frame = k.frame ∙ ap (λ r. with_on_sale r s') h.frame;
  }

  pub note_all_on_sale-Noted :
      (t : ℕ) (ids : List ℕ) (s : Locals Big)
      → All (λ id. is_some (get id s.item_price) ≡ true) ids
      → (s' : Locals Big) × (note_all_on_sale t ids s ≡ some s') × Noted t ids s s'
  unfolding note_all_on_sale
  note_all_on_sale-Noted t [] s h = (s, refl, record { on_sale = λ id. refl; frame = refl })
  note_all_on_sale-Noted t (id ∷ ids) s h =
      let (s1, done, one) = note_on_sale-Noted t id s h.0 in
      let (s', done', rest) = note_all_on_sale-Noted t ids s1 (rw (same_prices one) h.1) in
      (s', rw (done, note_all_on_sale) done', Noted-cons t id ids s s1 s' one rest)
