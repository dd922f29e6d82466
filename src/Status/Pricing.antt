-- ===== src/Status/Pricing.antt =====
-- The loop of `calcStatus` over the items: their prices, and what is on sale at once.
use isucon7_final.Prelude.{
  ℕ, ◌+◌, ◌≡◌, refl, Bool, true, false, ◌&&◌, Option, none, some, List, [], ◌∷◌, arith,
  if◌then◌else◌, is_some, get_or, inl, inr, Option-cases, All,
}
use isucon7_final.Js.Object.{Object, get, put, get-put, among}
use isucon7_final.Bigint.{Bigint}
use isucon7_final.Exponential.{big2exp}
use isucon7_final.MItem.{MItem, get_price}
use isucon7_final.Status.Types.{Locals}
use isucon7_final.Status.Start.{can_pay, price_item, price_items}
use isucon7_final.Status.Counting.{HasKeys}

-- Each item stands under its own number.
abbrev pub IsWellKeyed : Object MItem → Type 0
IsWellKeyed items = (id : ℕ) (m : MItem) → get id items ≡ some m → m.item_id ≡ id

module _ ⦃B : Bigint⦄ where
  open B use {Big}

  -- The price of the next purchase of an item.
  abbrev pub next_price : Object MItem → Locals Big → ℕ → Option Big
  next_price items s id = elim (get id items) [
    | none ↦ none
    | some m ↦ some (get_price m (get_or (get id s.item_bought) 0 + 1))
  ]

  abbrev pub is_payable : Big → Option Big → Bool
  is_payable total none = false
  is_payable total (some price) = can_pay total price

  abbrev priced_state : MItem → Big → ℕ → Locals Big → Locals Big
  priced_state m power id s =
      let price = get_price m (get_or (get id s.item_bought) 0 + 1) in
      record s {
        item_power0 = put id (big2exp power) s.item_power0;
        item_built0 = put id (get id s.item_built) s.item_built0;
        item_price = put id price s.item_price;
        item_on_sale =
            if can_pay s.total_milli_isu price then put id 0 s.item_on_sale else s.item_on_sale;
      }

  price_item-known :
      (items : Object MItem) (id : ℕ) (s : Locals Big) (m : MItem) (power : Big)
      → get id items ≡ some m
      → m.item_id ≡ id
      → get id s.item_power ≡ some power
      → price_item items id s ≡ some (priced_state m power id s)
  unfolding price_item
  price_item-known items id s m power known keyed powered = rw (known, keyed, powered)

  abbrev with_prices : Locals Big → Locals Big → Locals Big
  with_prices s r = record s {
    item_power0 = r.item_power0;
    item_built0 = r.item_built0;
    item_price = r.item_price;
    item_on_sale = r.item_on_sale;
  }

  -- What the loop over some items does to the variables.
  pub record Priced (items : Object MItem) (ids : List ℕ) (s s' : Locals Big) : Type 0 where
    pub price :
        (id : ℕ)
        → get id s'.item_price
          ≡ (if among id ids then next_price items s id else get id s.item_price)
    pub on_sale :
        (id : ℕ)
        → get id s'.item_on_sale ≡ (
            if among id ids && is_payable s.total_milli_isu (next_price items s id)
            then some 0
            else get id s.item_on_sale)
    pub built :
        (id : ℕ)
        → get id s'.item_built0
          ≡ (if among id ids then some (get id s.item_built) else get id s.item_built0)
    pub frame : s' ≡ with_prices s s'

  Priced-cons :
      (items : Object MItem) (id : ℕ) (ids : List ℕ) (s s' : Locals Big) (m : MItem) (power : Big)
      → get id items ≡ some m
      → Priced items ids (priced_state m power id s) s'
      → Priced items (id ∷ ids) s s'
  Priced-cons items id ids s s' m power known h = record {
    price = λ j. ground (
      arith,
      h.price j,
      get-put j id (get_price m (get_or (get id s.item_bought) 0 + 1)) s.item_price,
      known,
    );
    on_sale = λ j. ground (arith, h.on_sale j, get-put j id 0 s.item_on_sale, known);
    built = λ j. ground (arith, h.built j, get-put j id (get id s.item_built) s.item_built0);
    frame = h.frame;
  }

  -- The loop succeeds on items that stand under their own numbers.
  pub price_items-Priced :
      (items : Object MItem) (ids : List ℕ) (s : Locals Big)
      → IsWellKeyed items
      → All (λ id. is_some (get id items) ≡ true) ids
      → HasKeys items s.item_power
      → (s' : Locals Big) × (price_items items ids s ≡ some s') × Priced items ids s s'
  unfolding price_items
  price_items-Priced items [] s keyed known powered = (
    s,
    refl,
    record { price = λ id. refl; on_sale = λ id. refl; built = λ id. refl; frame = refl },
  )
  price_items-Priced items (id ∷ ids) s keyed known powered = elim (Option-cases (get id items)) [
    | inl e ↦ absurd (ground (arith, known.0))
    | inr (m, e) ↦ elim (Option-cases (get id s.item_power)) [
      | inl missing ↦ absurd (ground (arith, powered id known.0))
      | inr (power, p) ↦
          let (s', done, rest) =
            price_items-Priced items ids (priced_state m power id s) keyed known.1 powered in
          (
            s',
            rw (price_item-known items id s m power e (keyed id m e) p, price_items) done,
            Priced-cons items id ids s s' m power e rest,
          )
    ]
  ]
