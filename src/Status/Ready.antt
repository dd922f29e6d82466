-- ===== src/Status/Ready.antt =====
-- The first two loops of `calcStatus`, over the items and over the addings.
use isucon7_final.Prelude.{
  ℕ, ◌<◌, ◌≡◌, refl, ◌∙◌, ap, true, Option, none, some, List, [], ◌∷◌, arith, is_some,
  if◌then◌else◌,
}
use isucon7_final.Prelude.Int.{pos, int_laws}
use isucon7_final.Js.Object.{Object, get, put, get-put, among, among-keys, keys}
use isucon7_final.Bigint.{Bigint}
use isucon7_final.MItem.{MItem}
use isucon7_final.Status.Types.{Adding, Locals}
use isucon7_final.Status.Start.{zero_isu, declared, start_items, count_addings}
use isucon7_final.Status.Balance.{earned}
use isucon7_final.Status.Queues.{last_at, or_else, get-count_addings}
use isucon7_final.Status.Counting.{
  HasKeys, with_addings, count_addings_frame, val-count_addings, val-zero_isu,
}

module _ ⦃B : Bigint⦄ where
  open B use {Big, val}

  start_items-lookup :
      (ids : List ℕ) (s : Locals Big) (id : ℕ)
      → let s' = start_items ids s in
        (get id s'.item_power ≡ (if among id ids then some zero_isu else get id s.item_power))
        × (get id s'.item_building ≡ (if among id ids then some [] else get id s.item_building))
  unfolding start_items
  start_items-lookup [] s id = (refl, refl)
  start_items-lookup (j ∷ ids) s id =
      let rest =
        start_items-lookup ids
          (record s {
            item_power = put j zero_isu s.item_power;
            item_building = put j [] s.item_building;
          })
          id in
      (
        ground (arith, rest.0, get-put id j zero_isu s.item_power),
        ground (arith, rest.1, get-put id j [] s.item_building),
      )

  start_items_frame :
      (ids : List ℕ) (s : Locals Big)
      → let s' = start_items ids s in
        s' ≡ record s { item_power = s'.item_power; item_building = s'.item_building }
  unfolding start_items
  start_items_frame [] s = refl
  start_items_frame (j ∷ ids) s = start_items_frame ids (record s {
    item_power = put j zero_isu s.item_power;
    item_building = put j [] s.item_building;
  })

  -- The variables before the loop over the buyings.
  abbrev pub ready : ℕ → Object MItem → List Adding → Locals Big
  ready now items addings = count_addings now addings (start_items (keys items) declared)

  pub record Ready (now : ℕ) (items : Object MItem) (addings : List Adding) (r : Locals Big)
      : Type 0 where
    pub milli : val r.total_milli_isu ≡ earned now addings
    pub power : val r.total_power ≡ pos 0
    pub powered : HasKeys items r.item_power
    pub housed : HasKeys items r.item_building
    pub addings_left : (u : ℕ) → now < u → get u r.adding_at ≡ last_at u addings
    pub no_buyings : r.buying_at ≡ []
    pub none_bought : r.item_bought ≡ []
    pub none_built : r.item_built ≡ []
    pub no_prices : r.item_price ≡ []
    pub none_on_sale : r.item_on_sale ≡ []

  initial : Object MItem → Locals Big
  initial items = start_items (keys items) declared

  initial_frame :
      (items : Object MItem)
      → initial items ≡ record declared {
        item_power = (initial items).item_power;
        item_building = (initial items).item_building;
      }
  unfolding initial
  initial_frame items = start_items_frame (keys items) declared

  ready_frame :
      (now : ℕ) (items : Object MItem) (addings : List Adding)
      → ready now items addings ≡ with_addings (initial items) (ready now items addings)
  unfolding initial
  ready_frame now items addings = count_addings_frame now addings (initial items)

  -- A variable that neither of the first two loops touches.
  untouched {κ} :
      {A : Type κ} (now : ℕ) (items : Object MItem) (addings : List Adding) (f : Locals Big → A)
      → f (with_addings (initial items) (ready now items addings)) ≡ f (initial items)
      → f (initial items) ≡ f declared
      → f (ready now items addings) ≡ f declared
  untouched now items addings f p q = ap f (ready_frame now items addings) ∙ p ∙ q

  initial-keys :
      (items : Object MItem) (id : ℕ)
      → is_some (get id items) ≡ true
      → (get id (initial items).item_power ≡ some zero_isu)
        × (get id (initial items).item_building ≡ some [])
  unfolding initial
  initial-keys items id h =
      let rest = start_items-lookup (keys items) declared id in
      let e : among id (keys items) ≡ true = among-keys id items ∙ h in
      (rest.0 ∙ rw e, rest.1 ∙ rw e)

  or_else-none {ℓ} : {A : Type ℓ} (o : Option A) → or_else o none ≡ o
  or_else-none none = refl
  or_else-none (some a) = refl

  pub ready-Ready :
      (now : ℕ) (items : Object MItem) (addings : List Adding)
      → Ready now items addings (ready now items addings)
  unfolding declared get initial
  ready-Ready now items addings = record {
    milli =
        val-count_addings now addings (initial items)
        ∙ rw (ap (λ s. s.total_milli_isu) (initial_frame items), val-zero_isu) (omega int_laws);
    power =
        rw
          (untouched now items addings (λ s. s.total_power) refl
            (ap (λ s. s.total_power) (initial_frame items)))
          val-zero_isu;
    powered = λ id h.
        rw (ap (λ s. s.item_power) (ready_frame now items addings), (initial-keys items id h).0);
    housed = λ id h.
        rw (ap (λ s. s.item_building) (ready_frame now items addings), (initial-keys items id h).1);
    addings_left = λ u l.
        get-count_addings now u addings (initial items) l
        ∙ rw (ap (λ s. s.adding_at) (initial_frame items)) (or_else-none (last_at u addings));
    no_buyings =
        untouched now items addings (λ s. s.buying_at) refl
          (ap (λ s. s.buying_at) (initial_frame items));
    none_bought =
        untouched now items addings (λ s. s.item_bought) refl
          (ap (λ s. s.item_bought) (initial_frame items));
    none_built =
        untouched now items addings (λ s. s.item_built) refl
          (ap (λ s. s.item_built) (initial_frame items));
    no_prices =
        untouched now items addings (λ s. s.item_price) refl
          (ap (λ s. s.item_price) (initial_frame items));
    none_on_sale =
        untouched now items addings (λ s. s.item_on_sale) refl
          (ap (λ s. s.item_on_sale) (initial_frame items));
  }
