-- ===== src/Status/Notes.antt =====
-- `calcStatus` noting what has been built, after the buyings of a time took effect.
use isucon7_final.Prelude.{
  ℕ, ◌≡◌, refl, true, some, List, [], ◌∷◌, ◌++◌, arith, All, is_some, inl, inr, Option-cases,
}
use isucon7_final.Js.Object.{Object, get, put, get-put, keys}
use isucon7_final.Bigint.{Bigint}
use isucon7_final.Exponential.{big2exp}
use isucon7_final.MItem.{MItem}
use isucon7_final.Status.Types.{Building, Locals}
use isucon7_final.Status.Simulate.{note_building, note_buildings}
use isucon7_final.Status.Counting.{HasKeys}

module _ ⦃B : Bigint⦄ where
  open B use {Big}

  -- The loop over the updated items.
  noted_state : ℕ → ℕ → List Building → ℕ → Big → Locals Big → Locals Big
  noted_state t id buildings count power s = record s {
    item_building =
        put id (buildings ++ record { time = t; count_built = count; power = big2exp power } ∷ [])
          s.item_building;
  }

  abbrev pub CanNote : Object MItem → Locals Big → ℕ → Type 0
  CanNote items s id = (is_some (get id items) ≡ true) × (is_some (get id s.item_built) ≡ true)

  note_building-can :
      (items : Object MItem) (t id : ℕ) (s : Locals Big)
      → CanNote items s id
      → HasKeys items s.item_power
      → HasKeys items s.item_building
      → (buildings : List Building) × (count : ℕ) × (power : Big) × (note_building t id s
          ≡ some (noted_state t id buildings count power s))
  unfolding note_building noted_state
  note_building-can items t id s can powered housed = elim (Option-cases (get id s.item_building)) [
    | inl e ↦ absurd (ground (arith, housed id can.0))
    | inr (buildings, e) ↦ elim (Option-cases (get id s.item_built)) [
      | inl e' ↦ absurd (ground (arith, can.1))
      | inr (count, e') ↦ elim (Option-cases (get id s.item_power)) [
        | inl p ↦ absurd (ground (arith, powered id can.0))
        | inr (power, p) ↦ (buildings, count, power, rw (e, e', p))
      ]
    ]
  ]

  noted_state-HasKeys :
      (items : Object MItem) (t id : ℕ) (buildings : List Building) (count : ℕ) (power : Big)
      (s : Locals Big)
      → HasKeys items s.item_building
      → HasKeys items (noted_state t id buildings count power s).item_building
  unfolding noted_state
  noted_state-HasKeys items t id buildings count power s housed j h = ground (
    arith,
    get-put j id (buildings ++ record { time = t; count_built = count; power = big2exp power } ∷ [])
        s.item_building,
    housed j h,
  )

  pub note_buildings-keeps :
      (items : Object MItem) (t : ℕ) (ids : List ℕ) (s : Locals Big)
      → All (CanNote items s) ids
      → HasKeys items s.item_power
      → HasKeys items s.item_building
      → (s' : Locals Big) × (note_buildings t ids s ≡ some s')
        × (s' ≡ record s { item_building = s'.item_building })
        × HasKeys items s'.item_building
  unfolding note_buildings noted_state
  note_buildings-keeps items t [] s can powered housed = (s, refl, refl, housed)
  note_buildings-keeps items t (id ∷ ids) s can powered housed =
      let (buildings, count, power, done) = note_building-can items t id s can.0 powered housed in
      let (s', done', frame, keys) =
        note_buildings-keeps items t ids (noted_state t id buildings count power s) can.1 powered
          (noted_state-HasKeys items t id buildings count power s housed) in
      (s', rw (done, note_buildings) done', frame, keys)
