-- ===== src/Status/Simulate.antt =====
-- The simulation of `calcStatus`: the thousand milliseconds after the current time.
use isucon7_final.Prelude.{
  ℕ, zero, suc, ◌+◌, Bool, true, false, ◌||◌, Option, none, some, List, [], ◌∷◌, ◌++◌,
  if◌then◌else◌, ◌>>=◌,
}
use isucon7_final.Js.Object.{Object, get, put, keys}
use isucon7_final.Bigint.{Bigint}
use isucon7_final.Exponential.{big2exp}
use isucon7_final.MItem.{MItem, get_power}
use isucon7_final.Status.Types.{Buying, Locals}
use isucon7_final.Status.Start.{thousand, can_pay, count_up}

module _ ⦃B : Bigint⦄ where
  open B use {Big, of_string, add, mul}

  -- `totalMilliIsu = totalMilliIsu.add(totalPower)`
  unfoldable pub produce : Locals Big → Locals Big
  produce s = record s { total_milli_isu = add s.total_milli_isu s.total_power }

  -- The adding at time t, and whether there is one.
  unfoldable pub apply_adding : ℕ → Locals Big → Locals Big × Bool
  apply_adding t s = elim (get t s.adding_at) [
    | none ↦ (s, false)
    | some a ↦ (
      record s { total_milli_isu = add s.total_milli_isu (mul (of_string a.isu) thousand) },
      true,
    )
  ]

  -- One buying takes effect.
  unfoldable pub build : Object MItem → Buying → Locals Big → Option (Locals Big)
  build items b s = do
    m ← get b.item_id items
    let power = get_power m b.ordinal
    old ← get b.item_id s.item_power
    some (record s {
      item_built = count_up b.item_id s.item_built;
      item_power = put b.item_id (add old power) s.item_power;
      total_power = add s.total_power power;
    })

  -- The loop over the buyings at one time; the second variable is `updatedID`.
  unfoldable pub build_all :
      Object MItem → List Buying → Locals Big → Object Bool → Option (Locals Big × Object Bool)
  build_all items [] s updated_id = some (s, updated_id)
  build_all items (b ∷ buyings) s updated_id = elim (build items b s) [
    | none ↦ none
    | some s' ↦ build_all items buyings s' (put b.item_id true updated_id)
  ]

  unfoldable pub note_building : ℕ → ℕ → Locals Big → Option (Locals Big)
  note_building t id s = do
    buildings ← get id s.item_building
    count ← get id s.item_built
    power ← get id s.item_power
    some (record s {
      item_building =
          put id (buildings ++ record { time = t; count_built = count; power = big2exp power } ∷ [])
            s.item_building;
    })

  unfoldable pub note_buildings : ℕ → List ℕ → Locals Big → Option (Locals Big)
  note_buildings t [] s = some s
  note_buildings t (id ∷ ids) s = elim (note_building t id s) [
    | none ↦ none
    | some s' ↦ note_buildings t ids s'
  ]

  -- The buyings at time t, and whether there are any.
  unfoldable pub apply_buyings : Object MItem → ℕ → Locals Big → Option (Locals Big × Bool)
  apply_buyings items t s = elim (get t s.buying_at) [
    | none ↦ some (s, false)
    | some buyings ↦ do
      (built, updated_id) ← build_all items buyings s []
      noted ← note_buildings t (keys updated_id) built
      some (noted, true)
  ]

  unfoldable pub note_schedule : ℕ → Bool → Locals Big → Locals Big
  note_schedule t updated s =
      if updated
      then (record s {
        schedule =
            s.schedule
            ++ record {
              time = t;
              milli_isu = big2exp s.total_milli_isu;
              total_power = big2exp s.total_power;
            }
              ∷ [];
      })
      else s

  unfoldable pub note_on_sale : ℕ → ℕ → Locals Big → Option (Locals Big)
  note_on_sale t item_id s = elim (get item_id s.item_on_sale) [
    | some earlier ↦ some s
    | none ↦ do
      price ← get item_id s.item_price
      some (
          if can_pay s.total_milli_isu price
          then record s { item_on_sale = put item_id t s.item_on_sale }
          else s)
  ]

  unfoldable pub note_all_on_sale : ℕ → List ℕ → Locals Big → Option (Locals Big)
  note_all_on_sale t [] s = some s
  note_all_on_sale t (item_id ∷ ids) s = elim (note_on_sale t item_id s) [
    | none ↦ none
    | some s' ↦ note_all_on_sale t ids s'
  ]

  -- One round of the loop over t.
  unfoldable pub tick : Object MItem → ℕ → Locals Big → Option (Locals Big)
  tick items t s = do
    let (added, has_adding) = apply_adding t (produce s)
    (built, has_buying) ← apply_buyings items t added
    note_all_on_sale t (keys items) (note_schedule t (has_adding || has_buying) built)

  -- The loop `for (let t = …; t <= …; t++)` with the rounds that are left.
  unfoldable pub simulate : Object MItem → ℕ → ℕ → Locals Big → Option (Locals Big)
  simulate items zero t s = some s
  simulate items (suc rounds) t s = elim (tick items t s) [
    | none ↦ none
    | some s' ↦ simulate items rounds (t + 1) s'
  ]
