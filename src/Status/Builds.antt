-- ===== src/Status/Builds.antt =====
-- The buyings in the simulation of `calcStatus`.
use isucon7_final.Prelude.{
  ℕ, ◌+◌, ◌≡◌, refl, sym, ◌∙◌, ap, Bool, true, none, some, List, [], ◌∷◌, arith, All, is_some, ◌==◌,
  inl, inr, Bool-cases, Option-cases, ==_iff,
}
use isucon7_final.Prelude.Int.{pos, ◌+ℤ◌, int_laws}
use isucon7_final.Js.Object.{Object, get, put, get-put, keys, among-keys, All-among}
use isucon7_final.Bigint.{Bigint}
use isucon7_final.MItem.{MItem, get_power}
use isucon7_final.MItem.Formula.{power_of, val-get_power}
use isucon7_final.Status.Types.{Buying, Locals}
use isucon7_final.Status.Start.{count_up}
use isucon7_final.Status.Simulate.{build, build_all, apply_buyings}
use isucon7_final.Status.Balance.{power_bought, power_from}
use isucon7_final.Status.Queues.{all_at, enqueued}
use isucon7_final.Status.Counting.{HasKeys, IsKnown, get-count_up}
use isucon7_final.Status.Notes.{note_buildings-keeps}

-- The power of some buyings together.
abbrev total_bought : Object MItem → List Buying → ℕ
total_bought items [] = 0
total_bought items (b ∷ buyings) = power_bought items b + total_bought items buyings

total_bought-all_at :
    (items : Object MItem) (t : ℕ) (buyings : List Buying)
    → total_bought items (all_at t buyings) ≡ power_from items t buyings
unfolding all_at power_from
total_bought-all_at items t [] = refl
total_bought-all_at items t (b ∷ buyings) = ground (arith, total_bought-all_at items t buyings)

all_at-IsKnown :
    (items : Object MItem) (t : ℕ) (buyings : List Buying)
    → All (IsKnown items) buyings
    → All (IsKnown items) (all_at t buyings)
unfolding all_at
all_at-IsKnown items t [] h = tt
all_at-IsKnown items t (b ∷ buyings) h = elim (Bool-cases (b.time == t)) [
  | inl here ↦ rw here (h.0, all_at-IsKnown items t buyings h.1)
  | inr other ↦ rw other (all_at-IsKnown items t buyings h.1)
]

module _ ⦃B : Bigint⦄ where
  open B use {Big, val, val-add, add}

  -- The items that are marked as updated have been built.
  abbrev IsMarked : Object MItem → Object Bool → Locals Big → Type 0
  IsMarked items updated_id s =
      (id : ℕ)
      → is_some (get id updated_id) ≡ true
      → (is_some (get id items) ≡ true) × (is_some (get id s.item_built) ≡ true)

  record Built (items : Object MItem) (buyings : List Buying) (s s' : Locals Big)
      (updated_id : Object Bool) : Type 0 where
    power : val s'.total_power ≡ val s.total_power +ℤ pos (total_bought items buyings)
    powered : HasKeys items s'.item_power
    marked : IsMarked items updated_id s'
    frame : s' ≡ record s {
      item_built = s'.item_built;
      item_power = s'.item_power;
      total_power = s'.total_power;
    }

  abbrev built_state : Buying → MItem → Big → Locals Big → Locals Big
  built_state b m old s =
      let power = get_power m b.ordinal in
      record s {
        item_built = count_up b.item_id s.item_built;
        item_power = put b.item_id (add old power) s.item_power;
        total_power = add s.total_power power;
      }

  build-known :
      (items : Object MItem) (b : Buying) (s : Locals Big) (m : MItem) (old : Big)
      → get b.item_id items ≡ some m
      → get b.item_id s.item_power ≡ some old
      → build items b s ≡ some (built_state b m old s)
  unfolding build
  build-known items b s m old known powered = rw (known, powered)

  power_bought-known :
      (items : Object MItem) (b : Buying) (m : MItem)
      → get b.item_id items ≡ some m
      → power_bought items b ≡ power_of m b.ordinal
  power_bought-known items b m known =
      ap (λ o. elim o [ none ↦ 0 | some m ↦ power_of m b.ordinal ]) known

  built_state-IsMarked :
      (items : Object MItem) (b : Buying) (s : Locals Big) (m : MItem) (old : Big)
      (updated_id : Object Bool)
      → IsKnown items b
      → IsMarked items updated_id s
      → IsMarked items (put b.item_id true updated_id) (built_state b m old s)
  built_state-IsMarked items b s m old updated_id known marked id h =
      elim (Bool-cases (id == b.item_id)) [
        | inl same ↦ let e = (==_iff id b.item_id).0 same in (rw e known, rw (get-count_up, same))
        | inr other ↦
            let earlier = marked id (ground (arith, get-put id b.item_id true updated_id)) in
            (earlier.0, rw (get-count_up, other) earlier.1)
      ]

  build_all-Built :
      (items : Object MItem) (buyings : List Buying) (s : Locals Big) (updated_id : Object Bool)
      → All (IsKnown items) buyings
      → HasKeys items s.item_power
      → IsMarked items updated_id s
      → (s' : Locals Big) × (updated' : Object Bool) × (build_all items buyings s updated_id
          ≡ some (s', updated'))
        × Built items buyings s s' updated'
  unfolding build_all
  build_all-Built items [] s updated_id known powered marked = (
    s,
    updated_id,
    refl,
    record { power = omega int_laws; powered = powered; marked = marked; frame = refl },
  )
  build_all-Built items (b ∷ buyings) s updated_id known powered marked =
      elim (Option-cases (get b.item_id items)) [
        | inl e ↦ absurd (ground (arith, known.0))
        | inr (m, e) ↦ elim (Option-cases (get b.item_id s.item_power)) [
          | inl missing ↦ absurd (ground (arith, powered b.item_id known.0))
          | inr (old, p) ↦
              let (s', updated', done, rest) =
                build_all-Built items buyings (built_state b m old s)
                  (put b.item_id true updated_id) known.1
                  (λ id h. ground (
                    arith,
                    get-put id b.item_id (add old (get_power m b.ordinal)) s.item_power,
                    powered id h,
                  ))
                  (built_state-IsMarked items b s m old updated_id known.0 marked) in
              (
                s',
                updated',
                rw (build-known items b s m old e p, build_all) done,
                record {
                  power =
                      rw (rest.power, val-add, val-get_power, power_bought-known items b m e)
                        (omega int_laws);
                  powered = rest.powered;
                  marked = rest.marked;
                  frame = rest.frame;
                },
              )
        ]
      ]

  abbrev with_building : Locals Big → Locals Big → Locals Big
  with_building s r = record s { item_building = r.item_building }

  abbrev with_built : Locals Big → Locals Big → Locals Big
  with_built s r = record s {
    item_built = r.item_built;
    item_power = r.item_power;
    total_power = r.total_power;
  }

  abbrev pub with_settled : Locals Big → Locals Big → Locals Big
  with_settled s r = with_building (with_built s r) r

  settled_frame :
      (s s1 s' : Locals Big)
      → s1 ≡ with_built s s1
      → s' ≡ with_building s1 s'
      → s' ≡ with_settled s s'
  settled_frame s s1 s' built noted =
      noted
      ∙ ap (λ r. with_building r s') built
      ∙ ap (λ r. with_building (with_built s r) s') (sym noted)

  -- The buyings of one time take effect.
  pub record Settled (items : Object MItem) (t : ℕ) (buyings : List Buying) (s s' : Locals Big)
      : Type 0 where
    pub power : val s'.total_power ≡ val s.total_power +ℤ pos (power_from items t buyings)
    pub powered : HasKeys items s'.item_power
    pub housed : HasKeys items s'.item_building
    pub frame : s' ≡ with_settled s s'

  pub apply_buyings-Settled :
      (items : Object MItem) (t : ℕ) (buyings : List Buying) (s : Locals Big)
      → All (IsKnown items) buyings
      → HasKeys items s.item_power
      → HasKeys items s.item_building
      → get t s.buying_at ≡ enqueued none (all_at t buyings)
      → (s' : Locals Big) × (apply_buyings items t s
          ≡ some (s', is_some (enqueued none (all_at t buyings))))
        × Settled items t buyings s s'
  unfolding apply_buyings
  apply_buyings-Settled items t buyings s known powered housed waiting =
      go (all_at t buyings) waiting (all_at-IsKnown items t buyings known)
        (total_bought-all_at items t buyings)
    where
      go :
          (due : List Buying)
          → get t s.buying_at ≡ enqueued none due
          → All (IsKnown items) due
          → total_bought items due ≡ power_from items t buyings
          → (s' : Locals Big) × (apply_buyings items t s ≡ some (s', is_some (enqueued none due)))
            × Settled items t buyings s s'
      go [] e k p = (
        s,
        rw (e, apply_buyings),
        record {
          power = rw (sym p) (omega int_laws);
          powered = powered;
          housed = housed;
          frame = refl;
        },
      )
      go (b ∷ due) e k p =
          let (s1, updated, done, built) =
            build_all-Built items (b ∷ due) s [] k powered (λ id h. unfold get in cc) in
          let (s', done', frame, keys') =
            note_buildings-keeps items t (keys updated) s1
              (All-among _ (keys updated)
                (λ id h. built.marked id (sym (among-keys id updated) ∙ h)))
              built.powered
              (λ id h. ap (λ r. is_some (get id r.item_building)) built.frame ∙ housed id h) in
          (
            s',
            rw (e, apply_buyings) (rw done (rw done')),
            record {
              power = ap (λ r. val r.total_power) frame ∙ built.power ∙ rw p;
              powered = λ id h. ap (λ r. is_some (get id r.item_power)) frame ∙ built.powered id h;
              housed = keys';
              frame = settled_frame s s1 s' built.frame frame;
            },
          )
