-- ===== src/Game/Items.antt =====
-- The object `mItems` that `getStatus` builds of the master table.
use isucon7_final.Prelude.{
  ℕ, ◌≡◌, ◌≢◌, refl, sym, ◌∙◌, ap, none, some, List, [], ◌∷◌, arith, All, ◌==◌, Bool-cases, inl,
  inr,
}
use isucon7_final.Js.Object.{Object, get, put, get-put}
use isucon7_final.MItem.{ItemRow, MItem, new_item}
use isucon7_final.Status.Pricing.{IsWellKeyed}
use isucon7_final.Store.Tables.{select_item}
use isucon7_final.Game.{build_items}

-- No two items have the same number, as the primary key of the table demands.
abbrev pub IsKeyed : List ItemRow → Type 0
IsKeyed [] = Unit
IsKeyed (r ∷ rows) = All (λ s. s.item_id ≢ r.item_id) rows × IsKeyed rows

select_item-none :
    (id : ℕ) (rows : List ItemRow) → All (λ s. s.item_id ≢ id) rows → select_item id rows ≡ none
unfolding select_item
select_item-none id [] h = refl
select_item-none id (r ∷ rows) h = ground (arith, select_item-none id rows h.1)

build_items-other :
    (id : ℕ) (rows : List ItemRow) (m : Object MItem)
    → select_item id rows ≡ none
    → get id (build_items rows m) ≡ get id m
unfolding select_item build_items
build_items-other id [] m h = refl
build_items-other id (r ∷ rows) m h = ground (
  arith,
  build_items-other id rows (put r.item_id (new_item r) m),
  get-put id r.item_id (new_item r) m,
)

-- What is selected from the table is what stands in the object.
pub build_items-select_item :
    (id : ℕ) (rows : List ItemRow) (m : Object MItem) (row : ItemRow)
    → IsKeyed rows
    → select_item id rows ≡ some row
    → get id (build_items rows m) ≡ some (new_item row)
unfolding select_item build_items
build_items-select_item id [] m row keyed h = absurd (ground arith)
build_items-select_item id (r ∷ rows) m row keyed h = elim (Bool-cases (id == r.item_id)) [
  | inl here ↦
      let e : r.item_id ≡ id = ground arith in
      let same : r ≡ row = ground arith in
      build_items-other id rows _ (rw (sym e) (select_item-none r.item_id rows keyed.0))
      ∙ get-put id r.item_id (new_item r) m
      ∙ rw here (ap (λ x. some (new_item x)) same)
  | inr elsewhere ↦ build_items-select_item id rows _ row keyed.1 (ground arith)
]

pub build_items-IsWellKeyed :
    (rows : List ItemRow) (m : Object MItem) → IsWellKeyed m → IsWellKeyed (build_items rows m)
unfolding build_items new_item
build_items-IsWellKeyed [] m h = h
build_items-IsWellKeyed (r ∷ rows) m h =
    build_items-IsWellKeyed rows _
      λ id x e. ground (arith, h id x, get-put id r.item_id (new_item r) m)
