-- ===== src/Game/Sound.antt =====
-- The databases that the methods keep: what their tables have in common.
use mathlib.Core.List.{append-nil}
use isucon7_final.Prelude.{
  ℕ, ◌+◌, ◌≡◌, ◌≢◌, refl, sym, ◌∙◌, ap, subst, true, ◌&&◌, none, List, [], ◌∷◌, ◌++◌, arith, All,
  All-append, is_some, ◌==◌, if◌then◌else◌, Bool-cases, Option-cases, inl, inr,
}
use isucon7_final.Js.Digits.{Text}
use isucon7_final.Bigint.{Bigint}
use isucon7_final.Status.Types.{Adding, Buying}
use isucon7_final.Status.Counting.{IsNumbered, IsNumberedFrom, counted, rows_of}
use isucon7_final.Status.Books.{IsDistinct}
use isucon7_final.Store.Tables.{
  Db, AddingRow, BuyingRow, text_eq, text_eq→eq, select_isu, insert_adding, update_isu,
  select_addings, select_buyings, count_buyings, select_item,
}
use isucon7_final.Store.Session.{Server}
use isucon7_final.Game.Items.{IsKeyed}
use isucon7_final.Game.Payment.{rows_of-select_buyings}
use isucon7_final.Game.Purchases.{IsBought}
use isucon7_final.Game.Paid.{IsPaid}
use isucon7_final.Game.Addings.{IsAdded}

-- Items have numbers of their own; each buying is of an item that there is; in each room the ordinals
-- of an item count from one; and in each room the addings have times of their own.
pub record IsSound (d : Db) : Type 0 where
  pub keyed : IsKeyed d.m_item
  pub known : All (λ r. is_some (select_item r.item_id d.m_item) ≡ true) d.buying
  pub numbered : (room : Text) → IsNumbered (select_buyings room d.buying)
  pub distinct : (room : Text) → IsDistinct (select_addings room d.adding)

abbrev to_buying : BuyingRow → Buying
to_buying r = record { item_id = r.item_id; ordinal = r.ordinal; time = r.time }

abbrev pub to_adding : AddingRow → Adding
to_adding r = record { time = r.time; isu = r.isu }

select_buyings-append :
    (room : Text) (rows : List BuyingRow) (r : BuyingRow)
    → select_buyings room (rows ++ r ∷ [])
      ≡ select_buyings room rows ++ (if text_eq room r.room_name then to_buying r ∷ [] else [])
unfolding select_buyings
select_buyings-append room [] r = refl
select_buyings-append room (x ∷ rows) r = ground (arith, select_buyings-append room rows r)

pub select_addings-append :
    (room : Text) (rows : List AddingRow) (r : AddingRow)
    → select_addings room (rows ++ r ∷ [])
      ≡ select_addings room rows ++ (if text_eq room r.room_name then to_adding r ∷ [] else [])
unfolding select_addings
select_addings-append room [] r = refl
select_addings-append room (x ∷ rows) r = ground (arith, select_addings-append room rows r)

IsNumberedFrom-append :
    (prior : ℕ → ℕ) (buyings : List Buying) (b : Buying)
    → IsNumberedFrom prior buyings
    → b.ordinal ≡ prior b.item_id + rows_of b.item_id buyings + 1
    → IsNumberedFrom prior (buyings ++ b ∷ [])
unfolding rows_of
IsNumberedFrom-append prior [] b h e = (omega (arith, e), tt)
IsNumberedFrom-append prior (x ∷ buyings) b h e =
    (h.0, IsNumberedFrom-append (counted x.item_id prior) buyings b h.1 (ground arith))

-- The times of a room stay its own when another one is added.
IsDistinct-append :
    (addings : List Adding) (a : Adding)
    → IsDistinct addings
    → All (λ b. b.time ≢ a.time) addings
    → IsDistinct (addings ++ a ∷ [])
IsDistinct-append [] a h new = (tt, tt)
IsDistinct-append (x ∷ addings) a h new = (
  All-append (λ b. b.time ≢ x.time) addings (a ∷ []) h.0 ((λ e. new.0 (sym e)), tt),
  IsDistinct-append addings a h.1 new.1,
)

select_isu-none :
    (room : Text) (t : ℕ) (rows : List AddingRow)
    → select_isu room t rows ≡ none
    → All (λ b. b.time ≢ t) (select_addings room rows)
unfolding select_isu select_addings
select_isu-none room t [] h = tt
select_isu-none room t (r ∷ rows) h = elim (Bool-cases (text_eq room r.room_name)) [
  | inl here ↦ elim (Bool-cases (t == r.time)) [
    | inl taken ↦ absurd (ground (arith, here, taken))
    | inr free ↦
        rw here ((λ e. ground (arith, e, free)), select_isu-none room t rows (ground arith))
  ]
  | inr elsewhere ↦ rw elsewhere (select_isu-none room t rows (ground arith))
]

-- A row after the update.
pub update_isu-cons :
    (room room' : Text) (t : ℕ) (isu : Text) (r : AddingRow) (rows : List AddingRow)
    → select_addings room' (update_isu room t isu (r ∷ rows)) ≡ (
        if text_eq room' r.room_name
        then record {
          time = r.time;
          isu = if text_eq room r.room_name && t == r.time then isu else r.isu;
        }
          ∷ select_addings room' (update_isu room t isu rows)
        else select_addings room' (update_isu room t isu rows))
unfolding select_addings update_isu
update_isu-cons room room' t isu r rows =
    elim (Bool-cases (text_eq room r.room_name && t == r.time)) [
      | inl hit ↦ rw hit refl
      | inr kept ↦ rw kept refl
    ]

All-update_isu :
    (room room' : Text) (t u : ℕ) (isu : Text) (rows : List AddingRow)
    → All (λ b. b.time ≢ u) (select_addings room' rows)
    → All (λ b. b.time ≢ u) (select_addings room' (update_isu room t isu rows))
unfolding select_addings update_isu
All-update_isu room room' t u isu [] h = tt
All-update_isu room room' t u isu (r ∷ rows) h = elim (Bool-cases (text_eq room' r.room_name)) [
  | inl here ↦
      let h' : All (λ b. b.time ≢ u) (to_adding r ∷ select_addings room' rows) = rw here at h in
      rw (update_isu-cons room room' t isu r rows, here)
        (h'.0, All-update_isu room room' t u isu rows h'.1)
  | inr elsewhere ↦
      rw (update_isu-cons room room' t isu r rows, elsewhere)
        (All-update_isu room room' t u isu rows (rw elsewhere at h))
]

IsDistinct-update_isu :
    (room room' : Text) (t : ℕ) (isu : Text) (rows : List AddingRow)
    → IsDistinct (select_addings room' rows)
    → IsDistinct (select_addings room' (update_isu room t isu rows))
unfolding select_addings update_isu
IsDistinct-update_isu room room' t isu [] h = tt
IsDistinct-update_isu room room' t isu (r ∷ rows) h =
    elim (Bool-cases (text_eq room' r.room_name)) [
      | inl here ↦
          let h' : IsDistinct (to_adding r ∷ select_addings room' rows) = rw here at h in
          rw (update_isu-cons room room' t isu r rows, here)
            (
              All-update_isu room room' t r.time isu rows h'.0,
              IsDistinct-update_isu room room' t isu rows h'.1,
            )
      | inr elsewhere ↦
          rw (update_isu-cons room room' t isu r rows, elsewhere)
            (IsDistinct-update_isu room room' t isu rows (rw elsewhere at h))
    ]

IsDistinct-new_row :
    (room room' : Text) (t : ℕ) (rows : List AddingRow)
    → select_isu room t rows ≡ none
    → IsDistinct (select_addings room' rows)
    → IsDistinct
        (select_addings room' (rows ++ record { room_name = room; time = t; isu = b'0' ∷ [] } ∷ []))
IsDistinct-new_row room room' t rows new h =
    let r : AddingRow = record { room_name = room; time = t; isu = b'0' ∷ [] } in
    rw (select_addings-append room' rows r) (elim (Bool-cases (text_eq room' room)) [
      | inl here ↦ rw here (
          IsDistinct-append _ (to_adding r) h (
            subst (λ s. All (λ b. b.time ≢ t) (select_addings s rows))
              (sym (text_eq→eq room' room here)) (select_isu-none room t rows new)))
      | inr elsewhere ↦ rw (elsewhere, append-nil) h
    ])

pub IsDistinct-insert_adding :
    (room room' : Text) (t : ℕ) (rows : List AddingRow)
    → IsDistinct (select_addings room' rows)
    → IsDistinct (select_addings room' (insert_adding room t rows))
unfolding insert_adding select_addings
IsDistinct-insert_adding room room' t rows h = elim (Option-cases (select_isu room t rows)) [
  | inr (isu, there) ↦ rw (there, insert_adding) h
  | inl new ↦ rw (new, insert_adding) (IsDistinct-new_row room room' t rows new h)
]

IsNumbered-bought :
    (room room' : Text) (item_id count_bought time : ℕ) (rows : List BuyingRow)
    → count_buyings room item_id rows ≡ count_bought
    → IsNumbered (select_buyings room' rows)
    → IsNumbered (
        select_buyings room' (
          rows
          ++ record { room_name = room; item_id = item_id; ordinal = count_bought + 1; time = time }
            ∷ []))
IsNumbered-bought room room' item_id count_bought time rows count h =
    let r : BuyingRow = record {
      room_name = room;
      item_id = item_id;
      ordinal = count_bought + 1;
      time = time;
    } in
    rw (select_buyings-append room' rows r) (elim (Bool-cases (text_eq room' room)) [
      | inl here ↦
          let e : rows_of item_id (select_buyings room' rows) ≡ count_bought =
            ap (λ s. rows_of item_id (select_buyings s rows)) (text_eq→eq room' room here)
            ∙ rows_of-select_buyings room item_id rows
            ∙ count in
          rw here (
            IsNumberedFrom-append (λ id. 0) (select_buyings room' rows) (to_buying r) h
              (omega (arith, e)))
      | inr elsewhere ↦ rw (elsewhere, append-nil) h
    ])

module _ (server : Server) (room : Text) ⦃B : Bigint⦄ where
  open B use {Big}

  pub IsAdded-IsSound :
      (req_isu : Big) (req_time : ℕ) (d d' : Db)
      → IsAdded server room req_isu req_time d d'
      → IsSound d
      → IsSound d'
  IsAdded-IsSound req_isu req_time d d' added sound = record {
    keyed = rw (added.same_items) sound.keyed;
    known = rw (added.same_items, added.same_buying) sound.known;
    numbered = λ r. rw (added.same_buying) (sound.numbered r);
    distinct = λ r. rw (added.written) (
        IsDistinct-update_isu room r req_time _ _
          (IsDistinct-insert_adding room r req_time d.adding (sound.distinct r)));
  }

  pub IsBought-IsSound :
      (item_id count_bought req_time : ℕ) (d d' : Db)
      → IsBought room item_id count_bought req_time d d'
      → IsPaid server room item_id count_bought req_time d
      → IsSound d
      → IsSound d'
  IsBought-IsSound item_id count_bought req_time d d'
        (count, free, written, same_adding, same_items) paid sound =
      record {
        keyed = rw same_items sound.keyed;
        known =
            rw (same_items, written)
              (All-append (λ r. is_some (select_item r.item_id d.m_item) ≡ true) d.buying _
                sound.known (rw (paid.listed) refl, tt));
        numbered = λ r. rw written (
            IsNumbered-bought room r item_id count_bought req_time d.buying count
              (sound.numbered r));
        distinct = λ r. rw same_adding (sound.distinct r);
      }
