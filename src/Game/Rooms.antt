-- ===== src/Game/Rooms.antt =====
-- The rows that `addIsu` leaves alone: those of other rooms and of other times.
use mathlib.Core.List.{append-nil}
use isucon7_final.Prelude.{
  ℕ, ◌≡◌, ◌≢◌, refl, ◌∙◌, ap, subst, Bool, true, false, List, [], ◌∷◌, ◌++◌, arith, All, ◌==◌,
  if◌then◌else◌, Bool-cases, Option-cases, inl, inr,
}
use isucon7_final.Js.Digits.{Text}
use isucon7_final.Bigint.{Bigint}
use isucon7_final.Store.Tables.{
  AddingRow, text_eq, text_eq→eq, select_isu, insert_adding, update_isu, select_addings,
}
use isucon7_final.Store.Session.{Result, Server, World, ok}
use isucon7_final.Game.Atomic.{DoneOrUnchanged, add_isu-DoneOrUnchanged}
use isucon7_final.Game.{add_isu}
use isucon7_final.Game.Sound.{to_adding, update_isu-cons, select_addings-append}
use isucon7_final.Game.Addings.{add_isu-IsAdded}

-- Rows of another time are left alone.
pub update_isu-absent :
    (room room' : Text) (t : ℕ) (isu : Text) (rows : List AddingRow)
    → All (λ b. b.time ≢ t) (select_addings room' rows)
    → select_addings room' (update_isu room t isu rows) ≡ select_addings room' rows
unfolding select_addings update_isu
update_isu-absent room room' t isu [] h = refl
update_isu-absent room room' t isu (r ∷ rows) h = elim (Bool-cases (text_eq room' r.room_name)) [
  | inr elsewhere ↦
      rw (update_isu-cons room room' t isu r rows, elsewhere)
        (update_isu-absent room room' t isu rows (rw elsewhere at h))
  | inl here ↦
      let h' : All (λ b. b.time ≢ t) (to_adding r ∷ select_addings room' rows) = rw here at h in
      let later : (t == r.time) ≡ false = ground (arith, h'.0) in
      let same = update_isu-absent room room' t isu rows h'.1 in
      rw (update_isu-cons room room' t isu r rows, here)
        (elim (Bool-cases (text_eq room r.room_name)) [
          | inl own ↦ rw (own, later, same) refl
          | inr other ↦ rw (other, same) refl
        ])
]

-- Rows of another room are left alone.
update_isu-other :
    (room other : Text) (t : ℕ) (isu : Text) (rows : List AddingRow)
    → text_eq other room ≡ false
    → select_addings other (update_isu room t isu rows) ≡ select_addings other rows
unfolding select_addings update_isu
update_isu-other room other t isu [] apart = refl
update_isu-other room other t isu (r ∷ rows) apart =
    let rest = update_isu-other room other t isu rows apart in
    elim (Bool-cases (text_eq room r.room_name)) [
      | inl own ↦
          let e = text_eq→eq room r.room_name own in
          let elsewhere : text_eq other r.room_name ≡ false =
            subst (λ s. text_eq other s ≡ false) e apart in
          rw (update_isu-cons room other t isu r rows, elsewhere) rest
      | inr else_where ↦
          rw (update_isu-cons room other t isu r rows, else_where)
            (ap (λ l. if text_eq other r.room_name then to_adding r ∷ l else l) rest)
    ]

insert_adding-other :
    (room other : Text) (t : ℕ) (rows : List AddingRow)
    → text_eq other room ≡ false
    → select_addings other (insert_adding room t rows) ≡ select_addings other rows
unfolding insert_adding
insert_adding-other room other t rows apart = elim (Option-cases (select_isu room t rows)) [
  | inr (isu, there) ↦ rw (there, insert_adding)
  | inl new ↦
      let r : AddingRow = record { room_name = room; time = t; isu = b'0' ∷ [] } in
      rw (new, insert_adding)
        (select_addings-append other rows r
          ∙ ap (λ b. select_addings other rows ++ (if b then to_adding r ∷ [] else [])) apart
          ∙ append-nil _)
]

module _ ⦃B : Bigint⦄ where
  open B use {Big}

  unchanged_unless_done :
      (other : Text) (w : World) (r : Result Bool × World)
      → DoneOrUnchanged w r
      → (r.0 ≡ ok true
          → select_addings other r.1.committed.adding ≡ select_addings other w.committed.adding)
      → select_addings other r.1.committed.adding ≡ select_addings other w.committed.adding
  unchanged_unless_done other w r (inl done) made = made done
  unchanged_unless_done other w r (inr (refused, same)) made =
      ap (λ d. select_addings other d.adding) same

  -- Whatever `addIsu` answers, and whichever calls of the server fail, the addings of every other
  -- room are the same.
  pub add_isu-other_room :
      (server : Server) (room other : Text) (req_isu : Big) (req_time : ℕ) (w : World)
      → text_eq other room ≡ false
      → select_addings other (add_isu server room req_isu req_time w).1.committed.adding
        ≡ select_addings other w.committed.adding
  add_isu-other_room server room other req_isu req_time w apart =
      unchanged_unless_done other w (add_isu server room req_isu req_time w)
        (add_isu-DoneOrUnchanged server room req_isu req_time w)
        (λ h.
          let added = add_isu-IsAdded server room req_isu req_time w h in
          ap (select_addings other) added.written
          ∙ update_isu-other room other req_time _ (insert_adding room req_time w.committed.adding)
              apart
          ∙ insert_adding-other room other req_time w.committed.adding apart)
