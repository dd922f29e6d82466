-- ===== src/Game/Earnings.antt =====
-- What an adding brings to the account of its room.
use mathlib.Core.Path.{ap₂}
use isucon7_final.Prelude.{
  ℕ, ◌≡◌, ◌≢◌, sym, ◌∙◌, ap, subst, true, some, List, [], ◌∷◌, ◌++◌, arith, All, leb, ◌==◌,
  if◌then◌else◌, Bool-cases, Option-cases, inl, inr,
}
use isucon7_final.Prelude.Int.{ℤ, pos, ◌+ℤ◌, ◌*ℤ◌, *ℤ_parts, int_laws}
use isucon7_final.Js.Digits.{Text}
use isucon7_final.Bigint.{Bigint}
use isucon7_final.Status.Types.{Adding}
use isucon7_final.Status.Books.{IsDistinct}
use isucon7_final.Status.Counting.{val-zero_isu}
use isucon7_final.Status.Balance.{earned}
use isucon7_final.Store.Tables.{
  AddingRow, text_eq, text_eq_refl, select_isu, insert_adding, update_isu, select_addings,
}
use isucon7_final.Store.Session.{Server, World, ok}
use isucon7_final.Game.{add_isu}
use isucon7_final.Game.Sound.{
  IsSound, to_adding, update_isu-cons, select_addings-append, IsDistinct-insert_adding,
}
use isucon7_final.Game.Addings.{add_isu-IsAdded}
use isucon7_final.Game.Rooms.{update_isu-absent}

module _ ⦃B : Bigint⦄ where
  open B use {Big, val, of_string, to_string, add, val-of_string, val-add, to_string-IsDecimal}

  -- What an adding of so much is worth at a time.
  abbrev pub worth : ℤ → (t u : ℕ) → ℤ
  worth z t u = if leb t u then z *ℤ pos 1000 else pos 0

  worth-add : (x y : ℤ) (t u : ℕ) → worth (x +ℤ y) t u ≡ worth x t u +ℤ worth y t u
  worth-add x y t u = elim (Bool-cases (leb t u)) [
    | inl come ↦ rw come (
        omega
          (int_laws, *ℤ_parts x (pos 1000), *ℤ_parts y (pos 1000), *ℤ_parts (x +ℤ y) (pos 1000)))
    | inr later ↦ rw later (omega int_laws)
  ]

  assoc : (x y z : ℤ) → x +ℤ y +ℤ z ≡ x +ℤ (y +ℤ z)
  assoc x y z = omega int_laws

  swap : (x y z : ℤ) → x +ℤ (y +ℤ z) ≡ y +ℤ (x +ℤ z)
  swap x y z = omega int_laws

  earned-update_isu :
      (room : Text) (t u : ℕ) (isu s : Text) (x : ℤ) (rows : List AddingRow)
      → select_isu room t rows ≡ some isu
      → IsDistinct (select_addings room rows)
      → val (of_string s) ≡ x +ℤ val (of_string isu)
      → earned u (select_addings room (update_isu room t s rows))
        ≡ worth x t u +ℤ earned u (select_addings room rows)
  unfolding select_isu select_addings earned
  earned-update_isu room t u isu s x [] there distinct e = absurd (ground arith)
  earned-update_isu room t u isu s x (r ∷ rows) there distinct e =
      elim (Bool-cases (text_eq room r.room_name)) [
        | inr elsewhere ↦
            let rest : IsDistinct (select_addings room rows) = rw elsewhere at distinct in
            rw (update_isu-cons room room t s r rows, elsewhere)
              (earned-update_isu room t u isu s x rows (ground arith) rest e)
        | inl here ↦
            let own : IsDistinct (to_adding r ∷ select_addings room rows) = rw here at distinct in
            elim (Bool-cases (t == r.time)) [
              | inl hit ↦
                  let when : t ≡ r.time = ground arith in
                  let what : r.isu ≡ isu = ground arith in
                  let rest = update_isu-absent room room t s rows (
                    subst (λ v. All (λ b. b.time ≢ v) (select_addings room rows)) (sym when)
                      own.0) in
                  rw (update_isu-cons room room t s r rows, here, hit, rest)
                    (ap (λ z. worth z r.time u +ℤ earned u (select_addings room rows)) e
                      ∙ ap (λ z. z +ℤ earned u (select_addings room rows))
                          (worth-add x (val (of_string isu)) r.time u)
                      ∙ assoc (worth x r.time u) (worth (val (of_string isu)) r.time u)
                          (earned u (select_addings room rows))
                      ∙ ap₂
                          (λ v i.
                            worth x v u
                            +ℤ (worth (val (of_string i)) r.time u
                                +ℤ earned u (select_addings room rows)))
                          (sym when) (sym what))
              | inr miss ↦
                  rw (update_isu-cons room room t s r rows, here, miss)
                    (ap (λ z. worth (val (of_string r.isu)) r.time u +ℤ z)
                        (earned-update_isu room t u isu s x rows (ground arith) own.1 e)
                      ∙ swap (worth (val (of_string r.isu)) r.time u) (worth x t u)
                          (earned u (select_addings room rows)))
            ]
      ]

  earned-append :
      (u : ℕ) (addings : List Adding) (a : Adding)
      → earned u (addings ++ a ∷ []) ≡ earned u addings +ℤ worth (val (of_string a.isu)) a.time u
  unfolding earned
  earned-append u [] a = omega int_laws
  earned-append u (b ∷ addings) a =
      ap (λ z. worth (val (of_string b.isu)) b.time u +ℤ z) (earned-append u addings a)
      ∙ sym (
          assoc (worth (val (of_string b.isu)) b.time u) (earned u addings)
            (worth (val (of_string a.isu)) a.time u))

  nothing_more : (z : ℤ) (t u : ℕ) → z +ℤ worth (pos 0) t u ≡ z
  nothing_more z t u = elim (Bool-cases (leb t u)) [
    | inl come ↦ rw come (omega (int_laws, *ℤ_parts (pos 0) (pos 1000)))
    | inr later ↦ rw later (omega int_laws)
  ]

  -- A new row holds nothing yet.
  earned-insert_adding :
      (room : Text) (t u : ℕ) (rows : List AddingRow)
      → earned u (select_addings room (insert_adding room t rows))
        ≡ earned u (select_addings room rows)
  unfolding insert_adding
  earned-insert_adding room t u rows = elim (Option-cases (select_isu room t rows)) [
    | inr (isu, there) ↦ rw (there, insert_adding)
    | inl new ↦
        let r : AddingRow = record { room_name = room; time = t; isu = b'0' ∷ [] } in
        rw (new, insert_adding)
          (ap (earned u) (select_addings-append room rows r)
            ∙ ap (λ b. earned u (select_addings room rows ++ (if b then to_adding r ∷ [] else [])))
                (text_eq_refl room)
            ∙ earned-append u (select_addings room rows) (to_adding r)
            ∙ ap (λ z. earned u (select_addings room rows) +ℤ worth z t u) val-zero_isu
            ∙ nothing_more (earned u (select_addings room rows)) t u)
  ]

  -- When `addIsu` answers `true` on a database that the methods keep, the earnings of the room are
  -- greater by the amount of the request from the time of the request on, and the same before.
  pub add_isu-earned :
      (server : Server) (room : Text) (req_isu : Big) (req_time u : ℕ) (w : World)
      → IsSound w.committed
      → (add_isu server room req_isu req_time w).0 ≡ ok true
      → earned u (select_addings room (add_isu server room req_isu req_time w).1.committed.adding)
        ≡ worth (val req_isu) req_time u +ℤ earned u (select_addings room w.committed.adding)
  add_isu-earned server room req_isu req_time u w sound h =
      let added = add_isu-IsAdded server room req_isu req_time w h in
      let inserted = insert_adding room req_time w.committed.adding in
      let value : val (of_string (to_string (add req_isu (of_string added.isu))))
          ≡ val req_isu +ℤ val (of_string added.isu) =
        val-of_string _ _ (to_string-IsDecimal (add req_isu (of_string added.isu)))
        ∙ val-add req_isu (of_string added.isu) in
      ap (λ rows. earned u (select_addings room rows)) added.written
      ∙ earned-update_isu room req_time u added.isu _ (val req_isu) inserted added.was
          (IsDistinct-insert_adding room room req_time w.committed.adding (sound.distinct room))
          value
      ∙ ap (λ z. worth (val req_isu) req_time u +ℤ z)
          (earned-insert_adding room req_time u w.committed.adding)
