-- ===== src/Client/Room/Clicks.antt =====
-- The chairs that a player clicks together reach the server, none lost and none twice.
use native.Mathlib.Nat.{pow-suc, pow-le-pow_right}
use isucon7_final.Prelude.{
  ℕ, zero, suc, ◌+◌, ◌*◌, ◌^◌, ◌-◌, ◌<◌, ◌≤◌, ◌≡◌, refl, sym, ◌∙◌, ap, true, List, [], ◌∷◌, ◌++◌,
  arith, ltb, ◌==◌, length, Bool-cases, inl, inr,
}
use isucon7_final.Prelude.Int.{pos}
use isucon7_final.Js.Digits.{Text, digits_value, digits_value-append, IsNumeral}
use isucon7_final.Js.Decimal.{print, print-IsDecimal}
use isucon7_final.Store.Tables.{text_eq, text_eq→eq}
use isucon7_final.Client.Room.{
  Action, add_isu, buy_item, Room, pad, get_add_value, update, send_add, send_request,
}

-- The value of what was clicked and not sent yet: a chair for each click on one button, and
-- 5 * 10 ^ 15 for each on the other.
abbrev pub clicked_value : ℕ × ℕ → ℕ
clicked_value (small, large) = small + 5000000000000000 * large

-- The value of all addings that were handed to the connection.
unfoldable pub sent_value : List (ℕ × Action) → ℕ
sent_value [] = 0
sent_value ((id, add_isu time isu) ∷ sent) = digits_value 0 isu + sent_value sent
sent_value ((id, buy_item item_id time count) ∷ sent) = sent_value sent

numeral : (n : ℕ) → IsNumeral n (print (pos n))
numeral n = print-IsDecimal (pos n)

-- Zeros in front change nothing but the length.
pad_lem :
    (fuel : ℕ) (s : Text)
    → 15 ≤ length s + fuel
    → length s ≤ 15
    → (digits_value 0 (pad fuel s) ≡ digits_value 0 s) × (length (pad fuel s) ≡ 15)
unfolding pad digits_value
pad_lem zero s h l = (refl, omega arith)
pad_lem (suc fuel) s h l = elim (Bool-cases (ltb (length s) 15)) [
  | inl short ↦ rw short (pad_lem fuel (b'0' ∷ s) (omega arith) (ground arith))
  | inr long ↦ rw long (refl, ground arith)
]

shifted : (acc d p v q : ℕ) → q ≡ p * 10 → (acc * 10 + d) * p + v ≡ acc * q + ((0 + d) * p + v)
shifted acc d p v q e = rw e (omega arith)

-- Digits behind a number that was read before.
digits_value-shift :
    (acc : ℕ) (s : Text) → digits_value acc s ≡ acc * 10 ^ length s + digits_value 0 s
unfolding digits_value
digits_value-shift acc [] = omega arith
digits_value-shift acc (c ∷ s) =
    digits_value-shift (acc * 10 + (c - b'0')) s
    ∙ shifted acc (c - b'0') (10 ^ length s) (digits_value 0 s) (10 ^ suc (length s))
        (pow-suc 10 (length s))
    ∙ ap (λ v. acc * 10 ^ suc (length s) + v) (sym (digits_value-shift (0 + (c - b'0')) s))

-- A number below 10 ^ n has at most n digits.
short_numeral : (m : ℕ) (s : Text) → IsNumeral m s → m < 10 ^ 15 → length s ≤ 15
short_numeral m s h small = elim (Bool-cases (ltb 15 (length s))) [
  | inl long ↦
      let p : 10 ^ 15 ≤ 10 ^ (length s - 1) =
        let l : 15 ≤ length s - 1 = ground arith in pow-le-pow_right (omega arith) l in
      let q = h.no_zero_in_front (ground arith) in absurd (omega arith)
  | inr short ↦ ground arith
]

-- `getAddValue` writes the value of what was clicked.
get_add_value_lem :
    (small large : ℕ)
    → small < 10 ^ 15
    → digits_value 0 (get_add_value (small, large)) ≡ clicked_value (small, large)
unfolding get_add_value
get_add_value_lem small large h =
    let n = numeral small in
    let padded = pad_lem 15 (print (pos small)) (omega arith) (short_numeral small _ n h) in
    elim (Bool-cases (large == 0)) [
      | inl nothing ↦ let e : large ≡ 0 = ground arith in rw nothing (n.denotes ∙ omega (arith, e))
      | inr some_large ↦ rw some_large (
          digits_value-append 0 (print (pos (large * 5))) (pad 15 (print (pos small)))
          ∙ digits_value-shift (digits_value 0 (print (pos (large * 5))))
              (pad 15 (print (pos small)))
          ∙ rw ((numeral (large * 5)).denotes, padded.0, padded.1, n.denotes) (omega arith))
    ]

sent_value-append :
    (sent more : List (ℕ × Action)) → sent_value (sent ++ more) ≡ sent_value sent + sent_value more
unfolding sent_value
sent_value-append [] more = omega arith
sent_value-append ((id, add_isu time isu) ∷ sent) more = omega (arith, sent_value-append sent more)
sent_value-append ((id, buy_item item_id time count) ∷ sent) more = sent_value-append sent more

plus_zero : (n : ℕ) → n + 0 ≡ n
plus_zero n = omega arith

-- With a connection, and less than 10 ^ 15 clicks for single chairs since the last time, `update`
-- hands exactly what was clicked to the connection, and nothing is left to be sent.
pub update-sent_value :
    (now : ℕ) (r : Room)
    → r.is_open ≡ true
    → r.add_value.0 < 10 ^ 15
    → (sent_value (update now r).sent ≡ sent_value r.sent + clicked_value r.add_value)
      × (clicked_value (update now r).add_value ≡ 0)
unfolding update send_add send_request sent_value digits_value
update-sent_value now r on small =
    elim (Bool-cases (text_eq (get_add_value r.add_value) (b'0' ∷ []))) [
      | inl nothing ↦
          let e = text_eq→eq (get_add_value r.add_value) (b'0' ∷ []) nothing in
          let none_clicked : clicked_value r.add_value ≡ 0 =
            sym (get_add_value_lem r.add_value.0 r.add_value.1 small) ∙ ap (digits_value 0) e in
          rw nothing (omega (arith, none_clicked), none_clicked)
      | inr something ↦
          rw (something, on)
            (
              sent_value-append r.sent _
                  ∙ ap (λ v. sent_value r.sent + v)
                      (plus_zero _ ∙ get_add_value_lem r.add_value.0 r.add_value.1 small),
              refl,
            )
    ]
