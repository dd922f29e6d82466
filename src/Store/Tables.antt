-- ===== src/Store/Tables.antt =====
-- The tables that db/isudb.sql declares, and what the SQL statements of nodejs/Game.js do to them.
-- The rows of a table stand in the order in which a SELECT returns them, and an INSERT appends.
use isucon7_final.Prelude.{
  ◌≡◌, refl, arith, ℕ, ◌+◌, Bool, true, false, ◌&&◌, ◌||◌, Option, none, some, List, [], ◌∷◌, ◌++◌,
  leb, ◌==◌, if◌then◌else◌,
}
use isucon7_final.Js.Digits.{Text}
use isucon7_final.MItem.{ItemRow}
use isucon7_final.Status.Types.{Adding, Buying}

pub record RoomTime : Type 0 where
  pub room_name : Text
  pub time : ℕ

pub record AddingRow : Type 0 where
  pub room_name : Text
  pub time : ℕ
  pub isu : Text

pub record BuyingRow : Type 0 where
  pub room_name : Text
  pub item_id : ℕ
  pub ordinal : ℕ
  pub time : ℕ

pub record Db : Type 0 where
  pub m_item : List ItemRow
  pub room_time : List RoomTime
  pub adding : List AddingRow
  pub buying : List BuyingRow

-- Whether two names are the same.
abbrev pub text_eq : Text → Text → Bool
text_eq [] [] = true
text_eq [] (c ∷ s) = false
text_eq (b ∷ r) [] = false
text_eq (b ∷ r) (c ∷ s) = b == c && text_eq r s

pub text_eq_refl : (s : Text) → text_eq s s ≡ true
text_eq_refl [] = refl
text_eq_refl (c ∷ s) = ground (arith, text_eq_refl s)

pub text_eq→eq : (s t : Text) → text_eq s t ≡ true → s ≡ t
text_eq→eq [] [] h = refl
text_eq→eq [] (d ∷ t) h = absurd (ground arith)
text_eq→eq (c ∷ s) [] h = absurd (ground arith)
text_eq→eq (c ∷ s) (d ∷ t) h = ground (arith, text_eq→eq s t)

-- The statements about the time of a room.
unfoldable pub select_room_time : Text → List RoomTime → Option ℕ
select_room_time room [] = none
select_room_time room (r ∷ rows) =
    if text_eq room r.room_name then some r.time else select_room_time room rows

-- `INSERT … VALUES (room, 0) ON DUPLICATE KEY UPDATE time = time`
unfoldable pub insert_room_time : Text → List RoomTime → List RoomTime
insert_room_time room rows = elim (select_room_time room rows) [
  | none ↦ rows ++ record { room_name = room; time = 0 } ∷ []
  | some t ↦ rows
]

unfoldable pub update_time : Text → ℕ → List RoomTime → List RoomTime
update_time room t [] = []
update_time room t (r ∷ rows) =
    (if text_eq room r.room_name then record r { time = t } else r) ∷ update_time room t rows

-- The statements about addings.
unfoldable pub select_isu : Text → ℕ → List AddingRow → Option Text
select_isu room t [] = none
select_isu room t (r ∷ rows) =
    if text_eq room r.room_name && t == r.time then some r.isu else select_isu room t rows

-- `INSERT … VALUES (room, t, '0') ON DUPLICATE KEY UPDATE isu = isu`
unfoldable pub insert_adding : Text → ℕ → List AddingRow → List AddingRow
insert_adding room t rows = elim (select_isu room t rows) [
  | none ↦ rows ++ record { room_name = room; time = t; isu = b'0' ∷ [] } ∷ []
  | some isu ↦ rows
]

unfoldable pub update_isu : Text → ℕ → Text → List AddingRow → List AddingRow
update_isu room t isu [] = []
update_isu room t isu (r ∷ rows) =
    (if text_eq room r.room_name && t == r.time then record r { isu = isu } else r)
    ∷ update_isu room t isu rows

unfoldable pub select_addings : Text → List AddingRow → List Adding
select_addings room [] = []
select_addings room (r ∷ rows) =
    let rest = select_addings room rows in
    if text_eq room r.room_name then record { time = r.time; isu = r.isu } ∷ rest else rest

-- `… AND time <= t`
unfoldable pub select_addings_until : Text → ℕ → List AddingRow → List Adding
select_addings_until room t [] = []
select_addings_until room t (r ∷ rows) =
    let rest = select_addings_until room t rows in
    if text_eq room r.room_name && leb r.time t
    then record { time = r.time; isu = r.isu } ∷ rest
    else rest

-- The statements about buyings and items.
unfoldable pub select_buyings : Text → List BuyingRow → List Buying
select_buyings room [] = []
select_buyings room (r ∷ rows) =
    let rest = select_buyings room rows in
    if text_eq room r.room_name
    then record { item_id = r.item_id; ordinal = r.ordinal; time = r.time } ∷ rest
    else rest

-- `SELECT COUNT(*) …`
unfoldable pub count_buyings : Text → ℕ → List BuyingRow → ℕ
count_buyings room item_id [] = 0
count_buyings room item_id (r ∷ rows) =
    (if text_eq room r.room_name && item_id == r.item_id then 1 else 0)
    + count_buyings room item_id rows

-- Whether the primary key of a new row is taken.
unfoldable pub has_buying : Text → ℕ → ℕ → List BuyingRow → Bool
has_buying room item_id ordinal [] = false
has_buying room item_id ordinal (r ∷ rows) =
    text_eq room r.room_name && item_id == r.item_id && ordinal == r.ordinal
    || has_buying room item_id ordinal rows

unfoldable pub select_item : ℕ → List ItemRow → Option ItemRow
select_item item_id [] = none
select_item item_id (r ∷ rows) = if item_id == r.item_id then some r else select_item item_id rows
