-- ===== src/Game/Consistent.antt =====
-- What `calcStatus` asks of its tables holds of a database that the methods keep.
use isucon7_final.Prelude.{
  ℕ, ◌≡◌, refl, true, false, List, [], ◌∷◌, inl, inr, All, is_some, Bool-cases, Option-cases,
}
use isucon7_final.Js.Digits.{Text}
use isucon7_final.Js.Object.{Object, get}
use isucon7_final.MItem.{ItemRow, MItem}
use isucon7_final.Status.Books.{IsConsistent}
use isucon7_final.Status.Counting.{IsKnown}
use isucon7_final.Store.Tables.{Db, BuyingRow, text_eq, select_buyings, select_item}
use isucon7_final.Game.{build_items}
use isucon7_final.Game.Items.{build_items-select_item, build_items-IsWellKeyed}
use isucon7_final.Game.Sound.{IsSound}

IsKnown-select_buyings :
    (room : Text) (rows : List ItemRow) (items : Object MItem) (buyings : List BuyingRow)
    → ((id : ℕ) → is_some (select_item id rows) ≡ true → is_some (get id items) ≡ true)
    → All (λ r. is_some (select_item r.item_id rows) ≡ true) buyings
    → All (IsKnown items) (select_buyings room buyings)
unfolding select_buyings
IsKnown-select_buyings room rows items [] agrees known = tt
IsKnown-select_buyings room rows items (r ∷ buyings) agrees known =
    elim (Bool-cases (text_eq room r.room_name)) [
      | inl here ↦
          rw here (
            agrees r.item_id known.0,
            IsKnown-select_buyings room rows items buyings agrees known.1,
          )
      | inr elsewhere ↦ rw elsewhere (IsKnown-select_buyings room rows items buyings agrees known.1)
    ]

-- What `calcStatus` asks for.
pub IsSound-IsConsistent :
    (room : Text) (d : Db)
    → IsSound d
    → IsConsistent (build_items d.m_item []) (select_buyings room d.buying)
IsSound-IsConsistent room d sound = record {
  keyed = build_items-IsWellKeyed d.m_item [] (λ id m h. absurd (unfold get in cc));
  known =
      IsKnown-select_buyings room d.m_item (build_items d.m_item []) d.buying
        (λ id listed. elim (Option-cases (select_item id d.m_item)) [
          | inl missing ↦ absurd (let wrong : false ≡ true = rw missing at listed in cc)
          | inr (row, found) ↦
              rw (build_items-select_item id d.m_item [] row sound.keyed found) refl
        ])
        sound.known;
  numbered = sound.numbered room;
}
