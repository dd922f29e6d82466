-- ===== src/Debug/Table/Rows.antt =====
-- A row shows its item, and its button can be clicked exactly when the item can be bought.
use isucon7_final.Prelude.{
  ℕ, ◌≡◌, refl, ◌∙◌, Bool, true, false, ◌||◌, not, Option, some, List, [], ◌∷◌, ◌++◌, is_some,
  Bool-cases, inl, inr,
}
use isucon7_final.Prelude.Int.{pos}
use isucon7_final.Js.Digits.{Text, codes}
use isucon7_final.Js.Decimal.{print}
use isucon7_final.Js.Float.{Float}
use isucon7_final.Store.Tables.{text_eq}
use isucon7_final.Client.View.{ItemView}
use isucon7_final.Debug.Dom.{
  Element, Document, find, set_attribute, remove_attribute, set_text, has_attribute, drop_attribute,
  change-Changed,
}
use isucon7_final.Debug.Table.{id_of, set_row, set_enabled, coming_text, nth_text, item_names}

abbrev pub Has : Document → Text → Type 0
Has doc id = is_some (find id doc) ≡ true

-- The elements that a row consists of.
abbrev pub HasRow : Document → ℕ → Type 0
HasRow doc i =
    Has doc (id_of (codes "b_name") i)
    × Has doc (id_of (codes "b_n") i)
    × Has doc (id_of (codes "b_button") i)
    × Has doc (id_of (codes "b_p") i)
    × Has doc (id_of (codes "b_v") i)
    × Has doc (id_of (codes "b_msg") i)

set_text_keeps : (s : Text) (x : Element) → (set_text s x).id ≡ x.id
unfolding set_text
set_text_keeps s x = refl

set_enabled_keeps : (b : Bool) (x : Element) → (set_enabled b x).id ≡ x.id
unfolding set_enabled set_attribute remove_attribute
set_enabled_keeps true x = refl
set_enabled_keeps false x = refl

not-not : (b : Bool) → not (not b) ≡ b
not-not true = refl
not-not false = refl

dropped :
    (k : Text) (attributes : List (Text × Text))
    → has_attribute k (drop_attribute k attributes) ≡ false
dropped k [] = refl
dropped k ((j, v) ∷ attributes) = elim (Bool-cases (text_eq k j)) [
  | inl same ↦ rw same (dropped k attributes)
  | inr apart ↦ rw apart (rw apart (dropped k attributes))
]

enabled_lem :
    (b : Bool) (x : Element) → has_attribute (codes "disabled") (set_enabled b x).attributes ≡ not b
unfolding set_enabled set_attribute remove_attribute
enabled_lem true x = dropped (codes "disabled") x.attributes
enabled_lem false x = refl

module _ ⦃D : Float⦄ where
  pub record ShowsItem (i : ℕ) (item : ItemView) (active : Bool) (o : Option Document)
      : Type 0 where
    pub after : Document
    pub is_done : o ≡ some after
    pub row : HasRow after i
    pub button : Element
    pub is_button : find (id_of (codes "b_button") i) after ≡ some button
    pub can_click :
        has_attribute (codes "disabled") button.attributes ≡ (item.disabled || not active)
    pub price : Element
    pub is_price : find (id_of (codes "b_p") i) after ≡ some price
    pub shows_price : price.text ≡ item.next_price ++ codes " 脚"

  -- On a page that has the row of an item, `ItemRow.set` throws nothing and keeps the elements of the
  -- row; afterwards the price is shown, and the button is disabled exactly when the item cannot be
  -- bought or the page is not connected.
  pub set_row-ShowsItem :
      (i : ℕ) (item : ItemView) (active : Bool) (doc : Document)
      → HasRow doc i
      → ShowsItem i item active (set_row i item active doc)
  unfolding set_row
  set_row-ShowsItem i item active doc (name, n, b, p, v, msg) =
      let c1 =
        change-Changed (id_of (codes "b_name") i) (set_text (nth_text i item_names)) doc
          (set_text_keeps _) name in
      let c2 =
        change-Changed (id_of (codes "b_n") i) (set_text (print (pos item.count_built))) c1.after
          (set_text_keeps _) (c1.still _ n) in
      let s2 : (j : Text) → Has doc j → Has c2.after j = λ j h. c2.still j (c1.still j h) in
      let c3 =
        change-Changed (id_of (codes "b_button") i)
          (set_enabled (not (item.disabled || not active))) c2.after (set_enabled_keeps _)
          (s2 _ b) in
      let s3 : (j : Text) → Has doc j → Has c3.after j = λ j h. c3.still j (s2 j h) in
      let c4 =
        change-Changed (id_of (codes "b_p") i) (set_text (item.next_price ++ codes " 脚")) c3.after
          (set_text_keeps _) (s3 _ p) in
      let s4 : (j : Text) → Has doc j → Has c4.after j = λ j h. c4.still j (s3 j h) in
      let c5 =
        change-Changed (id_of (codes "b_v") i) (set_text (item.power ++ codes " 脚毎秒")) c4.after
          (set_text_keeps _) (s4 _ v) in
      let s5 : (j : Text) → Has doc j → Has c5.after j = λ j h. c5.still j (s4 j h) in
      let c6 =
        change-Changed (id_of (codes "b_msg") i) (set_text (coming_text item.building)) c5.after
          (set_text_keeps _) (s5 _ msg) in
      let s6 : (j : Text) → Has doc j → Has c6.after j = λ j h. c6.still j (s5 j h) in
      record {
        after = c6.after;
        is_done = rw (c1.is_done, c2.is_done, c3.is_done, c4.is_done, c5.is_done) c6.is_done;
        row = (s6 _ name, s6 _ n, s6 _ b, s6 _ p, s6 _ v, s6 _ msg);
        button = set_enabled (not (item.disabled || not active)) c3.old;
        is_button = c6.others _ refl ∙ c5.others _ refl ∙ c4.others _ refl ∙ c3.found;
        can_click = enabled_lem (not (item.disabled || not active)) c3.old ∙ not-not _;
        price = set_text (item.next_price ++ codes " 脚") c4.old;
        is_price = c6.others _ refl ∙ c5.others _ refl ∙ c4.found;
        shows_price = unfold set_text in refl;
      }
