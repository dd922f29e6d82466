-- ===== src/Debug/Dom.antt =====
-- The elements of a page, as far as webapp/public/debugview.js sees them.
use isucon7_final.Prelude.{
  ℕ, ◌≡◌, refl, subst, sym, ◌∙◌, ap, Bool, true, false, Option, none, some, List, [], ◌∷◌, arith,
  if◌then◌else◌, Bool-cases, Option-cases, is_some, inl, inr,
}
use isucon7_final.Js.Digits.{Text, codes}
use isucon7_final.Store.Tables.{text_eq, text_eq→eq}

-- What a click does.
pub data Listener : Type 0 where
  go add_one add_large type_number type_power : Listener
  buy_item : (item_id : ℕ) → Listener

pub record Element : Type 0 where
  pub tag : Text
  pub id : Text
  pub attributes : List (Text × Text)
  pub text : Text
  pub value : Text
  pub listener : Option Listener

abbrev pub Document : Type 0
Document = List Element

abbrev pub drop_attribute : Text → List (Text × Text) → List (Text × Text)
drop_attribute k [] = []
drop_attribute k ((j, v) ∷ attributes) =
    if text_eq k j then drop_attribute k attributes else (j, v) ∷ drop_attribute k attributes

abbrev pub has_attribute : Text → List (Text × Text) → Bool
has_attribute k [] = false
has_attribute k ((j, v) ∷ attributes) = if text_eq k j then true else has_attribute k attributes

-- `createElement`
unfoldable pub create_element : Text → Element
create_element tag = record {
  tag = tag;
  id = [];
  attributes = [];
  text = [];
  value = [];
  listener = none;
}

-- `setAttribute` and `removeAttribute`
unfoldable pub set_attribute : Text → Text → Element → Element
set_attribute k v e =
    if text_eq k (codes "id")
    then record e { id = v }
    else record e { attributes = (k, v) ∷ drop_attribute k e.attributes }

unfoldable pub remove_attribute : Text → Element → Element
remove_attribute k e = record e { attributes = drop_attribute k e.attributes }

unfoldable pub set_text : Text → Element → Element
set_text s e = record e { text = s }

unfoldable pub set_value : Text → Element → Element
set_value s e = record e { value = s }

-- `getElementById`
unfoldable pub find : Text → Document → Option Element
find id [] = none
find id (e ∷ doc) = if text_eq id e.id then some e else find id doc

-- A change of the element that `getElementById` finds; on a missing one the call throws.
unfoldable pub change : Text → (Element → Element) → Document → Option Document
change id f [] = none
change id f (e ∷ doc) =
    let rest : Option Document = elim (change id f doc) [
      | none ↦ none
      | some doc' ↦ some (e ∷ doc')
    ] in
    if text_eq id e.id then some (f e ∷ doc) else rest

-- A change of an element that is there does not throw, and is what is found afterwards.
pub find-change :
    (id : Text) (f : Element → Element) (doc : Document) (e : Element)
    → ((x : Element) → (f x).id ≡ x.id)
    → find id doc ≡ some e
    → (doc' : Document) × (change id f doc ≡ some doc')
      × (find id doc' ≡ some (f e))
      × ((j : Text) → text_eq j id ≡ false → find j doc' ≡ find j doc)
unfolding find change
find-change id f [] e keeps h = absurd (ground arith)
find-change id f (x ∷ doc) e keeps h = elim (Bool-cases (text_eq id x.id)) [
  | inl here ↦
      let same : x ≡ e = ground arith in
      (
        f x ∷ doc,
        rw here refl,
        rw (ap (text_eq id) (keeps x) ∙ here) (ap (λ z. some (f z)) same),
        λ j apart.
            let off : text_eq j x.id ≡ false =
              subst (λ s. text_eq j s ≡ false) (text_eq→eq id x.id here) apart in
            rw (ap (text_eq j) (keeps x) ∙ off, off) refl,
      )
  | inr elsewhere ↦
      let (doc', changed, found, others) = find-change id f doc e keeps (ground arith) in
      (
        x ∷ doc',
        rw (elsewhere, changed) refl,
        rw elsewhere found,
        λ j apart. rw (others j apart) refl,
      )
]

-- After a change every element that was there is there.
pub record Changed (id : Text) (f : Element → Element) (doc : Document) (o : Option Document)
    : Type 0 where
  pub after : Document
  pub is_done : o ≡ some after
  pub old : Element
  pub was : find id doc ≡ some old
  pub found : find id after ≡ some (f old)
  pub others : (j : Text) → text_eq j id ≡ false → find j after ≡ find j doc
  pub still : (j : Text) → is_some (find j doc) ≡ true → is_some (find j after) ≡ true

pub change-Changed :
    (id : Text) (f : Element → Element) (doc : Document)
    → ((x : Element) → (f x).id ≡ x.id)
    → is_some (find id doc) ≡ true
    → Changed id f doc (change id f doc)
change-Changed id f doc keeps there = elim (Option-cases (find id doc)) [
  | inl missing ↦ absurd (ground arith)
  | inr (e, was) ↦
      let (doc', done, found, others) = find-change id f doc e keeps was in
      record {
        after = doc';
        is_done = done;
        old = e;
        was = was;
        found = found;
        others = others;
        still = λ j h. elim (Bool-cases (text_eq j id)) [
          | inl same ↦
              subst (λ k. is_some (find k doc') ≡ true) (sym (text_eq→eq j id same)) (rw found refl)
          | inr apart ↦ rw (others j apart) h
        ];
      }
]
