-- ===== src/Gui/Buttons/Shown.antt =====
-- The buttons to buy show the items of the state, in every frame.
use isucon7_final.Prelude.{
  ℕ, ◌<◌, ◌≡◌, refl, sym, ap, ◌∙◌, All, Bool, true, false, ◌&&◌, not, some, List, [], ◌∷◌, arith,
  ltb, if◌then◌else◌, Bool-cases, Option-cases, inl, inr,
}
use isucon7_final.Js.Digits.{Text}
use isucon7_final.Js.Float.{Float}
use isucon7_final.Js.Object.{get}
use isucon7_final.Store.Tables.{text_eq, text_eq→eq}
use isucon7_final.Client.View.{ItemView, View, get_item}
use isucon7_final.Gui.Assets.{ItemEntry}
use isucon7_final.Gui.Buttons.{
  BuyButton, is_shown, new_button, disable, enable, show_owned, show_price, switch_button,
  show_item, price_text,
}
use isucon7_final.Gui.Main.{show_buttons}

-- A button that is disabled looks so and does not react, and one that is enabled reacts.
pub data IsSwitched (b : BuyButton) : Type 0 where
  off : b.disabled ≡ true → b.interactive ≡ false → b.background_alpha ≡ 50 → IsSwitched b
  on : b.disabled ≡ false → b.interactive ≡ true → b.background_alpha ≡ 100 → IsSwitched b

pub new_button-IsSwitched : (item_id : ℕ) (e : ItemEntry) → IsSwitched (new_button item_id e)
unfolding new_button disable
new_button-IsSwitched item_id e = off refl refl refl

keeps_switch :
    {b b' : BuyButton}
    → IsSwitched b
    → b'.disabled ≡ b.disabled
    → b'.interactive ≡ b.interactive
    → b'.background_alpha ≡ b.background_alpha
    → IsSwitched b'
keeps_switch (off d i a) d' i' a' = off (d' ∙ d) (i' ∙ i) (a' ∙ a)
keeps_switch (on d i a) d' i' a' = on (d' ∙ d) (i' ∙ i) (a' ∙ a)

-- A button that shows an item: it can be clicked exactly when the item can be bought, and the price
-- and the number of machines are the ones of the item, where it has them.
pub record ShowsButton ⦃D : Float⦄ (item : ItemView) (b : BuyButton) : Type 0 where
  pub switched : IsSwitched b
  pub can_click : b.interactive ≡ not item.disabled
  pub shows_price : text_eq item.next_price [] ≡ false → b.next_price ≡ price_text item.next_price
  pub shows_owned : 0 < item.count_built → b.num_owned ≡ some item.count_built

module _ ⦃D : Float⦄ where
  show_owned_lem : (n : ℕ) (b : BuyButton) → 0 < n → (show_owned n b).num_owned ≡ some n
  unfolding show_owned
  show_owned_lem n b h = elim (Option-cases b.num_owned) [
    | inl nothing ↦ ground arith
    | inr (m, has) ↦ ground arith
  ]

  show_owned-IsSwitched : (n : ℕ) (b : BuyButton) → IsSwitched b → IsSwitched (show_owned n b)
  unfolding show_owned
  show_owned-IsSwitched n b h = elim (Bool-cases (ltb 0 n && not (is_shown n b.num_owned))) [
    | inl new ↦ simp new (keeps_switch h refl refl refl)
    | inr old ↦ simp old h
  ]

  show_price-IsSwitched : (p : Text) (b : BuyButton) → IsSwitched b → IsSwitched (show_price p b)
  unfolding show_price
  show_price-IsSwitched p b h =
      elim (Bool-cases (not (text_eq p []) && not (text_eq (price_text p) b.next_price))) [
        | inl new ↦ simp new (keeps_switch h refl refl refl)
        | inr old ↦ simp old h
      ]

  show_price-num_owned : (p : Text) (b : BuyButton) → (show_price p b).num_owned ≡ b.num_owned
  unfolding show_price
  show_price-num_owned p b =
      elim (Bool-cases (not (text_eq p []) && not (text_eq (price_text p) b.next_price))) [
        | inl new ↦ simp new refl
        | inr old ↦ simp old refl
      ]

  show_price_lem :
      (p : Text) (b : BuyButton) → text_eq p [] ≡ false → (show_price p b).next_price ≡ price_text p
  unfolding show_price
  show_price_lem p b h = elim (Bool-cases (text_eq (price_text p) b.next_price)) [
    | inl same ↦ simp (h, same) (sym (text_eq→eq _ _ same))
    | inr other ↦ simp (h, other) refl
  ]

  switch_button_lem :
      (d : Bool) (b : BuyButton)
      → IsSwitched b
      → IsSwitched (switch_button d b)
        × ((switch_button d b).interactive ≡ not d)
        × ((switch_button d b).next_price ≡ b.next_price)
        × ((switch_button d b).num_owned ≡ b.num_owned)
  unfolding switch_button disable enable
  switch_button_lem true b (off d i a) = simp d (off d i a, i, refl, refl)
  switch_button_lem true b (on d i a) = rw d (off refl refl refl, refl, refl, refl)
  switch_button_lem false b (off d i a) = rw d (on refl refl refl, refl, refl, refl)
  switch_button_lem false b (on d i a) = simp d (on d i a, i, refl, refl)

  show_item-ShowsButton :
      (item : ItemView) (b : BuyButton) → IsSwitched b → ShowsButton item (show_item item b)
  unfolding show_item
  show_item-ShowsButton item b h =
      let owned = show_owned item.count_built b in
      let priced = show_price item.next_price owned in
      let (switched, can, price, number) =
        switch_button_lem item.disabled priced
          (show_price-IsSwitched _ owned (show_owned-IsSwitched _ b h)) in
      record {
        switched = switched;
        can_click = can;
        shows_price = λ some_price. price ∙ show_price_lem item.next_price owned some_price;
        shows_owned = λ some_built.
            number
            ∙ show_price-num_owned item.next_price owned
            ∙ show_owned_lem item.count_built b some_built;
      }

  either-item_id :
      (c : Bool) (x y b : BuyButton)
      → x.item_id ≡ b.item_id
      → y.item_id ≡ b.item_id
      → (if c then x else y).item_id ≡ b.item_id
  either-item_id true x y b l r = l
  either-item_id false x y b l r = r

  show_owned-item_id : (n : ℕ) (b : BuyButton) → (show_owned n b).item_id ≡ b.item_id
  unfolding show_owned
  show_owned-item_id n b =
      either-item_id (ltb 0 n && not (is_shown n b.num_owned)) (record b { num_owned = some n }) b b
        refl refl

  show_price-item_id : (p : Text) (b : BuyButton) → (show_price p b).item_id ≡ b.item_id
  unfolding show_price
  show_price-item_id p b =
      either-item_id (not (text_eq p []) && not (text_eq (price_text p) b.next_price))
        (record b { next_price = price_text p }) b b refl refl

  switch_button-item_id : (d : Bool) (b : BuyButton) → (switch_button d b).item_id ≡ b.item_id
  unfolding switch_button disable enable
  switch_button-item_id d b =
      either-item_id (d && not b.disabled) (disable b) (if not d && b.disabled then enable b else b)
        b refl (either-item_id (not d && b.disabled) (enable b) b b refl refl)

  show_item-item_id : (item : ItemView) (b : BuyButton) → (show_item item b).item_id ≡ b.item_id
  unfolding show_item
  show_item-item_id item b =
      switch_button-item_id item.disabled
        (show_price item.next_price (show_owned item.count_built b))
      ∙ show_price-item_id item.next_price (show_owned item.count_built b)
      ∙ show_owned-item_id item.count_built b

  -- A button whose item the state has, and which is switched on or off properly.
  pub record IsReady (state : View) (b : BuyButton) : Type 0 where
    pub item : ItemView
    pub has : get_item b.item_id state ≡ some item
    pub switched : IsSwitched b

  -- A button that shows its item of the state.
  pub record IsShown (state : View) (b : BuyButton) : Type 0 where
    pub item : ItemView
    pub has : get_item b.item_id state ≡ some item
    pub shows : ShowsButton item b

  -- When the state has the items of all buttons, and each button is properly switched on or off, the
  -- loop over the buttons throws nothing, and afterwards each one shows its item: it can be clicked
  -- exactly when the item can be bought, and the price and the number of machines are the ones of
  -- the item, unless that is empty or zero.
  pub show_buttons-IsShown :
      (state : View) (buttons : List BuyButton)
      → All (IsReady state) buttons
      → (shown : List BuyButton) × (show_buttons state buttons ≡ some shown)
        × All (IsShown state) shown
  unfolding show_buttons
  show_buttons-IsShown state [] ready = ([], refl, tt)
  show_buttons-IsShown state (b ∷ buttons) (r, ready) =
      let (shown, done, all) = show_buttons-IsShown state buttons ready in
      (
        show_item r.item b ∷ shown,
        rw (r.has, done) refl,
        (
          record {
            item = r.item;
            has = ap (λ id. get id state.items) (show_item-item_id r.item b) ∙ r.has;
            shows = show_item-ShowsButton r.item b r.switched;
          },
          all,
        ),
      )
