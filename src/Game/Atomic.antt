-- ===== src/Game/Atomic.antt =====
-- The methods that write are atomic: whatever calls of the server fail.
use isucon7_final.Prelude.{
  ℕ, ◌≡◌, refl, ◌⊎◌, inl, inr, Bool, true, false, List, [], ◌∷◌, ◌+◌, ltb, ◌==◌, not, ◌&&◌,
}
use isucon7_final.Js.Digits.{Text}
use isucon7_final.Bigint.{Bigint}
use isucon7_final.MItem.{new_item, get_price}
use isucon7_final.Status.Start.{thousand}
use isucon7_final.Prelude.Int.{pos, ltb_ℤ}
use isucon7_final.Status.Types.{Buying}
use isucon7_final.Store.Session.{
  ◌>>=◌, Error, room_time_is_future, req_time_is_past, not_enough, duplicate_key, Result, ok, err,
  Server, World, M, ◌>>◌, pure, release, throw, handle,
}
use isucon7_final.Store.Rules.{
  Keeps, Ends, IsAtomic, Keeps->>=, IsAtomic->>=, Keeps-call, Keeps-query, Keeps-execute,
  Keeps-pure, Keeps-first_row, Keeps-throw_if, finish-IsAtomic, handle-IsAtomic,
}
use isucon7_final.Game.{
  update_room_time, undo, transaction, add_isu_body, add_isu, sum_buyings, insert_buying,
  buy_item_body, buy_item,
}

-- How a method that writes has ended.
abbrev pub DoneOrUnchanged : World → Result Bool × World → Type 0
DoneOrUnchanged w (r, w') = (r ≡ ok true) ⊎ ((r ≡ ok false) × (w'.committed ≡ w.committed))

module _ (server : Server) (room : Text) where
  update_room_time-Keeps : (req_time : ℕ) → Keeps (update_room_time server room req_time)
  unfolding update_room_time
  update_room_time-Keeps req_time = Keeps->>= _ _ (Keeps-execute server _) λ _.
      Keeps->>= _ _ (Keeps-query server _) λ row. Keeps->>= _ _ (Keeps-first_row row) λ time.
        Keeps->>= _ _ (Keeps-call server _ (λ now w. refl)) λ current_time.
          Keeps->>= _ _ (Keeps-throw_if (ltb current_time time) room_time_is_future) λ _.
            Keeps->>= _ _
              (Keeps-throw_if (not (req_time == 0) && ltb req_time current_time) req_time_is_past)
              λ _. Keeps->>= _ _ (Keeps-execute server _) λ _. Keeps-pure current_time

  failed-IsAtomic : (e : Error) → IsAtomic (release >> throw e)
  unfolding IsAtomic ◌>>=◌
  failed-IsAtomic e w = refl

  undo-IsAtomic : (e : Error) → IsAtomic (undo server room e)
  unfolding undo
  undo-IsAtomic e = IsAtomic->>= _ _ (Keeps-call server _ (λ now w. refl)) λ _. failed-IsAtomic e

  transaction-IsAtomic : (body : M Bool) → IsAtomic body → IsAtomic (transaction server room body)
  unfolding transaction
  transaction-IsAtomic body h = IsAtomic->>= _ _ (Keeps-call server _ (λ now w. refl)) λ _.
      IsAtomic->>= _ _ (Keeps-call server _ (λ now w. refl))
        λ _. handle-IsAtomic server body _ h undo-IsAtomic

  caught : (m : M Bool) (w : World) → IsAtomic m → DoneOrUnchanged w (handle m (λ e. pure false) w)
  unfolding IsAtomic
  caught m w h = go (m w) (h w)
    where
      go :
          (r : Result Bool × World)
          → Ends w.committed r
          → DoneOrUnchanged w (elim r.0 [ ok b ↦ (ok b, r.1) | err e ↦ (ok false, r.1) ])
      go (ok b, w') e = rw e (inl refl)
      go (err x, w') e = inr (refl, e)

  module _ ⦃B : Bigint⦄ where
    open B use {Big, cmp, mul}

    add_isu_body-IsAtomic :
        (req_isu : Big) (req_time : ℕ) → IsAtomic (add_isu_body server room req_isu req_time)
    unfolding add_isu_body
    add_isu_body-IsAtomic req_isu req_time = IsAtomic->>= _ _ (update_room_time-Keeps req_time) λ _.
        IsAtomic->>= _ _ (Keeps-execute server _) λ _.
          IsAtomic->>= _ _ (Keeps-query server _) λ row.
            IsAtomic->>= _ _ (Keeps-first_row row)
              λ isu. IsAtomic->>= _ _ (Keeps-execute server _) λ _. finish-IsAtomic server

    sum_buyings-Keeps :
        (req_time : ℕ) (buyings : List Buying) (total : Big)
        → Keeps (sum_buyings server room req_time buyings total)
    unfolding sum_buyings
    sum_buyings-Keeps req_time [] total = Keeps-pure total
    sum_buyings-Keeps req_time (b ∷ buyings) total =
        Keeps->>= _ _ (Keeps-query server _)
          λ row. Keeps->>= _ _ (Keeps-first_row row) λ m_item. sum_buyings-Keeps req_time buyings _

    insert_buying-Keeps :
        (item_id ordinal time : ℕ) → Keeps (insert_buying server room item_id ordinal time)
    unfolding insert_buying
    insert_buying-Keeps item_id ordinal time =
        Keeps->>= _ _ (Keeps-query server _)
          λ taken. Keeps->>= _ _ (Keeps-throw_if taken duplicate_key) λ _. Keeps-execute server _

    buy_item_body-IsAtomic :
        (item_id count_bought req_time : ℕ)
        → IsAtomic (buy_item_body server room item_id count_bought req_time)
    unfolding buy_item_body
    buy_item_body-IsAtomic item_id count_bought req_time =
        IsAtomic->>= _ _ (update_room_time-Keeps req_time) λ _.
          IsAtomic->>= _ _ (Keeps-query server _) λ count.
            IsAtomic->>= _ _ (Keeps-throw_if _ _) λ _.
              IsAtomic->>= _ _ (Keeps-query server _) λ addings.
                IsAtomic->>= _ _ (Keeps-query server _) λ buyings.
                  IsAtomic->>= _ _ (sum_buyings-Keeps req_time buyings _) λ total.
                    IsAtomic->>= _ _ (Keeps-query server _) λ row.
                      IsAtomic->>= _ _ (Keeps-first_row row) λ m_item.
                        IsAtomic->>= _ _
                          (Keeps-throw_if
                            (ltb_ℤ
                              (cmp total
                                (mul (get_price (new_item m_item) (count_bought + 1)) thousand))
                              (pos 0))
                            not_enough)
                          λ _.
                            IsAtomic->>= _ _ (insert_buying-Keeps item_id _ req_time)
                              λ _. finish-IsAtomic server

    -- Whichever calls of the server fail, `addIsu` answers `true`, or it answers `false` and what is
    -- committed is as it was before.
    pub add_isu-DoneOrUnchanged :
        (req_isu : Big) (req_time : ℕ) (w : World)
        → DoneOrUnchanged w (add_isu server room req_isu req_time w)
    unfolding add_isu
    add_isu-DoneOrUnchanged req_isu req_time w =
        caught _ w (transaction-IsAtomic _ (add_isu_body-IsAtomic req_isu req_time))

    -- Whichever calls of the server fail, `buyItem` answers `true`, or it answers `false` and what is
    -- committed is as it was before.
    pub buy_item-DoneOrUnchanged :
        (item_id count_bought req_time : ℕ) (w : World)
        → DoneOrUnchanged w (buy_item server room item_id count_bought req_time w)
    unfolding buy_item
    buy_item-DoneOrUnchanged item_id count_bought req_time w =
        caught _ w (transaction-IsAtomic _ (buy_item_body-IsAtomic item_id count_bought req_time))
