-- ===== src/Client/Room/Coherent.antt =====
-- The answers that a room waits for do not interfere.
use isucon7_final.Prelude.{
  ℕ, ◌≡◌, refl, Option, none, some, arith, inl, inr, Bool-cases, Option-cases, List-cases, leb, [],
  ◌∷◌, List,
}
use isucon7_final.Js.Digits.{Text}
use isucon7_final.Js.Object.{get}
use isucon7_final.Store.Tables.{text_eq}
use isucon7_final.Status.Types.{GameStatus}
use isucon7_final.Client.Clock.{Clock}
use isucon7_final.Client.Room.{
  Callback, forget, finish_buying, Room, new_room, Event, opened, closed, answered, told,
  clicked_add, added_directly, updated, clicked_buy, send_request, send_add, update, add,
  add_directly, buy, accept, receive_data, call_back, receive_answer, react, react_all,
  get_add_value,
}
use isucon7_final.Client.Room.Callbacks.{
  AreCoherent, free_time-is_free, add_time-Coherent, send_add-Coherent, buy-Coherent, mark-Coherent,
  forget-Coherent, finish-Coherent,
}

abbrev pub IsCoherent : Room → Type 0
IsCoherent r = AreCoherent r.req_count r.callbacks r.sending r.buying

new_room-IsCoherent : (c : Clock) → IsCoherent (new_room c)
unfolding new_room get
new_room-IsCoherent c = record {
  fresh = λ id h. refl;
  marked = λ id h. absurd (ground arith);
  one_purchase = λ i j h k. absurd (ground arith);
  shown = λ id t h. absurd (ground arith);
  one_adding = λ i j t h k. absurd (ground arith);
}

send_add_lem : (time : ℕ) (isu : Text) (r : Room) → IsCoherent r → IsCoherent (send_add time isu r)
unfolding send_add send_request
send_add_lem time isu r h = elim (Bool-cases r.is_open) [
  | inl on ↦
      rw on (send_add-Coherent _ _ _ _ h _ isu (free_time-is_free _ time r.sending (omega arith)).0)
  | inr off ↦ rw off (add_time-Coherent _ _ _ _ h _ isu)
]

receive_answer-IsCoherent : (id : ℕ) (r : Room) → IsCoherent r → IsCoherent (receive_answer id r)
unfolding receive_answer call_back
receive_answer-IsCoherent id r h = elim (Option-cases (get id r.callbacks)) [
  | inl unknown ↦ rw (unknown, receive_answer) h
  | inr (pending, e) ↦ go pending e
]
  where
    go :
        (pending : Option Callback)
        → get id r.callbacks ≡ some pending
        → IsCoherent (receive_answer id r)
    go none e = rw (e, receive_answer) h
    go (some (forget t)) e = rw (e, receive_answer) (forget-Coherent _ _ _ _ h id t e)
    go (some finish_buying) e = rw (e, receive_answer) (finish-Coherent _ _ _ _ h id e)

receive_data-IsCoherent :
    (now : ℕ) (status : GameStatus) (r : Room)
    → IsCoherent r
    → IsCoherent (receive_data now status r)
unfolding receive_data accept
receive_data-IsCoherent now status r h = elim (List-cases status.schedule) [
  | inl empty ↦ rw empty h
  | inr (entry, entries, e) ↦ elim (Option-cases r.state_time) [
    | inl first ↦ rw (e, first) h
    | inr (time, later) ↦ elim (Bool-cases (leb time entry.time)) [
      | inl newer ↦ rw (e, later, newer) h
      | inr older ↦ rw (e, later, older) h
    ]
  ]
]

update-IsCoherent : (now : ℕ) (r : Room) → IsCoherent r → IsCoherent (update now r)
unfolding update
update-IsCoherent now r h = elim (Bool-cases (text_eq (get_add_value r.add_value) (b'0' ∷ []))) [
  | inl nothing ↦ rw nothing h
  | inr something ↦ rw something (send_add_lem _ _ (record r { add_value = (0, 0) }) h)
]

buy-IsCoherent : (now item_id : ℕ) (r : Room) → IsCoherent r → IsCoherent (buy now item_id r)
unfolding buy send_request
buy-IsCoherent now item_id r h = elim (Bool-cases r.buying) [
  | inl busy ↦ rw busy (mark-Coherent _ _ _ _ h)
  | inr idle ↦ elim (Option-cases r.count_bought) [
    | inl untold ↦ rw (idle, untold) (mark-Coherent _ _ _ _ h)
    | inr (counts, e) ↦ elim (Bool-cases r.is_open) [
      | inl on ↦ rw (idle, e, on) (buy-Coherent _ _ _ _ h idle)
      | inr off ↦ rw (idle, e, off) (mark-Coherent _ _ _ _ h)
    ]
  ]
]

react-IsCoherent : (e : Event) (r : Room) → IsCoherent r → IsCoherent (react e r)
unfolding react add add_directly
react-IsCoherent opened r h = h
react-IsCoherent closed r h = h
react-IsCoherent (answered request_id) r h = receive_answer-IsCoherent request_id r h
react-IsCoherent (told now status) r h = receive_data-IsCoherent now status r h
react-IsCoherent (clicked_add large) r h = h
react-IsCoherent (added_directly now value) r h = send_add_lem _ value r h
react-IsCoherent (updated now) r h = update-IsCoherent now r h
react-IsCoherent (clicked_buy now item_id) r h = buy-IsCoherent now item_id r h

-- Whatever happens to a new room, in whatever order: every answer that it waits for has a number of
-- its own; at most one of them is to a purchase, and then the mark of a purchase is set; and those
-- to addings are shown in `sending`, each at a time of its own.
pub react_all-IsCoherent :
    (events : List Event) (c : Clock) → IsCoherent (react_all events (new_room c))
unfolding react_all
react_all-IsCoherent events c = go events (new_room c) (new_room-IsCoherent c)
  where
    go : (events : List Event) (r : Room) → IsCoherent r → IsCoherent (react_all events r)
    go [] r h = h
    go (e ∷ events) r h = go events (react e r) (react-IsCoherent e r h)
