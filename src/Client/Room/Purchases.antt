-- ===== src/Client/Room/Purchases.antt =====
-- What becomes of the mark of a purchase, with a connection and without one.
use isucon7_final.Prelude.{
  ℕ, ◌≡◌, refl, Bool, true, false, Option, none, some, List, [], ◌∷◌, arith, ◌==◌, inl, inr,
  Bool-cases, Option-cases, List-cases, leb,
}
use isucon7_final.Js.Digits.{Text}
use isucon7_final.Js.Object.{Object, get, put, get-put}
use isucon7_final.Store.Tables.{text_eq}
use isucon7_final.Status.Types.{GameStatus}
use isucon7_final.Client.Clock.{Clock}
use isucon7_final.Client.Room.{
  Callback, forget, finish_buying, Room, new_room, Event, opened, closed, answered, told,
  clicked_add, added_directly, updated, clicked_buy, send_request, send_add, update, add,
  add_directly, buy, accept, receive_data, call_back, receive_answer, react, react_all,
  get_add_value,
}
use isucon7_final.Client.Room.Callbacks.{Awaits}
use isucon7_final.Client.Room.Coherent.{IsCoherent, react_all-IsCoherent}

-- A purchase is marked and none is under way.
record IsStuck (callbacks : Object (Option Callback)) (buying : Bool) : Type 0 where
  marked : buying ≡ true
  no_answer : (id : ℕ) → Awaits callbacks id finish_buying → ⊥

put-IsStuck :
    (n t : ℕ) (cb : Object (Option Callback)) (b : Bool)
    → IsStuck cb b
    → IsStuck (put n (some (forget t)) cb) b
put-IsStuck n t cb b h = record {
  marked = h.marked;
  no_answer = λ id e. elim (Bool-cases (id == n)) [
    | inl new ↦ ground (arith, get-put id n (some (forget t)) cb)
    | inr old ↦ h.no_answer id (ground (arith, get-put id n (some (forget t)) cb))
  ];
}

close-IsStuck :
    (n : ℕ) (cb : Object (Option Callback)) (b : Bool) → IsStuck cb b → IsStuck (put n none cb) b
close-IsStuck n cb b h = record {
  marked = h.marked;
  no_answer = λ id e. h.no_answer id (ground (arith, get-put id n none cb));
}

abbrev Stuck : Room → Type 0
Stuck r = IsStuck r.callbacks r.buying

send_add-Stuck : (time : ℕ) (isu : Text) (r : Room) → Stuck r → Stuck (send_add time isu r)
unfolding send_add send_request
send_add-Stuck time isu r h = elim (Bool-cases r.is_open) [
  | inl on ↦ rw on (put-IsStuck _ _ _ _ h)
  | inr off ↦ rw off h
]

receive_answer-Stuck : (id : ℕ) (r : Room) → Stuck r → Stuck (receive_answer id r)
unfolding receive_answer call_back
receive_answer-Stuck id r h = elim (Option-cases (get id r.callbacks)) [
  | inl unknown ↦ rw (unknown, receive_answer) h
  | inr (pending, e) ↦ go pending e
]
  where
    go :
        (pending : Option Callback)
        → get id r.callbacks ≡ some pending
        → Stuck (receive_answer id r)
    go none e = rw (e, receive_answer) h
    go (some (forget t)) e = rw (e, receive_answer) (close-IsStuck _ _ _ h)
    go (some finish_buying) e = absurd (h.no_answer id e)

receive_data-Stuck :
    (now : ℕ) (status : GameStatus) (r : Room) → Stuck r → Stuck (receive_data now status r)
unfolding receive_data accept
receive_data-Stuck now status r h = elim (List-cases status.schedule) [
  | inl empty ↦ rw empty h
  | inr (entry, entries, e) ↦ elim (Option-cases r.state_time) [
    | inl first ↦ rw (e, first) h
    | inr (time, later) ↦ elim (Bool-cases (leb time entry.time)) [
      | inl newer ↦ rw (e, later, newer) h
      | inr older ↦ rw (e, later, older) h
    ]
  ]
]

update-Stuck : (now : ℕ) (r : Room) → Stuck r → Stuck (update now r)
unfolding update
update-Stuck now r h = elim (Bool-cases (text_eq (get_add_value r.add_value) (b'0' ∷ []))) [
  | inl nothing ↦ rw nothing h
  | inr something ↦ rw something (send_add-Stuck _ _ (record r { add_value = (0, 0) }) h)
]

pub buy_marked : (now item_id : ℕ) (r : Room) → r.buying ≡ true → buy now item_id r ≡ r
unfolding buy
buy_marked now item_id r h = rw (h, buy) refl

react-Stuck : (e : Event) (r : Room) → Stuck r → Stuck (react e r)
unfolding react add add_directly
react-Stuck opened r h = h
react-Stuck closed r h = h
react-Stuck (answered request_id) r h = receive_answer-Stuck request_id r h
react-Stuck (told now status) r h = receive_data-Stuck now status r h
react-Stuck (clicked_add large) r h = h
react-Stuck (added_directly now value) r h = send_add-Stuck _ value r h
react-Stuck (updated now) r h = update-Stuck now r h
react-Stuck (clicked_buy now item_id) r h = rw (buy_marked now item_id r h.marked) h

react_all-Stuck : (events : List Event) (r : Room) → Stuck r → Stuck (react_all events r)
unfolding react_all
react_all-Stuck [] r h = h
react_all-Stuck (e ∷ events) r h = react_all-Stuck events (react e r) (react-Stuck e r h)

buy_closed-Stuck :
    (now item_id : ℕ) (r : Room)
    → IsCoherent r
    → r.is_open ≡ false
    → r.buying ≡ false
    → Stuck (buy now item_id r)
unfolding buy send_request
buy_closed-Stuck now item_id r h off idle = elim (Option-cases r.count_bought) [
  | inl untold ↦ rw (idle, untold) waits
  | inr (counts, e) ↦ rw (idle, e, off) waits
]
  where
    waits : IsStuck r.callbacks true
    waits = record {
      marked = refl;
      no_answer = λ id e. let busy = h.marked id e in absurd (ground arith);
    }

-- When a player buys while the room has no connection and no purchase is under way, the mark of a
-- purchase is set for ever, whatever happens later: nothing was sent, so no answer clears it.
pub buy_unconnected-stays :
    (before after : List Event) (c : Clock) (now item_id : ℕ)
    → (react_all before (new_room c)).is_open ≡ false
    → (react_all before (new_room c)).buying ≡ false
    → (react_all after (react (clicked_buy now item_id) (react_all before (new_room c)))).buying
      ≡ true
unfolding react
buy_unconnected-stays before after c now item_id off idle =
    (react_all-Stuck after _
      (buy_closed-Stuck now item_id _ (react_all-IsCoherent before c) off idle)).marked
