-- ===== src/Client/Room/Waiting.antt =====
-- A purchase that has been sent, until its answer comes.
use isucon7_final.Prelude.{
  ℕ, ◌+◌, ◌≡◌, refl, ap, Bool, true, false, Option, none, some, List, [], ◌∷◌, ◌++◌, arith, ◌==◌,
  inl, inr, Bool-cases, Option-cases, List-cases, leb,
}
use isucon7_final.Js.Digits.{Text}
use isucon7_final.Js.Object.{Object, get, put, get-put}
use isucon7_final.Store.Tables.{text_eq}
use isucon7_final.Status.Types.{GameStatus}
use isucon7_final.Client.Clock.{Clock}
use isucon7_final.Client.Room.{
  Callback, forget, finish_buying, Room, new_room, Event, opened, closed, answered, told,
  clicked_add, added_directly, updated, clicked_buy, send_request, send_add, update, add,
  add_directly, buy, accept, receive_data, call_back, receive_answer, react, react_all,
  get_add_value, buy_item, buy_time,
}
use isucon7_final.Prelude.{◌≤◌, ◌≢◌, All, sym, subst, get_or, ◌∙◌}
use isucon7_final.Client.Clock.{get_time}
use isucon7_final.Client.Room.Purchases.{buy_marked}
use isucon7_final.Client.Room.Callbacks.{Awaits}
use isucon7_final.Client.Room.Coherent.{IsCoherent, react_all-IsCoherent}

-- The only purchase under way is the one of a number.
record IsWaiting (n req_count : ℕ) (callbacks : Object (Option Callback)) (buying : Bool)
    : Type 0 where
  awaited : Awaits callbacks n finish_buying
  made : n ≤ req_count
  marked : buying ≡ true
  alone : (id : ℕ) → Awaits callbacks id finish_buying → id ≡ n

abbrev Waits : ℕ → Room → Type 0
Waits n r = IsWaiting n r.req_count r.callbacks r.buying

put-IsWaiting :
    (n m t : ℕ) (cb : Object (Option Callback)) (b : Bool)
    → IsWaiting n m cb b
    → IsWaiting n (m + 1) (put (m + 1) (some (forget t)) cb) b
put-IsWaiting n m t cb b h = record {
  awaited = ground (arith, get-put n (m + 1) (some (forget t)) cb, h.awaited, h.made);
  made = omega (arith, h.made);
  marked = h.marked;
  alone = λ id e. elim (Bool-cases (id == (m + 1))) [
    | inl new ↦ absurd (ground (arith, new, e, get-put id (m + 1) (some (forget t)) cb))
    | inr old ↦ h.alone id (ground (arith, old, e, get-put id (m + 1) (some (forget t)) cb))
  ];
}

close-IsWaiting :
    (n m id : ℕ) (cb : Object (Option Callback)) (b : Bool)
    → id ≢ n
    → IsWaiting n m cb b
    → IsWaiting n m (put id none cb) b
close-IsWaiting n m id cb b other h = record {
  awaited = ground (arith, get-put n id none cb, h.awaited, other);
  made = h.made;
  marked = h.marked;
  alone = λ i e. h.alone i (ground (arith, e, get-put i id none cb));
}

send_add-Waits : (n time : ℕ) (isu : Text) (r : Room) → Waits n r → Waits n (send_add time isu r)
unfolding send_add send_request
send_add-Waits n time isu r h = elim (Bool-cases r.is_open) [
  | inl on ↦ rw on (put-IsWaiting _ _ _ _ _ h)
  | inr off ↦ rw off h
]

receive_answer-Waits : (n id : ℕ) (r : Room) → id ≢ n → Waits n r → Waits n (receive_answer id r)
unfolding receive_answer call_back
receive_answer-Waits n id r other h = elim (Option-cases (get id r.callbacks)) [
  | inl unknown ↦ rw (unknown, receive_answer) h
  | inr (pending, e) ↦ go pending e
]
  where
    go :
        (pending : Option Callback)
        → get id r.callbacks ≡ some pending
        → Waits n (receive_answer id r)
    go none e = rw (e, receive_answer) h
    go (some (forget t)) e = rw (e, receive_answer) (close-IsWaiting _ _ _ _ _ other h)
    go (some finish_buying) e = absurd (other (h.alone id e))

receive_data-Waits :
    (n now : ℕ) (status : GameStatus) (r : Room) → Waits n r → Waits n (receive_data now status r)
unfolding receive_data accept
receive_data-Waits n now status r h = elim (List-cases status.schedule) [
  | inl empty ↦ rw empty h
  | inr (entry, entries, e) ↦ elim (Option-cases r.state_time) [
    | inl first ↦ rw (e, first) h
    | inr (time, later) ↦ elim (Bool-cases (leb time entry.time)) [
      | inl newer ↦ rw (e, later, newer) h
      | inr older ↦ rw (e, later, older) h
    ]
  ]
]

update-Waits : (n now : ℕ) (r : Room) → Waits n r → Waits n (update now r)
unfolding update
update-Waits n now r h = elim (Bool-cases (text_eq (get_add_value r.add_value) (b'0' ∷ []))) [
  | inl nothing ↦ rw nothing h
  | inr something ↦ rw something (send_add-Waits n _ _ (record r { add_value = (0, 0) }) h)
]

-- The event is not the answer to a number.
abbrev pub IsOther : ℕ → Event → Type 0
IsOther n (answered id) = id ≢ n
IsOther n e = Unit

react-Waits : (n : ℕ) (e : Event) (r : Room) → IsOther n e → Waits n r → Waits n (react e r)
unfolding react add add_directly
react-Waits n opened r other h = h
react-Waits n closed r other h = h
react-Waits n (answered id) r other h = receive_answer-Waits n id r other h
react-Waits n (told now status) r other h = receive_data-Waits n now status r h
react-Waits n (clicked_add large) r other h = h
react-Waits n (added_directly now value) r other h = send_add-Waits n _ value r h
react-Waits n (updated now) r other h = update-Waits n now r h
react-Waits n (clicked_buy now item_id) r other h = rw (buy_marked now item_id r h.marked) h

react_all-Waits :
    (n : ℕ) (events : List Event) (r : Room)
    → All (IsOther n) events
    → Waits n r
    → Waits n (react_all events r)
unfolding react_all
react_all-Waits n [] r other h = h
react_all-Waits n (e ∷ events) r other h =
    react_all-Waits n events (react e r) other.1 (react-Waits n e r other.0 h)

abbrev asked_room : ℕ → ℕ → Object ℕ → Room → Room
asked_room now item_id counts r = record r {
  buying = true;
  req_count = r.req_count + 1;
  callbacks = put (r.req_count + 1) (some finish_buying) r.callbacks;
  sent = r.sent ++ (r.req_count + 1, buy_item item_id (buy_time now r) (get item_id counts)) ∷ [];
}

buy_lem :
    (now item_id : ℕ) (r : Room) (counts : Object ℕ)
    → r.is_open ≡ true
    → r.buying ≡ false
    → r.count_bought ≡ some counts
    → buy now item_id r ≡ asked_room now item_id counts r
unfolding buy send_request buy_time
buy_lem now item_id r counts on idle e =
    rw (idle, e, on)
      (ap (λ o. record (asked_room now item_id counts r) { is_open = true; count_bought = o }) e)

receive_answer_lem :
    (id : ℕ) (r : Room) → Awaits r.callbacks id finish_buying → (receive_answer id r).buying ≡ false
unfolding receive_answer call_back
receive_answer_lem id r e = rw (e, receive_answer) refl

buy_time_lem : (now : ℕ) (r : Room) → buy_time now r ≡ get_or (get_time now r.clock) 0 + 1000
unfolding buy_time
buy_time_lem now r = refl

asked_room-Waits :
    (now item_id : ℕ) (counts : Object ℕ) (r : Room)
    → IsCoherent r
    → r.buying ≡ false
    → Waits (r.req_count + 1) (asked_room now item_id counts r)
asked_room-Waits now item_id counts r h idle =
    let n = r.req_count + 1 in
    record {
      awaited = ground (arith, get-put n n (some finish_buying) r.callbacks);
      made = omega arith;
      marked = refl;
      alone = λ id e. elim (Bool-cases (id == n)) [
        | inl same ↦ ground (arith, same)
        | inr old ↦
            let busy =
              h.marked id (ground (arith, old, e, get-put id n (some finish_buying) r.callbacks)) in
            absurd (ground (arith, busy, idle))
      ];
    }

-- Let a room have a connection and a status, and let no purchase be under way. A purchase is then
-- sent under the next number, with the count of the last status and a time 1000 milliseconds ahead
-- of the clock (which counts as 0 if it has no time). Whatever happens afterwards, the mark of a
-- purchase stays until the answer to that number comes, and is cleared by that answer.
pub buy-answered :
    (before between : List Event) (c : Clock) (now item_id : ℕ) (counts : Object ℕ)
    → (react_all before (new_room c)).is_open ≡ true
    → (react_all before (new_room c)).buying ≡ false
    → (react_all before (new_room c)).count_bought ≡ some counts
    → All (IsOther ((react_all before (new_room c)).req_count + 1)) between
    → (let r = react_all before (new_room c) in
        let asked = react (clicked_buy now item_id) r in
        let later = react_all between asked in
        (asked.sent
          ≡ r.sent
            ++ (
              r.req_count + 1,
              buy_item item_id (get_or (get_time now r.clock) 0 + 1000) (get item_id counts),
            )
              ∷ [])
        × (later.buying ≡ true)
        × ((react (answered (r.req_count + 1)) later).buying ≡ false))
unfolding react
buy-answered before between c now item_id counts on idle e other =
    let r = react_all before (new_room c) in
    let done = buy_lem now item_id r counts on idle e in
    let waits : Waits (r.req_count + 1) (react_all between (buy now item_id r)) =
      react_all-Waits (r.req_count + 1) between (buy now item_id r) other (
        subst (Waits (r.req_count + 1)) (sym done)
          (asked_room-Waits now item_id counts r (react_all-IsCoherent before c) idle)) in
    (
      ap (λ v. v.sent) done
          ∙ ap (λ t. r.sent ++ (r.req_count + 1, buy_item item_id t (get item_id counts)) ∷ [])
              (buy_time_lem now r),
      waits.marked,
      receive_answer_lem (r.req_count + 1) _ waits.awaited,
    )
