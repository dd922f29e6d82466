-- ===== src/Client/Tests.antt =====
-- A room of the browser in a few situations.
use isucon7_final.Prelude.{
  none, ◌-◌, ℕ, ◌+◌, ◌≤◌, ◌≡◌, refl, true, false, some, List, [], ◌∷◌, ◌++◌, arith,
}
use isucon7_final.Js.Object.{get}
use isucon7_final.Client.Clock.{get_time, set_time, new_clock, get_time_mono}
use isucon7_final.Prelude.Int.{pos}
use isucon7_final.Js.Digits.{int}
use isucon7_final.Status.Types.{Building}
use isucon7_final.Client.Items.{
  ordinals, look_at_all, numbers_after, last_count, look_at_all-ordinals,
}
use isucon7_final.Client.Room.{
  Room, new_room, buy_item, clicked_buy, clicked_add, opened, updated, answered, Event, react,
  react_all, update,
}
use isucon7_final.Client.Room.Clicks.{clicked_value, sent_value, update-sent_value}
use isucon7_final.Client.Room.Coherent.{IsCoherent, react_all-IsCoherent}
use isucon7_final.Client.Room.Purchases.{buy_unconnected-stays}
use isucon7_final.Client.Room.Waiting.{buy-answered}
use isucon7_final.Client.Room.{closed, told, added_directly, receive_data, accept, counts_by_item}
use isucon7_final.Prelude.{get_or}
use isucon7_final.Js.Digits.{codes}
use isucon7_final.Exponential.{Exponential}
use isucon7_final.Status.Types.{GameStatus}

-- A chair is made and sent, and its answer comes.
abbrev session : List Event
session = opened ∷ clicked_add false ∷ updated 5 ∷ answered 1 ∷ []

react_all-IsCoherent_example : IsCoherent (react_all session (new_room new_clock))
react_all-IsCoherent_example = react_all-IsCoherent session new_clock

buy_unconnected-stays_example :
    (react_all session (react (clicked_buy 7 1) (react_all [] (new_room new_clock)))).buying ≡ true
unfolding react_all new_room
buy_unconnected-stays_example = buy_unconnected-stays [] session new_clock 7 1 refl refl

abbrev nothing : Exponential
nothing = record { mantissa = int (pos 0); exponent = 0 }

-- A status with no items.
abbrev first_status : GameStatus
first_status = record {
  time = 100;
  adding = [];
  schedule = record { time = 100; milli_isu = nothing; total_power = nothing } ∷ [];
  items = [];
  on_sale = [];
}

abbrev beginning : List Event
beginning = opened ∷ told 5 first_status ∷ []

-- The connection is lost, and another purchase is tried.
abbrev meanwhile : List Event
meanwhile = closed ∷ clicked_buy 8 1 ∷ added_directly 9 (codes "5") ∷ opened ∷ []

buy-answered_example :
    (let r = react_all beginning (new_room new_clock) in
      let asked = react (clicked_buy 7 1) r in
      let later = react_all meanwhile asked in
      (asked.sent
        ≡ r.sent
          ++ (r.req_count + 1, buy_item 1 (get_or (get_time 7 r.clock) 0 + 1000) (get 1 [])) ∷ [])
      × (later.buying ≡ true)
      × ((react (answered (r.req_count + 1)) later).buying ≡ false))
unfolding react_all react new_room receive_data accept counts_by_item
buy-answered_example =
    buy-answered beginning meanwhile new_clock 7 1 [] refl refl refl (tt, (tt, (tt, (tt, tt))))

get_time_mono_example :
    (x y : ℕ) × (get_time 12 (set_time 10 500 new_clock) ≡ some x)
    × (get_time 15 (set_time 10 500 new_clock) ≡ some y)
    × (500 ≤ x)
    × (x ≤ y)
get_time_mono_example = get_time_mono 10 12 15 500 new_clock (omega arith)

-- Two machines at one time, and a third one later.
abbrev coming : List Building
coming =
    record { time = 20; count_built = 3; power = record { mantissa = int (pos 4); exponent = 0 } }
    ∷ record { time = 30; count_built = 4; power = record { mantissa = int (pos 9); exponent = 0 } }
    ∷ []

look_at_all-ordinals_example :
    ordinals (look_at_all 10 coming (record { latest = none; nn = 1; building = [] })).building
    ≡ numbers_after 1 (last_count 1 coming - 1)
look_at_all-ordinals_example =
    look_at_all-ordinals 10 1 coming (refl, (refl, tt)) (omega arith, (omega arith, tt))

abbrev clicked_room : Room
clicked_room = record (new_room new_clock) { is_open = true; add_value = (7, 1) }

update-sent_value_example :
    (sent_value (update 5 clicked_room).sent
      ≡ sent_value clicked_room.sent + clicked_value clicked_room.add_value)
    × (clicked_value (update 5 clicked_room).add_value ≡ 0)
update-sent_value_example = update-sent_value 5 clicked_room refl (omega arith)
