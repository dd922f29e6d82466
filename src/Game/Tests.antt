-- ===== src/Game/Tests.antt =====
-- The methods that write, at a room with a hundred chairs and one item for sale, and a server of
-- which the fifth call fails.
use isucon7_final.Prelude.{refl, true, false, ◌≡◌, [], ◌∷◌, ◌+◌, ◌==◌}
use isucon7_final.Prelude.Int.{pos}
use isucon7_final.Js.Digits.{Text}
use isucon7_final.Bigint.Exact.{exact}
use isucon7_final.Store.Tables.{Db}
use isucon7_final.Store.Session.{Server, World}
use isucon7_final.Prelude.Int.{◌-ℤ◌, ◌+ℤ◌, ◌*ℤ◌}
use isucon7_final.Js.Digits.{digits_value}
use isucon7_final.Js.Decimal.{read}
use isucon7_final.MItem.{get_price, get_power, new_item}
use isucon7_final.Store.Tables.{
  select_room_time, insert_room_time, update_time, select_addings_until, select_buyings,
  count_buyings, has_buying, select_item,
}
use isucon7_final.Store.Session.{call, ◌>>=◌, ok}
use isucon7_final.Game.{
  add_isu, buy_item, buy_item_body, transaction, update_room_time, undo, sum_buyings, insert_buying,
  append_buying, sum_addings, settle, add_isu_body, build_items,
}
use isucon7_final.Game.Purchases.{IsBought, buy_item-IsBought}
use isucon7_final.Prelude.{List}
use isucon7_final.Game.Payment.{buy_item-is_affordable}
use isucon7_final.Game.Sound.{IsSound}
use isucon7_final.Game.Earnings.{worth, add_isu-earned}
use isucon7_final.Game.Rooms.{add_isu-other_room}
use isucon7_final.Game.Returned.{returned_once, all_returned, all_ended}
use isucon7_final.Prelude.{◌≤◌}
use isucon7_final.Game.Reachable.{
  Call, adding_call, buying_call, status_call, run_calls, fresh_db, reachable-IsSound,
}
use isucon7_final.Status.Balance.{earned}
use isucon7_final.Status.Sales.{is_affordable}
use isucon7_final.Store.Tables.{text_eq, select_addings, select_isu, insert_adding, update_isu}
use isucon7_final.Game.Atomic.{DoneOrUnchanged, add_isu-DoneOrUnchanged, buy_item-DoneOrUnchanged}

abbrev room : Text
room = b'a' ∷ []

abbrev server : Server
server = record { fails = λ n. n == 5; clock = λ n. 10 + n }

abbrev db : Db
db = record {
  m_item =
      record {
        item_id = 1;
        power1 = 0;
        power2 = 1;
        power3 = 0;
        power4 = 1;
        price1 = 0;
        price2 = 1;
        price3 = 0;
        price4 = 1;
      }
      ∷ [];
  room_time = [];
  adding = record { room_name = room; time = 10; isu = b'1' ∷ b'0' ∷ b'0' ∷ [] } ∷ [];
  buying = [];
}

abbrev world : World
world = record {
  committed = db;
  working = db;
  calls = 0;
  taken = 0;
  released = 0;
  is_open = false;
  given_open = 0;
}

add_isu-DoneOrUnchanged_example :
    DoneOrUnchanged world (add_isu server room ⦃B = exact⦄ (pos 7) 20 world)
add_isu-DoneOrUnchanged_example = add_isu-DoneOrUnchanged server room ⦃B = exact⦄ (pos 7) 20 world

buy_item-DoneOrUnchanged_example :
    DoneOrUnchanged world (buy_item server room ⦃B = exact⦄ 1 0 20 world)
buy_item-DoneOrUnchanged_example = buy_item-DoneOrUnchanged server room ⦃B = exact⦄ 1 0 20 world

-- With no failing call the same purchase succeeds.
abbrev calm_server : Server
calm_server = record { fails = λ n. false; clock = λ n. 10 + n }

calm_purchase : (buy_item calm_server room ⦃B = exact⦄ 1 0 20 world).0 ≡ ok true
unfolding buy_item buy_item_body transaction update_room_time undo sum_buyings insert_buying
    append_buying sum_addings settle call ◌>>=◌ get_price get_power new_item select_room_time
    insert_room_time update_time select_addings_until select_buyings count_buyings has_buying
    select_item read digits_value ◌-ℤ◌ ◌+ℤ◌ ◌*ℤ◌
calm_purchase = refl

buy_item-IsBought_example :
    IsBought room 1 0 20 db (buy_item calm_server room ⦃B = exact⦄ 1 0 20 world).1.committed
buy_item-IsBought_example =
    buy_item-IsBought calm_server room ⦃B = exact⦄ 1 0 20 world calm_purchase

buy_item-is_affordable_example :
    is_affordable ⦃B = exact⦄
      (build_items db.m_item [])
      (select_addings room db.adding)
      (select_buyings room db.buying)
      1
      20
    ≡ true
buy_item-is_affordable_example =
    buy_item-is_affordable calm_server room ⦃B = exact⦄ 1 0 20 world (tt, tt) calm_purchase

-- A server without addings and buyings that has the item.
abbrev fresh : World
fresh = record {
  committed = fresh_db db.m_item;
  working = fresh_db db.m_item;
  calls = 0;
  taken = 0;
  released = 0;
  is_open = false;
  given_open = 0;
}

-- Two rooms: adding, buying without means, and looking at the status.
abbrev busy_calls : List (Call ⦃B = exact⦄)
busy_calls =
    adding_call room (pos 99) 20
    ∷ buying_call room 1 0 30
    ∷ adding_call (b'b' ∷ []) (pos 5) 20
    ∷ status_call room
    ∷ []

reachable-IsSound_example : IsSound (run_calls ⦃B = exact⦄ calm_server busy_calls fresh).committed
reachable-IsSound_example =
    reachable-IsSound ⦃B = exact⦄ calm_server busy_calls db.m_item fresh (tt, tt) refl

IsSound-fresh : IsSound fresh.committed
unfolding run_calls
IsSound-fresh = reachable-IsSound ⦃B = exact⦄ calm_server [] db.m_item fresh (tt, tt) refl

calm_adding : (add_isu calm_server room ⦃B = exact⦄ (pos 7) 20 fresh).0 ≡ ok true
unfolding add_isu add_isu_body transaction update_room_time undo call ◌>>=◌ select_room_time
    insert_room_time update_time select_isu insert_adding update_isu read digits_value
calm_adding = refl

rooms_apart : text_eq room (b'b' ∷ []) ≡ false
rooms_apart = refl

add_isu-earned_example :
    earned ⦃B = exact⦄ 30 (
      select_addings room
        (add_isu calm_server room ⦃B = exact⦄ (pos 7) 20 fresh).1.committed.adding)
    ≡ worth ⦃B = exact⦄ (pos 7) 20 30
      +ℤ earned ⦃B = exact⦄ 30 (select_addings room fresh.committed.adding)
add_isu-earned_example =
    add_isu-earned ⦃B = exact⦄ calm_server room (pos 7) 20 30 fresh IsSound-fresh calm_adding

add_isu-other_room_example :
    select_addings room
      (add_isu calm_server (b'b' ∷ []) ⦃B = exact⦄ (pos 7) 20 world).1.committed.adding
    ≡ select_addings room db.adding
add_isu-other_room_example =
    add_isu-other_room ⦃B = exact⦄ calm_server (b'b' ∷ []) room (pos 7) 20 world rooms_apart

returned_once_example :
    (let w' = run_calls ⦃B = exact⦄ server busy_calls fresh in w'.released ≤ w'.taken)
returned_once_example = returned_once ⦃B = exact⦄ server busy_calls fresh IsSound-fresh refl

all_returned_example :
    (let w' = run_calls ⦃B = exact⦄ calm_server busy_calls fresh in w'.taken ≡ w'.released)
all_returned_example =
    all_returned ⦃B = exact⦄ calm_server busy_calls fresh (λ k. refl) IsSound-fresh refl

all_ended_example :
    (run_calls ⦃B = exact⦄ calm_server busy_calls fresh).given_open ≡ fresh.given_open
all_ended_example =
    all_ended ⦃B = exact⦄ calm_server busy_calls fresh (λ k. refl) IsSound-fresh refl
