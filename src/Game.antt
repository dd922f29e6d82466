-- ===== src/Game.antt =====
-- The methods of `class Game` in nodejs/Game.js that talk to the database.
pub mod Atomic
pub mod Connections
pub mod Items
pub mod Master
pub mod Sound
pub mod Consistent
pub mod Statuses
pub mod Earnings
pub mod Reachable
pub mod Returned
pub mod Transactions
pub mod Addings
pub mod Rooms
pub mod Payment
pub mod Paid
pub mod Purchases
mod Tests
use isucon7_final.Prelude.{
  ℕ, ◌+◌, ◌-◌, Bool, true, false, ◌&&◌, not, Option, none, some, List, [], ◌∷◌, ◌++◌, ltb, leb,
  ◌==◌, if◌then◌else◌,
}
use isucon7_final.Prelude.Int.{pos, ltb_ℤ}
use isucon7_final.Js.Digits.{Text}
use isucon7_final.Js.Object.{Object, put}
use isucon7_final.Bigint.{Bigint}
use isucon7_final.MItem.{ItemRow, MItem, new_item, get_price, get_power}
use isucon7_final.Status.Types.{Adding, Buying, GameStatus}
use isucon7_final.Status.Start.{thousand, zero_isu}
use isucon7_final.Status.Report.{calc_status}
use isucon7_final.Store.Tables.{
  Db, select_room_time, insert_room_time, update_time, select_isu, insert_adding, update_isu,
  select_addings, select_addings_until, select_buyings, count_buyings, has_buying, select_item,
}
use isucon7_final.Store.Session.{
  Error, server_failure, duplicate_key, type_error, room_time_is_future, req_time_is_past,
  already_bought, not_enough, Result, ok, err, Server, World, M, pure, throw, first_row, or_throw,
  ◌>>=◌, ◌>>◌, throw_if, call, query, execute, read_clock, get_connection, begin_transaction,
  commit, rollback, release, handle,
}

-- `mItems[item.item_id] = new MItem(item)` for each row.
unfoldable pub build_items : List ItemRow → Object MItem → Object MItem
build_items [] items = items
build_items (row ∷ rows) items = build_items rows (put row.item_id (new_item row) items)

module _ (server : Server) (room : Text) where
  -- The row that `buyItem` inserts.
  unfoldable pub append_buying : ℕ → ℕ → ℕ → Db → Db
  append_buying item_id ordinal time db = record db {
    buying =
        db.buying
        ++ record { room_name = room; item_id = item_id; ordinal = ordinal; time = time } ∷ [];
  }

  -- `updateRoomTime`: takes the lock of the room, and moves its time on.
  unfoldable pub update_room_time : ℕ → M ℕ
  update_room_time req_time = do
    execute server (λ db. record db { room_time = insert_room_time room db.room_time })
    row ← query server (λ db. select_room_time room db.room_time)
    time ← first_row row
    current_time ← read_clock server
    throw_if (ltb current_time time) room_time_is_future
    throw_if (not (req_time == 0) && ltb req_time current_time) req_time_is_past
    execute server (λ db. record db { room_time = update_time room current_time db.room_time })
    pure current_time

  -- `getCurrentTime`, which answers 0 when the server fails.
  unfoldable pub get_current_time : M ℕ
  get_current_time = handle (read_clock server) (λ e. pure 0)

  -- The inner `catch` block of each method.
  unfoldable pub undo : {A : Type 0} → Error → M A
  undo e = do rollback server; release; throw e

  -- `const connection = await …; await connection.beginTransaction(); try { … } catch (e) { … }`
  unfoldable pub transaction : {A : Type 0} → M A → M A
  unfolding undo
  transaction body = do get_connection server; begin_transaction server; handle body undo

  module _ ⦃B : Bigint⦄ where
    open B use {Big, of_string, of_number, to_string, add, sub, mul, cmp}

    -- The inner `try` block of `addIsu`.
    unfoldable pub add_isu_body : Big → ℕ → M Bool
    unfolding update_room_time
    add_isu_body req_isu req_time = do
      update_room_time req_time
      execute server (λ db. record db { adding = insert_adding room req_time db.adding })
      row ← query server (λ db. select_isu room req_time db.adding)
      isu ← first_row row
      let new_isu = add req_isu (of_string isu)
      execute server
          (λ db. record db { adding = update_isu room req_time (to_string new_isu) db.adding })
      commit server
      release
      pure true

    -- `addIsu`
    unfoldable pub add_isu : Big → ℕ → M Bool
    unfolding add_isu_body transaction
    add_isu req_isu req_time =
        handle (transaction (add_isu_body req_isu req_time)) (λ e. pure false)

    -- The sum of the addings up to the requested time.
    unfoldable pub sum_addings : List Adding → Big → Big
    sum_addings [] total = total
    sum_addings (a ∷ addings) total =
        sum_addings addings (add total (mul (of_string a.isu) thousand))

    -- The cost of one buying, and its gain if it takes effect by the requested time.
    unfoldable pub settle : ℕ → MItem → Buying → Big → Big
    settle req_time item b total =
        let paid = sub total (mul (get_price item b.ordinal) thousand) in
        if leb b.time req_time
        then add paid (mul (get_power item b.ordinal) (of_number (pos (req_time - b.time))))
        else paid

    -- The loop over the buyings, with a statement in each round.
    unfoldable pub sum_buyings : ℕ → List Buying → Big → M Big
    sum_buyings req_time [] total = pure total
    sum_buyings req_time (b ∷ buyings) total = do
      row ← query server (λ db. select_item b.item_id db.m_item)
      m_item ← first_row row
      sum_buyings req_time buyings (settle req_time (new_item m_item) b total)

    -- `INSERT INTO buying …`, which fails if the primary key is taken. The look at the key is a call of
    -- its own here, which may fail like every other.
    unfoldable pub insert_buying : ℕ → ℕ → ℕ → M (Unit {0})
    unfolding append_buying
    insert_buying item_id ordinal time = do
      taken ← query server (λ db. has_buying room item_id ordinal db.buying)
      throw_if taken duplicate_key
      execute server (λ db. append_buying item_id ordinal time db)

    -- The inner `try` block of `buyItem`.
    unfoldable pub buy_item_body : ℕ → ℕ → ℕ → M Bool
    unfolding update_room_time
    buy_item_body item_id count_bought req_time = do
      update_room_time req_time
      count_buying ← query server (λ db. count_buyings room item_id db.buying)
      throw_if (not (count_buying == count_bought)) already_bought
      addings ← query server (λ db. select_addings_until room req_time db.adding)
      buyings ← query server (λ db. select_buyings room db.buying)
      total ← sum_buyings req_time buyings (sum_addings addings zero_isu)
      row ← query server (λ db. select_item item_id db.m_item)
      m_item ← first_row row
      let need = mul (get_price (new_item m_item) (count_bought + 1)) thousand
      throw_if (ltb_ℤ (cmp total need) (pos 0)) not_enough
      insert_buying item_id (count_bought + 1) req_time
      commit server
      release
      pure true

    -- `buyItem`
    unfoldable pub buy_item : ℕ → ℕ → ℕ → M Bool
    unfolding buy_item_body transaction
    buy_item item_id count_bought req_time =
        handle (transaction (buy_item_body item_id count_bought req_time)) (λ e. pure false)

    -- The `try` block of `getStatus`. The connection is given back before `calcStatus` runs.
    unfoldable pub get_status_body : M GameStatus
    unfolding update_room_time get_current_time build_items
    get_status_body = do
      current_time ← update_room_time 0
      rows ← query server (λ db. db.m_item)
      let m_items = build_items rows []
      addings ← query server (λ db. select_addings room db.adding)
      buyings ← query server (λ db. select_buyings room db.buying)
      commit server
      release
      status ← or_throw (calc_status current_time m_items addings buyings) type_error
      latest_time ← get_current_time
      pure (record status { time = latest_time })

    -- `getStatus`
    unfoldable pub get_status : M GameStatus
    unfolding get_status_body transaction
    get_status = transaction get_status_body
