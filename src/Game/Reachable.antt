-- ===== src/Game/Reachable.antt =====
-- The databases that can come about: any calls of the methods, for any rooms, in any order, whichever
-- calls of the server fail.
use isucon7_final.Prelude.{ℕ, ◌≡◌, sym, subst, Bool, true, List, [], ◌∷◌, inl, inr}
use isucon7_final.Js.Digits.{Text}
use isucon7_final.Bigint.{Bigint}
use isucon7_final.MItem.{ItemRow}
use isucon7_final.Store.Tables.{Db}
use isucon7_final.Store.Session.{Server, World, Result, ok, err}
use isucon7_final.Game.{add_isu, buy_item, get_status}
use isucon7_final.Game.Items.{IsKeyed}
use isucon7_final.Game.Atomic.{DoneOrUnchanged, add_isu-DoneOrUnchanged, buy_item-DoneOrUnchanged}
use isucon7_final.Game.Purchases.{buy_item-IsBought, buy_item-IsPaid}
use isucon7_final.Game.Addings.{add_isu-IsAdded}
use isucon7_final.Store.Total.{Outcomes}
use isucon7_final.Store.Tables.{select_buyings, select_addings}
use isucon7_final.Status.Types.{GameStatus}
use isucon7_final.Game.Transactions.{HasSameRows}
use isucon7_final.Game.Statuses.{Shows, Failed, get_status-Shows}
use isucon7_final.Game.Sound.{IsSound, IsAdded-IsSound, IsBought-IsSound}

HasSameRows-IsSound : (d d' : Db) → HasSameRows d d' → IsSound d → IsSound d'
HasSameRows-IsSound d d' (items, addings, buyings) sound = record {
  keyed = rw items sound.keyed;
  known = rw (items, buyings) sound.known;
  numbered = λ room. rw buyings (sound.numbered room);
  distinct = λ room. rw addings (sound.distinct room);
}

-- What `/initialize` leaves of a master table.
abbrev pub fresh_db : List ItemRow → Db
fresh_db rows = record { m_item = rows; room_time = []; adding = []; buying = [] }

pub fresh_db-IsSound : (rows : List ItemRow) → IsKeyed rows → IsSound (fresh_db rows)
unfolding select_buyings select_addings
fresh_db-IsSound rows keyed = record {
  keyed = keyed;
  known = tt;
  numbered = λ room. tt;
  distinct = λ room. tt;
}

module _ ⦃B : Bigint⦄ where
  open B use {Big}

  -- A call of a method for a room.
  pub data Call : Type 0 where
    adding_call : (room : Text) (req_isu : Big) (req_time : ℕ) → Call
    buying_call : (room : Text) (item_id count_bought req_time : ℕ) → Call
    status_call : (room : Text) → Call

  unfoldable pub run_call : Server → Call → World → World
  run_call server (adding_call room req_isu req_time) w = (add_isu server room req_isu req_time w).1
  run_call server (buying_call room item_id count_bought req_time) w =
      (buy_item server room item_id count_bought req_time w).1
  run_call server (status_call room) w = (get_status server room w).1

  unfoldable pub run_calls : Server → List Call → World → World
  unfolding run_call
  run_calls server [] w = w
  run_calls server (c ∷ calls) w = run_calls server calls (run_call server c w)

  after_answer :
      (w : World) (r : Result Bool × World)
      → DoneOrUnchanged w r
      → (r.0 ≡ ok true → IsSound r.1.committed)
      → IsSound w.committed
      → IsSound r.1.committed
  after_answer w r (inl done) made sound = made done
  after_answer w r (inr (refused, same)) made sound = rw same sound

  rows_after :
      (server : Server) (room : Text) (d : Db) (n : ℕ) (r : Result GameStatus × World)
      → Outcomes
          (λ gs w'. Shows server room d n gs × HasSameRows d w'.committed)
          (Failed server room d)
          r
      → HasSameRows d r.1.committed
  rows_after server room d n (ok gs, w') h = h.1
  rows_after server room d n (err e, w') h = h.1

  pub run_call-IsSound :
      (server : Server) (c : Call) (w : World)
      → IsSound w.committed
      → IsSound (run_call server c w).committed
  unfolding run_call
  run_call-IsSound server (adding_call room req_isu req_time) w sound =
      after_answer w (add_isu server room req_isu req_time w)
        (add_isu-DoneOrUnchanged server room req_isu req_time w)
        (λ done.
          IsAdded-IsSound server room req_isu req_time w.committed _
            (add_isu-IsAdded server room req_isu req_time w done) sound)
        sound
  run_call-IsSound server (buying_call room item_id count_bought req_time) w sound =
      after_answer w (buy_item server room item_id count_bought req_time w)
        (buy_item-DoneOrUnchanged server room item_id count_bought req_time w)
        (λ done.
          IsBought-IsSound server room item_id count_bought req_time w.committed _
            (buy_item-IsBought server room item_id count_bought req_time w done)
            (buy_item-IsPaid server room item_id count_bought req_time w done) sound)
        sound
  run_call-IsSound server (status_call room) w sound =
      HasSameRows-IsSound w.committed _
        (rows_after server room w.committed w.calls (get_status server room w)
          (get_status-Shows server room w sound))
        sound

  run_calls-IsSound :
      (server : Server) (calls : List Call) (w : World)
      → IsSound w.committed
      → IsSound (run_calls server calls w).committed
  unfolding run_calls
  run_calls-IsSound server [] w sound = sound
  run_calls-IsSound server (c ∷ calls) w sound =
      run_calls-IsSound server calls (run_call server c w) (run_call-IsSound server c w sound)

  -- From a database with no addings and buyings, in which the items have numbers of their own, any
  -- calls of the methods, for any rooms, whichever calls of the server fail, commit a database in
  -- which each buying is of an item that there is, the ordinals of an item of a room count from one
  -- without gaps, and the addings of a room have times of their own.
  pub reachable-IsSound :
      (server : Server) (calls : List Call) (rows : List ItemRow) (w : World)
      → IsKeyed rows
      → w.committed ≡ fresh_db rows
      → IsSound (run_calls server calls w).committed
  reachable-IsSound server calls rows w keyed e =
      run_calls-IsSound server calls w (subst IsSound (sym e) (fresh_db-IsSound rows keyed))
