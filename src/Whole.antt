-- ===== src/Whole.antt =====
-- The server and the browser together: what a room is shown is its account.
use isucon7_final.Prelude.{ℕ, ◌+◌, ◌≤◌, ◌≡◌, ◌∙◌, none, List, []}
use isucon7_final.Js.Digits.{Text}
use isucon7_final.Bigint.{Bigint}
use isucon7_final.MItem.{ItemRow}
use isucon7_final.Status.Types.{GameStatus, ScheduleEntry}
use isucon7_final.Store.Tables.{Db, select_addings, select_buyings}
use isucon7_final.Store.Session.{Error, ok, err}
use isucon7_final.Game.{build_items}
use isucon7_final.Game.Statuses.{IsExpected}
use isucon7_final.Game.Reachable.{Call, run_calls, fresh_db, reachable-IsSound}
use isucon7_final.Prelude.{◌++◌, ◌∷◌}
use isucon7_final.Web.Handler.{Reply, status_reply, Socket, Handled}
use isucon7_final.Client.View.{entry_by}
use isucon7_final.Client.View.Account.{ShowsAccount}
mod Tests

module _ ⦃B : Bigint⦄ where
  -- A status that carries a time, and from which the browser picks, at each time of a second from a
  -- certain time on, an entry that gives the account that a database holds of a room.
  pub record ShownFor (room : Text) (d : Db) (from latest : ℕ) (gs : GameStatus) : Type 0 where
    pub stamped : gs.time ≡ latest
    pub shown :
        (t : ℕ)
        → from ≤ t
        → t ≤ from + 1000
        → ShowsAccount
            (build_items d.m_item [])
            (select_addings room d.adding)
            (select_buyings room d.buying)
            t
            (entry_by t gs.schedule none)

  -- What a socket is sent: one status that shows its room from a certain time on, or nothing, for a
  -- cause that is not the program's.
  pub data Told (room : Text) (d : Db) (from latest : ℕ) (before : List Reply) (h : Handled)
      : Type 0 where
    shown_status :
        (gs : GameStatus)
        → ShownFor room d from latest gs
        → h.outcome ≡ ok tt
        → h.socket.sent ≡ before ++ status_reply gs ∷ []
        → Told room d from latest before h
    not_shown :
        (e : Error)
        → IsExpected e
        → h.outcome ≡ err e
        → h.socket.sent ≡ before
        → Told room d from latest before h
