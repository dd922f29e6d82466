-- ===== src/Gui/Main/Messages.antt =====
-- What the area for messages says of the connection.
use isucon7_final.Prelude.{Bool, true, false, List, [], ◌∷◌, ◌++◌, if◌then◌else◌, ◌&&◌, not}
use isucon7_final.Js.Digits.{Text, codes}
use isucon7_final.Gui.Main.{Main, new_main, first_message, update_message}

-- The connection is looked at in several frames.
unfoldable pub update_messages : List Bool → Main → Main
unfolding update_message
update_messages [] m = m
update_messages (connected ∷ more) m = update_messages more (update_message connected m)

-- The connection in the last frame, false if there was none.
abbrev pub last_seen : Bool → List Bool → Bool
last_seen connected [] = connected
last_seen connected (c ∷ more) = last_seen c more

-- The text for a page that is connected or not.
pub data Says : Bool → Text → Type 0 where
  waits : Says false first_message
  is_on : Says true (first_message ++ codes "OK")
  is_off : Says false (codes "ERROR: disconnected\n")
  is_on_again : Says true (codes "ERROR: disconnected\n" ++ codes "OK")

Says-step :
    (old connected : Bool) (s : Text)
    → Says old s
    → Says connected (
        if old && not connected
        then codes "ERROR: disconnected\n"
        else if not old && connected
        then s ++ codes "OK"
        else s)
Says-step old true s waits = is_on
Says-step old false s waits = waits
Says-step old true s is_on = is_on
Says-step old false s is_on = is_off
Says-step old true s is_off = is_on_again
Says-step old false s is_off = is_off
Says-step old true s is_on_again = is_on_again
Says-step old false s is_on_again = is_off

update_messages-Says :
    (seen : List Bool) (m : Main)
    → Says m.already_connected m.message
    → Says (last_seen m.already_connected seen) (update_messages seen m).message
unfolding update_messages update_message
update_messages-Says [] m h = h
update_messages-Says (c ∷ more) m h =
    update_messages-Says more (update_message c m) (Says-step m.already_connected c m.message h)

-- After any frames the area says `OK` exactly when the page was connected in the last of them; else
-- it says that it connects, or, once it was connected, that it is disconnected.
pub new_main-Says :
    (seen : List Bool) → Says (last_seen false seen) (update_messages seen new_main).message
unfolding new_main
new_main-Says seen = update_messages-Says seen new_main waits
