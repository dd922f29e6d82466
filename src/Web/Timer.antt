-- ===== src/Web/Timer.antt =====
-- The loop of `wsGameHandler` of webapp/nodejs/index.js that sends a status every half second.
use isucon7_final.Prelude.{
  ◌≡◌, refl, Bool, true, false, ◌&&◌, not, List, [], ◌∷◌, arith, if◌then◌else◌,
}
use isucon7_final.Web.Handler.{ReadyState, open_state, closing, closed, is_open}
pub mod Going

-- The state of the socket; whether a timer is set (`tid`), and whether `loop` waits for its status.
pub record Loop : Type 0 where
  pub ready : ReadyState
  pub timer : Bool
  pub waiting : Bool

-- As `wsGameHandler` leaves it: `let tid = setTimeout(loop, 500)`.
unfoldable pub new_loop : Loop
new_loop = record { ready = open_state; timer = true; waiting = false }

abbrev pub is_over : ReadyState → Bool
is_over closing = true
is_over closed = true
is_over _ = false

-- `if (![CLOSING, CLOSED].includes(readyState)) tid = setTimeout(loop, 500)`
unfoldable pub set_again : Loop → Loop
set_again l = record l { timer = not (is_over l.ready) }

pub data LoopEvent : Type 0 where
  -- The timer goes off.
  fired : LoopEvent
  -- The status was sent; or reading or sending it threw, which ends `loop`.
  status_sent status_failed : LoopEvent
  -- The closing handshake begins; the socket is closed.
  close_begins closes : LoopEvent

unfoldable pub loop_step : LoopEvent → Loop → Loop
unfolding set_again
loop_step fired l =
    if l.timer
    then if is_open l.ready
      then record l { timer = false; waiting = true }
      else set_again (record l { timer = false })
    else l
loop_step status_sent l = if l.waiting then set_again (record l { waiting = false }) else l
loop_step status_failed l = record l { waiting = false }
loop_step close_begins l = if is_open l.ready then record l { ready = closing } else l
loop_step closes l = record l { ready = closed; timer = false }

unfoldable pub loop_steps : List LoopEvent → Loop → Loop
unfolding loop_step
loop_steps [] l = l
loop_steps (e ∷ events) l = loop_steps events (loop_step e l)

-- At most one of the two is under way, and a closed socket has no timer.
pub record IsSingle (l : Loop) : Type 0 where
  pub not_both : (l.timer && l.waiting) ≡ false
  pub stopped : l.ready ≡ closed → l.timer ≡ false

loop_step-IsSingle : (e : LoopEvent) (l : Loop) → IsSingle l → IsSingle (loop_step e l)
unfolding loop_step set_again
loop_step-IsSingle fired l h = ground arith
loop_step-IsSingle status_sent l h = ground arith
loop_step-IsSingle status_failed l h = ground arith
loop_step-IsSingle close_begins l h = ground arith
loop_step-IsSingle closes l h = ground arith

loop_steps-IsSingle :
    (events : List LoopEvent) (l : Loop) → IsSingle l → IsSingle (loop_steps events l)
unfolding loop_steps
loop_steps-IsSingle [] l h = h
loop_steps-IsSingle (e ∷ events) l h =
    loop_steps-IsSingle events (loop_step e l) (loop_step-IsSingle e l h)

-- Whatever happens to a new socket, in whatever order, its loop is never run twice at a time, and
-- there is no timer once the socket is closed.
pub new_loop-IsSingle : (events : List LoopEvent) → IsSingle (loop_steps events new_loop)
unfolding new_loop
new_loop-IsSingle events = loop_steps-IsSingle events new_loop (ground arith)
