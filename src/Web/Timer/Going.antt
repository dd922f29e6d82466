-- ===== src/Web/Timer/Going.antt =====
-- That the loop of `wsGameHandler` keeps sending statuses.
use isucon7_final.Prelude.{
  ℕ, ◌+◌, ◌≤◌, ◌≡◌, refl, Bool, true, false, List, [], ◌∷◌, ◌++◌, ◌⊎◌, inl, inr, arith, All,
  if◌then◌else◌,
}
use isucon7_final.Web.Handler.{open_state}
use isucon7_final.Web.Timer.{
  Loop, LoopEvent, fired, status_sent, status_failed, close_begins, closes, new_loop, set_again,
  loop_step, loop_steps,
}

-- Nothing fails, and the socket is not closed.
abbrev pub IsCalm : LoopEvent → Type 0
IsCalm fired = Unit
IsCalm status_sent = Unit
IsCalm e = ⊥

abbrev pub has_reply : List LoopEvent → Bool
has_reply [] = false
has_reply (status_sent ∷ events) = true
has_reply (e ∷ events) = has_reply events

-- The timer goes off, and after it a status is sent.
abbrev pub has_round : List LoopEvent → Bool
has_round [] = false
has_round (fired ∷ events) = has_reply events
has_round (e ∷ events) = has_round events

-- The number of statuses that `loop` sends.
unfoldable pub count_sent : List LoopEvent → Loop → ℕ
unfolding loop_step
count_sent [] l = 0
count_sent (status_sent ∷ events) l =
    let rest = count_sent events (loop_step status_sent l) in if l.waiting then 1 + rest else rest
count_sent (e ∷ events) l = count_sent events (loop_step e l)

abbrev pub concat : List (List LoopEvent) → List LoopEvent
concat [] = []
concat (events ∷ rounds) = events ++ concat rounds

abbrev pub number : List (List LoopEvent) → ℕ
number [] = 0
number (events ∷ rounds) = 1 + number rounds

-- The socket is open, and either a timer is set or a status is awaited.
record IsGoing (l : Loop) : Type 0 where
  opened : l.ready ≡ open_state
  either : ((l.timer ≡ true) × (l.waiting ≡ false)) ⊎ ((l.timer ≡ false) × (l.waiting ≡ true))

loop_step-IsGoing : (e : LoopEvent) (l : Loop) → IsCalm e → IsGoing l → IsGoing (loop_step e l)
unfolding loop_step set_again
loop_step-IsGoing fired l calm h = ground (arith, h.opened, h.either)
loop_step-IsGoing status_sent l calm h = ground (arith, h.opened, h.either)
loop_step-IsGoing status_failed l calm h = elim calm [ ]
loop_step-IsGoing close_begins l calm h = elim calm [ ]
loop_step-IsGoing closes l calm h = elim calm [ ]

loop_steps-IsGoing :
    (events : List LoopEvent) (l : Loop)
    → All IsCalm events
    → IsGoing l
    → IsGoing (loop_steps events l)
unfolding loop_steps
loop_steps-IsGoing [] l calm h = h
loop_steps-IsGoing (e ∷ events) l calm h =
    loop_steps-IsGoing events (loop_step e l) calm.1 (loop_step-IsGoing e l calm.0 h)

awaited_sent :
    (events : List LoopEvent) (l : Loop)
    → All IsCalm events
    → has_reply events ≡ true
    → l.ready ≡ open_state
    → l.timer ≡ false
    → l.waiting ≡ true
    → 1 ≤ count_sent events l
unfolding count_sent loop_step
awaited_sent [] l calm reply opened unset waits = absurd (ground arith)
awaited_sent (fired ∷ events) l calm reply opened unset waits =
    let rest = awaited_sent events l calm.1 reply opened unset waits in simp unset rest
awaited_sent (status_sent ∷ events) l calm reply opened unset waits = rw waits (omega arith)
awaited_sent (status_failed ∷ events) l calm reply opened unset waits = elim calm.0 [ ]
awaited_sent (close_begins ∷ events) l calm reply opened unset waits = elim calm.0 [ ]
awaited_sent (closes ∷ events) l calm reply opened unset waits = elim calm.0 [ ]

round_sent :
    (events : List LoopEvent) (l : Loop)
    → All IsCalm events
    → has_round events ≡ true
    → IsGoing l
    → 1 ≤ count_sent events l
unfolding count_sent loop_step
round_sent [] l calm round h = absurd (ground arith)
round_sent (fired ∷ events) l calm round h = elim h.either [
  | inl (set, idle) ↦
      rw (set, h.opened)
        (awaited_sent events (record { ready = open_state; timer = false; waiting = true }) calm.1
          round refl refl refl)
  | inr (unset, waits) ↦ simp unset (awaited_sent events l calm.1 round h.opened unset waits)
]
round_sent (status_sent ∷ events) l calm round h = elim h.either [
  | inl (set, idle) ↦ simp idle (round_sent events l calm.1 round h)
  | inr (unset, waits) ↦ rw waits (omega arith)
]
round_sent (status_failed ∷ events) l calm round h = elim calm.0 [ ]
round_sent (close_begins ∷ events) l calm round h = elim calm.0 [ ]
round_sent (closes ∷ events) l calm round h = elim calm.0 [ ]

count_sent-++ :
    (events later : List LoopEvent) (l : Loop)
    → count_sent (events ++ later) l ≡ count_sent events l + count_sent later (loop_steps events l)
unfolding count_sent loop_steps
count_sent-++ [] later l = omega arith
count_sent-++ (status_sent ∷ events) later l =
    ground (arith, count_sent-++ events later (loop_step status_sent l))
count_sent-++ (fired ∷ events) later l = count_sent-++ events later (loop_step fired l)
count_sent-++ (status_failed ∷ events) later l =
    count_sent-++ events later (loop_step status_failed l)
count_sent-++ (close_begins ∷ events) later l =
    count_sent-++ events later (loop_step close_begins l)
count_sent-++ (closes ∷ events) later l = count_sent-++ events later (loop_step closes l)

rounds_sent :
    (rounds : List (List LoopEvent)) (l : Loop)
    → All (λ events. All IsCalm events × (has_round events ≡ true)) rounds
    → IsGoing l
    → number rounds ≤ count_sent (concat rounds) l
rounds_sent [] l h going = omega arith
rounds_sent (events ∷ rounds) l h going =
    let first = round_sent events l h.0.0 h.0.1 going in
    let rest =
      rounds_sent rounds (loop_steps events l) h.1 (loop_steps-IsGoing events l h.0.0 going) in
    rw (count_sent-++ events (concat rounds) l) (omega (arith, first, rest))

-- In any sequence of rounds in which nothing fails and the socket is not closed, and in each of which
-- the timer goes off and later a status can be sent, a new loop sends at least one status a round.
pub statuses_keep_coming :
    (rounds : List (List LoopEvent))
    → All (λ events. All IsCalm events × (has_round events ≡ true)) rounds
    → number rounds ≤ count_sent (concat rounds) new_loop
unfolding new_loop
statuses_keep_coming rounds h =
    rounds_sent rounds new_loop h (record { opened = refl; either = inl (refl, refl) })
