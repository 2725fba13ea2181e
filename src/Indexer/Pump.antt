-- ===== src/Indexer/Pump.antt =====
-- The pump of the indexer (pkg/indexer/pump.go, state.go, handler_error.go): the loop that takes a
-- consumer's lock, watches the stream from the consumer's position, and heartbeats the position. What
-- its environment answers, the wire, the watch with its handlers, and the lock, is a script: a list of
-- cycles, in each of which the watch has a list of ticks. A script that has come to its end is a pump
-- that is still running. The goroutine that reports the end of the context does so at a moment of a cycle
-- that the script names. That a swap of the state and its emit are two steps is left out.
pub mod Beats
pub mod Lifecycle
mod Examples
use pgcqrs.Base.{
  ℤ, pos, ltb_ℤ, leb_ℤ, String, Bool, true, false, Option, none, some, List, [], ◌∷◌, ◌++◌,
  if◌then◌else◌,
}

pub data PumpState : Type 0 where
  waiting_for_lock acquiring watching lock_lost failed closed : PumpState

-- Go's errors by what IsRecoverable sees of them: `handler_error` is an error that implements
-- HandlerError, `recoverable_error` is RecoverableError, and `joined` is errors.Join.
pub data Failure : Type 0 where
  plain : String → Failure
  handler_error : (recoverable : Bool) → Failure
  recoverable_error : Failure → Failure
  context_error : Failure
  joined : (first second : Failure) → Failure

abbrev first_of : Option Bool → Option Bool → Option Bool
first_of none other = other
first_of (some answer) other = some answer

-- errors.As to a HandlerError, and what that answers
pub handler_answer : Failure → Option Bool
handler_answer (plain message) = none
handler_answer (handler_error recoverable) = some recoverable
handler_answer (recoverable_error inner) = some true
handler_answer context_error = none
handler_answer (joined first second) = first_of (handler_answer first) (handler_answer second)

pub is_recoverable : Failure → Bool
unfolding handler_answer
is_recoverable failure = elim (handler_answer failure) [ none ↦ false | some answer ↦ answer ]

pub record PumpStateEvent : Type 0 where
  pub state : PumpState
  pub previous : PumpState
  pub error : Option Failure

-- The pump's state, the events that `onState` has been given to emit, in order, and whether the goroutine
-- that waits for the end of the context has reported it.
pub record Pump : Type 0 where
  pub state : PumpState
  pub events : List PumpStateEvent
  pub reported : Bool

pub set_state : PumpState → Option Failure → Pump → Pump
set_state new_state error p = record p {
  state = new_state;
  events = p.events ++ record { state = new_state; previous = p.state; error = error } ∷ [];
}

abbrev pub report_if : (now already : Bool) → Pump → Pump
unfolding set_state
report_if true false p = record (set_state closed (some context_error) p) { reported = true }
report_if true true p = p
report_if false already p = p

-- What the goroutine that waits for the end of the context does by now: it reports the end once.
pub report_closed : Bool → Pump → Pump
unfolding set_state
report_closed now p = report_if now p.reported p

-- What Heartbeat of the lock returns; a conflict has the CurrentVersion of HeartbeatConflictError.
pub data Beat : Type 0 where
  beat_ok : Beat
  beat_conflict : (current_version : ℤ) → Beat
  beat_failed : Failure → Beat

-- What TickWithID of the watch returns, and what a heartbeat behind it would return for a position.
pub data Tick : Type 0 where
  event : (id : ℤ) (heartbeat : ℤ → Beat) → Tick
  deadline_exceeded : (heartbeat : ℤ → Beat) → Tick
  tick_failed : Failure → Tick

-- How far a watch loop has come: its error, its position, and the positions that it sent.
pub record Watched : Type 0 where
  pub failure : Option Failure
  pub position : ℤ
  pub beats : List ℤ

-- applyHeartbeat, and the rest of the loop behind it.
pub apply_heartbeat : Beat → ℤ → (ℤ → Watched) → Watched
apply_heartbeat beat_ok position rest =
    let later = rest position in record later { beats = position ∷ later.beats }
apply_heartbeat (beat_conflict current_version) position rest =
    let later = rest current_version in record later { beats = position ∷ later.beats }
apply_heartbeat (beat_failed failure) position rest = record {
  failure = some (recoverable_error failure);
  position = position;
  beats = position ∷ [];
}

pub run_watch_loop : List Tick → ℤ → Watched
unfolding apply_heartbeat
run_watch_loop [] position = record { failure = none; position = position; beats = [] }
run_watch_loop (deadline_exceeded heartbeat ∷ ticks) position =
    apply_heartbeat (heartbeat position) position (run_watch_loop ticks)
run_watch_loop (tick_failed failure ∷ ticks) position = record {
  failure = some failure;
  position = position;
  beats = [];
}
run_watch_loop (event id heartbeat ∷ ticks) position = elim (leb_ℤ id position) [
  | true ↦ run_watch_loop ticks position
  | false ↦ apply_heartbeat (heartbeat id) id (run_watch_loop ticks)
]

pub data Waited : Type 0 where
  wait_failed : Failure → Waited
  wait_granted : (position : ℤ) → Waited

pub data WatchStart : Type 0 where
  watch_failed : Failure → WatchStart
  watch_ticks : List Tick → WatchStart

-- The moments of a cycle at which the goroutine may report the end of the context: behind the check of
-- the context and before Acquiring, behind Acquiring, behind Watching, behind the second check of the
-- context, and behind LockLost or Failed.
pub data Moment : Type 0 where
  on_check on_acquiring on_watching on_second_check on_end : Moment

-- What the environment does in one cycle of acquire, watch and release: whether the context has ended
-- before and behind it, what WaitForLock returns, what Watch of the query returns for its After, the
-- error of Release, and the moments by which the goroutine has run since the context ended.
pub record Cycle : Type 0 where
  pub ended_before : Bool
  pub wait : Waited
  pub watch : Option ℤ → WatchStart
  pub release : Option Failure
  pub ended_behind : Bool
  pub closes : Moment → Bool

-- `if lockPosition > 0 { query.After(lockPosition) }`
abbrev pub query_after : ℤ → Option ℤ
query_after lock_position = if ltb_ℤ (pos 0) lock_position then some lock_position else none

-- errors.Join(retErr, lock.Release(ctx))
abbrev pub join_release : Failure → Option Failure → Failure
join_release failure none = failure
join_release failure (some release) = joined failure release

pub data Outcome : Type 0 where
  still_watching : Outcome
  ended : (retry : Bool) → Failure → Outcome

abbrev pub watch_outcome : Option Failure → Option Failure → Outcome
watch_outcome none release = still_watching
watch_outcome (some failure) release = ended (is_recoverable failure) (join_release failure release)

-- The part of runPumpTick from the result of the query's Watch on.
pub watch_with_lock : Cycle → ℤ → WatchStart → Pump → Outcome × Pump
unfolding run_watch_loop set_state report_closed
watch_with_lock cycle lock_position (watch_failed failure) p =
    (ended true (join_release failure cycle.release), p)
watch_with_lock cycle lock_position (watch_ticks ticks) p =
    let watched = run_watch_loop ticks lock_position in
    (
      watch_outcome watched.failure cycle.release,
      report_closed (cycle.closes on_watching) (set_state watching none p),
    )

pub with_lock : Cycle → Waited → Pump → Outcome × Pump
unfolding watch_with_lock
with_lock cycle (wait_failed failure) p = (ended true failure, p)
with_lock cycle (wait_granted position) p =
    watch_with_lock cycle position (cycle.watch (query_after position)) p

pub run_pump_tick : Cycle → Pump → Outcome × Pump
unfolding with_lock set_state report_closed
run_pump_tick cycle p =
    with_lock cycle cycle.wait
      (report_closed (cycle.closes on_acquiring) (set_state acquiring none p))

pub data Finish : Type 0 where
  running : Finish
  returned : Failure → Finish

-- ctx.Err() != nil: a context whose end has been reported has ended.
pub has_ended : Bool → Pump → Bool
has_ended true p = true
has_ended false p = p.reported

-- The return with the error of the context. The goroutine reports the end, if it has not.
pub return_ended : Pump → Finish × Pump
unfolding report_closed
return_ended p = (returned context_error, report_closed true p)

-- What RunWithDomainStream does with a cycle's error behind its check of the context. A cycle ends with
-- an error, so the backoff is never reset, and the time that it waits does not matter here.
pub settle : Cycle → Bool → Failure → Pump → (Pump → Finish × Pump) → Finish × Pump
unfolding set_state report_closed
settle cycle true failure p continue = continue (
    report_closed (cycle.closes on_end)
      (set_state lock_lost (some failure) (report_closed (cycle.closes on_second_check) p)))
settle cycle false failure p continue = (
  returned failure,
  report_closed (cycle.closes on_end)
      (set_state failed (some failure) (report_closed (cycle.closes on_second_check) p)),
)

pub conclude : Cycle → Outcome → Pump → (Pump → Finish × Pump) → Finish × Pump
unfolding has_ended return_ended settle
conclude cycle still_watching p continue = (running, p)
conclude cycle (ended retry failure) p continue = elim (has_ended cycle.ended_behind p) [
  | true ↦ return_ended p
  | false ↦ settle cycle retry failure p continue
]

pub run_cycles : List Cycle → Pump → Finish × Pump
unfolding has_ended return_ended report_closed run_pump_tick conclude
run_cycles [] p = (running, p)
run_cycles (cycle ∷ cycles) p = elim (has_ended cycle.ended_before p) [
  | true ↦ return_ended p
  | false ↦
      let (outcome, p') = run_pump_tick cycle (report_closed (cycle.closes on_check) p) in
      conclude cycle outcome p' (run_cycles cycles)
]

-- The goroutine is started behind the first event.
pub run_with_domain_stream : List Cycle → Pump → Finish × Pump
unfolding set_state run_cycles
run_with_domain_stream cycles p =
    run_cycles cycles (record (set_state waiting_for_lock none p) { reported = false })

-- NewPump
pub new_pump : Pump
new_pump = record { state = waiting_for_lock; events = []; reported = false }
