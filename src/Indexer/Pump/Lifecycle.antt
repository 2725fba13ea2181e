-- ===== src/Indexer/Pump/Lifecycle.antt =====
-- The states that the pump goes through, and how its loop ends.
use pgcqrs.Base.{
  ℤ, leb_ℤ, ◌≡◌, refl, true, false, Bool, Option, none, some, List, [], ◌∷◌, ◌++◌, All, arith,
  Bool-cases, inl, inr,
}
use pgcqrs.Indexer.Pump.{
  PumpState, waiting_for_lock, acquiring, watching, lock_lost, failed, closed, Failure,
  report_closed, Moment, on_check, on_acquiring, on_watching, on_second_check, on_end, has_ended,
  conclude, handler_answer, is_recoverable, PumpStateEvent, Pump, set_state, Beat, beat_ok,
  beat_conflict, beat_failed, Tick, event, deadline_exceeded, tick_failed, Watched, apply_heartbeat,
  run_watch_loop, Waited, wait_failed, wait_granted, WatchStart, watch_failed, watch_ticks, Cycle,
  query_after, Outcome, still_watching, ended, watch_outcome, watch_with_lock, with_lock,
  run_pump_tick, Finish, running, settle, run_cycles, run_with_domain_stream,
}

-- The transitions of the pump's states. The end of the context is reported from any state, and the pump
-- may still take the step that it was about to take.
pub data Allowed : PumpState → PumpState → Type 0 where
  starts : Allowed waiting_for_lock waiting_for_lock
  takes : Allowed waiting_for_lock acquiring
  takes_again : Allowed lock_lost acquiring
  takes_late : Allowed closed acquiring
  watches : Allowed acquiring watching
  watches_late : Allowed closed watching
  not_taken : Allowed acquiring lock_lost
  loses : Allowed watching lock_lost
  loses_late : Allowed closed lock_lost
  gives_up : Allowed watching failed
  gives_up_late : Allowed closed failed
  closes : (s : PumpState) → Allowed s closed

-- The events of a pump that has gone from one state to another by transitions.
pub data Chain (first : PumpState) : List PumpStateEvent → PumpState → Type 0 where
  at_first : Chain first [] first
  then_to :
      (events : List PumpStateEvent) (state next : PumpState) (error : Option Failure)
      → Chain first events state
      → Allowed state next
      → Chain first (events ++ record { state = next; previous = state; error = error } ∷ []) next

abbrev pub Told : Pump → Type 0
Told p = Chain waiting_for_lock p.events p.state

set_state-Told :
    (next : PumpState) (error : Option Failure) (p : Pump)
    → Told p
    → Allowed p.state next
    → Told (set_state next error p)
unfolding set_state
set_state-Told next error p h a = then_to p.events p.state next error h a

-- A pump that has told its states, and is in one of some states, among them `closed`.
abbrev ToldIn : (PumpState → Type 0) → Pump → Type 0
ToldIn P p = Told p × P p.state

-- A pump that may take the lock, one that takes it, and one whose cycle has ended.
data Ready : PumpState → Type 0 where
  first_time : Ready waiting_for_lock
  once_more : Ready lock_lost
  ready_late : Ready closed

data Taking : PumpState → Type 0 where
  in_time : Taking acquiring
  taking_late : Taking closed

data Busy : Outcome → PumpState → Type 0 where
  on : (s : PumpState) → Busy still_watching s
  no_lock : (f : Failure) → Busy (ended true f) acquiring
  over : (retry : Bool) (f : Failure) → Busy (ended retry f) watching
  busy_late : (o : Outcome) → Busy o closed

-- A pump that has told its states, and has reached the end of a cycle.
abbrev Ended : Outcome × Pump → Type 0
Ended r = ToldIn (Busy r.0) r.1

-- A tick that fails by an error that the pump recovers from, if it fails.
abbrev pub RecoverableTick : Tick → Type 0
RecoverableTick (tick_failed failure) = is_recoverable failure ≡ true
RecoverableTick (event id heartbeat) = Unit
RecoverableTick (deadline_exceeded heartbeat) = Unit

abbrev NotLost : Option Failure → Type 0
NotLost none = Unit
NotLost (some failure) = is_recoverable failure ≡ true

beat-NotLost :
    (b : Beat) (position : ℤ) (rest : ℤ → Watched)
    → ((q : ℤ) → NotLost (rest q).failure)
    → NotLost (apply_heartbeat b position rest).failure
unfolding apply_heartbeat is_recoverable handler_answer
beat-NotLost beat_ok position rest h = h position
beat-NotLost (beat_conflict v) position rest h = h v
beat-NotLost (beat_failed f) position rest h = refl

loop-NotLost :
    (ticks : List Tick) (position : ℤ)
    → All RecoverableTick ticks
    → NotLost (run_watch_loop ticks position).failure
unfolding run_watch_loop
loop-NotLost [] position h = tt
loop-NotLost (deadline_exceeded heartbeat ∷ ticks) position h =
    beat-NotLost (heartbeat position) position (run_watch_loop ticks)
      (λ q. loop-NotLost ticks q h.1)
loop-NotLost (tick_failed f ∷ ticks) position h = h.0
loop-NotLost (event id heartbeat ∷ ticks) position h = elim (Bool-cases (leb_ℤ id position)) [
  | inl e ↦ rw (run_watch_loop, e) (loop-NotLost ticks position h.1)
  | inr e ↦
      rw (run_watch_loop, e)
        (beat-NotLost (heartbeat id) id (run_watch_loop ticks) (λ q. loop-NotLost ticks q h.1))
]

-- A cycle in which the context has not ended, and no tick fails by an error that is not recoverable.
abbrev pub RecoverableStart : WatchStart → Type 0
RecoverableStart (watch_failed failure) = Unit
RecoverableStart (watch_ticks ticks) = All RecoverableTick ticks

abbrev pub RecoverableCycle : Cycle → Type 0
RecoverableCycle cycle =
    (cycle.ended_before ≡ false)
    × (cycle.ended_behind ≡ false)
    × ((moment : Moment) → cycle.closes moment ≡ false)
    × ((after : Option ℤ) → RecoverableStart (cycle.watch after))

abbrev Retries : Outcome → Type 0
Retries still_watching = Unit
Retries (ended retry failure) = retry ≡ true

-- A cycle that the pump retries, at the end of which the end of the context has not been reported.
abbrev Unreported : Outcome × Pump → Type 0
Unreported r = Retries r.0 × (r.1.reported ≡ false)

outcome-Retries : (o r : Option Failure) → NotLost o → Retries (watch_outcome o r)
outcome-Retries none r h = tt
outcome-Retries (some f) r h = h

watch-Retries :
    (cycle : Cycle) (position : ℤ) (w : WatchStart) (p : Pump)
    → RecoverableCycle cycle
    → RecoverableStart w
    → p.reported ≡ false
    → Unreported (watch_with_lock cycle position w p)
unfolding watch_with_lock set_state report_closed
watch-Retries cycle position (watch_failed f) p c h u = (refl, u)
watch-Retries cycle position (watch_ticks ticks) p c h u =
    (outcome-Retries _ cycle.release (loop-NotLost ticks position h), rw (c.2 on_watching) u)

lock-Retries :
    (cycle : Cycle) (w : Waited) (p : Pump)
    → RecoverableCycle cycle
    → p.reported ≡ false
    → Unreported (with_lock cycle w p)
unfolding with_lock
lock-Retries cycle (wait_failed f) p c u = (refl, u)
lock-Retries cycle (wait_granted position) p c u =
    watch-Retries cycle position _ p c (c.3 (query_after position)) u

tick-Retries :
    (cycle : Cycle) (p : Pump)
    → RecoverableCycle cycle
    → p.reported ≡ false
    → Unreported (run_pump_tick cycle p)
unfolding run_pump_tick set_state report_closed
tick-Retries cycle p c u = lock-Retries cycle cycle.wait _ c (rw (c.2 on_acquiring) u)

conclude-running :
    (cycle : Cycle) (o : Outcome) (p : Pump) (continue : Pump → Finish × Pump)
    → RecoverableCycle cycle
    → Retries o
    → p.reported ≡ false
    → ((q : Pump) → q.reported ≡ false → (continue q).0 ≡ running)
    → (conclude cycle o p continue).0 ≡ running
unfolding conclude settle has_ended set_state report_closed
conclude-running cycle still_watching p continue c h u rest = refl
conclude-running cycle (ended true f) p continue c h u rest =
    rw (conclude, c.1, has_ended, u, settle) (rest _ (rw (c.2 on_second_check, c.2 on_end) u))
conclude-running cycle (ended false f) p continue c h u rest = absurd (ground (arith, h))

cycles-running :
    (cs : List Cycle) (q : Pump)
    → All RecoverableCycle cs
    → q.reported ≡ false
    → (run_cycles cs q).0 ≡ running
unfolding run_cycles has_ended report_closed
cycles-running [] q k u = refl
cycles-running (cycle ∷ cs) q k u =
    rw (run_cycles, k.0.0, has_ended, u, k.0.2 on_check)
      (let (h, v) = tick-Retries cycle q k.0 u in
        conclude-running cycle (run_pump_tick cycle q).0 (run_pump_tick cycle q).1 (run_cycles cs)
          k.0 h v (λ r w. cycles-running cs r k.1 w))

-- However often the pump cannot take the lock, loses it, or meets an error that it recovers from, it does not
-- return while its context lasts and no tick of its watch fails by another error. So a lost
-- lock does not make it return an error, although the specification of the framework says that it does.
pub run_retries :
    (cycles : List Cycle) (p : Pump)
    → All RecoverableCycle cycles
    → (run_with_domain_stream cycles p).0 ≡ running
unfolding run_with_domain_stream
run_retries cycles p h = cycles-running cycles _ h refl
