-- ===== src/Service/Locks/Examples.antt =====
-- The theorems on waits applied to concrete runs.
use Prim.Native.Nat.{◌*◌, ◌^◌}
use pgcqrs.Base.{◌≡◌, refl, false, none, [], ◌∷◌, arith}
use pgcqrs.Base.Map
use pgcqrs.Wire.{LockReleasedEvent}
use pgcqrs.Memory.Fixture.{runtime, differ}
use pgcqrs.Storage.Fixture.{at_time, tables, row_a, tables-stream, tables-row}
use pgcqrs.Storage.Locks.{lock_result}
use pgcqrs.Storage.Locks.Acquire.{try_acquire_keeps_row}
use pgcqrs.Storage.Steps.{free}
use pgcqrs.Service.Locks.{
  LockWorld, WaitState, starting, unsubscribed, waiting, attempt, subscribe, retry, beside,
  bus_event, wait_step, wait_run, try_lock, acquire_lock,
}
use pgcqrs.Service.Locks.Grants.{wait_for_lock_misses}

abbrev world : LockWorld
world = record { db = tables; dispatched = [] }

abbrev start : WaitState
start = record { world = world; stage = starting; signal = false }

abbrev waits : WaitState
waits = record { world = world; stage = waiting; signal = false }

abbrev released : LockReleasedEvent
released = record { domain = "d"; stream = "s"; consumer = "c"; holder = "a" }

-- "b" is refused while "a" holds the lock.
refused :
    (wait_step runtime "d" "s" "c" "b" (7 * 10 ^ 9) (attempt (at_time 5) none) start).stage
    ≡ unsubscribed
unfolding wait_step try_lock acquire_lock lock_result
refused =
    rw
      (try_acquire_keeps_row runtime (at_time 5) (λ op. refl) "d" "s" "c" "b" (7 * 10 ^ 9) 1 tables
        (omega arith) tables-stream row_a tables-row (omega arith) (differ "a" "b" refl)).0
      refl

wait_for_lock_misses_example :
    (wait_run runtime "d" "s" "c" "b"
      (7 * 10 ^ 9)
      (attempt (at_time 5) none
        ∷ beside (at_time 5) (free "d" "s" "c" "a")
        ∷ bus_event released
        ∷ subscribe
        ∷ retry (at_time 6) none
        ∷ [])
      start).stage
    ≡ waiting
wait_for_lock_misses_example =
    wait_for_lock_misses runtime "d" "s" "c" "b" (7 * 10 ^ 9) start (at_time 5) (at_time 5) none
      (free "d" "s" "c" "a") released (retry (at_time 6) none ∷ []) refused (tt, tt)
