-- ===== src/Service/Locks.antt =====
-- The unary calls of the ConsumerLock service and its WaitForLock (internal/service/grpcConsumerLocks.go), on
-- the tables of ConsumerStore. A wait and what goes on beside it are a sequence of steps; a release that the
-- bus reports reaches a wait that has subscribed. Times go to the client as they are. The proofs are in the
-- module below.
pub mod Grants
mod Examples
use Prim.Native.Nat.{◌*◌, ◌^◌, ◌/◌}
use pgcqrs.Base.{
  ℕ, String, ◌==◌, ℤ, Bool, true, false, ◌&&◌, Option, none, some, List, [], ◌∷◌, ◌++◌, map,
  if◌then◌else◌,
}
use pgcqrs.Wire.{
  Runtime, Error, Result, ok, err, context_done, LockResult, LockState, LockReleasedEvent,
}
use pgcqrs.Storage.State.{Db, Server, LockReleasedInfo, ◌then_do◌}
use pgcqrs.Storage.Locks.{try_acquire, release, list_locks}
use pgcqrs.Storage.Steps.{Operation, perform}

-- The tables, and the releases that have been given to the bus.
pub record LockWorld : Type 0 where
  pub db : Db
  pub dispatched : List LockReleasedEvent

abbrev pub event_of : LockReleasedInfo → LockReleasedEvent
event_of info = record {
  domain = info.domain;
  stream = info.stream;
  consumer = info.consumer;
  holder = info.holder;
}

abbrev pub dispatch_all : List LockReleasedInfo → LockWorld → LockWorld
dispatch_all infos w = record w { dispatched = w.dispatched ++ map event_of infos }

abbrev pub on_db {ℓ} : {A : Type ℓ} → Result A × Db → LockWorld → Result A × LockWorld
on_db (r, db) w = (r, record w { db = db })

-- `time.Duration(seconds) * time.Second`; a negative number is as 0.
abbrev pub second : ℕ
second = 10 ^ 9

module _ (rt : Runtime) (server : Server) (domain stream : String) where
  -- acquireLock, and the body of the service's TryAcquire: the answer has the fields of the result.
  unfoldable pub acquire_lock :
      (consumer holder : String) (ttl : ℕ) → LockWorld → Result LockResult × LockWorld
  acquire_lock consumer holder ttl w =
      on_db (try_acquire rt server domain stream consumer holder ttl w.db) w then_do λ answer w'.
      (ok answer.0, dispatch_all answer.1 w')

  unfoldable pub try_acquire_handler :
      (consumer holder : String) (ttl_seconds : ℕ) → LockWorld → Result LockResult × LockWorld
  unfolding acquire_lock
  try_acquire_handler consumer holder ttl_seconds w =
      acquire_lock consumer holder (ttl_seconds * second) w

  abbrev released_list : Option LockReleasedInfo → List LockReleasedInfo
  released_list none = []
  released_list (some info) = info ∷ []

  unfoldable pub release_handler :
      (consumer holder : String) → LockWorld → Result (Unit {0}) × LockWorld
  release_handler consumer holder w =
      on_db (release rt server domain stream consumer holder w.db) w then_do λ released w'.
      (ok tt, dispatch_all (released_list released) w')

  -- A lock as it is sent: its TTL in whole seconds.
  unfoldable pub sent_state : LockState → LockState
  sent_state lock = record lock { ttl = lock.ttl / second * second }

  unfoldable pub list_locks_handler : LockWorld → Result (List LockState) × LockWorld
  unfolding sent_state
  list_locks_handler w = on_db (list_locks rt server domain stream w.db) w then_do λ locks w'.
      (ok (map sent_state locks), w')

-- LockGranted
pub record LockGranted : Type 0 where
  pub position : ℤ
  pub heartbeat_interval_ms : ℕ
  pub deadline_ms : ℕ

abbrev millisecond : ℕ
millisecond = 10 ^ 6

unfoldable pub grant_lock : Runtime → ℤ → ℕ → LockGranted
grant_lock rt position ttl = record {
  position = position;
  heartbeat_interval_ms = rt.guarantee ttl / millisecond;
  deadline_ms = ttl / millisecond;
}

-- Before the immediate attempt, between it and the subscription, in the select, and done.
pub data Stage : Type 0 where
  starting unsubscribed waiting : Stage
  granted : LockGranted → Stage
  failed : Error → Stage

-- `signal` is whether releaseCh holds a signal.
pub record WaitState : Type 0 where
  pub world : LockWorld
  pub stage : Stage
  pub signal : Bool

-- What a wait does, and what goes on beside it: an operation on the tables, a release on the bus, the end of
-- the wait's context, and a Send that fails.
pub data WaitStep : Type 0 where
  attempt : Server → Option Error → WaitStep
  subscribe : WaitStep
  retry : Server → Option Error → WaitStep
  beside : Server → Operation → WaitStep
  bus_event : LockReleasedEvent → WaitStep
  cancel : WaitStep

module _ (rt : Runtime) (domain stream consumer holder : String) (ttl : ℕ) where
  unfoldable pub same_consumer : LockReleasedEvent → Bool
  same_consumer evt = evt.domain == domain && evt.stream == stream && evt.consumer == consumer

  abbrev sent_grant : Option Error → LockGranted → Stage
  sent_grant none grant = granted grant
  sent_grant (some failure) grant = failed failure

  -- What follows an attempt, where a refusal goes to `refused`.
  abbrev pub attempted : Option Error → Stage → Result LockResult × LockWorld → WaitState
  attempted send_error refused (err failure, w) = record {
    world = w;
    stage = failed failure;
    signal = false;
  }
  attempted send_error refused (ok result, w) = record {
    world = w;
    stage =
        if result.acquired
        then sent_grant send_error (grant_lock rt result.position ttl)
        else refused;
    signal = false;
  }

  unfoldable pub try_lock : Server → Option Error → Stage → WaitState → WaitState
  unfolding acquire_lock grant_lock
  try_lock server send_error refused s =
      attempted send_error refused
        (acquire_lock rt server domain stream consumer holder ttl s.world)

  abbrev subscribe_in : Stage → WaitState → WaitState
  subscribe_in unsubscribed s = record s { stage = waiting; signal = false }
  subscribe_in _ s = s

  abbrev attempt_in : Stage → Server → Option Error → WaitState → WaitState
  attempt_in starting server send_error s = try_lock server send_error unsubscribed s
  attempt_in _ server send_error s = s

  abbrev retry_in : Stage → Bool → Server → Option Error → WaitState → WaitState
  retry_in waiting true server send_error s = try_lock server send_error waiting s
  retry_in _ _ server send_error s = s

  abbrev event_in : Stage → LockReleasedEvent → WaitState → WaitState
  event_in waiting evt s = if same_consumer evt then record s { signal = true } else s
  event_in _ evt s = s

  abbrev cancel_in : Stage → WaitState → WaitState
  cancel_in waiting s = record s { stage = failed context_done }
  cancel_in _ s = s

  -- A step that cannot happen changes nothing.
  unfoldable pub wait_step : WaitStep → WaitState → WaitState
  unfolding try_lock same_consumer
  wait_step (attempt server send_error) s = attempt_in s.stage server send_error s
  wait_step subscribe s = subscribe_in s.stage s
  wait_step (retry server send_error) s = retry_in s.stage s.signal server send_error s
  wait_step (beside server op) s = record s {
    world = record s.world { db = perform rt server op s.world.db };
  }
  wait_step (bus_event evt) s = event_in s.stage evt s
  wait_step cancel s = cancel_in s.stage s

  unfoldable pub wait_run : List WaitStep → WaitState → WaitState
  unfolding wait_step
  wait_run [] s = s
  wait_run (x ∷ steps) s = wait_run steps (wait_step x s)
