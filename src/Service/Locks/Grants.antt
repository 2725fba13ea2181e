-- ===== src/Service/Locks/Grants.antt =====
-- What a WaitForLock is granted, and what it misses (internal/service/grpcConsumerLocks.go).
use pgcqrs.Base.{ℕ, ◌≤◌, String, ◌≡◌, true, false, Option, some, List, [], ◌∷◌, All, arith}
use pgcqrs.Wire.{Runtime, Error, LockReleasedEvent, lock_minimum_ttl}
use pgcqrs.Storage.State.{Server, stream_id}
use pgcqrs.Storage.Valid.{IsValid, id_after}
use pgcqrs.Storage.Positions.{position_row, event_of}
use pgcqrs.Storage.Locks.{lock_row, can_take, acquired_row, coalesce}
use pgcqrs.Storage.Steps.{Operation}
use pgcqrs.Service.Locks.{
  unsubscribed, waiting, granted, WaitState, WaitStep, attempt, subscribe, retry, beside, bus_event,
  cancel, same_consumer, grant_lock, wait_step, wait_run,
}

module _ (rt : Runtime) (domain stream consumer holder : String) (ttl : ℕ) where
  -- A step that neither reports a release of this lock nor ends the wait's context.
  abbrev pub Quiet : WaitStep → Type 0
  Quiet (bus_event evt) = same_consumer rt domain stream consumer holder ttl evt ≡ false
  Quiet cancel = ⊥
  Quiet _ = Unit {0}

  abbrev Waits : WaitState → Type 0
  Waits s = (s.stage ≡ waiting) × (s.signal ≡ false)

  wait_step-Waits :
      (x : WaitStep) (s : WaitState)
      → Quiet x
      → Waits s
      → Waits (wait_step rt domain stream consumer holder ttl x s)
  unfolding wait_step
  wait_step-Waits (attempt server e) s q (w, f) = ground (arith, w, f)
  wait_step-Waits subscribe s q (w, f) = ground (arith, w, f)
  wait_step-Waits (retry server e) s q (w, f) = ground (arith, w, f)
  wait_step-Waits (beside server op) s q (w, f) = (w, f)
  wait_step-Waits (bus_event evt) s q (w, f) = ground (arith, w, f, q)
  wait_step-Waits cancel s q (w, f) = absurd q

  wait_run-Waits :
      (steps : List WaitStep) (s : WaitState)
      → All Quiet steps
      → Waits s
      → Waits (wait_run rt domain stream consumer holder ttl steps s)
  unfolding wait_run
  wait_run-Waits [] s q w = w
  wait_run-Waits (x ∷ steps) s q w = wait_run-Waits steps _ q.1 (wait_step-Waits x s q.0 w)

  unnoticed :
      (server : Server) (op : Operation) (evt : LockReleasedEvent) (t : WaitState)
      → t.stage ≡ unsubscribed
      → Waits (
          wait_step rt domain stream consumer holder ttl subscribe (
            wait_step rt domain stream consumer holder ttl
              (bus_event evt)
              (wait_step rt domain stream consumer holder ttl (beside server op) t)))
  unfolding wait_step
  unnoticed server op evt t r = ground (arith, r)

  -- A defect. WaitForLock subscribes behind its immediate attempt. A lock that is released between the two,
  -- by whatever operation, and whose release the bus reports by then, does not wake the wait: as long as no
  -- further release of this lock is reported and the context does not end, the wait waits, whatever else
  -- happens to the tables, though the lock may be free.
  pub wait_for_lock_misses :
      (s : WaitState) (server server' : Server) (e : Option Error) (op : Operation)
      (evt : LockReleasedEvent) (steps : List WaitStep)
      → (wait_step rt domain stream consumer holder ttl (attempt server e) s).stage ≡ unsubscribed
      → All Quiet steps
      → (wait_run rt domain stream consumer holder ttl
          (attempt server e ∷ beside server' op ∷ bus_event evt ∷ subscribe ∷ steps)
          s).stage
        ≡ waiting
  unfolding wait_run
  wait_for_lock_misses s server server' e op evt steps refused quiet =
      (wait_run-Waits steps _ quiet (unnoticed server' op evt _ refused)).0

  module _ (server : Server) (working : (op : String) → server.fails op ≡ false)
      (enough : lock_minimum_ttl ≤ ttl) (sid : ℕ) (s : WaitState)
      (at : stream_id s.world.db domain stream ≡ some sid) (valid : IsValid s.world.db)
      (free : can_take rt server domain stream consumer holder ttl
          (lock_row s.world.db sid (id_after consumer s.world.db))
        ≡ true)
      (stage : s.stage ≡ waiting) (evt : LockReleasedEvent)
      (same : same_consumer rt domain stream consumer holder ttl evt ≡ true) where
    abbrev Granted : WaitState → Type 0
    Granted s' =
        (s'.stage
          ≡ granted
              (grant_lock rt (coalesce (event_of (position_row s.world.db sid consumer))) ttl))
        × (lock_row s'.world.db sid (id_after consumer s.world.db)
            ≡ some (acquired_row rt server domain stream consumer holder ttl))
