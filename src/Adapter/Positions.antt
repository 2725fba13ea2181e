-- ===== src/Adapter/Positions.antt =====
-- The positions and the unary lock calls of the gRPC transport (pkg/v1/grpcAdapter.go). What a call of the
-- service returns is passed in; an error comes as gRPC passes it on. The proofs are in the module below.
pub mod Told
mod Examples
use Prim.Native.Nat.{◌*◌, ◌/◌, ◌^◌}
use pgcqrs.Base.{
  ℕ, eqb, String, ◌==◌, ℤ, pos, eqb_ℤ, Bool, true, false, Option, none, some, List, [], ◌∷◌,
  if◌then◌else◌,
}
use pgcqrs.Wire.{
  Runtime, Error, Result, ok, err, ◌>>=◌, plain_error, SetPositionResult, LockResult, LockState,
}
use pgcqrs.Service.Positions.{SetPositionOut, GetPositionOut}
use pgcqrs.Service.Locks.{LockGranted, second}
use pgcqrs.Service.KeepAlive.{ServerMessage}
use pgcqrs.Adapter.KeepAlive.{KeepAlive, Exchange, new_keep_alive}

unfoldable pub previous_or_nil : ℤ → Option ℤ
previous_or_nil id = if eqb_ℤ id (pos 0) then none else some id

-- SetPosition
unfoldable pub set_position : Result SetPositionOut → Result SetPositionResult
unfolding previous_or_nil
set_position reply = reply >>= λ out.
    if out.acknowledged
    then ok (record {
      previous_event_id = previous_or_nil out.previous_event_id;
      current_event_id = out.current_event_id;
    })
    else err (plain_error out.error)

-- GetPosition: `none` stands for `found` as false.
unfoldable pub get_position : Result GetPositionOut → Result (Option ℤ)
get_position reply = reply >>= λ out. ok (if out.found then some out.event_id else none)

-- GetLock reads ListLocks.
unfoldable pub find_lock : String → List LockState → Option LockState
find_lock consumer [] = none
find_lock consumer (lock ∷ locks) =
    let rest = find_lock consumer locks in if lock.consumer == consumer then some lock else rest

unfoldable pub get_lock : String → Result (List LockState) → Result (Option LockState)
unfolding find_lock
get_lock consumer reply = reply >>= λ locks. ok (find_lock consumer locks)

-- The interval that WaitForLock returns
abbrev millisecond : ℕ
millisecond = 10 ^ 6

unfoldable pub heartbeat_interval : Runtime → ℕ → ℕ → ℕ
heartbeat_interval rt ttl interval_ms =
    if eqb (interval_ms * millisecond) 0 then rt.guarantee ttl else interval_ms * millisecond

-- WaitForLock: the grant, and then a KeepAlive stream of its own.
unfoldable pub wait_for_lock :
    Runtime
    → KeepAlive
    → ℕ
    → (granted : Result LockGranted) → (opened : Result (Unit {0})) → Exchange
    → Result (KeepAlive × ℤ × ℕ)
unfolding heartbeat_interval
wait_for_lock rt k ttl granted opened bound = granted >>= λ grant.
    new_keep_alive k opened bound >>= λ ka.
    ok (ka, grant.position, heartbeat_interval rt ttl grant.heartbeat_interval_ms)
