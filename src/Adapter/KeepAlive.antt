-- ===== src/Adapter/KeepAlive.antt =====
-- The client's side of a KeepAlive stream (GrpcAdapter.NewKeepAlive, HeartbeatWithPosition, and the type
-- KeepAlive, of pkg/v1/grpcAdapter.go). gRPC is a parameter: what Send and Recv return is passed in. A
-- CloseSend returns nil, so errors.Join adds nothing. The proofs are in the module below.
pub mod Answers
mod Examples
use pgcqrs.Base.{
  String, ℤ, pos, Bool, true, false, Option, none, some, List, [], ◌∷◌, if◌then◌else◌, not,
}
use pgcqrs.Wire.{
  Error, Result, ok, err, ◌>>=◌, context_done, lock_not_held, lock_expired, heartbeat_conflict,
  plain_error,
}
use pgcqrs.Service.KeepAlive.{
  LockStatusReason, unspecified, renewed, expired, stolen, conflict, ServerMessage, lock_status,
  lock_lost, release_ack,
}

-- The type KeepAlive without its stream.
pub record KeepAlive : Type 0 where
  pub domain : String
  pub stream_name : String
  pub consumer : String
  pub holder : String

-- What the stream does with one request: the error of the Send, or else what Recv returns.
pub record Exchange : Type 0 where
  pub send_error : Option Error
  pub reply : Result ServerMessage

pub exchanged : Exchange → Result ServerMessage
exchanged x = elim x.send_error [ none ↦ x.reply | some failure ↦ err failure ]

abbrev or_zero : Option ℤ → ℤ
or_zero none = pos 0
or_zero (some version) = version

-- The switch of processLockStatus
pub status_error : KeepAlive → LockStatusReason → (target current : Option ℤ) → Result (Unit {0})
status_error k unspecified target current = ok tt
status_error k renewed target current = ok tt
status_error k conflict target current = err (heartbeat_conflict (or_zero target) (or_zero current))
status_error k expired target current = err (lock_expired k.consumer k.domain k.stream_name)
status_error k stolen target current =
    err (lock_not_held k.consumer k.holder k.domain k.stream_name)

pub process_lock_status : KeepAlive → ServerMessage → Result (Unit {0})
unfolding status_error
process_lock_status k (lock_status locked reason target current) =
    status_error k reason target current
process_lock_status k (lock_lost reason) = ok tt
process_lock_status k (release_ack acknowledged) = ok tt

-- KeepAlive.Heartbeat
pub heartbeat : KeepAlive → (cancelled : Bool) → Exchange → Result (Unit {0})
unfolding exchanged process_lock_status
heartbeat k cancelled x =
    if cancelled then err context_done else exchanged x >>= process_lock_status k

pub release_answer : ServerMessage → Result (Unit {0})
release_answer (release_ack true) = ok tt
release_answer (release_ack false) = err (plain_error "keepalive release rejected")
release_answer (lock_status locked reason target current) = ok tt
release_answer (lock_lost reason) = ok tt

-- KeepAlive.Release
pub release : KeepAlive → (cancelled : Bool) → Exchange → Result (Unit {0})
unfolding exchanged release_answer
release k cancelled x = if cancelled then err context_done else exchanged x >>= release_answer

-- handleKeepAliveResponse: it makes nothing of the reasons UNSPECIFIED and RENEWED.
pub handle_keep_alive_response : KeepAlive → ServerMessage → Result (Unit {0})
handle_keep_alive_response k (lock_status locked conflict target current) =
    err (heartbeat_conflict (or_zero target) (or_zero current))
handle_keep_alive_response k (lock_status locked expired target current) =
    err (lock_expired k.consumer k.domain k.stream_name)
handle_keep_alive_response k (lock_status locked stolen target current) =
    err (lock_not_held k.consumer k.holder k.domain k.stream_name)
handle_keep_alive_response k (lock_status locked unspecified target current) = ok tt
handle_keep_alive_response k (lock_status locked renewed target current) = ok tt
handle_keep_alive_response k (lock_lost reason) = ok tt
handle_keep_alive_response k (release_ack acknowledged) = ok tt

-- What NewKeepAlive makes of the reply to its bind.
pub bind_answer : KeepAlive → ServerMessage → Result KeepAlive
unfolding handle_keep_alive_response
bind_answer k (lock_status true reason target current) = ok k
bind_answer k (lock_status false reason target current) =
    handle_keep_alive_response k (lock_status false reason target current) >>= λ nothing.
    err (plain_error "keepalive bind rejected")
bind_answer k (lock_lost reason) = err (plain_error "expected lock status in response to bind")
bind_answer k (release_ack acknowledged) =
    err (plain_error "expected lock status in response to bind")

-- NewKeepAlive; `opened` is what opening the stream returns.
pub new_keep_alive : KeepAlive → (opened : Result (Unit {0})) → Exchange → Result KeepAlive
unfolding exchanged bind_answer
new_keep_alive k opened x = opened >>= λ stream. exchanged x >>= bind_answer k

-- GrpcAdapter.HeartbeatWithPosition: a bind and one heartbeat.
pub heartbeat_with_position :
    KeepAlive
    → (opened : Result (Unit {0})) → (bound : Exchange) → Bool
    → (beat : Exchange) → Result (Unit {0})
unfolding new_keep_alive heartbeat
heartbeat_with_position k opened bound cancelled beat =
    new_keep_alive k opened bound >>= λ ka. heartbeat ka cancelled beat
