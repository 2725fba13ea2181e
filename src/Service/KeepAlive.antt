-- ===== src/Service/KeepAlive.antt =====
-- A KeepAlive stream of the ConsumerLock service (internal/service/grpcConsumerLocks.go), on the tables of
-- ConsumerStore. What the stream meets is a script of turns: a client message, the end of the stream, the
-- idle timeout, a release that the bus reports, or the receipt of a release from the stream's channel. A
-- script that has come to its end is a stream that is still open. The timer's reset is left out: the
-- script says when it fires. The proofs are in the modules below.
pub mod Exclusion
mod Examples
use pgcqrs.Base.{
  String, ◌==◌, ℤ, Bool, true, false, not, ◌&&◌, ◌||◌, Option, none, some, List, [], ◌∷◌, ◌++◌,
  if◌then◌else◌,
}
use pgcqrs.Wire.{
  Runtime, Error, Result, ok, err, lock_not_held, lock_expired, lock_not_found, heartbeat_conflict,
  invalid_argument, LockState, LockReleasedEvent,
}
use pgcqrs.Storage.State.{Db, Server, LockReleasedInfo, ◌then_do◌}
use pgcqrs.Storage.Locks.{release, get_lock}
use pgcqrs.Storage.Heartbeat.{heartbeat_with_position}

-- The messages of pkg/ipc/query.proto; `other_message` is one of no known case.
pub data LockStatusReason : Type 0 where
  unspecified renewed expired stolen conflict : LockStatusReason

pub record Heartbeat : Type 0 where
  pub domain : String
  pub stream : String
  pub consumer : String
  pub holder : String
  pub position : ℤ

pub record BindRequest : Type 0 where
  pub domain : String
  pub stream : String
  pub consumer : String
  pub holder : String

pub data ClientMessage : Type 0 where
  bind_message : BindRequest → ClientMessage
  heartbeat_message : Heartbeat → ClientMessage
  release_request : ClientMessage
  other_message : ClientMessage

pub data ServerMessage : Type 0 where
  lock_status :
      (locked : Bool) (reason : LockStatusReason) (target_version current_version : Option ℤ)
      → ServerMessage
  lock_lost : (reason : String) → ServerMessage
  release_ack : (acknowledged : Bool) → ServerMessage

abbrev pub status_of : Bool → LockStatusReason → ServerMessage
status_of locked reason = lock_status locked reason none none

-- The tables, what has been sent on the stream, and the releases that have been given to the bus.
pub record World : Type 0 where
  pub db : Db
  pub sent : List ServerMessage
  pub dispatched : List LockReleasedEvent

-- keepAliveStream: the names are empty before the bind, `subscribed` is whether `unsub` is set, and
-- `lock_lost_ch` is the channel, which holds one release.
pub record Session : Type 0 where
  pub domain : String
  pub stream_name : String
  pub consumer : String
  pub holder : String
  pub subscribed : Bool
  pub lock_lost_ch : Option LockReleasedEvent

abbrev pub new_session : Session
new_session = record {
  domain = "";
  stream_name = "";
  consumer = "";
  holder = "";
  subscribed = false;
  lock_lost_ch = none;
}

-- The session behind a bind that has subscribed.
abbrev pub bound_session : BindRequest → Session
bound_session req = record {
  domain = req.domain;
  stream_name = req.stream;
  consumer = req.consumer;
  holder = req.holder;
  subscribed = true;
  lock_lost_ch = none;
}

-- What one message meets: the database, and what a Send returns.
pub record Net : Type 0 where
  pub server : Server
  pub send_error : Option Error

unfoldable pub send : Net → ServerMessage → World → Result (Unit {0}) × World
send net message w = elim net.send_error [
  | none ↦ (ok tt, record w { sent = w.sent ++ message ∷ [] })
  | some failure ↦ (err failure, w)
]

abbrev pub any_empty : (domain stream consumer holder : String) → Bool
any_empty domain stream consumer holder =
    domain == "" || stream == "" || consumer == "" || holder == ""

abbrev pub on_db {ℓ} : {A : Type ℓ} → Result A × Db → World → Result A × World
on_db (r, db) w = (r, record w { db = db })

pub dispatch : Option LockReleasedInfo → World → World
dispatch none w = w
dispatch (some info) w = record w {
  dispatched =
      w.dispatched
      ++ record {
        domain = info.domain;
        stream = info.stream;
        consumer = info.consumer;
        holder = info.holder;
      }
        ∷ [];
}

-- translateHeartbeatError: what is sent for an error, or `none` where the error is returned.
unfoldable pub translate_heartbeat_error : Error → Option ServerMessage
translate_heartbeat_error (heartbeat_conflict target current) =
    some (lock_status false conflict (some target) (some current))
translate_heartbeat_error (lock_expired consumer domain stream) = some (status_of false expired)
translate_heartbeat_error (lock_not_found domain stream consumer holder) =
    some (status_of false expired)
translate_heartbeat_error (lock_not_held consumer holder domain stream) =
    some (status_of false stolen)
translate_heartbeat_error _ = none

abbrev pub send_or_fail : Net → Error → Option ServerMessage → World → Result (Unit {0}) × World
send_or_fail net failure none w = (err failure, w)
send_or_fail net failure (some message) w = send net message w

unfoldable pub answer_heartbeat : Net → Result (Unit {0}) × World → Result (Unit {0}) × World
unfolding translate_heartbeat_error send
answer_heartbeat net (ok _, w) = send net (status_of true renewed) w
answer_heartbeat net (err failure, w) =
    send_or_fail net failure (translate_heartbeat_error failure) w

unfoldable pub process_heartbeat : Net → Heartbeat → String → World → Result (Unit {0}) × World
unfolding answer_heartbeat send
process_heartbeat net hb bound_holder w =
    if not (hb.holder == bound_holder)
    then send net (status_of false stolen) w
    else answer_heartbeat net (
        on_db
          (heartbeat_with_position net.server hb.domain hb.stream hb.consumer hb.holder hb.position
            w.db)
          w)

abbrev pub other_lock : Session → Heartbeat → Bool
other_lock k hb =
    not (hb.domain == k.domain)
    || not (hb.stream == k.stream_name)
    || not (hb.consumer == k.consumer)

unfoldable pub handle_heartbeat : Net → Session → Heartbeat → World → Result (Unit {0}) × World
unfolding process_heartbeat
handle_heartbeat net k hb w =
    if other_lock k hb
    then (err (lock_not_held k.consumer k.holder k.domain k.stream_name), w)
    else process_heartbeat net hb k.holder w

module _ (rt : Runtime) (net : Net) where
  pub handle_release_request :
      (domain stream consumer holder : String) → World → Result (Unit {0}) × World
  unfolding send dispatch
  handle_release_request domain stream consumer holder w =
      if any_empty domain stream consumer holder
      then send net (release_ack false) w
      else on_db (release rt net.server domain stream consumer holder w.db) w then_do λ released w'.
          send net (release_ack true) (dispatch released w')

  -- Whether the lock is the holder's; else the answer is sent.
  abbrev pub bound_by : String → Option LockState → World → Result Bool × World
  bound_by holder none w = send net (status_of false expired) w then_do λ sent w'. (ok false, w')
  bound_by holder (some lock) w =
      if not (lock.holder == holder)
      then (send net (status_of false stolen) w then_do λ sent w'. (ok false, w'))
      else (ok true, w)

  pub bind_holder : (domain stream consumer holder : String) → World → Result Bool × World
  unfolding send
  bind_holder domain stream consumer holder w =
      on_db (get_lock rt net.server domain stream consumer w.db) w then_do bound_by holder

  -- Whether the stream is done. sendLocked leaves the reason at its zero.
  pub bind : BindRequest → World → Result Bool × World
  unfolding bind_holder send
  bind req w =
      if any_empty req.domain req.stream req.consumer req.holder
      then (
        err (invalid_argument "bind message must include domain, stream, consumer, and holder"),
        w,
      )
      else bind_holder req.domain req.stream req.consumer req.holder w then_do λ bound w'.
          if not bound
          then (ok true, w')
          else (send net (status_of true unspecified) w' then_do λ sent w''. (ok false, w''))

  pub dispatch_bound : Session → ClientMessage → World → Result (Unit {0}) × World
  unfolding handle_heartbeat handle_release_request
  dispatch_bound k (heartbeat_message hb) w = handle_heartbeat net k hb w
  dispatch_bound k release_request w =
      handle_release_request k.domain k.stream_name k.consumer k.holder w
  dispatch_bound k (bind_message req) w =
      (err (invalid_argument "cannot rebind: stream already bound to holder"), w)
  dispatch_bound k other_message w =
      (err (invalid_argument "unexpected message type on keepalive stream"), w)

-- What the stream meets next.
pub data Turn : Type 0 where
  message : Net → ClientMessage → Turn
  receive_error : Error → Turn
  idle_timeout : Turn
  bus_event : LockReleasedEvent → Turn
  lost : Net → Turn

unfoldable pub same_lock : Session → LockReleasedEvent → Bool
same_lock k evt =
    evt.domain == k.domain
    && evt.stream == k.stream_name
    && evt.consumer == k.consumer
    && evt.holder == k.holder

abbrev offered : Option LockReleasedEvent → LockReleasedEvent → Option LockReleasedEvent
offered none evt = some evt
offered (some first) evt = some first

-- The callback of subscribeToLockReleased, where it is subscribed.
unfoldable pub on_lock_released : LockReleasedEvent → Session → Session
unfolding same_lock
on_lock_released evt k =
    if k.subscribed && same_lock k evt
    then record k { lock_lost_ch = offered k.lock_lost_ch evt }
    else k

-- How the stream has ended: with `none`, or with an error; `running` is none of these.
pub data Ending : Type 0 where
  running : Session → Ending
  ended : Option Error → Ending

abbrev pub ended_by : Result (Unit {0}) → Ending
ended_by (ok _) = ended none
ended_by (err failure) = ended (some failure)

unfoldable pub notify_lock_lost : Net → World → Result (Unit {0}) × World
unfolding send
notify_lock_lost net w = send net (lock_lost "released") w

abbrev notified : Net → World → Ending × World
notified net w = let (r, w') = notify_lock_lost net w in (ended_by r, w')

module _ (rt : Runtime) where
  abbrev pub goes_on : Result (Unit {0}) × World → (World → Ending × World) → Ending × World
  goes_on (ok _, w) next = next w
  goes_on (err failure, w) next = (ended (some failure), w)

  abbrev pub take_lost :
      Net → Option LockReleasedEvent → World → (World → Ending × World) → Ending × World
  take_lost net none w next = next w
  take_lost net (some evt) w next = notified net w

  -- runBound. The channel yields nothing while it is empty.
  unfoldable pub run_bound : List Turn → Session → World → Ending × World
  unfolding dispatch_bound on_lock_released notify_lock_lost
  run_bound [] k w = (running k, w)
  run_bound (message net m ∷ turns) k w = goes_on (dispatch_bound rt net k m w) (run_bound turns k)
  run_bound (receive_error failure ∷ turns) k w = (ended (some failure), w)
  run_bound (idle_timeout ∷ turns) k w = (ended none, w)
  run_bound (bus_event evt ∷ turns) k w = run_bound turns (on_lock_released evt k) w
  run_bound (lost net ∷ turns) k w = take_lost net k.lock_lost_ch w (run_bound turns k)

  abbrev pub when_bound : List Turn → BindRequest → Result Bool × World → Ending × World
  when_bound turns req (err failure, w) = (ended (some failure), w)
  when_bound turns req (ok true, w) = (ended none, w)
  when_bound turns req (ok false, w) = run_bound turns (bound_session req) w

  -- run: awaitBind, and runBound behind a bind. Nothing is subscribed before the bind.
  pub run : List Turn → World → Ending × World
  unfolding bind run_bound
  run [] w = (running new_session, w)
  run (message net (bind_message req) ∷ turns) w = when_bound turns req (bind rt net req w)
  run (message net (heartbeat_message hb) ∷ turns) w =
      (ended (some (invalid_argument "heartbeat received before bind")), w)
  run (message net release_request ∷ turns) w =
      (ended (some (invalid_argument "release received before bind")), w)
  run (message net other_message ∷ turns) w =
      (ended (some (invalid_argument "unexpected message type on keepalive stream")), w)
  run (receive_error failure ∷ turns) w = (ended (some failure), w)
  run (idle_timeout ∷ turns) w = (ended none, w)
  run (bus_event evt ∷ turns) w = run turns w
  run (lost net ∷ turns) w = run turns w
