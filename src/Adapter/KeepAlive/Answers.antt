-- ===== src/Adapter/KeepAlive/Answers.antt =====
-- What the client is told by a heartbeat that the service handles (pkg/v1/grpcAdapter.go and
-- internal/service/grpcConsumerLocks.go).
use pgcqrs.Base.{
  ℤ, ◌≡◌, refl, false, true, Option-cases, inl, inr, none, List, [], ◌∷◌, ◌++◌, eq_refl,
}
use pgcqrs.Wire.{
  Runtime, Error, Result, ok, err, LockReleasedEvent, lock_not_held, lock_expired, lock_not_found,
  heartbeat_conflict, ttl_too_low, position_backwards, empty_query, context_done, emit_failed,
  bad_json, panicked, no_handler, bad_key, stream_not_found, backward_position, operation_failed,
  database_failed, invalid_parameters, invalid_argument, end_of_stream, stream_failed, plain_error,
  no_such_id,
}
use pgcqrs.Storage.State.{Db}
use pgcqrs.Storage.Heartbeat.{heartbeat_with_position}
use pgcqrs.Service.KeepAlive.{
  World, Net, Session, Heartbeat, ServerMessage, lock_lost, send, translate_heartbeat_error,
  answer_heartbeat, process_heartbeat, handle_heartbeat, ended, Turn, lost, bus_event, run_bound,
  on_lock_released, same_lock, status_of, renewed, notify_lock_lost,
}
use pgcqrs.Adapter.KeepAlive.{
  KeepAlive, Exchange, exchanged, status_error, process_lock_status, heartbeat,
}

-- The session that serves the client's stream.
abbrev pub Serves : KeepAlive → Session → Type 0
Serves ka k =
    (k.domain ≡ ka.domain)
    × (k.stream_name ≡ ka.stream_name)
    × (k.consumer ≡ ka.consumer)
    × (k.holder ≡ ka.holder)

-- The message of the client's Heartbeat
abbrev pub beat_of : KeepAlive → ℤ → Heartbeat
beat_of ka position = record {
  domain = ka.domain;
  stream = ka.stream_name;
  consumer = ka.consumer;
  holder = ka.holder;
  position = position;
}

abbrev pub first_sent : List ServerMessage → Result ServerMessage
first_sent [] = err (plain_error "nothing has been sent")
first_sent (m ∷ ms) = ok m

-- What Recv gives the client: an error that the handler returns as gRPC passes it on, or what the handler
-- has sent. A handler that has sent nothing ends the stream or waits.
abbrev pub reply_of : (Error → Error) → Result (Unit {0}) × World → Result ServerMessage
reply_of transmit (err failure, w) = err (transmit failure)
reply_of transmit (ok _, w) = first_sent w.sent

-- What a client is told of a result of ConsumerStore.HeartbeatWithPosition.
abbrev pub told : KeepAlive → (Error → Error) → Result (Unit {0}) → Result (Unit {0})
told ka transmit (ok _) = ok tt
told ka transmit (err (heartbeat_conflict target current)) = err (heartbeat_conflict target current)
told ka transmit (err (lock_expired c d s)) =
    err (lock_expired ka.consumer ka.domain ka.stream_name)
told ka transmit (err (lock_not_found d s c h)) =
    err (lock_expired ka.consumer ka.domain ka.stream_name)
told ka transmit (err (lock_not_held c h d s)) =
    err (lock_not_held ka.consumer ka.holder ka.domain ka.stream_name)
told ka transmit (err failure) = err (transmit failure)

module _ (ka : KeepAlive) (transmit : Error → Error) (net : Net) (db : Db)
    (dispatched : List LockReleasedEvent) where
  -- The world of a request before anything is sent on the stream.
  abbrev pub silent : World
  silent = record { db = db; sent = []; dispatched = dispatched }

  abbrev exchange_of : Result (Unit {0}) × World → Exchange
  exchange_of r = record { send_error = none; reply = reply_of transmit r }

  told_lem :
      (db' : Db) (r : Result (Unit {0}))
      → net.send_error ≡ none
      → heartbeat ka false (exchange_of (answer_heartbeat net (r, record silent { db = db' })))
        ≡ told ka transmit r
  unfolding answer_heartbeat translate_heartbeat_error send heartbeat exchanged process_lock_status
      status_error
  told_lem db' (ok done) e = rw e refl
  told_lem db' (err (lock_not_held a b c d)) e = rw e refl
  told_lem db' (err (lock_expired a b c)) e = rw e refl
  told_lem db' (err (lock_not_found a b c d)) e = rw e refl
  told_lem db' (err (heartbeat_conflict a b)) e = rw e refl
  told_lem db' (err (ttl_too_low a b)) e = refl
  told_lem db' (err position_backwards) e = refl
  told_lem db' (err empty_query) e = refl
  told_lem db' (err context_done) e = refl
  told_lem db' (err emit_failed) e = refl
  told_lem db' (err bad_json) e = refl
  told_lem db' (err panicked) e = refl
  told_lem db' (err no_handler) e = refl
  told_lem db' (err bad_key) e = refl
  told_lem db' (err (stream_not_found a b)) e = refl
  told_lem db' (err (backward_position a b c)) e = refl
  told_lem db' (err (operation_failed a)) e = refl
  told_lem db' (err database_failed) e = refl
  told_lem db' (err invalid_parameters) e = refl
  told_lem db' (err (invalid_argument a)) e = refl
  told_lem db' (err end_of_stream) e = refl
  told_lem db' (err stream_failed) e = refl
  told_lem db' (err (plain_error a)) e = refl
  told_lem db' (err (no_such_id a b c)) e = refl

  answer-db :
      (r : Result (Unit {0})) (w : World)
      → net.send_error ≡ none
      → (answer_heartbeat net (r, w)).1.db ≡ w.db
  unfolding answer_heartbeat send
  answer-db (ok done) w e = rw e refl
  answer-db (err failure) w e = elim (Option-cases (translate_heartbeat_error failure)) [
    | inl f ↦ rw f refl
    | inr (m, f) ↦ rw (f, e) refl
  ]

  -- The client's Heartbeat on a stream that serves it, where no Send fails: it returns what
  -- HeartbeatWithPosition of the storage makes of the same lock, holder and position, told in the client's
  -- names, except that a lock that is not there is told as one that has expired, and that another error
  -- comes as gRPC passes it on. The tables are those that the storage leaves.
  pub heartbeat_tells :
      (k : Session) (position : ℤ)
      → net.send_error ≡ none
      → Serves ka k
      → (heartbeat ka false (exchange_of (handle_heartbeat net k (beat_of ka position) silent)) ≡ (
          told ka transmit
            (heartbeat_with_position net.server ka.domain ka.stream_name ka.consumer ka.holder
              position db).0))
        × ((handle_heartbeat net k (beat_of ka position) silent).1.db
            ≡ (heartbeat_with_position net.server ka.domain ka.stream_name ka.consumer ka.holder
                position db).1)
  unfolding handle_heartbeat process_heartbeat
  heartbeat_tells k position e (d, s, c, h) =
      let r =
        heartbeat_with_position net.server ka.domain ka.stream_name ka.consumer ka.holder position
          db in
      rw
        (
          d,
          s,
          c,
          h,
          eq_refl ka.domain,
          eq_refl ka.stream_name,
          eq_refl ka.consumer,
          eq_refl ka.holder,
        )
        (told_lem r.1 r.0 e, answer-db r.0 (record silent { db = r.1 }) e)

-- A defect. Where the bus reports the release of the lock that a bound, subscribed stream serves, and the stream
-- then reads it from its channel, the service sends LockLost as its one further message and closes the stream
-- without an error. The client whose Heartbeat reads this message is told that the heartbeat has gone through,
-- with the same answer as where the service has renewed the lock: its lock is lost, and it is told nothing.
pub lost_lock_heartbeat_succeeds :
    (rt : Runtime) (ka : KeepAlive) (net : Net) (turns : List Turn) (k : Session) (w : World)
    (evt : LockReleasedEvent)
    → net.send_error ≡ none
    → k.subscribed ≡ true
    → same_lock k evt ≡ true
    → k.lock_lost_ch ≡ none
    → (run_bound rt (bus_event evt ∷ lost net ∷ turns) k w
        ≡ (ended none, record w { sent = w.sent ++ lock_lost "released" ∷ [] }))
      × (heartbeat ka false (record { send_error = none; reply = ok (lock_lost "released") })
          ≡ heartbeat ka false (record { send_error = none; reply = ok (status_of true renewed) }))
      × (heartbeat ka false (record { send_error = none; reply = ok (lock_lost "released") })
          ≡ ok tt)
unfolding run_bound on_lock_released notify_lock_lost send heartbeat exchanged process_lock_status
    status_error
lost_lock_heartbeat_succeeds rt ka net turns k w evt e subscribed same empty =
    (rw (subscribed, same, empty) (rw e refl), refl, refl)
