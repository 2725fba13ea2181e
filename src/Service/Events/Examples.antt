-- ===== src/Service/Events/Examples.antt =====
-- The theorems on events applied to concrete tables.
use pgcqrs.Base.{◌≡◌, refl, none, some, [], ◌∷◌, arith}
use pgcqrs.Base.Map
use pgcqrs.Wire.{Lock, ok}
use pgcqrs.Memory.Fixture.{runtime}
use pgcqrs.Storage.Fixture.{at_time, tables, tables-stream}
use pgcqrs.Storage.State.{stream_id}
use pgcqrs.Service.Events.{EventRow, EventsDb, fetch_payload, unsafe_store, submit_with_lock}
use pgcqrs.Service.Events.Stored.{
  StoresHeld, submit_with_lock-StoresHeld, unsafe_store-fetch_payload, unsafe_store_lost,
}

abbrev event_1 : EventRow
event_1 = record { id = 1; stream_id = some 1; kind_id = some 1; when_occurred = 0; event = "{}" }

abbrev db : EventsDb
db = record {
  consumers = tables;
  next_stream = 2;
  kinds = ("k", 1) ∷ [];
  next_kind = 2;
  events = event_1 ∷ [];
  next_event = 2;
}

abbrev lock_a : Lock
lock_a = record { consumer = "c"; holder = "a" }

submit_with_lock-StoresHeld_example :
    StoresHeld runtime
      (at_time 5)
      "d"
      "s"
      some
      "k"
      "{}"
      lock_a
      db
      (submit_with_lock (at_time 5) runtime some "d" "s" "k" "{}" lock_a db)
submit_with_lock-StoresHeld_example =
    submit_with_lock-StoresHeld runtime (at_time 5) "d" "s" some "k" "{}" lock_a db

unsafe_store-fetch_payload_example :
    (fetch_payload
      (at_time 5)
      "d"
      "s"
      2
      (unsafe_store (at_time 5) runtime some "d" "s" "k" "{}" db).1).0
    ≡ ok "{}"
unsafe_store-fetch_payload_example =
    (unsafe_store-fetch_payload runtime (at_time 5) "d" "s" some "k" "{}" "{}" db (λ op. refl) refl
      1 tables-stream (omega arith, tt)).1

no_stream : stream_id tables "d" "t" ≡ none
unfolding Map.get
no_stream = refl

unsafe_store_lost_example :
    (fetch_payload
      (at_time 5)
      "d"
      "t"
      2
      (unsafe_store (at_time 5) runtime some "d" "t" "k" "{}" db).1).0
    ≡ (fetch_payload (at_time 5) "d" "t" 2 db).0
unsafe_store_lost_example =
    (unsafe_store_lost runtime (at_time 5) "d" "t" some "k" "{}" "{}" db (λ op. refl) refl
        no_stream).1
      "d" "t" 2
