-- ===== src/Adapter/KeepAlive/Examples.antt =====
-- The theorems on the client's stream applied to concrete runs.
use pgcqrs.Base.{pos, true, false, ◌≡◌, refl, none, some, [], ◌∷◌}
use pgcqrs.Wire.{Error, LockReleasedEvent}
use pgcqrs.Memory.Fixture.{runtime}
use pgcqrs.Storage.Fixture.{at_time, tables}
use pgcqrs.Storage.Heartbeat.{heartbeat_with_position}
use pgcqrs.Service.KeepAlive.{
  World, Net, Session, lock_lost, bus_event, same_lock, lost, ended, run_bound, handle_heartbeat,
}
use pgcqrs.Adapter.KeepAlive.{KeepAlive, heartbeat}
use pgcqrs.Adapter.KeepAlive.Answers.{
  told, beat_of, reply_of, silent, heartbeat_tells, lost_lock_heartbeat_succeeds,
}

abbrev net : Net
net = record { server = at_time 5; send_error = none }

abbrev client : KeepAlive
client = record { domain = "d"; stream_name = "s"; consumer = "c"; holder = "a" }

abbrev released : LockReleasedEvent
released = record { domain = "d"; stream = "s"; consumer = "c"; holder = "a" }

abbrev session : Session
session = record {
  domain = "d";
  stream_name = "s";
  consumer = "c";
  holder = "a";
  subscribed = true;
  lock_lost_ch = some released;
}

-- gRPC passes an error on as it is.
abbrev as_it_is : Error → Error
as_it_is failure = failure

heartbeat_tells_example :
    heartbeat client false (record {
      send_error = none;
      reply = reply_of as_it_is (
          handle_heartbeat net session
            (beat_of client (pos 4))
            (silent client as_it_is net tables []));
    })
    ≡ told client as_it_is (heartbeat_with_position (at_time 5) "d" "s" "c" "a" (pos 4) tables).0
heartbeat_tells_example =
    (heartbeat_tells client as_it_is net tables [] session (pos 4) refl (refl, refl, refl, refl)).0

abbrev world : World
world = record { db = tables; sent = []; dispatched = [] }

abbrev subscribed : Session
subscribed = record session { subscribed = true; lock_lost_ch = none }

subscribed-same_lock : same_lock subscribed released ≡ true
unfolding same_lock
subscribed-same_lock = refl

lost_lock_heartbeat_succeeds_example :
    run_bound runtime (bus_event released ∷ lost net ∷ []) subscribed world
    ≡ (ended none, record world { sent = lock_lost "released" ∷ [] })
lost_lock_heartbeat_succeeds_example =
    (lost_lock_heartbeat_succeeds runtime client net [] subscribed world released refl refl
      subscribed-same_lock refl).0
