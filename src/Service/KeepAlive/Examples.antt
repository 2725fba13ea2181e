-- ===== src/Service/KeepAlive/Examples.antt =====
-- The theorem on KeepAlive streams applied to a concrete stream.

use pgcqrs.Base.{pos, ◌≡◌, refl, none, some, List, [], ◌∷◌, arith}
use pgcqrs.Base.Table
use pgcqrs.Base.Table.{ids_key}
use pgcqrs.Memory.Fixture.{runtime, differ}
use pgcqrs.Storage.Fixture.{at_time, tables, row_a, tables-IsValid, tables-held}
use pgcqrs.Service.KeepAlive.{
  World, Net, Turn, message, bind_message, heartbeat_message, release_request, run,
}
use pgcqrs.Service.KeepAlive.Exclusion.{keep_alive-Held}

abbrev net : Net
net = record { server = at_time 5; send_error = none }

abbrev world : World
world = record { db = tables; sent = []; dispatched = [] }

-- "b" binds the lock of "a", beats in the name of "a", and releases.
abbrev turns : List Turn
turns =
    message net (bind_message (record { domain = "d"; stream = "s"; consumer = "c"; holder = "b" }))
    ∷ message net (
        heartbeat_message
          (record { domain = "d"; stream = "s"; consumer = "c"; holder = "a"; position = pos 9 }))
    ∷ message net release_request
    ∷ []

keep_alive-Held_example : Table.find (run runtime turns world).1.db.locks (1, 1) ≡ some row_a
keep_alive-Held_example =
    keep_alive-Held runtime (1, 1) row_a turns world
      ((omega arith, omega arith), ((omega arith, omega arith), ((omega arith, omega arith), tt)))
      (differ "a" "b" refl, (tt, (tt, tt))) tables-IsValid tables-held
