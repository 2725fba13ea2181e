-- ===== src/Storage/Steps.antt =====
-- Every operation of ConsumerStore as a step of the tables, with any failing statements and at any
-- time, and the states that steps reach.
pub mod Invariant
pub mod Protects
use pgcqrs.Base.{ℕ, String, ℤ, Option, some, none}
use pgcqrs.Wire.{Runtime}
use pgcqrs.Storage.State.{Db, Server}
use pgcqrs.Storage.Positions.{set_position, get_position, list_consumers, delete_position}
use pgcqrs.Storage.Locks.{try_acquire, release, get_lock, list_locks}
use pgcqrs.Storage.Heartbeat.{heartbeat_with_position}

pub data Operation : Type 0 where
  acquire : (domain stream consumer holder : String) (ttl : ℕ) → Operation
  free : (domain stream consumer holder : String) → Operation
  beat : (domain stream consumer holder : String) (position : ℤ) → Operation
  show_lock : (domain stream consumer : String) → Operation
  show_locks : (domain stream : String) → Operation
  move : (domain stream consumer : String) (event_id : ℤ) → Operation
  find : (domain stream consumer : String) → Operation
  list : (domain stream : String) → Operation
  forget : (domain stream consumer : String) → Operation

-- The tables after an operation.
abbrev pub perform : Runtime → Server → Operation → Db → Db
perform rt server (acquire d s c h ttl) db = (try_acquire rt server d s c h ttl db).1
perform rt server (free d s c h) db = (release rt server d s c h db).1
perform rt server (beat d s c h p) db = (heartbeat_with_position server d s c h p db).1
perform rt server (show_lock d s c) db = (get_lock rt server d s c db).1
perform rt server (show_locks d s) db = (list_locks rt server d s db).1
perform rt server (move d s c e) db = (set_position server d s c e db).1
perform rt server (find d s c) db = (get_position server d s c db).1
perform rt server (list d s) db = (list_consumers server d s db).1
perform rt server (forget d s c) db = (delete_position server d s c db).1

-- What tables become by operations one behind the other, each of which is allowed.
pub data Reach {ℓ} (rt : Runtime) (Allowed : Server → Operation → Type ℓ) (db : Db)
    : Db → Type ℓ where
  start : Reach rt Allowed db db
  step :
      (server : Server) (op : Operation) (mid : Db)
      → Allowed server op
      → Reach rt Allowed db mid
      → Reach rt Allowed db (perform rt server op mid)
