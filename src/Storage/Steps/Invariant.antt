-- ===== src/Storage/Steps/Invariant.antt =====
-- Every operation of ConsumerStore keeps the tables valid, whatever fails in it.
use pgcqrs.Base.{ℕ, String, ℤ, ◌≡◌, some, Bool, ◌∙◌}
use pgcqrs.Base.Map
use pgcqrs.Base.Table
use pgcqrs.Base.Table.{ids_key, named_key}
use pgcqrs.Wire.{Runtime}
use pgcqrs.Storage.State.{Db, Server, LockRow, PositionRow}
use pgcqrs.Storage.Valid.{
  IsValid, Linked, insert_name-IsValid, with_locks-IsValid, with_positions-IsValid,
  with_sequence-IsValid,
}
use pgcqrs.Storage.Positions.{upsert_position}
use pgcqrs.Storage.Positions.Keeps.{
  set_position-keeps, get_position-keeps, list_consumers-keeps, delete_position-keeps,
  upsert_position-keeps,
}
use pgcqrs.Storage.Locks.Keeps.{
  try_acquire-keeps, release-keeps, get_lock-keeps, list_locks-keeps, delete_selected-keeps,
}
use pgcqrs.Storage.Heartbeat.Keeps.{heartbeat-keeps}
use pgcqrs.Storage.Steps.{
  Operation, acquire, free, beat, show_lock, show_locks, move, find, list, forget, perform, Reach,
  start, step,
}

pub deleted-IsValid :
    (gone : ℕ × ℕ → LockRow → Bool) (db : Db)
    → IsValid db
    → IsValid (record db { locks = Table.delete_where gone db.locks })
deleted-IsValid gone db h =
    with_locks-IsValid db h _ (Table.delete_where-IsTable gone db.locks h.locks_keyed)

pub locked-IsValid :
    (key : ℕ × ℕ) (row : LockRow) (db : Db)
    → IsValid db
    → IsValid (record db { locks = Table.upsert db.locks key row })
locked-IsValid key row db h =
    with_locks-IsValid db h _ (Table.upsert-IsTable db.locks key row h.locks_keyed)

forgotten-IsValid :
    (gone : ℕ × String → PositionRow → Bool) (db : Db)
    → IsValid db
    → IsValid (record db { positions = Table.delete_where gone db.positions })
forgotten-IsValid gone db h =
    with_positions-IsValid db h _ (Table.delete_where-IsTable gone db.positions h.positions_keyed)
      (Table.delete_where-Each (Linked db.names) gone db.positions h.positions_linked)

moved-IsValid :
    (sid : ℕ) (c : String) (id : ℕ) (event_id : ℤ) (db : Db)
    → IsValid db
    → Map.get db.names c ≡ some id
    → IsValid (upsert_position sid c id event_id db).1
moved-IsValid sid c id event_id db h named = upsert_position-keeps IsValid sid c id event_id db h (
    with_positions-IsValid db h _ (Table.upsert-IsTable db.positions (sid, c) row h.positions_keyed)
      (Table.upsert-Each (Linked db.names) db.positions (sid, c) row (λ i g. named ∙ g)
        h.positions_linked))
  where
    row : PositionRow
    row = record { consumer_id = some id; event_id = event_id }

module _ (rt : Runtime) where
  -- Whatever operation of ConsumerStore is performed, at whatever time and whichever of its
  -- statements fail, the tables stay valid.
  pub perform-IsValid :
      (server : Server) (op : Operation) (db : Db) → IsValid db → IsValid (perform rt server op db)
  perform-IsValid server (acquire d s c h ttl) =
      try_acquire-keeps IsValid insert_name-IsValid (λ db n l v. with_sequence-IsValid db v n l) rt
        server d s c h ttl
        (λ sid exclude seen db v w. delete_selected-keeps IsValid deleted-IsValid _ db w)
        (λ sid id db v e. locked-IsValid (sid, id) _ db v)
  perform-IsValid server (free d s c h) =
      release-keeps IsValid insert_name-IsValid (λ db n l v. with_sequence-IsValid db v n l) rt
        server d s c h (λ sid id db row v e own. deleted-IsValid _ db v)
  perform-IsValid server (beat d s c h p) =
      heartbeat-keeps IsValid insert_name-IsValid (λ db n l v. with_sequence-IsValid db v n l)
        server d s c h (λ sid id db row v e r. locked-IsValid (sid, id) _ db v)
        (λ sid id p db v named. moved-IsValid sid c id p db v named) p
  perform-IsValid server (show_lock d s c) =
      get_lock-keeps IsValid insert_name-IsValid (λ db n l v. with_sequence-IsValid db v n l) rt
        server d s c
  perform-IsValid server (show_locks d s) =
      list_locks-keeps IsValid insert_name-IsValid (λ db n l v. with_sequence-IsValid db v n l) rt
        server d s
  perform-IsValid server (move d s c e) =
      set_position-keeps IsValid insert_name-IsValid server d s c
        (λ sid id p db v named. moved-IsValid sid c id p db v named) e
  perform-IsValid server (find d s c) = get_position-keeps IsValid insert_name-IsValid server d s c
  perform-IsValid server (list d s) = list_consumers-keeps IsValid insert_name-IsValid server d s ""
  perform-IsValid server (forget d s c) =
      delete_position-keeps IsValid insert_name-IsValid server d s c forgotten-IsValid

  pub Reach-IsValid {ℓ} :
      {Allowed : Server → Operation → Type ℓ} (db db' : Db)
      → Reach rt Allowed db db'
      → IsValid db
      → IsValid db'
  Reach-IsValid db _ start h = h
  Reach-IsValid db _ (step server op mid allowed before) h =
      perform-IsValid server op mid (Reach-IsValid db mid before h)
