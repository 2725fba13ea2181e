-- ===== src/Storage/Steps/Protects.antt =====
-- Exclusion: while a lock's time lasts, nobody but its holder changes or removes it.
use pgcqrs.Base.{
  ℕ, ◌≤◌, String, ◌≡◌, ◌≢◌, refl, true, false, Option, some, none, Bool, Bool-cases, inl, inr, ◌∙◌,
  sym, arith, ap, eq_iff,
}
use pgcqrs.Base.Table
use pgcqrs.Base.Table.{ids_key}
use pgcqrs.Wire.{Runtime}
use pgcqrs.Storage.State.{Db, Server, LockRow, insert_name}
use pgcqrs.Storage.Valid.{IsValid, same_locks, insert_name-IsValid, with_sequence-IsValid}
use pgcqrs.Storage.Positions.Keeps.{
  set_position-keeps, get_position-keeps, list_consumers-keeps, delete_position-keeps,
  upsert_position-keeps,
}
use pgcqrs.Storage.Locks.{can_take, lock_row, active}
use pgcqrs.Storage.Locks.Clean.{live-delete_selected}
use pgcqrs.Storage.Locks.Keeps.{
  try_acquire-keeps, release-keeps, get_lock-keeps, list_locks-keeps, delete_selected-keeps,
}
use pgcqrs.Storage.Heartbeat.{renewable}
use pgcqrs.Storage.Heartbeat.Keeps.{heartbeat-keeps}
use pgcqrs.Storage.Steps.{
  Operation, acquire, free, beat, show_lock, show_locks, move, find, list, forget, perform, Reach,
  start, step,
}
use pgcqrs.Storage.Steps.Invariant.{Reach-IsValid, deleted-IsValid, locked-IsValid}

-- The holder in whose name an operation speaks.
abbrev pub speaker : Operation → Option String
speaker (acquire d s c h ttl) = some h
speaker (free d s c h) = some h
speaker (beat d s c h p) = some h
speaker _ = none

-- An operation of somebody else within the lock's time.
pub record Others (row : LockRow) (server : Server) (op : Operation) : Type 0 where
  pub in_time : server.now ≤ row.held_until
  pub clean_in_time : server.clean_now ≤ row.held_until
  pub other : (h : String) → speaker op ≡ some h → row.holder ≢ h

module _ (rt : Runtime) (key : ℕ × ℕ) (row : LockRow) where
  abbrev pub Held : Db → Type 0
  Held db = Table.find db.locks key ≡ some row

  names-Held : (name : String) (db : Db) → Held db → Held (insert_name name db)
  names-Held name db h = rw (same_locks name db) h

  sequence-Held :
      (db : Db) (n : ℕ) → db.next_name ≤ n → Held db → Held (record db { next_name = n })
  sequence-Held db n l h = h

  -- A write under another key, or of the row itself, which is excluded.
  upserted-Held :
      (k : ℕ × ℕ) (new : LockRow) (db : Db)
      → Held db
      → (Table.find db.locks k ≢ some row)
      → Held (record db { locks = Table.upsert db.locks k new })
  upserted-Held k new db h other = elim (Bool-cases (Table.same_ids k key)) [
    | inl e ↦ absurd (other (rw ((Table.same_ids_iff k key).0 e) h))
    | inr e ↦ rw (Table.find-upsert, e) h
  ]

  kept-Held :
      (gone : ℕ × ℕ → LockRow → Bool) (db : Db)
      → IsValid db
      → Held db
      → gone key row ≡ false
      → Held (record db { locks = Table.delete_where gone db.locks })
  kept-Held gone db v h stays =
      rw (Table.find-delete_where gone db.locks key v.locks_keyed, h, stays) refl

  module _ (server : Server) (live : server.now ≤ row.held_until) where
    taken-not :
        (d s c holder : String) (ttl sid id : ℕ) (db : Db)
        → can_take rt server d s c holder ttl (lock_row db sid id) ≡ true
        → row.holder ≢ holder
        → lock_row db sid id ≢ some row
    taken-not d s c holder ttl sid id db e other f = other (
        (eq_iff row.holder holder).0
          (ground (arith, ap (can_take rt server d s c holder ttl) f, e)))

    renewed-not :
        (d s holder : String) (r : LockRow)
        → renewable server d s holder r ≡ true
        → row.holder ≢ holder
        → some r ≢ some row
    renewed-not d s holder r e other f = other ((eq_iff row.holder holder).0 (ground (arith, f, e)))

  active-holder :
      (now : ℕ) (o : Option LockRow) (r : LockRow)
      → active now o ≡ some r
      → o ≡ some row
      → row.holder ≡ r.holder
  active-holder now o r e f = ground (arith, e, f)

  freed-not :
      (server : Server) (sid id : ℕ) (db : Db) (r : LockRow)
      → Held db
      → active server.now (lock_row db sid id) ≡ some r
      → row.holder ≢ r.holder
      → Table.same_ids key (sid, id) ≡ false
  freed-not server sid id db r h e other = elim (Bool-cases (Table.same_ids key (sid, id))) [
    | inl t ↦ absurd (
        other (
          active-holder server.now (lock_row db sid id) r e
            (rw (← (Table.same_ids_iff key (sid, id)).0 t) h)))
    | inr t ↦ t
  ]

  abbrev pub Safe : Db → Type 0
  Safe db = IsValid db × Held db

  names-Safe : (name : String) (db : Db) → Safe db → Safe (insert_name name db)
  names-Safe name db h = (insert_name-IsValid name db h.0, names-Held name db h.1)

  sequence-Safe :
      (db : Db) (n : ℕ) → db.next_name ≤ n → Safe db → Safe (record db { next_name = n })
  sequence-Safe db n l h = (with_sequence-IsValid db h.0 n l, h.1)

  pub perform-Held :
      (server : Server) (op : Operation)
      → Others row server op
      → (db : Db) → Safe db
      → Held (perform rt server op db)
  perform-Held server (acquire d s c h ttl) o db safe =
      (try_acquire-keeps Safe names-Safe sequence-Safe rt server d s c h ttl
        (λ sid exclude seen t v w. (
          delete_selected-keeps IsValid deleted-IsValid _ t w.0,
          live-delete_selected server.clean_now sid exclude 128 seen t key row v.0.locks_keyed
              w.0.locks_keyed v.1 w.1 o.clean_in_time,
        ))
        (λ sid id t v e. (
          locked-IsValid (sid, id) _ t v.0,
          upserted-Held (sid, id) _ t v.1
              (taken-not server o.in_time d s c h ttl sid id t e (o.other h refl)),
        ))
        db safe).1
  perform-Held server (free d s c h) o db safe =
      (release-keeps Safe names-Safe sequence-Safe rt server d s c h
        (λ sid id t r v e own. (
          deleted-IsValid _ t v.0,
          kept-Held _ t v.0 v.1 (freed-not server sid id t r v.1 e (λ q. o.other h refl (q ∙ own))),
        ))
        db safe).1
  perform-Held server (beat d s c h p) o db safe =
      heartbeat-keeps Held names-Held sequence-Held server d s c h
        (λ sid id t r v e w.
          upserted-Held (sid, id) _ t v
            (λ f. renewed-not server o.in_time d s h r w (o.other h refl) (sym e ∙ f)))
        (λ sid id q t v named. upsert_position-keeps Held sid c id q t v v) p db safe.1
  perform-Held server (show_lock d s c) o db safe =
      get_lock-keeps Held names-Held sequence-Held rt server d s c db safe.1
  perform-Held server (show_locks d s) o db safe =
      list_locks-keeps Held names-Held sequence-Held rt server d s db safe.1
  perform-Held server (move d s c e) o db safe =
      set_position-keeps Held names-Held server d s c
        (λ sid id q t v named. upsert_position-keeps Held sid c id q t v v) e db safe.1
  perform-Held server (find d s c) o db safe =
      get_position-keeps Held names-Held server d s c db safe.1
  perform-Held server (list d s) o db safe =
      list_consumers-keeps Held names-Held server d s "" db safe.1
  perform-Held server (forget d s c) o db safe =
      delete_position-keeps Held names-Held server d s c (λ gone t v. v) db safe.1

  -- While a lock's time lasts, it is not changed and not removed by operations of others, whichever of
  -- their statements fail, on tables that were valid at the start.
  pub Reach-Held : (db db' : Db) → IsValid db → Held db → Reach rt (Others row) db db' → Held db'
  Reach-Held db _ v h start = h
  Reach-Held db _ v h (step server op mid others before) =
      perform-Held server op others mid
        (Reach-IsValid rt db mid before v, Reach-Held db mid v h before)
