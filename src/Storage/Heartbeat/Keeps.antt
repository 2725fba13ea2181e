-- ===== src/Storage/Heartbeat/Keeps.antt =====
-- A predicate of the tables that the writes of HeartbeatWithPosition keep is kept by it, whatever
-- fails in it.
use pgcqrs.Base.{
  ℕ, ◌≤◌, String, ℤ, ◌≡◌, refl, sym, ◌∙◌, true, false, Option, some, arith, Bool, Option-cases,
  Bool-cases, inl, inr,
}
use pgcqrs.Base.Map
use pgcqrs.Base.Table
use pgcqrs.Base.Table.{ids_key, named_key}
use pgcqrs.Storage.State.{Db, Tx, Server, LockRow, stream_id, insert_name, begin, in_tx, transact}
use pgcqrs.Storage.Valid.{resolve-cases, id_after, id_after-get}
use pgcqrs.Storage.Outcomes.{then_do-state, transact-state, Both}
use pgcqrs.Storage.Positions.Keeps.{upsert_position-names, upsert_position-next_name}
use pgcqrs.Storage.Positions.{upsert_position}
use pgcqrs.Storage.Locks.{lock_row}
use pgcqrs.Storage.Heartbeat.{
  check_lock_state, update_lock_heartbeat, update_position, renew_row, renewed_row, renewable,
  commit_or_conflict, store_position, heartbeat_within_tx, heartbeat_with_position,
}

module _ {ℓ} (P : Db → Type ℓ) (server : Server) (d s c holder : String) (id : ℕ)
    (keeps_renewal : (sid : ℕ) (db : Db) (row : LockRow)
      → P db
      → lock_row db sid id ≡ some row
      → renewable server d s holder row ≡ true
      → P (record db { locks = Table.upsert db.locks (sid, id) (renewed_row server d s row) }))
    (keeps_position : (sid : ℕ) (position : ℤ) (db : Db)
      → P db
      → P (upsert_position sid c id position db).1) where
  -- What a statement leaves in a transaction whose sequence has not moved.
  abbrev Apart : Tx → Type ℓ
  Apart tx = P tx.committed × P tx.work × (tx.committed.next_name ≡ tx.work.next_name)

  renew_row-keeps :
      (sid : ℕ) (db : Db)
      → P db
      → P (renew_row server d s sid id holder db).1
        × ((renew_row server d s sid id holder db).1.next_name ≡ db.next_name)
  unfolding renew_row
  renew_row-keeps sid db h = elim (Option-cases (lock_row db sid id)) [
    | inl g ↦ rw (renew_row, g) (h, refl)
    | inr (row, g) ↦ elim (Bool-cases (renewable server d s holder row)) [
      | inl r ↦ rw (renew_row, g, r) (keeps_renewal sid db row h g r, refl)
      | inr r ↦ rw (renew_row, g, r) (h, refl)
    ]
  ]

  renewal-Apart :
      (tx : Tx) → Apart tx → Apart (in_tx tx (update_lock_heartbeat server d s id holder tx.work)).1
  unfolding update_lock_heartbeat
  renewal-Apart tx h = elim (Bool-cases (server.fails "heartbeat lock update")) [
    | inl e ↦ rw e h
    | inr e ↦ elim (Option-cases (stream_id tx.work d s)) [
      | inl f ↦ rw (e, f) h
      | inr (sid, f) ↦
          let (k, n) = renew_row-keeps sid tx.work h.1 in rw (e, f) (h.0, k, h.2 ∙ sym n)
    ]
  ]

  position-Apart :
      (position : ℤ) (tx : Tx)
      → Apart tx
      → Apart (in_tx tx (update_position server d s c id position tx.work)).1
  unfolding update_position
  position-Apart position tx h = elim (Bool-cases (server.fails "heartbeat position update")) [
    | inl e ↦ rw e h
    | inr e ↦ elim (Option-cases (stream_id tx.work d s)) [
      | inl f ↦ rw (e, f) h
      | inr (sid, f) ↦
          rw (e, f)
            (
              h.0,
              keeps_position sid position tx.work h.1,
              rw (upsert_position-next_name sid c id position tx.work) h.2,
            )
    ]
  ]

  commit-Apart :
      (position : ℤ) (written : Bool) (tx : Tx)
      → Apart tx
      → Apart (commit_or_conflict server d s c holder position written tx).1
  unfolding commit_or_conflict
  commit-Apart position false tx h = h
  commit-Apart position true tx h = elim (Bool-cases (server.fails "commit heartbeat")) [
    | inl e ↦ rw e h
    | inr e ↦ rw e h
  ]

  store-Apart :
      (position : ℤ) (state : Option LockRow) (written : Bool) (tx : Tx)
      → Apart tx
      → Apart (store_position server d s c holder id position state written tx).1
  unfolding store_position
  store-Apart position state false tx h = h
  store-Apart position state true tx h =
      then_do-state Apart (in_tx tx (update_position server d s c id position tx.work)) _
        (position-Apart position tx h) (commit-Apart position)

  check-Apart : (tx : Tx) → Apart tx → Apart (in_tx tx (check_lock_state server d s id tx.work)).1
  unfolding check_lock_state
  check-Apart tx h = elim (Bool-cases (server.fails "check lock state")) [
    | inl e ↦ rw e h
    | inr e ↦ rw e h
  ]

  pub within-Both :
      (position : ℤ) (tx : Tx)
      → Apart tx
      → Both P (heartbeat_within_tx server d s c holder id position tx).1
  unfolding heartbeat_within_tx
  within-Both position tx h =
      let (p, q, e) =
        then_do-state Apart (in_tx tx (check_lock_state server d s id tx.work)) _ (check-Apart tx h)
          (λ state t k.
            then_do-state Apart (in_tx t (update_lock_heartbeat server d s id holder t.work)) _
              (renewal-Apart t k) (store-Apart position state)) in
      (p, q, omega (arith, e))

module _ {ℓ} (P : Db → Type ℓ)
    (keeps_names : (name : String) (db : Db) → P db → P (insert_name name db))
    (keeps_sequence : (db : Db) (n : ℕ) → db.next_name ≤ n → P db → P (record db { next_name = n }))
    (server : Server) (d s c holder : String)
    (keeps_renewal : (sid id : ℕ) (db : Db) (row : LockRow)
      → P db
      → lock_row db sid id ≡ some row
      → renewable server d s holder row ≡ true
      → P (record db { locks = Table.upsert db.locks (sid, id) (renewed_row server d s row) }))
    (keeps_position : (sid id : ℕ) (position : ℤ) (db : Db)
      → P db
      → Map.get db.names c ≡ some id
      → P (upsert_position sid c id position db).1) where
  -- The consumer's name keeps its id while the transaction runs.
  abbrev Named : ℕ → Db → Type ℓ
  Named id db = P db × (Map.get db.names c ≡ some id)

  tx-keeps :
      (position : ℤ) (id : ℕ) (db : Db)
      → Named id db
      → Named id (transact (heartbeat_within_tx server d s c holder id position (begin db))).1
  tx-keeps position id db h =
      transact-state (Named id) (λ t n ahead k. (keeps_sequence t n ahead k.0, k.1))
        (heartbeat_within_tx server d s c holder id position (begin db))
        (within-Both (Named id) server d s c holder id
          (λ sid t row k e r. (keeps_renewal sid id t row k.0 e r, k.1))
          (λ sid p t k.
            (keeps_position sid id p t k.0 k.1, rw (upsert_position-names sid c id p t) k.1))
          position (begin db) (h, h, refl))

  pub heartbeat-keeps :
      (position : ℤ) (db : Db)
      → P db
      → P (heartbeat_with_position server d s c holder position db).1
  unfolding heartbeat_with_position
  heartbeat-keeps position db h = elim (resolve-cases server c db) [
    | inr (op, db', e, q, f) ↦
        rw e (elim q [ inl same ↦ rw same h | inr new ↦ rw new (keeps_names c db h) ])
    | inl e ↦ elim (Bool-cases (server.fails "begin heartbeat transaction")) [
      | inl f ↦ rw (e, f) (keeps_names c db h)
      | inr f ↦
          rw (e, f)
            (tx-keeps position (id_after c db) (insert_name c db)
              (keeps_names c db h, id_after-get server c db)).0
    ]
  ]
