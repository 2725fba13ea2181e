-- ===== src/Storage/Heartbeat/Effects.antt =====
-- What HeartbeatWithPosition of ConsumerStore does: a renewal with its position, and nothing where it
-- is refused or fails.
use pgcqrs.Base.{
  ℕ, ◌<◌, ◌+◌, String, ℤ, leb_ℤ, ◌≡◌, refl, ap, sym, ◌∙◌, true, false, Option, some, arith, eq_iff,
  if◌then◌else◌, Bool, Bool-cases, inl, inr,
}
use mathlib.Core.Path.{subst}
use pgcqrs.Base.Table
use pgcqrs.Base.Table.{ids_key, named_key}
use pgcqrs.Wire.{Error, Result, ok, err, heartbeat_conflict}
use pgcqrs.Storage.State.{
  Db, Tx, Server, LockRow, PositionRow, stream_id, insert_name, begin, in_tx, transact, rollback,
}
use pgcqrs.Storage.Valid.{resolve-cases, id_after, same_locks, same_positions, same_streams}
use pgcqrs.Storage.Outcomes.{then_do-state}
use pgcqrs.Storage.Positions.{position_row, advances}
use pgcqrs.Storage.Positions.Keeps.{upsert_position-advances, upsert_position-behind}
use pgcqrs.Storage.Locks.{lock_row}
use pgcqrs.Storage.Heartbeat.{
  get_conflict_version, check_lock_state, update_lock_heartbeat, update_position, renew_row,
  renewed_row, renewable, commit_or_conflict, store_position, heartbeat_within_tx,
  heartbeat_with_position,
}

transact-err {ℓ} :
    {A : Type ℓ} (r : Result A × Tx) (e : Error) (db : Db)
    → transact r ≡ (err e, db)
    → db ≡ rollback r.1
transact-err (err e', tx) e db h = sym (ap (λ p. p.1) h)
transact-err (ok a, tx) e db h = absurd (ground (arith, ap (λ p. p.0) h))

module _ (server : Server) (d s c holder : String) where
  module _ (base : Db) where
    abbrev From : Tx → Type 0
    From tx = tx.committed ≡ base

    commit-From :
        (position : ℤ) (written : Bool) (tx : Tx)
        → From tx
        → From (commit_or_conflict server d s c holder position written tx).1
    unfolding commit_or_conflict
    commit-From position false tx h = h
    commit-From position true tx h = elim (Bool-cases (server.fails "commit heartbeat")) [
      | inl e ↦ rw e h
      | inr e ↦ rw e h
    ]

    store-From :
        (id : ℕ) (position : ℤ) (state : Option LockRow) (written : Bool) (tx : Tx)
        → From tx
        → From (store_position server d s c holder id position state written tx).1
    unfolding store_position
    store-From id position state false tx h = h
    store-From id position state true tx h =
        then_do-state From (in_tx tx (update_position server d s c id position tx.work)) _ h
          (commit-From position)

    within-From :
        (id : ℕ) (position : ℤ) (tx : Tx)
        → From tx
        → From (heartbeat_within_tx server d s c holder id position tx).1
    unfolding heartbeat_within_tx
    within-From id position tx h =
        then_do-state From (in_tx tx (check_lock_state server d s id tx.work)) _ h (λ state t k.
          then_do-state From (in_tx t (update_lock_heartbeat server d s id holder t.work)) _ k
            (store-From id position state))

  abbrev Same : Db → Db → Type 0
  Same db db' = (db'.locks ≡ db.locks) × (db'.positions ≡ db.positions)

  inserted-Same : (db : Db) → Same db (insert_name c db)
  inserted-Same db = (same_locks c db, same_positions c db)

  rolled-Same : (db : Db) (tx : Tx) → tx.committed ≡ insert_name c db → Same db (rollback tx)
  rolled-Same db tx e =
      (ap (λ x. x.locks) e ∙ same_locks c db, ap (λ x. x.positions) e ∙ same_positions c db)

  atomic-pair :
      (position : ℤ) (db db' : Db) (e : Error)
      → heartbeat_with_position server d s c holder position db ≡ (err e, db')
      → (db'.locks ≡ db.locks) × (db'.positions ≡ db.positions)
  unfolding heartbeat_with_position
  atomic-pair position db db' e h = elim (resolve-cases server c db) [
    | inr (op, mid, r, q, f) ↦
        subst (Same db) (ap (λ p. p.1) (rw r at h))
          (elim q [ inl k ↦ rw k (refl, refl) | inr k ↦ rw k (inserted-Same db) ])
    | inl r ↦ elim (Bool-cases (server.fails "begin heartbeat transaction")) [
      | inl f ↦ subst (Same db) (ap (λ p. p.1) (rw (r, f) at h)) (inserted-Same db)
      | inr f ↦
          let tx =
            heartbeat_within_tx server d s c holder (id_after c db) position
              (begin (insert_name c db)) in
          subst (Same db) (sym (transact-err tx e db' (rw (r, f) at h))) (
            rolled-Same db tx.1 (
              within-From (insert_name c db) (id_after c db) position (begin (insert_name c db))
                refl))
    ]
  ]

  -- Where HeartbeatWithPosition returns an error, whichever it is, every lock and every position is as it
  -- was.
  pub heartbeat_atomic :
      (position : ℤ) (db : Db) (e : Error)
      → (heartbeat_with_position server d s c holder position db).0 ≡ err e
      → ((heartbeat_with_position server d s c holder position db).1.locks ≡ db.locks)
        × ((heartbeat_with_position server d s c holder position db).1.positions ≡ db.positions)
  heartbeat_atomic position db e h =
      let r = heartbeat_with_position server d s c holder position db in
      atomic-pair position db r.1 e (ap (λ a. (a, r.1)) h)

  module _ (working : (op : String) → server.fails op ≡ false) where
    renewed_db : ℕ → ℕ → LockRow → Db → Db
    renewed_db sid id row db = record db {
      locks = Table.upsert db.locks (sid, id) (renewed_row server d s row);
    }

    moved_db : ℕ → ℕ → ℤ → Db → Db
    moved_db sid id position db = record db {
      positions =
          Table.upsert db.positions (sid, c)
            (record { consumer_id = some id; event_id = position });
    }

    update-renewed :
        (sid id : ℕ) (row : LockRow) (db : Db)
        → stream_id db d s ≡ some sid
        → lock_row db sid id ≡ some row
        → renewable server d s holder row ≡ true
        → update_lock_heartbeat server d s id holder db ≡ (ok true, renewed_db sid id row db)
    unfolding update_lock_heartbeat renew_row renewed_db
    update-renewed sid id row db at found own =
        rw (working "heartbeat lock update", at) (rw (renew_row, found, own) refl)

    position-moved :
        (sid id : ℕ) (position : ℤ) (db : Db)
        → stream_id db d s ≡ some sid
        → advances (position_row db sid c) position ≡ true
        → update_position server d s c id position db ≡ (ok true, moved_db sid id position db)
    unfolding update_position moved_db
    position-moved sid id position db at ahead =
        rw (working "heartbeat position update", at)
          (rw (upsert_position-advances sid c id position db ahead) refl)

    within-renews :
        (sid id : ℕ) (row : LockRow) (position : ℤ) (db : Db)
        → stream_id db d s ≡ some sid
        → lock_row db sid id ≡ some row
        → renewable server d s holder row ≡ true
        → advances (position_row db sid c) position ≡ true
        → heartbeat_within_tx server d s c holder id position (begin db) ≡ (
          ok tt,
          record { committed = db; work = moved_db sid id position (renewed_db sid id row db) },
        )
    unfolding heartbeat_within_tx check_lock_state store_position commit_or_conflict renewed_db
    within-renews sid id row position db at found own ahead =
        rw (working "check lock state", update-renewed sid id row db at found own)
          (rw
            (
              position-moved sid id position (renewed_db sid id row db) at ahead,
              working "commit heartbeat",
            )
            refl)

    module _ (sid : ℕ) (row : LockRow) (position : ℤ) (db : Db) (at : stream_id db d s ≡ some sid)
        (found : lock_row db sid (id_after c db) ≡ some row) (live : server.now < row.held_until)
        (own : row.holder ≡ holder) (ahead : advances (position_row db sid c) position ≡ true) where
      heartbeat-eq : heartbeat_with_position server d s c holder position db ≡ (
        ok tt,
        moved_db sid
            (id_after c db)
            position
            (renewed_db sid (id_after c db) row (insert_name c db)),
      )
      unfolding heartbeat_with_position
      heartbeat-eq = elim (resolve-cases server c db) [
        | inr (op, mid, r, q, f) ↦ absurd (ground (arith, f, working op))
        | inl r ↦
            rw (r, working "begin heartbeat transaction")
              (rw
                (within-renews sid (id_after c db) row position (insert_name c db)
                  (rw (same_streams c db) at) (rw (same_locks c db) found)
                  (ground (arith, live, (eq_iff row.holder holder).1 own))
                  (rw (same_positions c db) ahead))
                refl)
      ]

      -- Where no statement fails, a live lock of the caller is renewed by a position that is not behind the
      -- stored one: the lock then lasts a whole TTL from the database's time on, the stored position is the
      -- given one, and no other lock and no other position has moved.
      pub heartbeat_with_position_renews :
          ((heartbeat_with_position server d s c holder position db).0 ≡ ok tt)
          × ((i j : ℕ)
              → lock_row (heartbeat_with_position server d s c holder position db).1 i j ≡ (
                  if Table.same_ids (sid, id_after c db) (i, j)
                  then some (renewed_row server d s row)
                  else lock_row db i j))
          × ((i : ℕ) (c' : String)
              → position_row (heartbeat_with_position server d s c holder position db).1 i c' ≡ (
                  if Table.same_named (sid, c) (i, c')
                  then some (record { consumer_id = some (id_after c db); event_id = position })
                  else position_row db i c'))
          × ((renewed_row server d s row).held_until ≡ server.now + row.ttl)
          × ((renewed_row server d s row).holder ≡ holder)
      unfolding moved_db renewed_db renewed_row
      heartbeat_with_position_renews = rw heartbeat-eq (
        refl,
        (λ i j. rw (Table.find-upsert, same_locks c db) refl),
        (λ i c'. rw (Table.find-upsert, same_positions c db) refl),
        refl,
        own,
      )

    module _ (sid : ℕ) (row : LockRow) (stored : PositionRow) (position : ℤ)
        (behind : leb_ℤ stored.event_id position ≡ false) where
      position-behind :
          (id : ℕ) (db : Db)
          → stream_id db d s ≡ some sid
          → position_row db sid c ≡ some stored
          → update_position server d s c id position db ≡ (ok false, db)
      unfolding update_position
      position-behind id db at e =
          rw (working "heartbeat position update", at)
            (rw (upsert_position-behind sid c id position stored db e behind) refl)

      version :
          (db : Db)
          → stream_id db d s ≡ some sid
          → position_row db sid c ≡ some stored
          → get_conflict_version server d s c db ≡ stored.event_id
      unfolding get_conflict_version
      version db at e = rw (working "get conflict version", at) (rw e refl)

      within-conflicts :
          (id : ℕ) (db : Db)
          → stream_id db d s ≡ some sid
          → lock_row db sid id ≡ some row
          → renewable server d s holder row ≡ true
          → position_row db sid c ≡ some stored
          → heartbeat_within_tx server d s c holder id position (begin db) ≡ (
            err (heartbeat_conflict position stored.event_id),
            record { committed = db; work = renewed_db sid id row db },
          )
      unfolding heartbeat_within_tx check_lock_state store_position commit_or_conflict renewed_db
      within-conflicts id db at found own e =
          rw (working "check lock state", update-renewed sid id row db at found own)
            (rw (position-behind id (renewed_db sid id row db) at e, version db at e) refl)

      -- A position behind the stored one is a conflict that names both.
      pub heartbeat_conflicts :
          (db : Db)
          → stream_id db d s ≡ some sid
          → lock_row db sid (id_after c db) ≡ some row
          → server.now < row.held_until
          → row.holder ≡ holder
          → position_row db sid c ≡ some stored
          → heartbeat_with_position server d s c holder position db
            ≡ (err (heartbeat_conflict position stored.event_id), insert_name c db)
      unfolding heartbeat_with_position renewed_db
      heartbeat_conflicts db at found live own e = elim (resolve-cases server c db) [
        | inr (op, mid, r, q, f) ↦ absurd (ground (arith, f, working op))
        | inl r ↦
            rw (r, working "begin heartbeat transaction")
              (rw
                (within-conflicts (id_after c db) (insert_name c db) (rw (same_streams c db) at)
                  (rw (same_locks c db) found)
                  (ground (arith, live, (eq_iff row.holder holder).1 own))
                  (rw (same_positions c db) e))
                refl)
      ]
