-- ===== src/Storage/Heartbeat.antt =====
-- HeartbeatWithPosition of ConsumerStore (internal/service/storage/consumer.go): the renewal of a lock
-- and the update of its consumer's position in one transaction. The proofs are in the module below.
pub mod Keeps
pub mod Effects
use pgcqrs.Base.{
  ℕ, ◌+◌, String, ◌==◌, ℤ, pos, Bool, true, false, not, ◌&&◌, Option, none, some, List, [],
  if◌then◌else◌, ltb,
}
use pgcqrs.Base.Table
use pgcqrs.Base.Table.{ids_key}
use pgcqrs.Wire.{
  Error, Result, ok, err, lock_not_held, lock_expired, lock_not_found, heartbeat_conflict,
  database_failed,
}
use pgcqrs.Storage.State.{
  Db, Tx, LockRow, Server, stream_id, resolve_consumer_name, failing, ◌then_do◌, transact, begin,
  in_tx,
}
use pgcqrs.Storage.Positions.{position_row, event_of, upsert_position}
use pgcqrs.Storage.Locks.{lock_row, joined_lock}

module _ (server : Server) (domain stream : String) where
  -- The row is Go's lockState: `exists` is whether there is one.
  pub check_lock_state : ℕ → Db → Result (Option LockRow) × Db
  check_lock_state consumer_id db =
      failing server "check lock state" db (ok (joined_lock db domain stream consumer_id), db)

  pub renewed_row : LockRow → LockRow
  renewed_row row = record row {
    heartbeat_at = server.now;
    guarantee_until = server.now + server.fraction_of row.ttl;
    held_until = server.now + row.ttl;
  }

  -- `AND holder = $5 AND held_until > NOW()`
  abbrev pub renewable : String → LockRow → Bool
  renewable holder row = row.holder == holder && ltb server.now row.held_until

  -- The UPDATE: whether a row was written.
  pub renew_row : ℕ → ℕ → String → Db → Bool × Db
  unfolding renewed_row
  renew_row sid consumer_id holder db = elim (lock_row db sid consumer_id) [
    | none ↦ (false, db)
    | some row ↦
        if renewable holder row
        then (
          true,
          record db { locks = Table.upsert db.locks (sid, consumer_id) (renewed_row row) },
        )
        else (false, db)
  ]

  pub update_lock_heartbeat : ℕ → String → Db → Result Bool × Db
  unfolding renew_row
  update_lock_heartbeat consumer_id holder db =
      failing server "heartbeat lock update" db (elim (stream_id db domain stream) [
        | none ↦ (ok false, db)
        | some sid ↦ let (written, db') = renew_row sid consumer_id holder db in (ok written, db')
      ])

  pub update_position : String → ℕ → ℤ → Db → Result Bool × Db
  update_position consumer consumer_id position db =
      failing server "heartbeat position update" db (elim (stream_id db domain stream) [
        | none ↦ (ok false, db)
        | some sid ↦
            let (written, db') = upsert_position sid consumer consumer_id position db in
            (ok written, db')
      ])

  abbrev pub or_zero : Option ℤ → ℤ
  or_zero none = pos 0
  or_zero (some p) = p

  -- Reads what is committed; a failure reads as 0.
  pub get_conflict_version : String → Db → ℤ
  get_conflict_version consumer db =
      if server.fails "get conflict version" then pos 0 else elim (stream_id db domain stream) [
        | none ↦ pos 0
        | some sid ↦ or_zero (event_of (position_row db sid consumer))
      ]

  module _ (consumer holder : String) where
    pub resolve_lock_error : Option LockRow → Error
    resolve_lock_error none = lock_not_found domain stream consumer holder
    resolve_lock_error (some row) =
        if not (row.holder == holder)
        then lock_not_held consumer holder domain stream
        else if ltb row.held_until server.clock
        then lock_expired consumer domain stream
        else lock_not_found domain stream consumer holder

    pub commit_or_conflict : ℤ → Bool → Tx → Result (Unit {0}) × Tx
    unfolding get_conflict_version
    commit_or_conflict position false tx =
        (err (heartbeat_conflict position (get_conflict_version consumer tx.committed)), tx)
    commit_or_conflict position true tx =
        if server.fails "commit heartbeat" then (err database_failed, tx) else (ok tt, tx)

    -- From the result of the UPDATE on.
    pub store_position : ℕ → ℤ → Option LockRow → Bool → Tx → Result (Unit {0}) × Tx
    unfolding resolve_lock_error update_position commit_or_conflict
    store_position consumer_id position state false tx = (err (resolve_lock_error state), tx)
    store_position consumer_id position state true tx =
        in_tx tx (update_position consumer consumer_id position tx.work)
        then_do commit_or_conflict position

    pub heartbeat_within_tx : ℕ → ℤ → Tx → Result (Unit {0}) × Tx
    unfolding check_lock_state update_lock_heartbeat store_position
    heartbeat_within_tx consumer_id position tx =
        in_tx tx (check_lock_state consumer_id tx.work) then_do λ state tx'.
        in_tx tx' (update_lock_heartbeat consumer_id holder tx'.work)
        then_do store_position consumer_id position state

    pub heartbeat_with_position : ℤ → Db → Result (Unit {0}) × Db
    unfolding heartbeat_within_tx
    heartbeat_with_position position db =
        resolve_consumer_name server consumer db then_do λ consumer_id db'.
        failing server "begin heartbeat transaction" db'
          (transact (heartbeat_within_tx consumer_id position (begin db')))
