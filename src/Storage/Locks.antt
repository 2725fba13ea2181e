-- ===== src/Storage/Locks.antt =====
-- Consumer locks of ConsumerStore: TryAcquire with the clean-up of expired locks, Release, GetLock,
-- ListLocks and ResolveAndCheckLock of internal/service/storage/consumer.go. The proofs are in the
-- modules below.
pub mod Keeps
pub mod Clean
pub mod Acquire
use pgcqrs.Base.{
  ℕ, suc, zero, ◌+◌, String, ◌==◌, ℤ, pos, negsuc, leb_ℤ, Bool, true, false, not, ◌&&◌, ◌||◌,
  Option, none, some, List, [], ◌∷◌, if◌then◌else◌, eqb, ltb, leb,
}
use pgcqrs.Base.Map
use pgcqrs.Base.Map.{Map}
use pgcqrs.Base.Table
use pgcqrs.Base.Table.{ids_key}
use pgcqrs.Wire.{
  Lock, LockResult, LockState, Error, Result, ok, err, stream_not_found, lock_not_held, ttl_too_low,
  invalid_parameters, operation_failed, database_failed, lock_minimum_ttl, Runtime,
}
use pgcqrs.Storage.State.{
  Db, Tx, LockRow, PositionRow, LockReleasedInfo, Server, stream_id, name_of, resolve_consumer_name,
  failing, ◌then_do◌, transact, begin, in_tx, rollback,
}

-- The row of a stream and a consumer.
abbrev pub lock_row : Db → ℕ → ℕ → Option LockRow
lock_row db sid consumer_id = Table.find db.locks (sid, consumer_id)

-- `consumer_locks cl JOIN events_stream es`, of the stream and the consumer
unfoldable pub joined_lock : Db → String → String → ℕ → Option LockRow
joined_lock db domain stream consumer_id = elim (stream_id db domain stream) [
  | none ↦ none
  | some sid ↦ lock_row db sid consumer_id
]

-- `held_until > NOW()`
abbrev pub active : ℕ → Option LockRow → Option LockRow
active now none = none
active now (some row) = if ltb now row.held_until then some row else none

-- cleanExpiredLocks: `es.app = $1 AND es.stream = $2 AND cl.held_until < NOW() AND cl.consumer_id != $3`
abbrev pub expired_row : ℕ → ℕ → ℕ → (ℕ × ℕ) → LockRow → Bool
expired_row now sid exclude key row =
    eqb key.0 sid && ltb row.held_until now && not (eqb key.1 exclude)

-- The subselect with its LIMIT.
pub select_expired : ℕ → ℕ → ℕ → ℕ → List ((ℕ × ℕ) × LockRow) → List ((ℕ × ℕ) × LockRow)
select_expired now sid exclude limit [] = []
select_expired now sid exclude zero (row ∷ rows) = []
select_expired now sid exclude (suc limit) ((key, row) ∷ rows) =
    elim (expired_row now sid exclude key row) [
      | true ↦ (key, row) ∷ select_expired now sid exclude limit rows
      | false ↦ select_expired now sid exclude (suc limit) rows
    ]

abbrev pub selected : List ((ℕ × ℕ) × LockRow) → ℕ × ℕ → Bool
selected [] key = false
selected ((k, _) ∷ rest) key = Table.same_ids k key || selected rest key

-- DELETE ... WHERE ctid IN (the selected rows)
pub delete_selected : List ((ℕ × ℕ) × LockRow) → Db → Db
delete_selected rows db = record db {
  locks = Table.delete_where (λ key row. selected rows key) db.locks;
}

-- The result rows, joined with their names.
pub released_infos : Map ℕ → String → String → List ((ℕ × ℕ) × LockRow) → List LockReleasedInfo
released_infos names domain stream [] = []
released_infos names domain stream ((key, row) ∷ rows) =
    let rest = released_infos names domain stream rows in
    elim (name_of names key.1) [
      | none ↦ rest
      | some name ↦
          record { domain = domain; stream = stream; consumer = name; holder = row.holder } ∷ rest
    ]

-- `MAX(event_id)` of two
abbrev pub max_event : Option ℤ → ℤ → ℤ
max_event none p = p
max_event (some q) p = if leb_ℤ q p then p else q

-- queryPositionInTx: MAX(event_id) WHERE stream_id = $1 AND (consumer_id = $2 OR (consumer_id IS NULL
-- AND consumer = $3))
abbrev pub position_of : ℕ → String → String → Option ℕ → Bool
position_of consumer_id consumer text none = text == consumer
position_of consumer_id consumer text (some id) = eqb id consumer_id

pub max_position : ℕ → ℕ → String → List ((ℕ × String) × PositionRow) → Option ℤ
max_position sid consumer_id consumer [] = none
max_position sid consumer_id consumer (((id, text), row) ∷ rows) =
    let rest = max_position sid consumer_id consumer rows in
    if eqb id sid && position_of consumer_id consumer text row.consumer_id
    then some (max_event rest row.event_id)
    else rest

-- `COALESCE(..., 0)`
abbrev pub coalesce : Option ℤ → ℤ
coalesce none = pos 0
coalesce (some p) = p

abbrev pub holder_or_empty : Option LockRow → String
holder_or_empty none = ""
holder_or_empty (some row) = row.holder

module _ (rt : Runtime) (server : Server) (domain stream : String) where
  -- Runs beside the transaction: others see at once what it deletes.
  pub clean_expired_locks : ℕ → ℕ → Tx → List LockReleasedInfo × Tx
  unfolding select_expired delete_selected released_infos
  clean_expired_locks sid exclude tx =
      if server.fails "clean expired locks"
      then ([], tx)
      else let rows = select_expired server.clean_now sid exclude 128 tx.committed.locks in
        (
          released_infos tx.committed.names domain stream rows,
          record {
            committed = delete_selected rows tx.committed;
            work = delete_selected rows tx.work;
          },
        )

  pub query_position_in_tx : ℕ → ℕ → String → Db → Result ℤ × Db
  unfolding max_position
  query_position_in_tx sid consumer_id consumer db =
      failing server "query position in acquire" db
        (ok (coalesce (max_position sid consumer_id consumer db.positions)), db)

  pub resolve_stream_id : Db → Result ℕ × Db
  resolve_stream_id db = failing server "resolve stream" db (elim (stream_id db domain stream) [
    | none ↦ (err (stream_not_found domain stream), db)
    | some sid ↦ (ok sid, db)
  ])

  pub query_conflict_holder : ℕ → ℕ → Db → Result String × Db
  query_conflict_holder sid consumer_id db =
      failing server "query conflict holder" db
        (ok (holder_or_empty (active server.now (lock_row db sid consumer_id))), db)

  module _ (consumer holder : String) (ttl : ℕ) where
    pub acquired_row : LockRow
    acquired_row = record {
      holder = holder;
      acquired_at = server.now;
      heartbeat_at = server.now;
      ttl = ttl;
      guarantee_until = server.guarantee_clock + rt.guarantee ttl;
      held_until = server.clock + ttl;
    }

    -- `consumer_locks.held_until < NOW() OR consumer_locks.holder = EXCLUDED.holder`, or no conflict
    abbrev pub can_take : Option LockRow → Bool
    can_take none = true
    can_take (some row) = ltb row.held_until server.now || row.holder == holder

    -- The INSERT ... ON CONFLICT ... RETURNING holder: whether it returned a row.
    pub upsert_lock : ℕ → ℕ → Db → Bool × Db
    unfolding acquired_row
    upsert_lock sid consumer_id db =
        if can_take (lock_row db sid consumer_id)
        then (true, record db { locks = Table.upsert db.locks (sid, consumer_id) acquired_row })
        else (false, db)

    unfoldable pub lock_result : Bool → String → ℤ → LockResult
    lock_result acquired held_by position = record {
      acquired = acquired;
      held_by = held_by;
      guarantee_until = server.guarantee_clock + rt.guarantee ttl;
      held_until = server.clock + ttl;
      position = position;
    }

    pub build_acquired_result : ℕ → ℕ → Tx → Result (LockResult × List LockReleasedInfo) × Tx
    unfolding clean_expired_locks query_position_in_tx lock_result
    build_acquired_result sid consumer_id tx =
        let (expired, tx') = clean_expired_locks sid consumer_id tx in
        in_tx tx' (query_position_in_tx sid consumer_id consumer tx'.work) then_do λ position tx''.
        (ok (lock_result true holder position, expired), tx'')

    pub refused_result : ℕ → ℕ → Tx → Result (LockResult × List LockReleasedInfo) × Tx
    unfolding query_conflict_holder lock_result
    refused_result sid consumer_id tx =
        in_tx tx (query_conflict_holder sid consumer_id tx.work) then_do λ current tx'.
        (ok (lock_result false current (negsuc 0), []), tx')

    -- From the INSERT on.
    pub acquire_or_refuse : ℕ → ℕ → Tx → Result (LockResult × List LockReleasedInfo) × Tx
    unfolding upsert_lock build_acquired_result refused_result
    acquire_or_refuse sid consumer_id tx = failing server "try acquire lock" tx (
        let (taken, db) = upsert_lock sid consumer_id tx.work in
        let tx' = record tx { work = db } in
        if taken
        then build_acquired_result sid consumer_id tx'
        else refused_result sid consumer_id tx')

    pub try_acquire_in_tx : Tx → Result (LockResult × List LockReleasedInfo) × Tx
    unfolding resolve_stream_id acquire_or_refuse
    try_acquire_in_tx tx = failing server "advisory lock" tx (
        in_tx tx (resolve_consumer_name server consumer tx.work) then_do λ consumer_id tx'.
        in_tx tx' (resolve_stream_id tx'.work) then_do λ sid tx''.
        acquire_or_refuse sid consumer_id tx'')

    -- Where the commit fails, what the transaction wrote is lost.
    pub acquire_and_commit : Tx → Result (LockResult × List LockReleasedInfo) × Tx
    unfolding try_acquire_in_tx
    acquire_and_commit tx = try_acquire_in_tx tx then_do λ result tx'.
        failing server "commit acquire" tx' (ok result, tx')

    pub try_acquire : Db → Result (LockResult × List LockReleasedInfo) × Db
    unfolding acquire_and_commit
    try_acquire db =
        if ltb ttl lock_minimum_ttl
        then (err (ttl_too_low ttl lock_minimum_ttl), db)
        else failing server "begin acquire transaction" db
            (transact (acquire_and_commit (begin db)))

  pub query_active_lock : ℕ → Db → Result (Option LockRow) × Db
  query_active_lock consumer_id db =
      failing server "query lock for release" db
        (ok (active server.now (joined_lock db domain stream consumer_id)), db)

  -- `none` where there is no active lock.
  pub query_and_validate_lock : ℕ → String → String → Db → Result (Option LockRow) × Db
  unfolding query_active_lock
  query_and_validate_lock consumer_id consumer holder db =
      query_active_lock consumer_id db then_do λ info db'. elim info [
        | none ↦ (ok none, db')
        | some row ↦
            if not (row.holder == holder)
            then (err (lock_not_held consumer holder domain stream), db')
            else (ok (some row), db')
      ]

  -- deleteLockAndRecordMetrics: it deletes the row whatever its holder is by now.
  pub delete_lock : ℕ → Db → Result (Unit {0}) × Db
  delete_lock consumer_id db = failing server "release lock" db (
    ok tt,
    elim (stream_id db domain stream) [
      | none ↦ db
      | some sid ↦ record db {
        locks = Table.delete_where (λ key row. Table.same_ids key (sid, consumer_id)) db.locks;
      }
    ],
  )

  pub validate_release_params : String → String → Result (Unit {0})
  validate_release_params consumer holder =
      if domain == "" || stream == "" || consumer == "" || holder == ""
      then err invalid_parameters
      else ok tt

  pub release_found :
      String → String → ℕ → Option LockRow → Db → Result (Option LockReleasedInfo) × Db
  unfolding delete_lock
  release_found consumer holder consumer_id none db = (ok none, db)
  release_found consumer holder consumer_id (some row) db =
      delete_lock consumer_id db then_do λ done db'. (
        ok (
            some
              (record { domain = domain; stream = stream; consumer = consumer; holder = holder })),
        db',
      )

  pub release : String → String → Db → Result (Option LockReleasedInfo) × Db
  unfolding validate_release_params query_and_validate_lock release_found
  release consumer holder db = (validate_release_params consumer holder, db) then_do λ valid db₀.
      resolve_consumer_name server consumer db₀ then_do λ consumer_id db₁.
      query_and_validate_lock consumer_id consumer holder db₁
      then_do release_found consumer holder consumer_id

  abbrev pub shown : String → LockRow → LockState
  shown name row = record {
    consumer = name;
    domain = domain;
    stream = stream;
    holder = row.holder;
    acquired_at = row.acquired_at;
    heartbeat_at = row.heartbeat_at;
    ttl = row.ttl;
    guarantee_until = row.guarantee_until;
    held_until = row.held_until;
  }

  -- The row joined with its name, unless the lock's time has passed by Go's clock.
  abbrev pub found_lock : Option String → Option LockRow → Option LockState
  found_lock (some name) (some row) =
      if ltb row.held_until server.clock then none else some (shown name row)
  found_lock _ _ = none

  pub get_lock : String → Db → Result (Option LockState) × Db
  get_lock consumer db = resolve_consumer_name server consumer db then_do λ consumer_id db'.
      failing server "get lock" db' (
        ok (found_lock (name_of db'.names consumer_id) (joined_lock db' domain stream consumer_id)),
        db',
      )

  -- ORDER BY cl.acquired_at
  pub insert_by_time : LockState → List LockState → List LockState
  insert_by_time l [] = l ∷ []
  insert_by_time l (x ∷ xs) =
      let rest = insert_by_time l xs in
      if leb l.acquired_at x.acquired_at then l ∷ x ∷ xs else x ∷ rest

  pub active_locks : ℕ → Map ℕ → List ((ℕ × ℕ) × LockRow) → List LockState
  unfolding insert_by_time
  active_locks sid names [] = []
  active_locks sid names ((key, row) ∷ rows) =
      let rest = active_locks sid names rows in
      if not (eqb key.0 sid && ltb server.now row.held_until)
      then rest
      else elim (name_of names key.1) [
        | none ↦ rest
        | some name ↦ insert_by_time (shown name row) rest
      ]

  pub list_locks : Db → Result (List LockState) × Db
  unfolding active_locks
  list_locks db = failing server "list locks" db (elim (stream_id db domain stream) [
    | none ↦ (ok [], db)
    | some sid ↦ (ok (active_locks sid db.names db.locks), db)
  ])

  abbrev pub held_by : String → Option LockRow → Bool
  held_by holder none = false
  held_by holder (some row) = row.holder == holder

  -- Within the caller's transaction.
  unfoldable pub resolve_and_check_lock : Lock → Tx → Result (Unit {0}) × Tx
  resolve_and_check_lock lock tx =
      in_tx tx (resolve_consumer_name server lock.consumer tx.work) then_do λ consumer_id tx'.
      if server.fails "check lock"
      then (err database_failed, tx')
      else if held_by lock.holder
          (active server.now (joined_lock tx'.work domain stream consumer_id))
      then (ok tt, tx')
      else (err (lock_not_held lock.consumer lock.holder domain stream), tx')
