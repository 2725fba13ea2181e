-- ===== src/Storage/Locks/Acquire.antt =====
-- TryAcquire of ConsumerStore where no statement fails: both outcomes, with the lock that is written,
-- the position that is reported, and what happens to the other locks.
use pgcqrs.Base.{
  ℕ, ◌≤◌, String, ◌==◌, negsuc, ◌≡◌, ◌≢◌, refl, ap, sym, ◌∙◌, true, false, Option, some, none,
  arith, eq_iff, if◌then◌else◌, Bool-cases, inl, inr, ltb, List, [], ◌∷◌,
}
use pgcqrs.Base.Map
use pgcqrs.Base.Map.{Map, IsKeyed}
use pgcqrs.Base.Table
use pgcqrs.Base.Table.{ids_key, named_key, Each, IsTable}
use pgcqrs.Wire.{LockResult, Result, ok, Runtime, lock_minimum_ttl}
use pgcqrs.Storage.State.{
  Db, Tx, Server, LockRow, LockReleasedInfo, PositionRow, stream_id, insert_name, begin,
}
use pgcqrs.Storage.Valid.{
  IsValid, Linked, resolve-cases, id_after, id_after-get, same_locks, same_positions, same_streams,
  insert_name-IsValid,
}
use pgcqrs.Storage.Positions.{event_of, position_row, deleted}
use pgcqrs.Storage.Positions.Refines.{deleted-Linked}
use pgcqrs.Storage.Locks.{
  lock_row, active, can_take, acquired_row, select_expired, delete_selected, selected,
  released_infos, upsert_lock, clean_expired_locks, build_acquired_result, refused_result,
  acquire_or_refuse, try_acquire_in_tx, acquire_and_commit, try_acquire, resolve_stream_id,
  query_position_in_tx, query_conflict_holder, max_position, position_of, coalesce, lock_result,
  holder_or_empty,
}
use pgcqrs.Storage.Locks.Clean.{find-delete_selected, live-selected, excluded-selected}

module _ (names : Map ℕ) (keyed : IsKeyed names)
    (apart : (a b : String) (i : ℕ) → Map.get names a ≡ some i → Map.get names b ≡ some i → a ≡ b)
    (c : String) (id : ℕ) (named : Map.get names c ≡ some id) where
  position_of-Linked :
      (key : ℕ × String) (row : PositionRow)
      → Linked names key row
      → position_of id c key.1 row.consumer_id ≡ (key.1 == c)
  position_of-Linked key row linked =
      sym (as_deleted row.consumer_id)
      ∙ ap (λ n. deleted n c key.1 row.consumer_id) (sym named)
      ∙ deleted-Linked names keyed apart c key row linked
    where
      as_deleted : (o : Option ℕ) → deleted (some id) c key.1 o ≡ position_of id c key.1 o
      as_deleted none = refl
      as_deleted (some i) = refl

  max_position-find :
      (sid : ℕ) (rows : List ((ℕ × String) × PositionRow))
      → IsTable rows
      → Each (Linked names) rows
      → max_position sid id c rows ≡ event_of (Table.find rows (sid, c))
  unfolding max_position Table.find
  max_position-find sid [] h k = refl
  max_position-find sid ((key, row) ∷ rows) h k =
      rw (position_of-Linked key row k.0, max_position-find sid rows h.1 k.1)
        (elim (Bool-cases (Table.same_named key (sid, c))) [
          | inl t ↦ rw (t, ← (Table.same_named_iff key (sid, c)).0 t, h.0) refl
          | inr t ↦ rw t refl
        ])

shown_holder :
    (now : ℕ) (row : LockRow)
    → holder_or_empty (active now (some row)) ≡ (if ltb now row.held_until then row.holder else "")
shown_holder now row = elim (Bool-cases (ltb now row.held_until)) [
  | inl e ↦ rw e refl
  | inr e ↦ rw e refl
]

module _ (rt : Runtime) (server : Server) (working : (op : String) → server.fails op ≡ false)
    (d s c holder : String) (ttl : ℕ) where
  module _ (sid id : ℕ) where
    locked_db : Db → Db
    locked_db db = record db {
      locks = Table.upsert db.locks (sid, id) (acquired_row rt server d s c holder ttl);
    }

    swept : Db → List ((ℕ × ℕ) × LockRow)
    swept db = select_expired server.clean_now sid id 128 db.locks

    -- Nobody holds the lock against the caller: the transaction's rest.
    granted :
        (tx : Tx)
        → can_take rt server d s c holder ttl (lock_row tx.work sid id) ≡ true
        → acquire_or_refuse rt server d s c holder ttl sid id tx ≡ (
          ok (
            lock_result rt server d s c holder ttl true holder
                (coalesce (max_position sid id c tx.work.positions)),
            released_infos tx.committed.names d s (swept tx.committed),
          ),
          record {
            committed = delete_selected (swept tx.committed) tx.committed;
            work = delete_selected (swept tx.committed) (locked_db tx.work);
          },
        )
    unfolding acquire_or_refuse upsert_lock build_acquired_result clean_expired_locks
        query_position_in_tx locked_db swept delete_selected
    granted tx e =
        rw (working "try acquire lock", e)
          (rw (working "clean expired locks", working "query position in acquire") refl)

    refused :
        (tx : Tx)
        → can_take rt server d s c holder ttl (lock_row tx.work sid id) ≡ false
        → acquire_or_refuse rt server d s c holder ttl sid id tx ≡ (
          ok (
            lock_result rt server d s c holder ttl false
                (holder_or_empty (active server.now (lock_row tx.work sid id)))
                (negsuc 0),
            [],
          ),
          tx,
        )
    unfolding acquire_or_refuse upsert_lock refused_result query_conflict_holder
    refused tx e = rw (working "try acquire lock", e) (rw (working "query conflict holder") refl)

  resolved :
      (sid : ℕ) (db : Db)
      → stream_id db d s ≡ some sid
      → resolve_stream_id rt server d s db ≡ (ok sid, db)
  unfolding resolve_stream_id
  resolved sid db at = rw (at, working "resolve stream") refl

  module _ (sid : ℕ) (db : Db) (enough : lock_minimum_ttl ≤ ttl)
      (at : stream_id db d s ≡ some sid) where
    abbrev named_tx : Tx
    named_tx = record { committed = db; work = insert_name c db }

    in_tx-eq :
        try_acquire_in_tx rt server d s c holder ttl (begin db)
        ≡ acquire_or_refuse rt server d s c holder ttl sid (id_after c db) named_tx
    unfolding try_acquire_in_tx
    in_tx-eq = elim (resolve-cases server c db) [
      | inr (op, mid, r, q, f) ↦ absurd (ground (arith, f, working op))
      | inl r ↦
          rw (working "advisory lock", r)
            (rw (resolved sid (insert_name c db) (rw (same_streams c db) at)) refl)
    ]

    -- The whole call from what the transaction leaves.
    whole :
        (r : LockResult × List LockReleasedInfo) (tx : Tx)
        → acquire_or_refuse rt server d s c holder ttl sid (id_after c db) named_tx ≡ (ok r, tx)
        → try_acquire rt server d s c holder ttl db ≡ (ok r, tx.work)
    unfolding try_acquire acquire_and_commit
    whole r tx e =
        rw (too_low, working "begin acquire transaction", in_tx-eq, e, working "commit acquire")
          refl
      where
        too_low : ltb ttl lock_minimum_ttl ≡ false
        too_low = ground (arith, enough)

    abbrev id : ℕ
    id = id_after c db

    abbrev outcome : Result (LockResult × List LockReleasedInfo) × Db
    outcome = try_acquire rt server d s c holder ttl db

    -- While somebody else holds the lock, TryAcquire with an allowed TTL refuses it: it names the holder, if
    -- the lock's time has not come to its end at this moment, and changes no lock and no position.
    pub try_acquire_keeps_row :
        (row : LockRow)
        → lock_row db sid id ≡ some row
        → server.now ≤ row.held_until
        → row.holder ≢ holder
        → (outcome.0
            ≡ ok (
              lock_result rt server d s c holder ttl false
                  (if ltb server.now row.held_until then row.holder else "")
                  (negsuc 0),
              [],
            ))
          × (outcome.1.locks ≡ db.locks)
          × (outcome.1.positions ≡ db.positions)
    try_acquire_keeps_row row found live other =
        rw (whole _ named_tx (refused sid id named_tx taken), found')
          (
            ap (λ h. ok (lock_result rt server d s c holder ttl false h (negsuc 0), []))
                (shown_holder server.now row),
            same_locks c db,
            same_positions c db,
          )
      where
        found' : lock_row (insert_name c db) sid id ≡ some row
        found' = rw (same_locks c db) found

        taken : can_take rt server d s c holder ttl (lock_row (insert_name c db) sid id) ≡ false
        taken = rw found' (ground (arith, live, other, eq_iff row.holder holder))

    module _ (valid : IsValid db)
        (free : can_take rt server d s c holder ttl (lock_row db sid id) ≡ true) where
      granted-eq : outcome ≡ (
        ok (
          lock_result rt server d s c holder ttl true holder
              (coalesce (event_of (position_row db sid c))),
          released_infos db.names d s (swept sid id db),
        ),
        delete_selected (swept sid id db) (locked_db sid id (insert_name c db)),
      )
      granted-eq =
          whole _ _ (granted sid id named_tx free')
          ∙ ap
              (λ p. (
                ok (
                  lock_result rt server d s c holder ttl true holder (coalesce p),
                  released_infos db.names d s (swept sid id db),
                ),
                delete_selected (swept sid id db) (locked_db sid id (insert_name c db)),
              ))
              position_there
        where
          free' : can_take rt server d s c holder ttl (lock_row (insert_name c db) sid id) ≡ true
          free' = rw (same_locks c db) free

          named : IsValid (insert_name c db)
          named = insert_name-IsValid c db valid

          position_there :
              max_position sid id c (insert_name c db).positions ≡ event_of (position_row db sid c)
          position_there =
              max_position-find (insert_name c db).names named.names_keyed named.names_apart c id
                (id_after-get server c db) sid (insert_name c db).positions named.positions_keyed
                named.positions_linked
              ∙ ap (λ rows. event_of (Table.find rows (sid, c))) (same_positions c db)

      locks-after :
          (key : ℕ × ℕ)
          → Table.find outcome.1.locks key ≡ (
              if selected (swept sid id db) key
              then none
              else if Table.same_ids (sid, id) key
              then some (acquired_row rt server d s c holder ttl)
              else Table.find db.locks key)
      unfolding locked_db swept
      locks-after key =
          ap (λ r. Table.find r.1.locks key) granted-eq
          ∙ find-delete_selected (swept sid id db) (locked_db sid id (insert_name c db)) key (
              Table.upsert-IsTable (insert_name c db).locks (sid, id) _
                (insert_name-IsValid c db valid).locks_keyed)
          ∙ rw (Table.find-upsert, same_locks c db) refl

      -- Where nobody else holds the lock, TryAcquire with an allowed TTL acquires it: the result has the holder
      -- and the stored position, or 0 if there is none, the caller's lock is the new one, no position has moved,
      -- every lock that has not expired is as it was, and no other lock has appeared.
      pub try_acquire_granted :
          ((expired : List LockReleasedInfo) × (outcome.0
              ≡ ok (
                lock_result rt server d s c holder ttl true holder
                    (coalesce (event_of (position_row db sid c))),
                expired,
              )))
          × (lock_row outcome.1 sid id ≡ some (acquired_row rt server d s c holder ttl))
          × (outcome.1.positions ≡ db.positions)
          × ((i j : ℕ) (row : LockRow)
              → Table.same_ids (sid, id) (i, j) ≡ false
              → lock_row db i j ≡ some row
              → server.clean_now ≤ row.held_until
              → lock_row outcome.1 i j ≡ some row)
          × ((i j : ℕ) (row : LockRow)
              → Table.same_ids (sid, id) (i, j) ≡ false
              → lock_row outcome.1 i j ≡ some row
              → lock_row db i j ≡ some row)
      unfolding swept delete_selected locked_db
      try_acquire_granted = (
        (_, ap (λ r. r.0) granted-eq),
        rw (locks-after (sid, id), excluded-selected server.clean_now sid id 128 db.locks sid)
            (ground arith),
        ap (λ r. r.1.positions) granted-eq ∙ same_positions c db,
        (λ i j row other found live.
            rw
              (
                locks-after (i, j),
                live-selected server.clean_now sid id 128 db.locks (i, j) row valid.locks_keyed
                    found live,
                other,
              )
              found),
        (λ i j row other there. ground (arith, locks-after (i, j), other, there)),
      )
