-- ===== src/Storage/Locks/Keeps.antt =====
-- A predicate of the tables that the writes of the lock operations keep is kept by each of these
-- operations, whatever fails in it.
use pgcqrs.Base.{
  ℕ, ◌≤◌, String, ◌≡◌, refl, ap, sym, ◌∙◌, true, some, arith, Bool, List, Option-cases, Bool-cases,
  ltb, inl, inr, ◌==◌, eq_iff,
}
use pgcqrs.Base.Table
use pgcqrs.Base.Table.{ids_key, named_key}
use pgcqrs.Wire.{Runtime, Result, lock_minimum_ttl}
use pgcqrs.Storage.State.{
  Db, Tx, Server, LockRow, stream_id, insert_name, resolve_consumer_name, failing, begin, in_tx,
  ◌then_do◌,
}
use pgcqrs.Storage.Outcomes.{
  failing-state, then_do-state, transact-state, Both, resolve-state, resolve-Both,
}
use pgcqrs.Storage.Locks.{
  lock_row, can_take, acquired_row, select_expired, delete_selected, upsert_lock,
  clean_expired_locks, build_acquired_result, refused_result, acquire_or_refuse, try_acquire_in_tx,
  acquire_and_commit, try_acquire, resolve_stream_id, query_position_in_tx, query_conflict_holder,
  active, joined_lock, delete_lock, release_found, query_and_validate_lock, query_active_lock,
  validate_release_params, release, get_lock, list_locks,
}

pub joined_lock-at :
    (db : Db) (d s : String) (sid id : ℕ)
    → stream_id db d s ≡ some sid
    → joined_lock db d s id ≡ lock_row db sid id
unfolding joined_lock
joined_lock-at db d s sid id e = rw (joined_lock, e) refl

pub delete_selected-keeps {ℓ} :
    (P : Db → Type ℓ)
    → ((gone : ℕ × ℕ → LockRow → Bool) (db : Db)
        → P db
        → P (record db { locks = Table.delete_where gone db.locks }))
    → (rows : List ((ℕ × ℕ) × LockRow)) (db : Db) → P db
    → P (delete_selected rows db)
unfolding delete_selected
delete_selected-keeps P keeps rows db h = keeps _ db h

module _ {ℓ} (P : Db → Type ℓ)
    (keeps_names : (name : String) (db : Db) → P db → P (insert_name name db))
    (keeps_sequence : (db : Db) (n : ℕ)
      → db.next_name ≤ n
      → P db
      → P (record db { next_name = n })) where
  module _ (rt : Runtime) (server : Server) (d s c holder : String) (ttl : ℕ)
      (keeps_clean : (sid exclude : ℕ) (seen db : Db)
        → P seen
        → P db
        → P (delete_selected (select_expired server.clean_now sid exclude 128 seen.locks) db))
      (keeps_acquire : (sid id : ℕ) (db : Db)
        → P db
        → can_take rt server d s c holder ttl (lock_row db sid id) ≡ true
        → P (record db {
          locks = Table.upsert db.locks (sid, id) (acquired_row rt server d s c holder ttl);
        })) where
    -- A statement that only reads.
    read-Both {κ} :
        {A : Type κ} (operation : String) (tx : Tx) (r : Result A)
        → Both P tx
        → Both P (in_tx tx (failing server operation tx.work (r, tx.work))).1
    read-Both operation tx r h = elim (Bool-cases (server.fails operation)) [
      | inl e ↦ rw e h
      | inr e ↦ rw e h
    ]

    clean-Both :
        (sid exclude : ℕ) (tx : Tx)
        → Both P tx
        → Both P (clean_expired_locks rt server d s sid exclude tx).1
    unfolding clean_expired_locks delete_selected
    clean-Both sid exclude tx h = elim (Bool-cases (server.fails "clean expired locks")) [
      | inl e ↦ rw e h
      | inr e ↦ rw e (
        keeps_clean sid exclude tx.committed tx.committed h.0 h.0,
        keeps_clean sid exclude tx.committed tx.work h.0 h.1,
        h.2,
      )
    ]

    build-Both :
        (sid id : ℕ) (tx : Tx)
        → Both P tx
        → Both P (build_acquired_result rt server d s c holder ttl sid id tx).1
    unfolding build_acquired_result query_position_in_tx
    build-Both sid id tx h =
        let tx' = (clean_expired_locks rt server d s sid id tx).1 in
        then_do-state (Both P) (in_tx tx' (query_position_in_tx rt server d s sid id c tx'.work)) _
          (read-Both "query position in acquire" tx' _ (clean-Both sid id tx h)) (λ a t k. k)

    refused-Both :
        (sid id : ℕ) (tx : Tx)
        → Both P tx
        → Both P (refused_result rt server d s c holder ttl sid id tx).1
    unfolding refused_result query_conflict_holder
    refused-Both sid id tx h =
        then_do-state (Both P) (in_tx tx (query_conflict_holder rt server d s sid id tx.work)) _
          (read-Both "query conflict holder" tx _ h) (λ a t k. k)

    acquire-Both :
        (sid id : ℕ) (tx : Tx)
        → Both P tx
        → Both P (acquire_or_refuse rt server d s c holder ttl sid id tx).1
    unfolding acquire_or_refuse upsert_lock
    acquire-Both sid id tx h =
        failing-state (Both P) server "try acquire lock" tx _ h
          (elim (Bool-cases (can_take rt server d s c holder ttl (lock_row tx.work sid id))) [
            | inl e ↦ rw e (build-Both sid id _ (h.0, keeps_acquire sid id tx.work h.1 e, h.2))
            | inr e ↦ rw e (refused-Both sid id tx h)
          ])

    stream-Both :
        (tx : Tx) → Both P tx → Both P (in_tx tx (resolve_stream_id rt server d s tx.work)).1
    unfolding resolve_stream_id
    stream-Both tx h = elim (Option-cases (stream_id tx.work d s)) [
      | inl e ↦ rw e (read-Both "resolve stream" tx _ h)
      | inr (sid, e) ↦ rw e (read-Both "resolve stream" tx _ h)
    ]

    in_tx-Both : (tx : Tx) → Both P tx → Both P (try_acquire_in_tx rt server d s c holder ttl tx).1
    unfolding try_acquire_in_tx resolve_stream_id
    in_tx-Both tx h = failing-state (Both P) server "advisory lock" tx _ h (
        then_do-state (Both P) (in_tx tx (resolve_consumer_name server c tx.work)) _
          (resolve-Both P keeps_names keeps_sequence server c tx h)
          (λ id t k.
            then_do-state (Both P) (in_tx t (resolve_stream_id rt server d s t.work)) _
              (stream-Both t k) (λ sid u m. acquire-Both sid id u m)))

    commit-Both :
        (tx : Tx) → Both P tx → Both P (acquire_and_commit rt server d s c holder ttl tx).1
    unfolding acquire_and_commit
    commit-Both tx h =
        then_do-state (Both P) (try_acquire_in_tx rt server d s c holder ttl tx) _ (in_tx-Both tx h)
          (λ r t k. elim (Bool-cases (server.fails "commit acquire")) [
            | inl e ↦ rw e k
            | inr e ↦ rw e k
          ])

    pub try_acquire-keeps : (db : Db) → P db → P (try_acquire rt server d s c holder ttl db).1
    unfolding try_acquire
    try_acquire-keeps db h = elim (Bool-cases (ltb ttl lock_minimum_ttl)) [
      | inl e ↦ rw e h
      | inr e ↦ elim (Bool-cases (server.fails "begin acquire transaction")) [
        | inl f ↦ rw (e, f) h
        | inr f ↦
            rw (e, f)
              (transact-state P keeps_sequence
                (acquire_and_commit rt server d s c holder ttl (begin db))
                (commit-Both (begin db) (h, h, omega arith)))
      ]
    ]

  module _ (rt : Runtime) (server : Server) (d s c holder : String)
      (keeps_release : (sid id : ℕ) (db : Db) (row : LockRow)
        → P db
        → active server.now (lock_row db sid id) ≡ some row
        → row.holder ≡ holder
        → P (record db {
          locks = Table.delete_where (λ key r. Table.same_ids key (sid, id)) db.locks;
        })) where
    delete-keeps :
        (id : ℕ) (row : LockRow) (db : Db)
        → P db
        → active server.now (joined_lock db d s id) ≡ some row
        → row.holder ≡ holder
        → P (delete_lock rt server d s id db).1
    unfolding delete_lock joined_lock
    delete-keeps id row db h e own = elim (Bool-cases (server.fails "release lock")) [
      | inl f ↦ rw f h
      | inr f ↦ elim (Option-cases (stream_id db d s)) [
        | inl g ↦ rw (f, g) h
        | inr (sid, g) ↦
            rw (f, g)
              (keeps_release sid id db row h
                (ap (active server.now) (sym (joined_lock-at db d s sid id g)) ∙ e) own)
      ]
    ]

    found-keeps :
        (id : ℕ) (row : LockRow) (db : Db)
        → P db
        → active server.now (joined_lock db d s id) ≡ some row
        → row.holder ≡ holder
        → P (release_found rt server d s c holder id (some row) db).1
    unfolding release_found
    found-keeps id row db h e own =
        then_do-state P (delete_lock rt server d s id db) _ (delete-keeps id row db h e own)
          (λ a t k. k)

    pub validated-keeps :
        (id : ℕ) (db : Db)
        → P db
        → P
            (query_and_validate_lock rt server d s id c holder db
              then_do release_found rt server d s c holder id).1
    unfolding query_and_validate_lock query_active_lock release_found
    validated-keeps id db h = elim (Bool-cases (server.fails "query lock for release")) [
      | inl f ↦ rw f h
      | inr f ↦ elim (Option-cases (active server.now (joined_lock db d s id))) [
        | inl g ↦ rw (f, g) h
        | inr (row, g) ↦ elim (Bool-cases (row.holder == holder)) [
          | inl own ↦ rw (f, g, own) (found-keeps id row db h g ((eq_iff row.holder holder).0 own))
          | inr other ↦ rw (f, g, other) h
        ]
      ]
    ]

    pub release-keeps : (db : Db) → P db → P (release rt server d s c holder db).1
    unfolding release
    release-keeps db h =
        then_do-state P (validate_release_params rt server d s c holder, db) _ h
          (λ v t k.
            then_do-state P (resolve_consumer_name server c t) _
              (resolve-state P keeps_names keeps_sequence server c t k) validated-keeps)

  pub list_locks-keeps :
      (rt : Runtime) (server : Server) (d s : String) (db : Db)
      → P db
      → P (list_locks rt server d s db).1
  unfolding list_locks
  list_locks-keeps rt server d s db h = elim (Bool-cases (server.fails "list locks")) [
    | inl e ↦ rw e h
    | inr e ↦ elim (Option-cases (stream_id db d s)) [
      | inl f ↦ rw (e, f) h
      | inr (sid, f) ↦ rw (e, f) h
    ]
  ]

  pub get_lock-keeps :
      (rt : Runtime) (server : Server) (d s c : String) (db : Db)
      → P db
      → P (get_lock rt server d s c db).1
  unfolding get_lock
  get_lock-keeps rt server d s c db h =
      then_do-state P (resolve_consumer_name server c db) _
        (resolve-state P keeps_names keeps_sequence server c db h)
        (λ id t k. elim (Bool-cases (server.fails "get lock")) [ inl e ↦ rw e k | inr e ↦ rw e k ])
