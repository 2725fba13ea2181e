-- ===== src/Service/Events.antt =====
-- The events of the service and its Command service (internal/service/storage.go, grpcCommand of
-- internal/service/grpc.go, Get of its grpcQuery) on the tables of migrations/primary 000001 to 000005,
-- beside those of ConsumerStore. A table is the list of its rows in the order in which a scan meets them.
-- The proofs are in the modules below.
pub mod Stored
mod Examples
use pgcqrs.Base.{
  ℕ, suc, eqb, String, pos, Bool, true, false, ◌&&◌, Option, none, some, List, [], ◌∷◌, ◌++◌,
  if◌then◌else◌,
}
use pgcqrs.Base.Map
use pgcqrs.Base.Map.{Map}
use pgcqrs.Wire.{Runtime, Lock, Error, Result, ok, err, database_failed, plain_error, no_such_id}
use pgcqrs.Storage.State.{Db, Tx, Server, stream_id, ◌then_do◌}
use pgcqrs.Storage.Locks.{resolve_and_check_lock}

-- A row of events: both references may be NULL.
pub record EventRow : Type 0 where
  pub id : ℕ
  pub stream_id : Option ℕ
  pub kind_id : Option ℕ
  pub when_occurred : ℕ
  pub event : String

-- `next_...` are the sequences behind the IDs.
pub record EventsDb : Type 0 where
  pub consumers : Db
  pub next_stream : ℕ
  pub kinds : Map ℕ
  pub next_kind : ℕ
  pub events : List EventRow
  pub next_event : ℕ

pub record EventsTx : Type 0 where
  pub committed : EventsDb
  pub work : EventsDb

-- EventStorageEvent of bus.go
pub record EventStorageEvent : Type 0 where
  pub domain : String
  pub stream : String
  pub id : ℕ
  pub kind : String
  pub body : String

-- INSERT INTO events_kind(kind) VALUES ($1) ON CONFLICT DO NOTHING
unfoldable pub insert_kind : String → EventsDb → EventsDb
insert_kind kind db = elim (Map.get db.kinds kind) [
  | some id ↦ record db { next_kind = suc db.next_kind }
  | none ↦ record db { kinds = Map.put db.kinds kind db.next_kind; next_kind = suc db.next_kind }
]

-- SELECT event FROM events WHERE id = $1 AND stream_id = ...
unfoldable pub find_event : ℕ → ℕ → List EventRow → Option String
find_event sid id [] = none
find_event sid id (row ∷ rows) =
    let rest = find_event sid id rows in
    elim row.stream_id [
      | none ↦ rest
      | some s ↦ if eqb s sid && eqb row.id id then some row.event else rest
    ]

module _ (server : Server) where
  -- A statement that fails returns an error of the driver.
  abbrev pub running {ℓ κ} : {A : Type ℓ} {S : Type κ} → String → S → Result A × S → Result A × S
  running statement s r = if server.fails statement then (err database_failed, s) else r

  -- The row that the INSERT of unsafeStoreWith writes; a subselect that finds nothing is NULL.
  unfoldable pub new_row : (app stream kind : String) (event : String) → EventsDb → EventRow
  new_row app stream kind event db = record {
    id = db.next_event;
    stream_id = stream_id db.consumers app stream;
    kind_id = Map.get db.kinds kind;
    when_occurred = server.now;
    event = event;
  }

  abbrev add_event : EventRow → EventsDb → EventsDb
  add_event row db = record db { events = db.events ++ row ∷ []; next_event = suc db.next_event }

  -- ensureStream: INSERT INTO events_stream(app,stream) VALUES($1,$2) ON CONFLICT DO NOTHING
  unfoldable pub ensure_stream : String → String → EventsDb → Result (Unit {0}) × EventsDb
  ensure_stream app stream db = running "insert stream" db (
    ok tt,
    elim (stream_id db.consumers app stream) [
      | some id ↦ record db { next_stream = suc db.next_stream }
      | none ↦
          let of_app = Map.or_empty (Map.get db.consumers.streams app) in
          record db {
            consumers = record db.consumers {
              streams = Map.put db.consumers.streams app (Map.put of_app stream db.next_stream);
            };
            next_stream = suc db.next_stream;
          }
    ],
  )

  abbrev pub found_or : String → String → ℕ → Option String → Result String
  found_or app stream id none = err (no_such_id app stream (pos id))
  found_or app stream id (some event) = ok event

  -- fetchPayload
  unfoldable pub fetch_payload : String → String → ℕ → EventsDb → Result String × EventsDb
  unfolding find_event
  fetch_payload app stream id db =
      running "select event" db (elim (stream_id db.consumers app stream) [
        | none ↦ (err (no_such_id app stream (pos id)), db)
        | some sid ↦ (found_or app stream id (find_event sid id db.events), db)
      ])

  -- `jsonb` is what PostgreSQL makes of a text as jsonb, `none` where it refuses it.
  module _ (rt : Runtime) (jsonb : String → Option String) where
    abbrev inserted_event :
        (app stream kind : String) → Option String → EventsDb → Result ℕ × EventsDb
    inserted_event app stream kind none db = (err database_failed, db)
    inserted_event app stream kind (some event) db =
        let row = new_row app stream kind event db in (ok row.id, add_event row db)

    -- unsafeStoreWith: on the pool each statement is its own transaction.
    unfoldable pub unsafe_store : (app stream kind body : String) → EventsDb → Result ℕ × EventsDb
    unfolding insert_kind new_row
    unsafe_store app stream kind body db = running "insert kind" db (
        let db' = insert_kind kind db in
        running "insert event" db' (inserted_event app stream kind (jsonb body) db'))

    -- ResolveAndCheckLock on the transaction
    abbrev pub on_consumers : EventsTx → Result (Unit {0}) × Tx → Result (Unit {0}) × EventsTx
    on_consumers tx (r, t) = (r, record tx { work = record tx.work { consumers = t.work } })

    unfoldable pub check_lock : String → String → Lock → EventsTx → Result (Unit {0}) × EventsTx
    check_lock domain stream lock tx = on_consumers tx (
        resolve_and_check_lock rt server domain stream lock
          (record { committed = tx.committed.consumers; work = tx.work.consumers }))

    abbrev pub on_work : EventsTx → Result ℕ × EventsDb → Result ℕ × EventsTx
    on_work tx (r, db) = (r, record tx { work = db })

    -- submitWithinTx up to the commit
    unfoldable pub submit_within_tx :
        (domain stream kind body : String) → Lock → EventsTx → Result ℕ × EventsTx
    unfolding check_lock unsafe_store
    submit_within_tx domain stream kind body lock tx =
        check_lock domain stream lock tx then_do λ held tx'.
        on_work tx' (unsafe_store domain stream kind body tx'.work) then_do λ id tx''.
        running "commit" tx'' (ok id, tx'')

    -- What a rollback leaves: the numbers of sequences are not given back.
    abbrev pub rolled_back : EventsTx → EventsDb
    rolled_back tx = record tx.committed {
      consumers = record tx.committed.consumers { next_name = tx.work.consumers.next_name };
      next_kind = tx.work.next_kind;
      next_event = tx.work.next_event;
    }

    abbrev pub settled : Result ℕ × EventsTx → Result ℕ × EventsDb
    settled (err e, tx) = (err e, rolled_back tx)
    settled (ok id, tx) = (ok id, tx.work)

    unfoldable pub submit_with_lock :
        (domain stream kind body : String) → Lock → EventsDb → Result ℕ × EventsDb
    unfolding submit_within_tx
    submit_with_lock domain stream kind body lock db = running "begin" db (
        settled
          (submit_within_tx domain stream kind body lock (record { committed = db; work = db })))

    abbrev told :
        (domain stream kind body : String)
        → Result ℕ × EventsDb
        → Result ℕ × EventsDb × List EventStorageEvent
    told domain stream kind body (err e, db) = (err e, db, [])
    told domain stream kind body (ok id, db) = (
      ok id,
      db,
      record { domain = domain; stream = stream; id = id; kind = kind; body = body } ∷ [],
    )

    abbrev stored_by :
        (domain stream kind body : String) → Option Lock → EventsDb → Result ℕ × EventsDb
    stored_by domain stream kind body none db = unsafe_store domain stream kind body db
    stored_by domain stream kind body (some lock) db =
        submit_with_lock domain stream kind body lock db

    -- grpcCommand.Submit, with what it gives to the bus
    unfoldable pub submit :
        (domain stream kind body : String)
        → Option Lock
        → EventsDb
        → Result ℕ × EventsDb × List EventStorageEvent
    unfolding unsafe_store submit_with_lock
    submit domain stream kind body lock db =
        told domain stream kind body (stored_by domain stream kind body lock db)
