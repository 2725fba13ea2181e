-- ===== src/Storage/State.antt =====
-- The tables that ConsumerStore works on (migrations/primary 000001, 000006, 000007), its
-- transactions, and the consumer names (internal/service/storage/consumer.go). A table is the list
-- of its rows in the order in which a scan meets them, and every theorem holds for each such order.
-- No other client of the database acts between the statements of one operation.
use pgcqrs.Base.{ℕ, suc, String, ℤ, Bool, Option, none, some, List, [], ◌∷◌, if◌then◌else◌, eqb}
use pgcqrs.Base.Map
use pgcqrs.Base.Map.{Map}
use pgcqrs.Wire.{Result, ok, err, operation_failed}

-- A row of consumer_locks under its key (stream_id, consumer_id).
pub record LockRow : Type 0 where
  pub holder : String
  pub acquired_at : ℕ
  pub heartbeat_at : ℕ
  pub ttl : ℕ
  pub guarantee_until : ℕ
  pub held_until : ℕ

-- A row of consumer_positions under its key (stream_id, consumer). In a row from before the
-- migration `consumer_id` is NULL.
pub record PositionRow : Type 0 where
  pub consumer_id : Option ℕ
  pub event_id : ℤ

-- `streams` is events_stream under its unique (app, stream), `names` is consumer_names under its
-- unique name, each with the row's id, and `next_name` is the sequence behind the id of a name.
pub record Db : Type 0 where
  pub streams : Map (Map ℕ)
  pub names : Map ℕ
  pub next_name : ℕ
  pub locks : List ((ℕ × ℕ) × LockRow)
  pub positions : List ((ℕ × String) × PositionRow)

-- A transaction: what others see, and what its own statements see.
pub record Tx : Type 0 where
  pub committed : Db
  pub work : Db

-- The database as the operations meet it: whether a statement fails, by the operation that the
-- code reports, `NOW()`, which is the start of the transaction, `NOW()` of the statement that
-- cleanExpiredLocks runs beside the transaction, the readings of Go's clock, and PostgreSQL's
-- `ttl * DefaultGuaranteeFraction`.
pub record Server : Type 0 where
  pub fails : String → Bool
  pub now : ℕ
  pub clean_now : ℕ
  pub guarantee_clock : ℕ
  pub clock : ℕ
  pub fraction_of : ℕ → ℕ

pub record LockReleasedInfo : Type 0 where
  pub domain : String
  pub stream : String
  pub consumer : String
  pub holder : String

-- The call of an operation behind another one, where Go writes `if err != nil { return err }`.
infixl 5 ◌then_do◌
abbrev pub ◌then_do◌ {ℓ κ μ} :
    {B : Type κ} {S : Type μ} {A : Type ℓ} → Result A × S → (A → S → Result B × S) → Result B × S
(err e, s) then_do next = (err e, s)
(ok a, s) then_do next = next a s

-- SELECT id FROM events_stream WHERE app = $1 AND stream = $2
abbrev pub stream_id : Db → String → String → Option ℕ
stream_id db domain stream = Map.get_in db.streams domain stream

-- SELECT name FROM consumer_names WHERE id = $1
unfoldable pub name_of : Map ℕ → ℕ → Option String
name_of [] id = none
name_of ((name, i) ∷ names) id = if eqb i id then some name else name_of names id

-- INSERT INTO consumer_names ... ON CONFLICT (name) DO NOTHING. The sequence moves in any case.
unfoldable pub insert_name : String → Db → Db
insert_name name db = elim (Map.get db.names name) [
  | some id ↦ record db { next_name = suc db.next_name }
  | none ↦ record db { names = Map.put db.names name db.next_name; next_name = suc db.next_name }
]

module _ (server : Server) where
  abbrev pub failing {ℓ κ} : {A : Type ℓ} {S : Type κ} → String → S → Result A × S → Result A × S
  failing operation s r =
      if server.fails operation then (err (operation_failed operation), s) else r

  unfoldable pub select_consumer_id : String → Db → Result ℕ × Db
  select_consumer_id name db = elim (Map.get db.names name) [
    | none ↦ (err (operation_failed "select consumer id"), db)
    | some id ↦ failing "select consumer id" db (ok id, db)
  ]

  -- resolveConsumerName; resolveConsumerNameInTx runs the same statements on the transaction.
  unfoldable pub resolve_consumer_name : String → Db → Result ℕ × Db
  unfolding select_consumer_id
  resolve_consumer_name name db =
      failing "insert consumer name" db (select_consumer_id name (insert_name name db))

-- tx.Rollback, which gives a number of a sequence not back
abbrev pub rollback : Tx → Db
rollback tx = record tx.committed { next_name = tx.work.next_name }

-- What a transaction leaves: its work where it committed, else what was there before.
abbrev pub transact {ℓ} : {A : Type ℓ} → Result A × Tx → Result A × Db
transact (err e, tx) = (err e, rollback tx)
transact (ok a, tx) = (ok a, tx.work)

abbrev pub begin : Db → Tx
begin db = record { committed = db; work = db }

abbrev pub in_tx {ℓ} : {A : Type ℓ} → Tx → Result A × Db → Result A × Tx
in_tx tx (r, db) = (r, record tx { work = db })
