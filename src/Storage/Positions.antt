-- ===== src/Storage/Positions.antt =====
-- Consumer positions of ConsumerStore: SetPosition, GetPosition, ListConsumers and DeletePosition of
-- internal/service/storage/consumer.go. The proofs are in the modules below.
pub mod Abstract
pub mod Refines
pub mod Keeps
use pgcqrs.Base.{
  ℕ, String, ◌==◌, ℤ, pos, leb_ℤ, Bool, true, false, not, ◌&&◌, ◌||◌, Option, none, some, List, [],
  ◌∷◌, if◌then◌else◌, eqb,
}
use pgcqrs.Base.Map
use pgcqrs.Base.Map.{Map}
use pgcqrs.Base.Table
use pgcqrs.Base.Table.{named_key}
use pgcqrs.Wire.{
  SetPositionResult, Error, Result, ok, err, stream_not_found, backward_position, database_failed,
  panicked,
}
use pgcqrs.Storage.State.{
  Db, PositionRow, Server, stream_id, name_of, resolve_consumer_name, failing, ◌then_do◌,
}

-- The row of a stream and a consumer's text.
abbrev pub position_row : Db → ℕ → String → Option PositionRow
position_row db sid consumer = Table.find db.positions (sid, consumer)

abbrev pub event_of : Option PositionRow → Option ℤ
event_of none = none
event_of (some row) = some row.event_id

-- `WHERE COALESCE(consumer_positions.event_id, 0) <= EXCLUDED.event_id`
abbrev pub advances : Option PositionRow → ℤ → Bool
advances none event_id = true
advances (some row) event_id = leb_ℤ row.event_id event_id

-- INSERT INTO consumer_positions ... ON CONFLICT (stream_id, consumer) DO UPDATE: whether a row was
-- written.
pub upsert_position : ℕ → String → ℕ → ℤ → Db → Bool × Db
upsert_position sid consumer consumer_id event_id db =
    if advances (position_row db sid consumer) event_id
    then (
      true,
      record db {
        positions =
            Table.upsert db.positions (sid, consumer)
              (record { consumer_id = some consumer_id; event_id = event_id });
      },
    )
    else (false, db)

-- `cn.name = $3 OR (cp.consumer_id IS NULL AND cp.consumer = $3)` behind the LEFT JOIN
abbrev pub row_of : Map ℕ → String → String → Option ℕ → Bool
row_of names consumer text none = text == consumer
row_of names consumer text (some id) = elim (name_of names id) [
  | none ↦ false
  | some name ↦ name == consumer
]

-- The first row of the statement's result.
pub scan_position : Map ℕ → ℕ → String → List ((ℕ × String) × PositionRow) → Option ℤ
scan_position names sid consumer [] = none
scan_position names sid consumer (((id, text), row) ∷ rows) =
    if eqb id sid && row_of names consumer text row.consumer_id
    then some row.event_id
    else scan_position names sid consumer rows

-- `COALESCE(cn.name, cp.consumer)` behind the LEFT JOIN
abbrev pub shown_name : Map ℕ → String → Option ℕ → String
shown_name names text none = text
shown_name names text (some id) = elim (name_of names id) [ none ↦ text | some name ↦ name ]

pub contains : List String → String → Bool
contains [] name = false
contains (x ∷ xs) name = x == name || contains xs name

-- GROUP BY: a name that later rows have again is left to them.
pub scan_consumers : Map ℕ → ℕ → List ((ℕ × String) × PositionRow) → List String
unfolding contains
scan_consumers names sid [] = []
scan_consumers names sid (((id, text), row) ∷ rows) =
    let rest = scan_consumers names sid rows in
    let name = shown_name names text row.consumer_id in
    if not (eqb id sid) || contains rest name then rest else name ∷ rest

-- `consumer_id = (SELECT id FROM consumer_names WHERE name = $3) OR (consumer_id IS NULL AND
-- consumer = $3)`; a comparison with NULL does not hold.
abbrev pub deleted : Option ℕ → String → String → Option ℕ → Bool
deleted named consumer text none = text == consumer
deleted none consumer text (some id) = false
deleted (some wanted) consumer text (some id) = eqb id wanted

module _ (server : Server) (domain stream : String) where
  -- The statement WITH prev, upsert, and what SetPosition makes of its row.
  pub set_position_at : String → ℤ → ℕ → ℕ → Db → Result SetPositionResult × Db
  unfolding upsert_position
  set_position_at consumer event_id consumer_id sid db =
      let previous = event_of (position_row db sid consumer) in
      let (written, db') = upsert_position sid consumer consumer_id event_id db in
      if written
      then (ok (record { previous_event_id = previous; current_event_id = event_id }), db')
      else elim previous [
        | none ↦ (err panicked, db')
        | some current ↦ (err (backward_position consumer current event_id), db')
      ]

  pub set_position : String → ℤ → Db → Result SetPositionResult × Db
  unfolding set_position_at
  set_position consumer event_id db =
      resolve_consumer_name server consumer db then_do λ consumer_id db'.
      if server.fails "select stream"
      then (err database_failed, db')
      else elim (stream_id db' domain stream) [
        | none ↦ (err (stream_not_found domain stream), db')
        | some sid ↦
            if server.fails "set position"
            then (err database_failed, db')
            else set_position_at consumer event_id consumer_id sid db'
      ]

  -- The result is `none` where Go returns `found` as false.
  pub get_position : String → Db → Result (Option ℤ) × Db
  unfolding scan_position
  get_position consumer db =
      if server.fails "get position"
      then (err database_failed, db)
      else elim (stream_id db domain stream) [
        | none ↦ (ok none, db)
        | some sid ↦ (ok (scan_position db.names sid consumer db.positions), db)
      ]

  pub list_consumers : Db → Result (List String) × Db
  unfolding scan_consumers
  list_consumers db = failing server "list consumers" db (elim (stream_id db domain stream) [
    | none ↦ (ok [], db)
    | some sid ↦ (ok (scan_consumers db.names sid db.positions), db)
  ])

  pub delete_position : String → Db → Result (Unit {0}) × Db
  delete_position consumer db = failing server "delete position" db (
    ok tt,
    elim (stream_id db domain stream) [
      | none ↦ db
      | some sid ↦ record db {
        positions =
            Table.delete_where
              (λ key row.
                eqb key.0 sid && deleted (Map.get db.names consumer) consumer key.1 row.consumer_id)
              db.positions;
      }
    ],
  )
