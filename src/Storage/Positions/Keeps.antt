-- ===== src/Storage/Positions/Keeps.antt =====
-- A predicate of the tables that the writes of the position operations keep is kept by each of these
-- operations, whatever fails in it.
use pgcqrs.Base.{
  ℕ, String, ℤ, ◌≡◌, refl, true, false, some, Bool, Option-cases, Bool-cases, inl, inr, leb_ℤ,
}
use pgcqrs.Base.Map
use pgcqrs.Base.Table
use pgcqrs.Base.Table.{named_key}
use pgcqrs.Storage.State.{Db, Server, PositionRow, stream_id, insert_name}
use pgcqrs.Storage.Valid.{resolve-cases, id_after, id_after-get}
use pgcqrs.Storage.Positions.{
  position_row, advances, event_of, upsert_position, set_position_at, set_position, get_position,
  list_consumers, delete_position,
}

pub upsert_position-names :
    (sid : ℕ) (c : String) (id : ℕ) (event_id : ℤ) (db : Db)
    → (upsert_position sid c id event_id db).1.names ≡ db.names
unfolding upsert_position
upsert_position-names sid c id event_id db =
    elim (Bool-cases (advances (position_row db sid c) event_id)) [
      | inl e ↦ rw e refl
      | inr e ↦ rw e refl
    ]

pub upsert_position-next_name :
    (sid : ℕ) (c : String) (id : ℕ) (event_id : ℤ) (db : Db)
    → (upsert_position sid c id event_id db).1.next_name ≡ db.next_name
unfolding upsert_position
upsert_position-next_name sid c id event_id db =
    elim (Bool-cases (advances (position_row db sid c) event_id)) [
      | inl e ↦ rw e refl
      | inr e ↦ rw e refl
    ]

pub upsert_position-keeps {ℓ} :
    (P : Db → Type ℓ) (sid : ℕ) (c : String) (id : ℕ) (event_id : ℤ) (db : Db)
    → P db
    → P (record db {
      positions =
          Table.upsert db.positions
            (sid, c)
            (record { consumer_id = some id; event_id = event_id });
    })
    → P (upsert_position sid c id event_id db).1
unfolding upsert_position
upsert_position-keeps P sid c id event_id db h k =
    elim (Bool-cases (advances (position_row db sid c) event_id)) [
      | inl e ↦ rw e k
      | inr e ↦ rw e h
    ]

pub upsert_position-advances :
    (sid : ℕ) (c : String) (id : ℕ) (event_id : ℤ) (db : Db)
    → advances (position_row db sid c) event_id ≡ true
    → upsert_position sid c id event_id db ≡ (
      true,
      record db {
        positions =
            Table.upsert db.positions
              (sid, c)
              (record { consumer_id = some id; event_id = event_id });
      },
    )
unfolding upsert_position
upsert_position-advances sid c id event_id db ahead = rw ahead refl

pub upsert_position-behind :
    (sid : ℕ) (c : String) (id : ℕ) (event_id : ℤ) (row : PositionRow) (db : Db)
    → position_row db sid c ≡ some row
    → leb_ℤ row.event_id event_id ≡ false
    → upsert_position sid c id event_id db ≡ (false, db)
unfolding upsert_position
upsert_position-behind sid c id event_id row db e l = rw (e, l) refl

state-set_position_at :
    (server : Server) (d s c : String) (event_id : ℤ) (id sid : ℕ) (db : Db)
    → (set_position_at server d s c event_id id sid db).1 ≡ (upsert_position sid c id event_id db).1
unfolding set_position_at
state-set_position_at server d s c event_id id sid db =
    elim (Bool-cases (upsert_position sid c id event_id db).0) [
      | inl e ↦ rw e refl
      | inr e ↦ elim (Option-cases (event_of (position_row db sid c))) [
        | inl f ↦ rw (e, f) refl
        | inr (p, f) ↦ rw (e, f) refl
      ]
    ]

module _ {ℓ} (P : Db → Type ℓ)
    (keeps_names : (name : String) (db : Db) → P db → P (insert_name name db)) (server : Server)
    (d s c : String) where
  module _
      (keeps_position : (sid id : ℕ) (event_id : ℤ) (db : Db)
        → P db
        → Map.get db.names c ≡ some id
        → P (upsert_position sid c id event_id db).1)
      (event_id : ℤ) where
    pub set_position-keeps : (db : Db) → P db → P (set_position server d s c event_id db).1
    unfolding set_position
    set_position-keeps db h = elim (resolve-cases server c db) [
      | inr (op, db', e, q, f) ↦
          rw e (elim q [ inl same ↦ rw same h | inr new ↦ rw new (keeps_names c db h) ])
      | inl e ↦ elim (Bool-cases (server.fails "select stream")) [
        | inl f ↦ rw (e, f) (keeps_names c db h)
        | inr f ↦ elim (Option-cases (stream_id (insert_name c db) d s)) [
          | inl g ↦ rw (e, f, g) (keeps_names c db h)
          | inr (sid, g) ↦ elim (Bool-cases (server.fails "set position")) [
            | inl k ↦ rw (e, f, g, k) (keeps_names c db h)
            | inr k ↦
                rw (e, f, g, k)
                  (rw
                    (state-set_position_at server d s c event_id (id_after c db) sid
                      (insert_name c db))
                    (keeps_position sid (id_after c db) event_id (insert_name c db)
                      (keeps_names c db h) (id_after-get server c db)))
          ]
        ]
      ]
    ]

  pub get_position-keeps : (db : Db) → P db → P (get_position server d s c db).1
  unfolding get_position
  get_position-keeps db h = elim (Bool-cases (server.fails "get position")) [
    | inl e ↦ rw e h
    | inr e ↦ elim (Option-cases (stream_id db d s)) [
      | inl f ↦ rw (e, f) h
      | inr (sid, f) ↦ rw (e, f) h
    ]
  ]

  pub list_consumers-keeps : (db : Db) → P db → P (list_consumers server d s db).1
  unfolding list_consumers
  list_consumers-keeps db h = elim (Bool-cases (server.fails "list consumers")) [
    | inl e ↦ rw e h
    | inr e ↦ elim (Option-cases (stream_id db d s)) [
      | inl f ↦ rw (e, f) h
      | inr (sid, f) ↦ rw (e, f) h
    ]
  ]

  pub delete_position-keeps :
      ((gone : ℕ × String → PositionRow → Bool) (db : Db)
        → P db
        → P (record db { positions = Table.delete_where gone db.positions }))
      → (db : Db) → P db
      → P (delete_position server d s c db).1
  unfolding delete_position
  delete_position-keeps keeps_delete db h = elim (Bool-cases (server.fails "delete position")) [
    | inl e ↦ rw e h
    | inr e ↦ elim (Option-cases (stream_id db d s)) [
      | inl f ↦ rw (e, f) h
      | inr (sid, f) ↦ rw (e, f) (keeps_delete _ db h)
    ]
  ]
