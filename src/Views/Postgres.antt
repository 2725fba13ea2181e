-- ===== src/Views/Postgres.antt =====
-- The PostgreSQL store of projected entities (pkg/indexer/views/pgstore.go), on the tables of
-- migrations/primary 000006 and 000008. The consumer positions and the streams are those of Storage/State.
-- The proofs are in the modules below.
pub mod Mutations
pub mod Recorded
pub mod Keyed
pub mod Kinds
pub mod Entries
pub mod Gets
mod Examples
use pgcqrs.Base.{
  ℕ, suc, String, ◌==◌, ℤ, pos, Bool, ◌&&◌, ◌≡◌, ◌↔◌, true, Option, none, some, List, [], ◌∷◌,
  if◌then◌else◌, eqb, arith, eq_iff,
}
use pgcqrs.Base.Map
use pgcqrs.Base.Map.{Map}
use pgcqrs.Base.Table
use pgcqrs.Base.Table.{RowKey, named_key}
use pgcqrs.Wire.{Result, ok, err, ◌>>=◌, bad_json, bad_key, stream_not_found, database_failed}
use pgcqrs.Storage.State.{Db, PositionRow, Server, stream_id, ◌then_do◌}
use pgcqrs.Storage.Positions.{position_row, advances}
use pgcqrs.Views.{Key, Entity, Upsert, Delete, ReduceResult, Change, validate_key}

pub record ProjectionIdentity : Type 0 where
  pub domain : String
  pub stream : String
  pub projection : String
  pub consumer_name : String

-- The columns `value` and `version` of an entry.
pub record Entry : Type 0 where
  pub value : String
  pub version : ℤ

-- The unique keys (projection_id, kind_id, key) and (projection_id, kind_id, key1, key2).
abbrev pub SingleKey : Type 0
SingleKey = ℕ × ℕ × String

abbrev pub CompositeKey : Type 0
CompositeKey = ℕ × ℕ × String × String

abbrev pub same_single : SingleKey → SingleKey → Bool
same_single (p, k, a) (p', k', a') = eqb p p' && eqb k k' && a == a'

pub same_single_iff : (x y : SingleKey) → (same_single x y ≡ true) ↔ (x ≡ y)
same_single_iff (p, k, a) (p', k', a') = ground (arith, eq_iff a a')

instance abbrev pub single_key : RowKey SingleKey
single_key = record { same = same_single; same_iff = same_single_iff }

abbrev pub same_composite : CompositeKey → CompositeKey → Bool
same_composite (p, k, a, b) (p', k', a', b') = eqb p p' && eqb k k' && a == a' && b == b'

pub same_composite_iff : (x y : CompositeKey) → (same_composite x y ≡ true) ↔ (x ≡ y)
same_composite_iff (p, k, a, b) (p', k', a', b') = ground (arith, eq_iff a a', eq_iff b b')

instance abbrev pub composite_key : RowKey CompositeKey
composite_key = record { same = same_composite; same_iff = same_composite_iff }

-- `projections` is view_projection_names under its unique (stream_id, name), `kinds` is
-- view_projection_kinds under its unique kind, each with the row's id and the sequence behind it.
pub record ViewsDb : Type 0 where
  pub consumers : Db
  pub projections : List ((ℕ × String) × ℕ)
  pub next_projection : ℕ
  pub kinds : Map ℕ
  pub next_kind : ℕ
  pub singles : List (SingleKey × Entry)
  pub composites : List (CompositeKey × Entry)

-- The INSERT ... ON CONFLICT ... DO UPDATE of writePosition, which gives a new row no consumer_id.
unfoldable pub upsert_position : ℕ → String → ℤ → Db → Db
upsert_position sid consumer event_id db =
    let row = position_row db sid consumer in
    if advances row event_id
    then record db {
      positions =
          Table.upsert db.positions (sid, consumer)
            (record {
              consumer_id = elim row [ none ↦ none | some old ↦ old.consumer_id ];
              event_id = event_id;
            });
    }
    else db

-- The row of a key, as an entry; `none` where there is none.
abbrev pub entry_in :
    List (SingleKey × Entry) → List (CompositeKey × Entry) → ℕ → ℕ → List String → Option Entry
entry_in singles composites proj_id kind_id [] = none
entry_in singles composites proj_id kind_id (a ∷ []) = Table.find singles (proj_id, kind_id, a)
entry_in singles composites proj_id kind_id (a ∷ b ∷ []) =
    Table.find composites (proj_id, kind_id, a, b)
entry_in singles composites proj_id kind_id (_ ∷ _ ∷ _ ∷ _) = none

abbrev pub find_entry : ℕ → ℕ → List String → ViewsDb → Option Entry
find_entry proj_id kind_id parts db = entry_in db.singles db.composites proj_id kind_id parts

abbrev pub version_or_zero : Option PositionRow → ℤ
version_or_zero none = pos 0
version_or_zero (some row) = row.event_id

abbrev pub entity_of : String → Key → Option Entry → Option Entity
entity_of kind key none = none
entity_of kind key (some e) =
    some (record { kind = kind; key = key; value = e.value; version = e.version })

abbrev pub put_entry : ℕ → ℕ → List String → Entry → ViewsDb → Result (Unit {0}) × ViewsDb
put_entry proj_id kind_id (a ∷ []) e db =
    (ok tt, record db { singles = Table.upsert db.singles (proj_id, kind_id, a) e })
put_entry proj_id kind_id (a ∷ b ∷ []) e db =
    (ok tt, record db { composites = Table.upsert db.composites (proj_id, kind_id, a, b) e })
put_entry proj_id kind_id _ e db = (err bad_key, db)

abbrev pub delete_entry : ℕ → ℕ → List String → ViewsDb → ViewsDb
delete_entry proj_id kind_id (a ∷ []) db = record db {
  singles = Table.delete_where (λ k e. same_single k (proj_id, kind_id, a)) db.singles;
}
delete_entry proj_id kind_id (a ∷ b ∷ []) db = record db {
  composites = Table.delete_where (λ k e. same_composite k (proj_id, kind_id, a, b)) db.composites;
}
delete_entry proj_id kind_id _ db = db

abbrev pub change_of : ReduceResult → ℤ → Change
change_of result event_id = record {
  upserts = result.upserts;
  deletes = result.deletes;
  version = event_id;
}

-- `jsonb` is what PostgreSQL makes of a text as jsonb, `none` where it refuses it. An upsert's `value` is what
-- marshalValue makes of it.
module _ (server : Server) (jsonb : String → Option String) where
  -- A statement that fails returns an error of the driver.
  abbrev pub statement {ℓ κ} : {A : Type ℓ} {S : Type κ} → String → S → Result A × S → Result A × S
  statement name s r = if server.fails name then (err database_failed, s) else r

  -- ResolveStreamID
  unfoldable pub resolve_stream_id : String → String → ViewsDb → Result ℕ
  resolve_stream_id domain stream db =
      if server.fails "select stream"
      then err database_failed
      else elim (stream_id db.consumers domain stream) [
        | none ↦ err (stream_not_found domain stream)
        | some id ↦ ok id
      ]

  -- resolveProjectionName; an INSERT ... DO NOTHING moves the sequence in any case.
  unfoldable pub resolve_projection_name : ℕ → String → ViewsDb → Result ℕ × ViewsDb
  resolve_projection_name sid name db =
      let moved = record db { next_projection = suc db.next_projection } in
      statement "insert projection" db (elim (Table.find db.projections (sid, name)) [
        | some id ↦ statement "select projection" moved (ok id, moved)
        | none ↦ (
          ok db.next_projection,
          record moved { projections = Table.upsert db.projections (sid, name) db.next_projection },
        )
      ])

  -- resolveKindName
  unfoldable pub resolve_kind_name : String → ViewsDb → Result ℕ × ViewsDb
  resolve_kind_name kind db =
      let moved = record db { next_kind = suc db.next_kind } in
      statement "insert kind" db (elim (Map.get db.kinds kind) [
        | some id ↦ statement "select kind" moved (ok id, moved)
        | none ↦ (ok db.next_kind, record moved { kinds = Map.put db.kinds kind db.next_kind })
      ])

  -- getSingle and getComposite
  abbrev pub get_entry : ℕ → ℕ → String → Key → ViewsDb → Result (Option Entity)
  get_entry proj_id kind_id kind key db =
      if server.fails "get entry"
      then err database_failed
      else ok (entity_of kind key (find_entry proj_id kind_id key.parts db))

  abbrev pub get_kind : ℕ → String → Key → ViewsDb → Result (Option Entity)
  get_kind proj_id kind key db =
      if server.fails "select kind" then err database_failed else elim (Map.get db.kinds kind) [
        | none ↦ ok none
        | some kind_id ↦ validate_key key >>= λ valid. get_entry proj_id kind_id kind key db
      ]

  -- PGStore.Get
  unfoldable pub pg_get : ProjectionIdentity → String → Key → ViewsDb → Result (Option Entity)
  unfolding resolve_stream_id
  pg_get id kind key db = resolve_stream_id id.domain id.stream db >>= λ sid.
      if server.fails "select projection"
      then err database_failed
      else elim (Table.find db.projections (sid, id.projection)) [
        | none ↦ ok none
        | some proj_id ↦ get_kind proj_id kind key db
      ]

  -- writePosition
  unfoldable pub write_position : ℕ → String → ℤ → ViewsDb → Result (Unit {0}) × ViewsDb
  unfolding upsert_position
  write_position sid consumer event_id db =
      statement "update consumer position" db
        (ok tt, record db { consumers = upsert_position sid consumer event_id db.consumers })

  abbrev pub upsert_entry :
      ℕ → ℕ → List String → ℤ → Option String → ViewsDb → Result (Unit {0}) × ViewsDb
  upsert_entry proj_id kind_id parts event_id none db = (err database_failed, db)
  upsert_entry proj_id kind_id parts event_id (some value) db =
      put_entry proj_id kind_id parts (record { value = value; version = event_id }) db

  abbrev pub valid_key : Key → ViewsDb → Result (Unit {0}) × ViewsDb
  valid_key key db = (validate_key key, db)

  -- applyUpsert
  unfoldable pub apply_upsert : ℕ → Upsert → ℤ → ViewsDb → Result (Unit {0}) × ViewsDb
  unfolding resolve_kind_name
  apply_upsert proj_id u event_id db = elim u.value [
    | none ↦ (err bad_json, db)
    | some body ↦ resolve_kind_name u.kind db then_do λ kind_id db'.
        valid_key u.key db' then_do λ valid db''.
        statement "upsert" db''
          (upsert_entry proj_id kind_id u.key.parts event_id (jsonb body) db'')
  ]

  -- applyDelete
  unfoldable pub apply_delete : ℕ → Delete → ViewsDb → Result (Unit {0}) × ViewsDb
  unfolding resolve_kind_name
  apply_delete proj_id d db = resolve_kind_name d.kind db then_do λ kind_id db'.
      valid_key d.key db' then_do λ valid db''.
      statement "delete" db'' (ok tt, delete_entry proj_id kind_id d.key.parts db'')

  unfoldable pub apply_upserts : ℕ → ℤ → List Upsert → ViewsDb → Result (Unit {0}) × ViewsDb
  unfolding apply_upsert
  apply_upserts proj_id event_id [] db = (ok tt, db)
  apply_upserts proj_id event_id (u ∷ us) db =
      apply_upsert proj_id u event_id db then_do λ done db'. apply_upserts proj_id event_id us db'

  unfoldable pub apply_deletes : ℕ → List Delete → ViewsDb → Result (Unit {0}) × ViewsDb
  unfolding apply_delete
  apply_deletes proj_id [] db = (ok tt, db)
  apply_deletes proj_id (d ∷ ds) db =
      apply_delete proj_id d db then_do λ done db'. apply_deletes proj_id ds db'

  -- applyMutations
  unfoldable pub apply_mutations : ℕ → ReduceResult → ℤ → ViewsDb → Result Change × ViewsDb
  unfolding apply_upserts apply_deletes
  apply_mutations proj_id result event_id db =
      apply_upserts proj_id event_id result.upserts db then_do λ upserted db'.
      apply_deletes proj_id result.deletes db' then_do λ deleted db''.
      (ok (change_of result event_id), db'')

  -- applyAndRecord
  unfoldable pub apply_and_record :
      ProjectionIdentity → ReduceResult → ℤ → ViewsDb → Result Change × ViewsDb
  unfolding resolve_stream_id resolve_projection_name apply_mutations write_position
  apply_and_record id result event_id db =
      (resolve_stream_id id.domain id.stream db, db) then_do λ sid db1.
      resolve_projection_name sid id.projection db1 then_do λ proj_id db2.
      apply_mutations proj_id result event_id db2 then_do λ change db3.
      write_position sid id.consumer_name event_id db3 then_do λ done db4. (ok change, db4)

  -- A rollback does not give the numbers of sequences back.
  abbrev pub rolled_back : ViewsDb → ViewsDb → ViewsDb
  rolled_back db work = record db {
    next_projection = work.next_projection;
    next_kind = work.next_kind;
  }

  abbrev pub settled : ViewsDb → Result Change × ViewsDb → Result Change × ViewsDb
  settled db (err failure, work) = (err failure, rolled_back db work)
  settled db (ok change, work) = (ok change, work)

  -- PGStore.Persist
  unfoldable pub pg_persist :
      ProjectionIdentity → ReduceResult → ℤ → ViewsDb → Result Change × ViewsDb
  unfolding apply_and_record
  pg_persist id result event_id db = statement "begin" db (
      settled db (
        apply_and_record id result event_id db then_do λ change work.
        statement "commit" work (ok change, work)))

  -- PGStore.Version: the row joins the projection's row with the consumer's.
  unfoldable pub pg_version : ProjectionIdentity → ViewsDb → Result ℤ
  unfolding resolve_stream_id
  pg_version id db = resolve_stream_id id.domain id.stream db >>= λ sid.
      if server.fails "get version"
      then err database_failed
      else elim (Table.find db.projections (sid, id.projection)) [
        | none ↦ ok (pos 0)
        | some proj_id ↦ ok (version_or_zero (position_row db.consumers sid id.consumer_name))
      ]
