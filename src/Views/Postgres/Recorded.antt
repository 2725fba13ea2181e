-- ===== src/Views/Postgres/Recorded.antt =====
-- What Persist records: its transaction, and the version of the projection.
use pgcqrs.Base.{
  ℕ, String, ℤ, leb_ℤ, Bool-cases, ◌≡◌, refl, false, inl, inr, Option, Option-cases, none, some,
  List, if◌then◌else◌,
}
use pgcqrs.Base.Table
use pgcqrs.Base.Table.{named_key, find-upsert_self}
use pgcqrs.Wire.{Result, ok, err}
use pgcqrs.Storage.State.{Db, PositionRow, Server, stream_id, ◌then_do◌}
use pgcqrs.Storage.Positions.{position_row, advances}
use pgcqrs.Views.{ReduceResult, Change}
use pgcqrs.Views.Postgres.Mutations.{Kept, Mutated, apply_mutations-Mutated}
use pgcqrs.Views.Postgres.{
  ProjectionIdentity, ViewsDb, upsert_position, statement, resolve_stream_id,
  resolve_projection_name, write_position, apply_mutations, change_of, apply_and_record, settled,
  pg_persist, pg_version, version_or_zero,
}

-- The position that a consumer has behind an event: it does not go back.
abbrev pub later : Option PositionRow → ℤ → ℤ
later none event_id = event_id
later (some row) event_id = if leb_ℤ row.event_id event_id then event_id else row.event_id

upsert_position-later :
    (sid : ℕ) (consumer : String) (event_id : ℤ) (c : Db)
    → version_or_zero (position_row (upsert_position sid consumer event_id c) sid consumer)
      ≡ later (position_row c sid consumer) event_id
unfolding upsert_position
upsert_position-later sid consumer event_id c = elim (Option-cases (position_row c sid consumer)) [
  | inl e ↦ rw (e, find-upsert_self) refl
  | inr (row, e) ↦ rw e (elim (Bool-cases (leb_ℤ row.event_id event_id)) [
    | inl f ↦ rw (f, find-upsert_self) refl
    | inr f ↦ rw (f, e) refl
  ])
]

pub upsert_position-streams :
    (sid : ℕ) (consumer : String) (event_id : ℤ) (c : Db)
    → (upsert_position sid consumer event_id c).streams ≡ c.streams
unfolding upsert_position
upsert_position-streams sid consumer event_id c =
    elim (Bool-cases (advances (position_row c sid consumer) event_id)) [
      | inl e ↦ rw e refl
      | inr e ↦ rw e refl
    ]

module _ (jsonb : String → Option String) (id : ProjectionIdentity) (result : ReduceResult)
    (event_id : ℤ) (reader : Server) where
  -- What a reader is told of the version.
  abbrev pub Told : ℤ → ViewsDb → Type 0
  Told version db = pg_version reader jsonb id db ≡ ok version

  -- On success the whole change, and the version that is told from then on; on failure the rows as before.
  abbrev pub Recorded : ViewsDb → Result Change × ViewsDb → Type 0
  Recorded db (ok change, db') =
      (change ≡ change_of result event_id)
      × ((sid : ℕ) × (stream_id db.consumers id.domain id.stream ≡ some sid)
          × Told (later (position_row db.consumers sid id.consumer_name) event_id) db')
  Recorded db (err e, db') =
      (db'.consumers ≡ db.consumers)
      × (db'.projections ≡ db.projections)
      × (db'.kinds ≡ db.kinds)
      × (db'.singles ≡ db.singles)
      × (db'.composites ≡ db.composites)

module _ (server : Server) (jsonb : String → Option String) (id : ProjectionIdentity)
    (result : ReduceResult) (event_id : ℤ) (reader : Server)
    (reads : (op : String) → reader.fails op ≡ false) where
  Done : ViewsDb → Result Change × ViewsDb → Type 0
  Done db (err e, work) = Unit
  Done db (ok change, work) = Recorded jsonb id result event_id reader db (ok change, work)

  written-Told :
      (sid proj_id : ℕ) (c : Db) (db : ViewsDb)
      → stream_id c id.domain id.stream ≡ some sid
      → Table.find db.projections (sid, id.projection) ≡ some proj_id
      → db.consumers ≡ upsert_position sid id.consumer_name event_id c
      → Told jsonb id result event_id reader
          (later (position_row c sid id.consumer_name) event_id)
          db
  unfolding pg_version resolve_stream_id
  written-Told sid proj_id c db at named moved =
      rw (reads "select stream", moved, upsert_position-streams, at)
        (rw (reads "get version", named, moved, upsert_position-later) refl)

  written-Done :
      (sid proj_id : ℕ) (db : ViewsDb) (ps : List ((ℕ × String) × ℕ)) (r : Result Change × ViewsDb)
      → stream_id db.consumers id.domain id.stream ≡ some sid
      → Table.find ps (sid, id.projection) ≡ some proj_id
      → Mutated server jsonb db.consumers ps result event_id r
      → Done db (
          r then_do λ change work.
          write_position server jsonb sid id.consumer_name event_id work then_do λ done work'.
          (ok change, work'))
  unfolding Done Mutated Kept write_position
  written-Done sid proj_id db ps (err e, work) at named h = tt
  written-Done sid proj_id db ps (ok change, work) at named (same, (consumers, projections)) =
      elim (Bool-cases (server.fails "update consumer position")) [
        | inl f ↦ rw f tt
        | inr f ↦ rw f (
          same,
          (
            sid,
            at,
            written-Told sid proj_id db.consumers _ at (rw projections named) (rw consumers refl),
          ),
        )
      ]

  -- What resolveProjectionName leaves.
  Named : ℕ → ViewsDb → Result ℕ × ViewsDb → Type 0
  Named sid db (err e, work) = Unit
  Named sid db (ok proj_id, work) =
      (Table.find work.projections (sid, id.projection) ≡ some proj_id)
      × (work.consumers ≡ db.consumers)

  resolve_projection_name-Named :
      (sid : ℕ) (db : ViewsDb)
      → Named sid db (resolve_projection_name server jsonb sid id.projection db)
  unfolding resolve_projection_name Named
  resolve_projection_name-Named sid db = elim (Bool-cases (server.fails "insert projection")) [
    | inl f ↦ rw f tt
    | inr f ↦ rw f (elim (Option-cases (Table.find db.projections (sid, id.projection))) [
      | inl e ↦ rw e (rw find-upsert_self refl, refl)
      | inr (proj_id, e) ↦ rw e (elim (Bool-cases (server.fails "select projection")) [
        | inl g ↦ rw g tt
        | inr g ↦ rw g (e, refl)
      ])
    ])
  ]

  resolved-Done :
      (sid : ℕ) (db : ViewsDb) (r : Result ℕ × ViewsDb)
      → stream_id db.consumers id.domain id.stream ≡ some sid
      → Named sid db r
      → Done db (
          r then_do λ proj_id work.
          apply_mutations server jsonb proj_id result event_id work then_do λ change work'.
          write_position server jsonb sid id.consumer_name event_id work' then_do λ done work''.
          (ok change, work''))
  unfolding Named Done Kept
  resolved-Done sid db (err e, work) at named = tt
  resolved-Done sid db (ok proj_id, work) at (named, same) =
      written-Done sid proj_id db work.projections _ at named (
        apply_mutations-Mutated server jsonb db.consumers work.projections proj_id result event_id
          work (same, refl))

  settled-Recorded :
      (db : ViewsDb) (r : Result Change × ViewsDb)
      → Done db r
      → Recorded jsonb id result event_id reader db (
          settled server jsonb db
            (r then_do λ change work. statement server jsonb "commit" work (ok change, work)))
  unfolding Done
  settled-Recorded db (err e, work) h = (refl, refl, refl, refl, refl)
  settled-Recorded db (ok change, work) h = elim (Bool-cases (server.fails "commit")) [
    | inl f ↦ rw f (refl, refl, refl, refl, refl)
    | inr f ↦ rw f h
  ]

  apply_and_record-Done :
      (db : ViewsDb) → Done db (apply_and_record server jsonb id result event_id db)
  unfolding apply_and_record resolve_stream_id Done
  apply_and_record-Done db = elim (Bool-cases (server.fails "select stream")) [
    | inl f ↦ rw f tt
    | inr f ↦ rw f (elim (Option-cases (stream_id db.consumers id.domain id.stream)) [
      | inl e ↦ rw e tt
      | inr (sid, e) ↦ rw e (resolved-Done sid db _ e (resolve_projection_name-Named sid db))
    ])
  ]

  -- Whichever statement of Persist fails: it either returns the whole result as its change, and from then on the version
  -- that a reader whose statements do not fail is told is the event's ID or, where the consumer's position was behind a later event already, that position; or
  -- it returns an error, and every row is as before.
  pub pg_persist-Recorded :
      (db : ViewsDb)
      → Recorded jsonb id result event_id reader db (pg_persist server jsonb id result event_id db)
  unfolding pg_persist
  pg_persist-Recorded db = elim (Bool-cases (server.fails "begin")) [
    | inl f ↦ rw f (refl, refl, refl, refl, refl)
    | inr f ↦ rw f (settled-Recorded db _ (apply_and_record-Done db))
  ]
