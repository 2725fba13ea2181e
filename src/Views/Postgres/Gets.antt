-- ===== src/Views/Postgres/Gets.antt =====
-- Get behind Persist (pkg/indexer/views/pgstore.go).
use pgcqrs.Base.{
  ℕ, suc, ◌<◌, String, ℤ, Bool-cases, false, ◌≡◌, refl, ap, ◌∙◌, inl, inr, Option, Option-cases,
  none, some, List, All, if◌then◌else◌, arith,
}
use mathlib.Core.Path.{subst}
use pgcqrs.Base.Map
use pgcqrs.Base.Table
use pgcqrs.Base.Table.{named_key, find-upsert, find-upsert_self}
use pgcqrs.Wire.{Result, ok}
use pgcqrs.Storage.State.{Server, stream_id}
use pgcqrs.Views.{Key, Delete, ReduceResult, validate_key}
use pgcqrs.Views.Postgres.{
  ProjectionIdentity, ViewsDb, Entry, entity_of, get_kind, upsert_position, resolve_stream_id,
  resolve_projection_name, apply_upserts, apply_deletes, apply_mutations, change_of,
  apply_and_record, write_position, pg_persist, pg_get,
}
use pgcqrs.Views.Postgres.Mutations.{Kept, apply_upserts-Kept, apply_deletes-Kept}
use pgcqrs.Views.Postgres.Recorded.{upsert_position-streams}
use pgcqrs.Views.Postgres.Keyed.{IsValid, seen, seen_at}
use pgcqrs.Views.Postgres.Entries.{
  Storable, last_entry, is_gone, apply_upserts-seen, apply_deletes-seen,
}

module _ (server : Server) (jsonb : String → Option String) (id : ProjectionIdentity)
    (sid : ℕ) where
  abbrev in_projection : String → List String → ViewsDb → Option ℕ → Option Entry
  in_projection kind parts db none = none
  in_projection kind parts db (some p) = seen p kind parts db

  -- The entry of the projection under a kind and the parts of a key.
  abbrev pub stored : String → List String → ViewsDb → Option Entry
  stored kind parts db =
      in_projection kind parts db (Table.find db.projections (sid, id.projection))

  in_kind :
      (o : Option ℕ) (kind : String) (key : Key) (db : ViewsDb) (p : ℕ) (reader : Server)
      → validate_key key ≡ ok tt
      → ((op : String) → reader.fails op ≡ false)
      → Map.get db.kinds kind ≡ o
      → get_kind reader jsonb p kind key db ≡ ok (entity_of kind key (seen_at p key.parts db o))
  in_kind none kind key db p reader h working e = rw (working "select kind", e) refl
  in_kind (some k) kind key db p reader h working e =
      rw (working "select kind", e, h, working "get entry") refl

  pg_get-stored :
      (kind : String) (key : Key) (db : ViewsDb) (reader : Server)
      → stream_id db.consumers id.domain id.stream ≡ some sid
      → validate_key key ≡ ok tt
      → ((op : String) → reader.fails op ≡ false)
      → pg_get reader jsonb id kind key db ≡ ok (entity_of kind key (stored kind key.parts db))
  unfolding pg_get resolve_stream_id
  pg_get-stored kind key db reader at h working =
      elim (Option-cases (Table.find db.projections (sid, id.projection))) [
        | inl e ↦ rw (working "select stream", at) (rw (working "select projection", e) refl)
        | inr (p, e) ↦
            rw (working "select stream", at)
              (rw (working "select projection", e) (in_kind _ kind key db p reader h working refl))
      ]

  module _ (working : (op : String) → server.fails op ≡ false) where
    abbrev with_projection : ViewsDb → ViewsDb
    with_projection db = record db {
      next_projection = suc db.next_projection;
      projections = Table.upsert db.projections (sid, id.projection) db.next_projection;
    }

    with_projection-IsValid : (db : ViewsDb) → IsValid db → IsValid (with_projection db)
    with_projection-IsValid db valid = record {
      kinds_apart = valid.kinds_apart;
      kinds_old = valid.kinds_old;
      kinds_fresh = valid.kinds_fresh;
      projections_old = λ key i e. elim (Bool-cases (named_key.same (sid, id.projection) key)) [
        | inl t ↦ ground (arith, (rw (find-upsert, t) at e))
        | inr t ↦ omega (arith, valid.projections_old key i (rw (find-upsert, t) at e))
      ];
      projections_fresh = λ p k parts l. valid.projections_fresh p k parts (omega (arith, l));
      singles_keyed = valid.singles_keyed;
      composites_keyed = valid.composites_keyed;
    }

    numbered-IsValid :
        (db : ViewsDb)
        → IsValid db
        → IsValid (record db { next_projection = suc db.next_projection })
    numbered-IsValid db valid = record {
      kinds_apart = valid.kinds_apart;
      kinds_old = valid.kinds_old;
      kinds_fresh = valid.kinds_fresh;
      projections_old = λ key i e. omega (arith, valid.projections_old key i e);
      projections_fresh = λ p k parts l. valid.projections_fresh p k parts (omega (arith, l));
      singles_keyed = valid.singles_keyed;
      composites_keyed = valid.composites_keyed;
    }

    abbrev Prepared : ViewsDb → Result ℕ × ViewsDb → Type 0
    Prepared db r =
        (p : ℕ) × (db' : ViewsDb) × (r ≡ (ok p, db'))
        × IsValid db'
        × (Table.find db'.projections (sid, id.projection) ≡ some p)
        × (p < db'.next_projection)
        × (db'.consumers ≡ db.consumers)
        × ((kind : String) (parts : List String) → seen p kind parts db' ≡ stored kind parts db)

    fresh_projection :
        (db : ViewsDb) (kind : String) (parts : List String)
        → IsValid db
        → seen db.next_projection kind parts db ≡ none
    fresh_projection db kind parts valid = elim (Option-cases (Map.get db.kinds kind)) [
      | inl e ↦ rw e refl
      | inr (k, e) ↦ rw e (valid.projections_fresh db.next_projection k parts (omega arith))
    ]

    resolve_projection_name-Prepared :
        (db : ViewsDb)
        → IsValid db
        → Prepared db (resolve_projection_name server jsonb sid id.projection db)
    unfolding resolve_projection_name
    resolve_projection_name-Prepared db valid =
        elim (Option-cases (Table.find db.projections (sid, id.projection))) [
          | inl e ↦
              rw (working "insert projection", e)
                (
                  db.next_projection,
                  with_projection db,
                  refl,
                  with_projection-IsValid db valid,
                  find-upsert_self db.projections (sid, id.projection) db.next_projection,
                  omega arith,
                  refl,
                  λ kind parts. fresh_projection db kind parts valid,
                )
          | inr (p, e) ↦
              rw (working "insert projection", e, working "select projection")
                (
                  p,
                  record db { next_projection = suc db.next_projection },
                  refl,
                  numbered-IsValid db valid,
                  e,
                  omega (arith, valid.projections_old (sid, id.projection) p e),
                  refl,
                  λ kind parts. refl,
                )
        ]

    module _ (result : ReduceResult) (event_id : ℤ) (db : ViewsDb)
        (fine : All (Storable server jsonb) result.upserts)
        (fine_deletes : All (λ (d : Delete). validate_key d.key ≡ ok tt) result.deletes)
        (at : stream_id db.consumers id.domain id.stream ≡ some sid) (valid : IsValid db) where
      -- What the projection holds under a key behind the Persist.
      abbrev pub replaced : String → List String → Option Entry → Option Entry
      replaced kind parts old =
          if is_gone result.deletes kind parts
          then none
          else last_entry server jsonb event_id result.upserts kind parts old

      abbrev persisted : ViewsDb → ViewsDb
      persisted work = record work {
        consumers = upsert_position sid id.consumer_name event_id work.consumers;
      }

      persisted-run :
          (p : ℕ) (db1 db2 db3 : ViewsDb)
          → resolve_projection_name server jsonb sid id.projection db ≡ (ok p, db1)
          → apply_upserts server jsonb p event_id result.upserts db1 ≡ (ok tt, db2)
          → apply_deletes server jsonb p result.deletes db2 ≡ (ok tt, db3)
          → pg_persist server jsonb id result event_id db
            ≡ (ok (change_of result event_id), persisted db3)
      unfolding pg_persist apply_and_record resolve_stream_id apply_mutations write_position
      persisted-run p db1 db2 db3 e1 e2 e3 =
          rw (working "begin", working "select stream", at, e1, e2, e3)
            (rw (working "update consumer position", working "commit") refl)

      persisted-stored :
          (work : ViewsDb) × (pg_persist server jsonb id result event_id db
            ≡ (ok (change_of result event_id), persisted work))
          × (work.consumers ≡ db.consumers)
          × ((kind : String) (parts : List String)
              → stored kind parts (persisted work) ≡ replaced kind parts (stored kind parts db))
      unfolding Kept
      persisted-stored =
          let (p, db1, e1, v1, named, l, same, old) = resolve_projection_name-Prepared db valid in
          let (db2, e2, v2, up) =
            apply_upserts-seen server jsonb working p event_id result.upserts db1 fine l v1 in
          let (db3, e3, v3, down) =
            apply_deletes-seen server jsonb working p result.deletes db2 fine_deletes v2 in
          let (c2, p2) =
            subst (λ r. Kept db1.consumers db1.projections r.1) e2
              (apply_upserts-Kept server jsonb db1.consumers db1.projections p event_id
                result.upserts db1 (refl, refl)) in
          let (c3, p3) =
            subst (λ r. Kept db1.consumers db1.projections r.1) e3
              (apply_deletes-Kept server jsonb db1.consumers db1.projections p result.deletes db2
                (c2, p2)) in
          (
            db3,
            persisted-run p db1 db2 db3 e1 e2 e3,
            c3 ∙ same,
            λ kind parts.
                ap (in_projection kind parts db3)
                  (ap (λ projections. Table.find projections (sid, id.projection)) p3 ∙ named)
                ∙ down kind parts
                ∙ rw (up kind parts, old kind parts) refl,
          )

      -- Where no statement fails, on tables that satisfy the schema's keys and references: Persist of a result with
      -- valid keys and values that PostgreSQL takes returns the whole result as its change; and from then on Get of
      -- the same projection, under each kind and each valid key, finds nothing where a delete names the two,
      -- or else the last upsert under them at the event's version, or else the entry that Get found before.
      pub pg_persist-pg_get :
          (reader : Server) (kind : String) (key : Key)
          → ((op : String) → reader.fails op ≡ false)
          → validate_key key ≡ ok tt
          → let (answer, after) = pg_persist server jsonb id result event_id db in
            (answer ≡ ok (change_of result event_id))
            × ((old : Option Entry) × (pg_get reader jsonb id kind key db
                  ≡ ok (entity_of kind key old))
                × (pg_get reader jsonb id kind key after
                    ≡ ok (entity_of kind key (replaced kind key.parts old))))
      pg_persist-pg_get reader kind key reads h =
          let (work, run, same, found) = persisted-stored in
          rw run (
            refl,
            (
              stored kind key.parts db,
              pg_get-stored kind key db reader at h reads,
              pg_get-stored kind key (persisted work) reader (rw (upsert_position-streams, same) at)
                    h reads
                  ∙ rw (found kind key.parts) refl,
            ),
          )
