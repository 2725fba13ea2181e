-- ===== src/Views/Postgres/Entries.antt =====
-- What Get finds behind a Persist: the entries of a projection.
use pgcqrs.Base.{
  ℕ, ◌<◌, String, ◌==◌, ℤ, Bool, false, ◌&&◌, ◌||◌, Bool-cases, ◌≡◌, refl, ap, ◌∙◌, inl, inr,
  Option, Option-cases, none, some, List, [], ◌∷◌, All, if◌then◌else◌, eqb, arith, eq_iff,
}
use mathlib.Core.Path.{subst}
use pgcqrs.Base.Map
use pgcqrs.Base.Map.{get-put, get-put_self}
use pgcqrs.Base.Table.{named_key}
use pgcqrs.Wire.{Result, ok}
use pgcqrs.Storage.State.{Server}
use pgcqrs.Views.{Upsert, Delete, validate_key}
use pgcqrs.Views.Postgres.Kinds.{same_kind, resolve_kind_name-Resolved}
use pgcqrs.Views.Postgres.Keyed.{
  same_parts, hits, IsValid, find_entry-put_entry, find_entry-delete_entry, seen_at, seen,
  put_entry-IsValid, delete_entry-IsValid, put_entry-kinds, delete_entry-kinds,
}
use pgcqrs.Views.Postgres.{
  ViewsDb, Entry, single_key, composite_key, find_entry, put_entry, delete_entry, apply_upsert,
  apply_delete, apply_upserts, apply_deletes,
}

abbrev pub is_gone : List Delete → String → List String → Bool
is_gone [] kind parts = false
is_gone (d ∷ ds) kind parts =
    let rest = is_gone ds kind parts in hits d.kind d.key.parts kind parts || rest

module _ (server : Server) (jsonb : String → Option String) where
  abbrev pub entry_of : ℤ → Option String → Option Entry
  entry_of event_id none = none
  entry_of event_id (some value) = some (record { value = value; version = event_id })

  abbrev pub json_of : Option String → Option String
  json_of none = none
  json_of (some body) = jsonb body

  -- The last upsert under a key, or else what was there.
  abbrev pub last_entry : ℤ → List Upsert → String → List String → Option Entry → Option Entry
  last_entry event_id [] kind parts old = old
  last_entry event_id (u ∷ us) kind parts old =
      last_entry event_id us kind parts
        (if hits u.kind u.key.parts kind parts then entry_of event_id (json_of u.value) else old)

  -- The key is one, the value can be marshalled, and PostgreSQL takes it as jsonb.
  abbrev pub Storable : Upsert → Type 0
  Storable u =
      (validate_key u.key ≡ ok tt)
      × ((body : String) × (u.value ≡ some body) × ((value : String) × (jsonb body ≡ some value)))

  module _ (working : (op : String) → server.fails op ≡ false) where
    -- A statement on one key of the projection `p`: the tables stay valid, and what is seen under the key changes.
    abbrev Changes :
        ℕ → String → List String → Option Entry → ViewsDb → Result (Unit {0}) × ViewsDb → Type 0
    Changes p kind parts new db r =
        (db' : ViewsDb) × (r ≡ (ok tt, db'))
        × IsValid db'
        × (db'.next_projection ≡ db.next_projection)
        × ((kind' : String) (parts' : List String)
            → seen p kind' parts' db'
              ≡ (if hits kind parts kind' parts' then new else seen p kind' parts' db))

    -- What is seen in tables that differ in one entry.
    changed-seen :
        (p k : ℕ) (kind : String) (parts : List String) (new : Option Entry) (db db' : ViewsDb)
        (kind' : String) (parts' : List String)
        → Map.get db.kinds kind ≡ some k
        → IsValid db
        → db'.kinds ≡ db.kinds
        → ((k' : ℕ)
            → find_entry p k' parts' db' ≡ (
                if eqb p p && eqb k k' && same_parts parts parts'
                then new
                else find_entry p k' parts' db))
        → seen p kind' parts' db'
          ≡ (if hits kind parts kind' parts' then new else seen p kind' parts' db)
    changed-seen p k kind parts new db db' kind' parts' at valid same found =
        ap (λ kinds. seen_at p parts' db' (Map.get kinds kind')) same
        ∙ elim (Option-cases (Map.get db.kinds kind')) [
          | inl f ↦ elim (Bool-cases (kind == kind')) [
            | inl t ↦ absurd (
                let e = subst (λ x. Map.get db.kinds x ≡ some k) ((eq_iff kind kind').0 t) at in cc)
            | inr t ↦ rw (f, t) refl
          ]
          | inr (k', f) ↦ rw f (found k' ∙ ground (arith, same_kind db kind kind' k k' valid at f))
        ]

    apply_delete-Changes :
        (p : ℕ) (d : Delete) (db : ViewsDb)
        → validate_key d.key ≡ ok tt
        → IsValid db
        → Changes p d.kind d.key.parts none db (apply_delete server jsonb p d db)
    unfolding apply_delete validate_key
    apply_delete-Changes p d db h valid =
        let (k, db', e, valid', at, kept, same) =
          resolve_kind_name-Resolved server jsonb working d.kind db valid in
        let (kinds, next) = delete_entry-kinds p k d.key.parts db' in
        (
          delete_entry p k d.key.parts db',
          rw (e, h, working "delete") refl,
          delete_entry-IsValid p k d.key.parts db' h valid',
          next ∙ kept,
          λ kind' parts'.
              changed-seen p k d.kind d.key.parts none db' (delete_entry p k d.key.parts db') kind'
                parts' at valid' kinds
                (λ k'.
                  find_entry-delete_entry p k d.key.parts db' p k' parts' h valid'.singles_keyed
                    valid'.composites_keyed)
              ∙ rw (same p kind' parts') refl,
        )

    apply_upsert-Changes :
        (p : ℕ) (u : Upsert) (event_id : ℤ) (db : ViewsDb)
        → Storable u
        → p < db.next_projection
        → IsValid db
        → Changes p u.kind u.key.parts
            (entry_of event_id (json_of u.value))
            db
            (apply_upsert server jsonb p u event_id db)
    unfolding apply_upsert validate_key
    apply_upsert-Changes p u event_id db (h, (body, f, (value, g))) l valid =
        let (k, db', e, valid', at, kept, same) =
          resolve_kind_name-Resolved server jsonb working u.kind db valid in
        let new : Entry = record { value = value; version = event_id } in
        let (done, kinds, next) = put_entry-kinds p k u.key.parts new db' h in
        (
          (put_entry p k u.key.parts new db').1,
          rw (f, e, h, working "upsert", g) done,
          put_entry-IsValid p k u.key.parts new db' h (omega (arith, l, kept))
              (valid'.kinds_old u.kind k at) valid',
          next ∙ kept,
          λ kind' parts'.
              changed-seen p k u.kind u.key.parts (some new) db'
                (put_entry p k u.key.parts new db').1 kind' parts' at valid' kinds
                (λ k'. find_entry-put_entry p k u.key.parts new db' p k' parts' h)
              ∙ rw (same p kind' parts', f, g) refl,
        )

    pub apply_upserts-seen :
        (p : ℕ) (event_id : ℤ) (us : List Upsert) (db : ViewsDb)
        → All Storable us
        → p < db.next_projection
        → IsValid db
        → (db' : ViewsDb) × (apply_upserts server jsonb p event_id us db ≡ (ok tt, db'))
          × IsValid db'
          × ((kind : String) (parts : List String)
              → seen p kind parts db' ≡ last_entry event_id us kind parts (seen p kind parts db))
    unfolding apply_upserts
    apply_upserts-seen p event_id [] db fine l valid = (db, refl, valid, λ kind parts. refl)
    apply_upserts-seen p event_id (u ∷ us) db fine l valid =
        let (db', e, valid', kept, changed) = apply_upsert-Changes p u event_id db fine.0 l valid in
        let (db'', f, valid'', later) =
          apply_upserts-seen p event_id us db' fine.1 (omega (arith, l, kept)) valid' in
        (
          db'',
          rw (e, f) refl,
          valid'',
          λ kind parts.
              later kind parts ∙ ap (last_entry event_id us kind parts) (changed kind parts),
        )

    pub apply_deletes-seen :
        (p : ℕ) (ds : List Delete) (db : ViewsDb)
        → All (λ (d : Delete). validate_key d.key ≡ ok tt) ds
        → IsValid db
        → (db' : ViewsDb) × (apply_deletes server jsonb p ds db ≡ (ok tt, db'))
          × IsValid db'
          × ((kind : String) (parts : List String)
              → seen p kind parts db'
                ≡ (if is_gone ds kind parts then none else seen p kind parts db))
    unfolding apply_deletes
    apply_deletes-seen p [] db fine valid = (db, refl, valid, λ kind parts. refl)
    apply_deletes-seen p (d ∷ ds) db fine valid =
        let (db', e, valid', kept, changed) = apply_delete-Changes p d db fine.0 valid in
        let (db'', f, valid'', later) = apply_deletes-seen p ds db' fine.1 valid' in
        (
          db'',
          rw (e, f) refl,
          valid'',
          λ kind parts. later kind parts ∙ rw (changed kind parts) (ground arith),
        )
