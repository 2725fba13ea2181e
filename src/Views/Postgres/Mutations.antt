-- ===== src/Views/Postgres/Mutations.antt =====
-- What the mutations of a Persist leave as it is (pkg/indexer/views/pgstore.go).
use pgcqrs.Base.{
  ℕ, String, ℤ, Bool-cases, ◌≡◌, refl, inl, inr, Option, Option-cases, none, some, List, [], ◌∷◌,
  arith,
}
use pgcqrs.Base.Map
use pgcqrs.Base.Table.{named_key}
use pgcqrs.Wire.{Result, ok, err}
use pgcqrs.Storage.State.{Db, Server, ◌then_do◌}
use pgcqrs.Views.{Upsert, Delete, ReduceResult, Change, validate_key}
use pgcqrs.Views.Postgres.{
  ViewsDb, statement, resolve_kind_name, apply_upsert, apply_delete, apply_upserts, apply_deletes,
  apply_mutations, upsert_entry, delete_entry, change_of,
}

-- What a mutation of entries leaves as it is.
unfoldable pub Kept : Db → List ((ℕ × String) × ℕ) → ViewsDb → Type 0
Kept c ps db = (db.consumers ≡ c) × (db.projections ≡ ps)

module _ (server : Server) (jsonb : String → Option String) where
  module _ (c : Db) (ps : List ((ℕ × String) × ℕ)) where
    then-Kept {ℓ κ} :
        {A : Type ℓ} {B : Type κ} (r : Result A × ViewsDb) (next : A → ViewsDb → Result B × ViewsDb)
        → Kept c ps r.1
        → ((a : A) (db : ViewsDb) → Kept c ps db → Kept c ps (next a db).1)
        → Kept c ps (r then_do next).1
    then-Kept (err e, db) next h f = h
    then-Kept (ok a, db) next h f = f a db h

    statement-Kept {ℓ} :
        {A : Type ℓ} (name : String) (db : ViewsDb) (r : Result A × ViewsDb)
        → Kept c ps db
        → Kept c ps r.1
        → Kept c ps (statement server jsonb name db r).1
    statement-Kept name db r h k = elim (Bool-cases (server.fails name)) [
      | inl e ↦ rw e h
      | inr e ↦ rw e k
    ]

    resolve_kind_name-Kept :
        (kind : String) (db : ViewsDb)
        → Kept c ps db
        → Kept c ps (resolve_kind_name server jsonb kind db).1
    unfolding resolve_kind_name Kept
    resolve_kind_name-Kept kind db h =
        statement-Kept "insert kind" db _ h (elim (Option-cases (Map.get db.kinds kind)) [
          | inl e ↦ rw e h
          | inr (id, e) ↦ rw e (ground (arith, h))
        ])

    put_entry-Kept :
        (proj_id kind_id : ℕ) (parts : List String) (event_id : ℤ) (body : Option String)
        (db : ViewsDb)
        → Kept c ps db
        → Kept c ps (upsert_entry server jsonb proj_id kind_id parts event_id body db).1
    unfolding Kept
    put_entry-Kept proj_id kind_id parts event_id none db h = h
    put_entry-Kept proj_id kind_id [] event_id (some body) db h = h
    put_entry-Kept proj_id kind_id (_ ∷ []) event_id (some body) db h = h
    put_entry-Kept proj_id kind_id (_ ∷ _ ∷ []) event_id (some body) db h = h
    put_entry-Kept proj_id kind_id (_ ∷ _ ∷ _ ∷ _) event_id (some body) db h = h

    delete_entry-Kept :
        (proj_id kind_id : ℕ) (parts : List String) (db : ViewsDb)
        → Kept c ps db
        → Kept c ps (delete_entry proj_id kind_id parts db)
    unfolding Kept
    delete_entry-Kept proj_id kind_id [] db h = h
    delete_entry-Kept proj_id kind_id (_ ∷ []) db h = h
    delete_entry-Kept proj_id kind_id (_ ∷ _ ∷ []) db h = h
    delete_entry-Kept proj_id kind_id (_ ∷ _ ∷ _ ∷ _) db h = h

    apply_upsert-Kept :
        (proj_id : ℕ) (u : Upsert) (event_id : ℤ) (db : ViewsDb)
        → Kept c ps db
        → Kept c ps (apply_upsert server jsonb proj_id u event_id db).1
    unfolding apply_upsert
    apply_upsert-Kept proj_id u event_id db h = elim (Option-cases u.value) [
      | inl e ↦ rw e h
      | inr (body, e) ↦ rw e (
          then-Kept (resolve_kind_name server jsonb u.kind db) _
            (resolve_kind_name-Kept u.kind db h)
            (λ kind_id db' h'.
              then-Kept (validate_key u.key, db') _ h'
                (λ valid db'' h''.
                  statement-Kept "upsert" db'' _ h''
                    (put_entry-Kept proj_id kind_id u.key.parts event_id (jsonb body) db'' h''))))
    ]

    apply_delete-Kept :
        (proj_id : ℕ) (d : Delete) (db : ViewsDb)
        → Kept c ps db
        → Kept c ps (apply_delete server jsonb proj_id d db).1
    unfolding apply_delete
    apply_delete-Kept proj_id d db h =
        then-Kept (resolve_kind_name server jsonb d.kind db) _ (resolve_kind_name-Kept d.kind db h)
          (λ kind_id db' h'.
            then-Kept (validate_key d.key, db') _ h'
              (λ valid db'' h''.
                statement-Kept "delete" db'' _ h''
                  (delete_entry-Kept proj_id kind_id d.key.parts db'' h'')))

    pub apply_upserts-Kept :
        (proj_id : ℕ) (event_id : ℤ) (us : List Upsert) (db : ViewsDb)
        → Kept c ps db
        → Kept c ps (apply_upserts server jsonb proj_id event_id us db).1
    unfolding apply_upserts
    apply_upserts-Kept proj_id event_id [] db h = h
    apply_upserts-Kept proj_id event_id (u ∷ us) db h =
        then-Kept (apply_upsert server jsonb proj_id u event_id db) _
          (apply_upsert-Kept proj_id u event_id db h)
          (λ done db' h'. apply_upserts-Kept proj_id event_id us db' h')

    pub apply_deletes-Kept :
        (proj_id : ℕ) (ds : List Delete) (db : ViewsDb)
        → Kept c ps db
        → Kept c ps (apply_deletes server jsonb proj_id ds db).1
    unfolding apply_deletes
    apply_deletes-Kept proj_id [] db h = h
    apply_deletes-Kept proj_id (d ∷ ds) db h =
        then-Kept (apply_delete server jsonb proj_id d db) _ (apply_delete-Kept proj_id d db h)
          (λ done db' h'. apply_deletes-Kept proj_id ds db' h')

    -- Either an error, or the whole change with the tables that the mutations do not touch.
    unfoldable pub Mutated : ReduceResult → ℤ → Result Change × ViewsDb → Type 0
    Mutated result event_id (err e, db) = Unit
    Mutated result event_id (ok change, db) = (change ≡ change_of result event_id) × Kept c ps db

    deleted-Mutated :
        (result : ReduceResult) (event_id : ℤ) (r : Result (Unit {0}) × ViewsDb)
        → Kept c ps r.1
        → Mutated result event_id (r then_do λ deleted db. (ok (change_of result event_id), db))
    unfolding Mutated
    deleted-Mutated result event_id (err e, db) h = tt
    deleted-Mutated result event_id (ok done, db) h = (refl, h)

    upserted-Mutated :
        (proj_id : ℕ) (result : ReduceResult) (event_id : ℤ) (r : Result (Unit {0}) × ViewsDb)
        → Kept c ps r.1
        → Mutated result event_id (
            r then_do λ upserted db.
            apply_deletes server jsonb proj_id result.deletes db then_do λ deleted db'.
            (ok (change_of result event_id), db'))
    unfolding Mutated
    upserted-Mutated proj_id result event_id (err e, db) h = tt
    upserted-Mutated proj_id result event_id (ok done, db) h =
        deleted-Mutated result event_id _ (apply_deletes-Kept proj_id result.deletes db h)

    pub apply_mutations-Mutated :
        (proj_id : ℕ) (result : ReduceResult) (event_id : ℤ) (db : ViewsDb)
        → Kept c ps db
        → Mutated result event_id (apply_mutations server jsonb proj_id result event_id db)
    unfolding apply_mutations
    apply_mutations-Mutated proj_id result event_id db h =
        upserted-Mutated proj_id result event_id _
          (apply_upserts-Kept proj_id event_id result.upserts db h)
