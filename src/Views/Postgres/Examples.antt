-- ===== src/Views/Postgres/Examples.antt =====
-- The theorems on the PostgreSQL store of entities applied to a result of one upsert and one delete.
use pgcqrs.Base.{ℕ, String, pos, ◌≡◌, refl, Option, none, some, List, [], ◌∷◌, All, if◌then◌else◌}
use pgcqrs.Base.Map
use pgcqrs.Base.Table
use pgcqrs.Wire.{ok}
use pgcqrs.Storage.Fixture.{at_time, tables, tables-stream}
use pgcqrs.Views.{Key, Delete, ReduceResult, validate_key}
use pgcqrs.Views.Postgres.{
  ProjectionIdentity, ViewsDb, Entry, change_of, entity_of, entry_in, pg_persist, pg_get,
}
use pgcqrs.Views.Postgres.Recorded.{Recorded, pg_persist-Recorded}
use pgcqrs.Views.Postgres.Keyed.{IsValid}
use pgcqrs.Views.Postgres.Entries.{Storable, is_gone, last_entry}
use pgcqrs.Views.Postgres.Gets.{pg_persist-pg_get}

no_entry : (p k : ℕ) (parts : List String) → entry_in [] [] p k parts ≡ none
unfolding Table.find
no_entry p k [] = refl
no_entry p k (_ ∷ []) = refl
no_entry p k (_ ∷ _ ∷ []) = refl
no_entry p k (_ ∷ _ ∷ _ ∷ _) = refl

abbrev id : ProjectionIdentity
id = record { domain = "d"; stream = "s"; projection = "p"; consumer_name = "c" }

abbrev key_a : Key
key_a = record { parts = "a" ∷ [] }

abbrev key_b : Key
key_b = record { parts = "a" ∷ "b" ∷ [] }

abbrev changes : ReduceResult
changes = record {
  upserts = record { kind = "k"; key = key_a; value = some "1" } ∷ [];
  deletes = record { kind = "k"; key = key_b } ∷ [];
}

abbrev db : ViewsDb
db = record {
  consumers = tables;
  projections = [];
  next_projection = 1;
  kinds = [];
  next_kind = 1;
  singles = [];
  composites = [];
}

pg_persist-Recorded_example :
    Recorded some id changes
      (pos 7)
      (at_time 20)
      db
      (pg_persist (at_time 10) some id changes (pos 7) db)
pg_persist-Recorded_example =
    pg_persist-Recorded (at_time 10) some id changes (pos 7) (at_time 20) (λ op. refl) db

db-IsValid : IsValid db
unfolding Map.get Table.find
db-IsValid = record {
  kinds_apart = λ a b i e f. absurd cc;
  kinds_old = λ a i e. absurd cc;
  kinds_fresh = λ p k parts l. no_entry p k parts;
  projections_old = λ key i e. absurd cc;
  projections_fresh = λ p k parts l. no_entry p k parts;
  singles_keyed = tt;
  composites_keyed = tt;
}

changes-Storable : All (Storable (at_time 10) some) changes.upserts
unfolding validate_key
changes-Storable = ((refl, ("1", refl, ("1", refl))), tt)

deletes-valid : All (λ (d : Delete). validate_key d.key ≡ ok tt) changes.deletes
unfolding validate_key
deletes-valid = (refl, tt)

key_a-valid : validate_key key_a ≡ ok tt
unfolding validate_key
key_a-valid = refl

pg_persist-pg_get_example :
    let (answer, after) = pg_persist (at_time 10) some id changes (pos 7) db in
    (answer ≡ ok (change_of changes (pos 7)))
    × ((old : Option Entry) × (pg_get (at_time 20) some id "k" key_a db
          ≡ ok (entity_of "k" key_a old))
        × (pg_get (at_time 20) some id "k" key_a after
            ≡ ok (
                entity_of "k" key_a (
                  if is_gone changes.deletes "k" key_a.parts
                  then none
                  else last_entry (at_time 10) some (pos 7) changes.upserts "k" key_a.parts old))))
pg_persist-pg_get_example =
    pg_persist-pg_get (at_time 10) some id 1 (λ op. refl) changes (pos 7) db changes-Storable
      deletes-valid tables-stream db-IsValid (at_time 20) "k" key_a (λ op. refl) key_a-valid
