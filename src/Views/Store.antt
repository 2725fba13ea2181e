-- ===== src/Views/Store.antt =====
-- What the store holds after Persist.
use pgcqrs.Base.{
  String, ◌==◌, ℤ, Bool, false, ◌||◌, ◌≡◌, refl, ap, ◌∙◌, Option, none, some, List, [], ◌∷◌, arith,
  All, if◌then◌else◌,
}
use pgcqrs.Base.Map
use pgcqrs.Base.Map.{Map, get-put, get-delete}
use pgcqrs.Wire.{ok}
use pgcqrs.Views.{
  Entity, Upsert, Delete, ReduceResult, MemoryStore, validate_key, validate_reduce_result, colon,
  entity_key, get, persist_upserts, persist_deletes, persist,
}

-- The entity that an upsert stores, from its marshalled value.
abbrev pub upserted : ℤ → Upsert → Option String → Option Entity
upserted event_id u none = none
upserted event_id u (some body) =
    some (record { kind = u.kind; key = u.key; value = body; version = event_id })

-- The last upsert under a key, or else what was there.
abbrev pub last_upsert : ℤ → List Upsert → String → Option Entity → Option Entity
last_upsert event_id [] k old = old
last_upsert event_id (u ∷ us) k old =
    last_upsert event_id us k
      (if entity_key u.kind u.key == k then upserted event_id u u.value else old)

abbrev pub is_deleted : List Delete → String → Bool
is_deleted [] k = false
is_deleted (d ∷ ds) k = entity_key d.kind d.key == k || is_deleted ds k

-- The upsert's value can be marshalled.
abbrev pub Marshals : Upsert → Type 0
Marshals u = (body : String) × (u.value ≡ some body)

get-persist_deletes :
    (ds : List Delete) (entities : Map Entity) (k : String)
    → Map.get (persist_deletes ds entities) k
      ≡ (if is_deleted ds k then none else Map.get entities k)
unfolding persist_deletes
get-persist_deletes [] entities k = refl
get-persist_deletes (d ∷ ds) entities k =
    get-persist_deletes ds (Map.delete entities (entity_key d.kind d.key)) k
    ∙ rw get-delete (ground arith)

get-persist_upserts :
    (event_id : ℤ) (us : List Upsert) (entities : Map Entity)
    → All Marshals us
    → (entities' : Map Entity) × (persist_upserts event_id us entities ≡ (ok tt, entities'))
      × ((k : String) → Map.get entities' k ≡ last_upsert event_id us k (Map.get entities k))
unfolding persist_upserts
get-persist_upserts event_id [] entities fine = (entities, refl, λ k. refl)
get-persist_upserts event_id (u ∷ us) entities ((body, e), fine) =
    let new : Entity = record { kind = u.kind; key = u.key; value = body; version = event_id } in
    let (entities', h, g) =
      get-persist_upserts event_id us (Map.put entities (entity_key u.kind u.key) new) fine in
    (
      entities',
      rw (e, persist_upserts) h,
      λ k. g k ∙ ap (last_upsert event_id us k) (rw (get-put, e) refl),
    )

-- A result with valid keys whose values can be marshalled is stored: Persist returns all of its changes with the
-- event's ID, the store has that version, and under each name of an entry it holds nothing where the key of a
-- delete has that name, or else the last upsert whose key has it at that version, or else what it held.
pub persist_lem :
    (result : ReduceResult) (event_id : ℤ) (store : MemoryStore)
    → validate_reduce_result result ≡ ok tt
    → All Marshals result.upserts
    → let (answer, store') = persist result event_id store in
      (answer
        ≡ ok (record { upserts = result.upserts; deletes = result.deletes; version = event_id }))
      × (store'.version ≡ event_id)
      × ((k : String)
          → Map.get store'.entities k ≡ (
              if is_deleted result.deletes k
              then none
              else last_upsert event_id result.upserts k (Map.get store.entities k)))
unfolding persist
persist_lem result event_id store valid fine =
    let (entities, h, g) = get-persist_upserts event_id result.upserts store.entities fine in
    rw (valid, persist, h)
      (refl, refl, λ k. get-persist_deletes result.deletes entities k ∙ rw (g k) refl)

-- A defect. The composite key of `a` and `b` and the simple key `a:b` name the same entity, for all texts: Get
-- finds under the one what is stored under the other.
pub composite_key_collides :
    (kind a b : String) (store : MemoryStore)
    → get kind (record { parts = a ∷ b ∷ [] }) store
      ≡ get kind (record { parts = colon a b ∷ [] }) store
unfolding get validate_key entity_key
composite_key_collides kind a b store = refl
