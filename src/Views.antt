-- ===== src/Views.antt =====
-- The store of projected entities (pkg/indexer/views): keys (key.go) and the in-memory store (memory.go).
-- The proofs, the reader and the PostgreSQL store are in the modules below.
pub mod Store
pub mod Reader
pub mod Postgres
use Prim.Native.String.{◌++◌ as str_append}
use pgcqrs.Base.{
  String, ℤ, ltb_ℤ, Bool, true, false, Option, none, some, List, [], ◌∷◌, ◌++◌, if◌then◌else◌,
}
use pgcqrs.Base.Map
use pgcqrs.Base.Map.{Map}
use pgcqrs.Wire.{Result, ok, err, bad_json, bad_key, ◌>>=◌}

pub record Key : Type 0 where
  pub parts : List String

pub record Entity : Type 0 where
  pub kind : String
  pub key : Key
  pub value : String
  pub version : ℤ

-- `value` is what json.Marshal makes of the value, `none` where that fails.
pub record Upsert : Type 0 where
  pub kind : String
  pub key : Key
  pub value : Option String

pub record Delete : Type 0 where
  pub kind : String
  pub key : Key

-- A nil result of a projection is an empty one.
pub record ReduceResult : Type 0 where
  pub upserts : List Upsert
  pub deletes : List Delete

pub record Change : Type 0 where
  pub upserts : List Upsert
  pub deletes : List Delete
  pub version : ℤ

pub record MemoryStore : Type 0 where
  pub entities : Map Entity
  pub version : ℤ

-- One or two parts.
abbrev pub validate_parts : List String → Result (Unit {0})
validate_parts [] = err bad_key
validate_parts (_ ∷ []) = ok tt
validate_parts (_ ∷ _ ∷ []) = ok tt
validate_parts (_ ∷ _ ∷ _ ∷ _) = err bad_key

pub validate_key : Key → Result (Unit {0})
validate_key key = validate_parts key.parts

-- `fmt.Sprintf("%s:%s", a, b)`
abbrev pub colon : String → String → String
colon a b = str_append a (str_append ":" b)

abbrev pub joined_parts : String → List String → String
joined_parts kind [] = kind
joined_parts kind (a ∷ []) = colon kind a
joined_parts kind (a ∷ b ∷ []) = colon kind (colon a b)
joined_parts kind (_ ∷ _ ∷ _ ∷ _) = kind

unfoldable pub entity_key : String → Key → String
entity_key kind key = joined_parts kind key.parts

-- MemoryStore.Get
pub get : String → Key → MemoryStore → Result (Option Entity)
get kind key store = validate_key key >>= λ _. ok (Map.get store.entities (entity_key kind key))

pub validate_upserts : List Upsert → Result (Unit {0})
validate_upserts [] = ok tt
validate_upserts (u ∷ us) = validate_key u.key >>= λ _. validate_upserts us

pub validate_deletes : List Delete → Result (Unit {0})
validate_deletes [] = ok tt
validate_deletes (d ∷ ds) = validate_key d.key >>= λ _. validate_deletes ds

pub validate_reduce_result : ReduceResult → Result (Unit {0})
validate_reduce_result result =
    validate_upserts result.upserts >>= λ _. validate_deletes result.deletes

-- The loop over the upserts. A value that cannot be marshalled ends it: the entities before it are stored.
pub persist_upserts : ℤ → List Upsert → Map Entity → Result (Unit {0}) × Map Entity
persist_upserts event_id [] entities = (ok tt, entities)
persist_upserts event_id (u ∷ us) entities = elim u.value [
  | none ↦ (err bad_json, entities)
  | some body ↦ persist_upserts event_id us (
      Map.put entities (entity_key u.kind u.key)
        (record { kind = u.kind; key = u.key; value = body; version = event_id }))
]

pub persist_deletes : List Delete → Map Entity → Map Entity
persist_deletes [] entities = entities
persist_deletes (d ∷ ds) entities =
    persist_deletes ds (Map.delete entities (entity_key d.kind d.key))

-- The end of Persist, behind the upserts.
abbrev persisted :
    ReduceResult → ℤ → MemoryStore → Result (Unit {0}) × Map Entity → Result Change × MemoryStore
persisted result event_id store (err e, entities) = (err e, record store { entities = entities })
persisted result event_id store (ok _, entities) = (
  ok (record { upserts = result.upserts; deletes = result.deletes; version = event_id }),
  record { entities = persist_deletes result.deletes entities; version = event_id },
)

-- MemoryStore.Persist
pub persist : ReduceResult → ℤ → MemoryStore → Result Change × MemoryStore
persist result event_id store = elim (validate_reduce_result result) [
  | err e ↦ (err e, store)
  | ok _ ↦ persisted result event_id store (persist_upserts event_id result.upserts store.entities)
]
