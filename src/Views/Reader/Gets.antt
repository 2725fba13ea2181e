-- ===== src/Views/Reader/Gets.antt =====
-- What Get of the in-memory reader answers (pkg/indexer/views/memory_reader.go).
use pgcqrs.Base.{
  ℕ, ℤ, leb_ℤ, ◌≤ℤ◌, ◌⊎◌, ◌≡◌, refl, ap, String, true, false, Option, none, some, List, arith,
  Bool-cases, inl, inr,
}
use pgcqrs.Wire.{Error, ok, Result-cases}
use pgcqrs.Views.{Key, Entity, MemoryStore, get}
use pgcqrs.Views.Reader.{
  status_ok, GetOption, apply_all, WaitEnd, version_reached, deadline_exceeded, cancelled, refetch,
  timeout_result, after_wait, wait_until_version, no_options, read_entity,
}

-- Where a fresh entity comes from: from the store before the wait, with a version that is not below the
-- target, or from the store behind a wait that has reached the target.
abbrev pub Fresh : String → Key → ℤ → MemoryStore → WaitEnd × MemoryStore → Entity → Type 0
Fresh kind key target store (waited, later) entity =
    ((get kind key store ≡ ok (some entity)) × (target ≤ℤ entity.version))
    ⊎ ((waited ≡ version_reached) × (get kind key later ≡ ok (some entity)))

found_in :
    (kind : String) (key : Key) (store : MemoryStore) (entity : Entity)
    → refetch kind key store ≡ ok (some entity, status_ok)
    → get kind key store ≡ ok (some entity)
unfolding refetch
found_in kind key store entity e = elim (Result-cases (get kind key store)) [
  | inr (failure, f) ↦ absurd (let h = (rw f at e) in cc)
  | inl (none, f) ↦ absurd (let h = (rw f at e) in cc)
  | inl (some x, f) ↦ (let h = (rw f at e) in cc)
]

timeout_not_ok :
    (kind : String) (key : Key) (store : MemoryStore) (entity : Option Entity)
    → ¬ (timeout_result kind key store ≡ ok (entity, status_ok))
unfolding timeout_result
timeout_not_ok kind key store entity e = elim (Result-cases (get kind key store)) [
  | inr (failure, f) ↦ (let h = (rw f at e) in cc)
  | inl (x, f) ↦ (let h = (rw f at e) in cc)
]

reached_by :
    (wait_error : Error) (kind : String) (key : Key) (waited : WaitEnd) (later : MemoryStore)
    (entity : Entity)
    → after_wait wait_error kind key waited later ≡ ok (some entity, status_ok)
    → (waited ≡ version_reached) × (get kind key later ≡ ok (some entity))
unfolding after_wait
reached_by wait_error kind key version_reached later entity e =
    (refl, found_in kind key later entity e)
reached_by wait_error kind key (deadline_exceeded false) later entity e =
    absurd (timeout_not_ok kind key later (some entity) e)
reached_by wait_error kind key (deadline_exceeded true) later entity e = absurd (cc)
reached_by wait_error kind key (cancelled _) later entity e = absurd (cc)

wait-Fresh :
    (wait_error : Error) (kind : String) (key : Key) (store : MemoryStore) (before : Option Entity)
    (target : ℤ) (wait : ℕ → WaitEnd × MemoryStore) (timeout : ℕ) (entity : Entity)
    → get kind key store ≡ ok before
    → wait_until_version wait_error kind key before target wait timeout
      ≡ ok (some entity, status_ok)
    → Fresh kind key target store (wait timeout) entity
unfolding wait_until_version
wait-Fresh wait_error kind key store none target wait timeout entity g e =
    inr (reached_by wait_error kind key (wait timeout).0 (wait timeout).1 entity e)
wait-Fresh wait_error kind key store (some x) target wait timeout entity g e =
    elim (Bool-cases (leb_ℤ target x.version)) [
      | inl t ↦ inl (
          let h = (rw t at e) in
          let same : x ≡ entity = cc in
          let version : x.version ≡ entity.version = ap (λ y. y.version) same in
          (cc, ground (arith, t, version)))
      | inr f ↦
          inr (reached_by wait_error kind key (wait timeout).0 (wait timeout).1 entity (rw f at e))
    ]

-- A Get whose options ask for a version to wait for and that answers StatusOK with an entity: either the entity
-- was in the store before the wait, with a version that is not below the one asked for, or the wait has ended
-- with the version reached and the entity is what the store holds then.
pub read_entity-Fresh :
    (wait_error : Error) (wait : ℕ → WaitEnd × MemoryStore) (kind : String) (key : Key)
    (opts : List GetOption) (store : MemoryStore) (target : ℤ) (entity : Entity)
    → (apply_all opts no_options).until ≡ some target
    → read_entity wait_error wait kind key opts store ≡ ok (some entity, status_ok)
    → Fresh kind key target store (wait (apply_all opts no_options).until_timeout) entity
unfolding read_entity
read_entity-Fresh wait_error wait kind key opts store target entity u e =
    elim (Result-cases (get kind key store)) [
      | inr (failure, f) ↦ absurd (let h = (rw f at e) in cc)
      | inl (before, g) ↦
          wait-Fresh wait_error kind key store before target wait
            (apply_all opts no_options).until_timeout entity g (rw (u, g) at e)
    ]
