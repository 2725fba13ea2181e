-- ===== src/Views/Postgres/Keyed.antt =====
-- The entries under their keys, and the invariant of the tables of pkg/indexer/views/pgstore.go.
use pgcqrs.Base.{
  ℕ, ◌<◌, ◌≤◌, String, ◌==◌, Bool, true, false, ◌&&◌, ◌≡◌, refl, ◌∙◌, Option, none, some, List, [],
  ◌∷◌, if◌then◌else◌, eqb, arith, eq_iff,
}
use pgcqrs.Base.Map
use pgcqrs.Base.Map.{get-put, get-put_self}
use pgcqrs.Base.Table
use pgcqrs.Base.Table.{
  RowKey, named_key, IsTable, find-upsert, upsert-IsTable, find-delete_where, delete_where-IsTable,
}
use pgcqrs.Wire.{ok}
use pgcqrs.Views.{validate_parts}
use pgcqrs.Views.Postgres.{
  ViewsDb, Entry, SingleKey, CompositeKey, single_key, composite_key, same_single, same_composite,
  find_entry, put_entry, delete_entry,
}

abbrev pub same_parts : List String → List String → Bool
same_parts [] [] = true
same_parts [] (_ ∷ _) = false
same_parts (_ ∷ _) [] = false
same_parts (a ∷ rest_a) (b ∷ rest_b) = let rest = same_parts rest_a rest_b in a == b && rest

abbrev pub hits : String → List String → String → List String → Bool
hits kind parts kind' parts' = kind == kind' && same_parts parts parts'

-- The schema's unique keys and references, and that a sequence is ahead of its ids.
pub record IsValid (db : ViewsDb) : Type 0 where
  pub kinds_apart :
      (a b : String) (i : ℕ) → Map.get db.kinds a ≡ some i → Map.get db.kinds b ≡ some i → a ≡ b
  pub kinds_old : (a : String) (i : ℕ) → Map.get db.kinds a ≡ some i → i < db.next_kind
  pub kinds_fresh :
      (p k : ℕ) (parts : List String) → db.next_kind ≤ k → find_entry p k parts db ≡ none
  pub projections_old :
      (key : ℕ × String) (i : ℕ) → Table.find db.projections key ≡ some i → i < db.next_projection
  pub projections_fresh :
      (p k : ℕ) (parts : List String) → db.next_projection ≤ p → find_entry p k parts db ≡ none
  pub singles_keyed : IsTable db.singles
  pub composites_keyed : IsTable db.composites

kept-key {ℓ κ} :
    {K : Type ℓ} {V : Type κ} ⦃key : RowKey K⦄ (b : Bool) (o : Option V) (k : K)
    → Table.kept (λ (j : K) (v : V). b) k o ≡ (if b then none else o)
kept-key true none k = refl
kept-key true (some v) k = refl
kept-key false none k = refl
kept-key false (some v) k = refl

pub find_entry-put_entry :
    (p k : ℕ) (parts : List String) (e : Entry) (db : ViewsDb) (p' k' : ℕ) (parts' : List String)
    → validate_parts parts ≡ ok tt
    → find_entry p' k' parts' (put_entry p k parts e db).1 ≡ (
        if eqb p p' && eqb k k' && same_parts parts parts'
        then some e
        else find_entry p' k' parts' db)
find_entry-put_entry p k [] e db p' k' parts' h = absurd cc
find_entry-put_entry p k (_ ∷ _ ∷ _ ∷ _) e db p' k' parts' h = absurd cc
find_entry-put_entry p k (a ∷ []) e db p' k' [] h = ground arith
find_entry-put_entry p k (a ∷ []) e db p' k' (a' ∷ []) h = rw find-upsert (ground arith)
find_entry-put_entry p k (a ∷ []) e db p' k' (a' ∷ b' ∷ []) h = ground arith
find_entry-put_entry p k (a ∷ []) e db p' k' (a' ∷ b' ∷ c' ∷ _) h = ground arith
find_entry-put_entry p k (a ∷ b ∷ []) e db p' k' [] h = ground arith
find_entry-put_entry p k (a ∷ b ∷ []) e db p' k' (a' ∷ []) h = ground arith
find_entry-put_entry p k (a ∷ b ∷ []) e db p' k' (a' ∷ b' ∷ []) h = rw find-upsert (ground arith)
find_entry-put_entry p k (a ∷ b ∷ []) e db p' k' (a' ∷ b' ∷ c' ∷ _) h = ground arith

pub find_entry-delete_entry :
    (p k : ℕ) (parts : List String) (db : ViewsDb) (p' k' : ℕ) (parts' : List String)
    → validate_parts parts ≡ ok tt
    → IsTable db.singles
    → IsTable db.composites
    → find_entry p' k' parts' (delete_entry p k parts db) ≡ (
        if eqb p p' && eqb k k' && same_parts parts parts'
        then none
        else find_entry p' k' parts' db)
find_entry-delete_entry p k [] db p' k' parts' h s c = absurd cc
find_entry-delete_entry p k (_ ∷ _ ∷ _ ∷ _) db p' k' parts' h s c = absurd cc
find_entry-delete_entry p k (a ∷ []) db p' k' [] h s c = ground arith
find_entry-delete_entry p k (a ∷ []) db p' k' (a' ∷ []) h s c =
    find-delete_where _ db.singles (p', k', a') s
    ∙ kept-key {K = SingleKey} (same_single (p', k', a') (p, k, a))
        (Table.find db.singles (p', k', a')) (p', k', a')
    ∙ ground (arith, eq_iff a a', eq_iff a' a)
find_entry-delete_entry p k (a ∷ []) db p' k' (a' ∷ b' ∷ []) h s c = ground arith
find_entry-delete_entry p k (a ∷ []) db p' k' (a' ∷ b' ∷ c' ∷ _) h s c = ground arith
find_entry-delete_entry p k (a ∷ b ∷ []) db p' k' [] h s c = ground arith
find_entry-delete_entry p k (a ∷ b ∷ []) db p' k' (a' ∷ []) h s c = ground arith
find_entry-delete_entry p k (a ∷ b ∷ []) db p' k' (a' ∷ b' ∷ []) h s c =
    find-delete_where _ db.composites (p', k', a', b') c
    ∙ kept-key {K = CompositeKey} (same_composite (p', k', a', b') (p, k, a, b))
        (Table.find db.composites (p', k', a', b')) (p', k', a', b')
    ∙ ground (arith, eq_iff a a', eq_iff a' a, eq_iff b b', eq_iff b' b)
find_entry-delete_entry p k (a ∷ b ∷ []) db p' k' (a' ∷ b' ∷ c' ∷ _) h s c = ground arith

abbrev pub seen_at : ℕ → List String → ViewsDb → Option ℕ → Option Entry
seen_at p parts db none = none
seen_at p parts db (some k) = find_entry p k parts db

-- The entry of a projection under a kind and the parts of a key.
abbrev pub seen : ℕ → String → List String → ViewsDb → Option Entry
seen p kind parts db = seen_at p parts db (Map.get db.kinds kind)

pub put_entry-IsValid :
    (p k : ℕ) (parts : List String) (e : Entry) (db : ViewsDb)
    → validate_parts parts ≡ ok tt
    → p < db.next_projection
    → k < db.next_kind
    → IsValid db
    → IsValid (put_entry p k parts e db).1
put_entry-IsValid p k [] e db h l m valid = absurd cc
put_entry-IsValid p k (_ ∷ _ ∷ _ ∷ _) e db h l m valid = absurd cc
put_entry-IsValid p k (a ∷ []) e db h l m valid = record {
  kinds_apart = valid.kinds_apart;
  kinds_old = valid.kinds_old;
  kinds_fresh = λ p' k' parts n.
      find_entry-put_entry p k (a ∷ []) e db p' k' parts h
      ∙ ground (arith, m, n, valid.kinds_fresh p' k' parts n);
  projections_old = valid.projections_old;
  projections_fresh = λ p' k' parts n.
      find_entry-put_entry p k (a ∷ []) e db p' k' parts h
      ∙ ground (arith, l, n, valid.projections_fresh p' k' parts n);
  singles_keyed = upsert-IsTable db.singles (p, k, a) e valid.singles_keyed;
  composites_keyed = valid.composites_keyed;
}
put_entry-IsValid p k (a ∷ b ∷ []) e db h l m valid = record {
  kinds_apart = valid.kinds_apart;
  kinds_old = valid.kinds_old;
  kinds_fresh = λ p' k' parts n.
      find_entry-put_entry p k (a ∷ b ∷ []) e db p' k' parts h
      ∙ ground (arith, m, n, valid.kinds_fresh p' k' parts n);
  projections_old = valid.projections_old;
  projections_fresh = λ p' k' parts n.
      find_entry-put_entry p k (a ∷ b ∷ []) e db p' k' parts h
      ∙ ground (arith, l, n, valid.projections_fresh p' k' parts n);
  singles_keyed = valid.singles_keyed;
  composites_keyed = upsert-IsTable db.composites (p, k, a, b) e valid.composites_keyed;
}

pub delete_entry-IsValid :
    (p k : ℕ) (parts : List String) (db : ViewsDb)
    → validate_parts parts ≡ ok tt
    → IsValid db
    → IsValid (delete_entry p k parts db)
delete_entry-IsValid p k [] db h valid = absurd cc
delete_entry-IsValid p k (_ ∷ _ ∷ _ ∷ _) db h valid = absurd cc
delete_entry-IsValid p k (a ∷ []) db h valid = record {
  kinds_apart = valid.kinds_apart;
  kinds_old = valid.kinds_old;
  kinds_fresh = λ p' k' parts n.
      find_entry-delete_entry p k (a ∷ []) db p' k' parts h valid.singles_keyed
        valid.composites_keyed
      ∙ ground (arith, valid.kinds_fresh p' k' parts n);
  projections_old = valid.projections_old;
  projections_fresh = λ p' k' parts n.
      find_entry-delete_entry p k (a ∷ []) db p' k' parts h valid.singles_keyed
        valid.composites_keyed
      ∙ ground (arith, valid.projections_fresh p' k' parts n);
  singles_keyed = delete_where-IsTable _ db.singles valid.singles_keyed;
  composites_keyed = valid.composites_keyed;
}
delete_entry-IsValid p k (a ∷ b ∷ []) db h valid = record {
  kinds_apart = valid.kinds_apart;
  kinds_old = valid.kinds_old;
  kinds_fresh = λ p' k' parts n.
      find_entry-delete_entry p k (a ∷ b ∷ []) db p' k' parts h valid.singles_keyed
        valid.composites_keyed
      ∙ ground (arith, valid.kinds_fresh p' k' parts n);
  projections_old = valid.projections_old;
  projections_fresh = λ p' k' parts n.
      find_entry-delete_entry p k (a ∷ b ∷ []) db p' k' parts h valid.singles_keyed
        valid.composites_keyed
      ∙ ground (arith, valid.projections_fresh p' k' parts n);
  singles_keyed = valid.singles_keyed;
  composites_keyed = delete_where-IsTable _ db.composites valid.composites_keyed;
}

pub put_entry-kinds :
    (p k : ℕ) (parts : List String) (e : Entry) (db : ViewsDb)
    → validate_parts parts ≡ ok tt
    → (put_entry p k parts e db ≡ (ok tt, (put_entry p k parts e db).1))
      × ((put_entry p k parts e db).1.kinds ≡ db.kinds)
      × ((put_entry p k parts e db).1.next_projection ≡ db.next_projection)
put_entry-kinds p k [] e db h = absurd cc
put_entry-kinds p k (a ∷ []) e db h = (refl, refl, refl)
put_entry-kinds p k (a ∷ b ∷ []) e db h = (refl, refl, refl)
put_entry-kinds p k (_ ∷ _ ∷ _ ∷ _) e db h = absurd cc

pub delete_entry-kinds :
    (p k : ℕ) (parts : List String) (db : ViewsDb)
    → ((delete_entry p k parts db).kinds ≡ db.kinds)
      × ((delete_entry p k parts db).next_projection ≡ db.next_projection)
delete_entry-kinds p k [] db = (refl, refl)
delete_entry-kinds p k (a ∷ []) db = (refl, refl)
delete_entry-kinds p k (a ∷ b ∷ []) db = (refl, refl)
delete_entry-kinds p k (_ ∷ _ ∷ _ ∷ _) db = (refl, refl)
