-- ===== src/Base/Table.antt =====
-- A database table with a primary key as the list of its rows, each with its key.
use pgcqrs.Base.Tests.{Bool-cases, eqb, if◌then◌else◌}
use Prim.Native.Nat.{ℕ}
use Prim.Native.String.{String}
use text.Mathlib.Text.{◌==◌}
use text.Mathlib.TextEquality.{eq_iff}
use mathlib.Core.Path.{◌≡◌, refl, ap, subst}
use mathlib.Core.Logic.{◌↔◌, inl, inr}
use mathlib.Core.Bool.{Bool, true, ◌&&◌}
use mathlib.Core.Option.{Option, none, some}
use mathlib.Core.List.{List, [], ◌∷◌}
use native.Mathlib.Omega.{arith}

-- Equality of keys.
pub record RowKey {ℓ} (K : Type ℓ) : Type ℓ where
  pub same : K → K → Bool
  pub same_iff : (a b : K) → (same a b ≡ true) ↔ (a ≡ b)

abbrev pub same_ids : ℕ × ℕ → ℕ × ℕ → Bool
same_ids a b = eqb a.0 b.0 && eqb a.1 b.1

pub same_ids_iff : (a b : ℕ × ℕ) → (same_ids a b ≡ true) ↔ (a ≡ b)
same_ids_iff a b = ground arith

abbrev pub same_named : ℕ × String → ℕ × String → Bool
same_named a b = eqb a.0 b.0 && a.1 == b.1

pub same_named_iff : (a b : ℕ × String) → (same_named a b ≡ true) ↔ (a ≡ b)
same_named_iff a b = ground (arith, eq_iff a.1 b.1)

-- The key (stream_id, consumer_id) of a lock.
instance abbrev pub ids_key : RowKey (ℕ × ℕ)
ids_key = record { same = same_ids; same_iff = same_ids_iff }

-- The key (stream_id, consumer) of a position.
instance abbrev pub named_key : RowKey (ℕ × String)
named_key = record { same = same_named; same_iff = same_named_iff }

pub same_self {ℓ} : {K : Type ℓ} ⦃key : RowKey K⦄ (k : K) → key.same k k ≡ true
same_self ⦃key⦄ k = (key.same_iff k k).1 refl

module _ {ℓ κ} {K : Type ℓ} {V : Type κ} ⦃key : RowKey K⦄ where
  -- The row of a primary key.
  unfoldable pub find : List (K × V) → K → Option V
  find [] k = none
  find ((j, v) ∷ rows) k = if key.same j k then some v else find rows k

  -- The row that INSERT ... ON CONFLICT (the key) DO UPDATE leaves.
  unfoldable pub upsert : List (K × V) → K → V → List (K × V)
  upsert [] k v = (k, v) ∷ []
  upsert ((j, w) ∷ rows) k v =
      let rest = upsert rows k v in if key.same j k then (k, v) ∷ rows else (j, w) ∷ rest

  -- DELETE ... WHERE
  unfoldable pub delete_where : (K → V → Bool) → List (K × V) → List (K × V)
  delete_where gone [] = []
  delete_where gone ((j, w) ∷ rows) =
      let rest = delete_where gone rows in if gone j w then rest else (j, w) ∷ rest

  -- No two rows have the same key.
  abbrev pub IsTable : List (K × V) → Type κ
  IsTable [] = Unit
  IsTable ((j, w) ∷ rows) = (find rows j ≡ none) × IsTable rows

  abbrev pub kept : (K → V → Bool) → K → Option V → Option V
  kept gone k none = none
  kept gone k (some v) = if gone k v then none else some v

  pub find-upsert :
      (rows : List (K × V)) (k : K) (v : V) (j : K)
      → find (upsert rows k v) j ≡ (if key.same k j then some v else find rows j)
  unfolding find upsert
  find-upsert [] k v j = refl
  find-upsert ((i, w) ∷ rows) k v j =
      ground (arith, key.same_iff k j, key.same_iff i k, key.same_iff i j, find-upsert rows k v j)

  pub find-upsert_self : (rows : List (K × V)) (k : K) (v : V) → find (upsert rows k v) k ≡ some v
  find-upsert_self rows k v = simp (find-upsert, same_self)

  pub upsert-IsTable :
      (rows : List (K × V)) (k : K) (v : V) → IsTable rows → IsTable (upsert rows k v)
  unfolding find upsert
  upsert-IsTable [] k v h = (refl, tt)
  upsert-IsTable ((j, w) ∷ rows) k v h = elim (Bool-cases (key.same j k)) [
    | inl e ↦ rw e (rw (← (key.same_iff j k).0 e) h)
    | inr e ↦ rw e (
      rw find-upsert (ground (arith, key.same_iff j k, key.same_iff k j, h.0)),
      upsert-IsTable rows k v h.1,
    )
  ]

  find-gone :
      (gone : K → V → Bool) (rows : List (K × V)) (k : K)
      → find rows k ≡ none
      → find (delete_where gone rows) k ≡ none
  unfolding find delete_where
  find-gone gone [] k h = refl
  find-gone gone ((j, w) ∷ rows) k h = ground (arith, key.same_iff j k, find-gone gone rows k)

  pub find-delete_where :
      (gone : K → V → Bool) (rows : List (K × V)) (k : K)
      → IsTable rows
      → find (delete_where gone rows) k ≡ kept gone k (find rows k)
  unfolding find delete_where
  find-delete_where gone [] k h = refl
  find-delete_where gone ((j, w) ∷ rows) k h = elim (Bool-cases (key.same j k)) [
    | inl e ↦
        rw (← (key.same_iff j k).0 e, same_self j)
          (ground (arith, same_self j, find-gone gone rows j h.0))
    | inr e ↦ rw e (ground (arith, e, find-delete_where gone rows k h.1))
  ]

  pub delete_where-IsTable :
      (gone : K → V → Bool) (rows : List (K × V)) → IsTable rows → IsTable (delete_where gone rows)
  unfolding delete_where
  delete_where-IsTable gone [] h = tt
  delete_where-IsTable gone ((j, w) ∷ rows) h = elim (Bool-cases (gone j w)) [
    | inl e ↦ rw e (delete_where-IsTable gone rows h.1)
    | inr e ↦ rw e (find-gone gone rows j h.0, delete_where-IsTable gone rows h.1)
  ]

  -- Every row satisfies a predicate of its key and its columns.
  abbrev pub Each {μ} : (K → V → Type μ) → List (K × V) → Type μ
  Each P [] = Unit
  Each P ((j, w) ∷ rows) = P j w × Each P rows

  pub upsert-Each {μ} :
      (P : K → V → Type μ) (rows : List (K × V)) (k : K) (v : V)
      → P k v
      → Each P rows
      → Each P (upsert rows k v)
  unfolding upsert
  upsert-Each P [] k v p h = (p, tt)
  upsert-Each P ((j, w) ∷ rows) k v p h = elim (Bool-cases (key.same j k)) [
    | inl e ↦ rw e (p, h.1)
    | inr e ↦ rw e (h.0, upsert-Each P rows k v p h.1)
  ]

  pub delete_where-Each {μ} :
      (P : K → V → Type μ) (gone : K → V → Bool) (rows : List (K × V))
      → Each P rows
      → Each P (delete_where gone rows)
  unfolding delete_where
  delete_where-Each P gone [] h = tt
  delete_where-Each P gone ((j, w) ∷ rows) h = elim (Bool-cases (gone j w)) [
    | inl e ↦ rw e (delete_where-Each P gone rows h.1)
    | inr e ↦ rw e (h.0, delete_where-Each P gone rows h.1)
  ]

  pub Each-map {μ ν} :
      (P : K → V → Type μ) (Q : K → V → Type ν) (rows : List (K × V))
      → ((k : K) (v : V) → P k v → Q k v)
      → Each P rows
      → Each Q rows
  Each-map P Q [] f h = tt
  Each-map P Q ((j, w) ∷ rows) f h = (f j w h.0, Each-map P Q rows f h.1)

  pub Each-find {μ} :
      (P : K → V → Type μ) (rows : List (K × V)) (k : K) (v : V)
      → Each P rows
      → find rows k ≡ some v
      → P k v
  unfolding find
  Each-find P [] k v h e = absurd cc
  Each-find P ((j, w) ∷ rows) k v h e = elim (Bool-cases (key.same j k)) [
    | inl t ↦ subst (λ x. P x v) ((key.same_iff j k).0 t) (subst (P j) (ground (arith, t, e)) h.0)
    | inr t ↦ Each-find P rows k v h.1 (ground (arith, t, e))
  ]

  find-others :
      (rows : List (K × V)) (k : K) (v : V)
      → find rows k ≡ none
      → Each (λ j w. key.same j k ≡ true → w ≡ v) rows
  unfolding find
  find-others [] k v e = tt
  find-others ((j, w) ∷ rows) k v e =
      (λ t. absurd (ground (arith, t, e)), find-others rows k v (ground (arith, e)))

  -- The only row of a key is the one that is found.
  pub find-only :
      (rows : List (K × V)) (k : K) (v : V)
      → IsTable rows
      → find rows k ≡ some v
      → Each (λ j w. key.same j k ≡ true → w ≡ v) rows
  unfolding find
  find-only [] k v h e = tt
  find-only ((j, w) ∷ rows) k v h e = elim (Bool-cases (key.same j k)) [
    | inl t ↦ (
      λ u. ground (arith, t, e),
      find-others rows k v (subst (λ x. find rows x ≡ none) ((key.same_iff j k).0 t) h.0),
    )
    | inr t ↦ (λ u. absurd (ground (arith, t, u)), find-only rows k v h.1 (ground (arith, t, e)))
  ]

  pub Each-all {μ} :
      (P : K → V → Type μ) (rows : List (K × V)) → ((k : K) (v : V) → P k v) → Each P rows
  Each-all P [] f = tt
  Each-all P ((j, w) ∷ rows) f = (f j w, Each-all P rows f)

  -- Each row of a table is found under its key.
  pub Each-found : (rows : List (K × V)) → IsTable rows → Each (λ k v. find rows k ≡ some v) rows
  unfolding find
  Each-found [] h = tt
  Each-found ((j, w) ∷ rows) h = (
    ground (arith, same_self j),
    Each-map (λ k v. find rows k ≡ some v) _ rows
        (λ k v e. elim (Bool-cases (key.same j k)) [
          | inl t ↦ absurd (ground (arith, ap (find rows) ((key.same_iff j k).0 t), h.0, e))
          | inr t ↦ rw t e
        ])
        (Each-found rows h.1),
  )
