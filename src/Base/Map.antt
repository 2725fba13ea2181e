-- ===== src/Base/Map.antt =====
-- Go's `map[string]V` as an association list. Go leaves the order of `range` over a map open: here
-- it is the order of the list, and every theorem holds for each list, so for each order.
use Prim.Native.String.{String}
use text.Mathlib.Text.{◌==◌}
use text.Mathlib.TextEquality.{eq_iff}
use text.Mathlib.TextPositions.{eq_refl}
use mathlib.Core.Path.{◌≡◌, refl, ap}
use mathlib.Core.Bool.{Bool, true, false, ◌&&◌}
use mathlib.Core.Option.{Option, none, some}
use mathlib.Core.List.{List, [], ◌∷◌}
use native.Mathlib.Omega.{arith}
use mathlib.Core.Logic.{inl, inr}
use pgcqrs.Base.Tests.{Bool-cases, if◌then◌else◌}

abbrev pub Map {ℓ} : Type ℓ → Type ℓ
Map V = List (String × V)

module _ {ℓ} {V : Type ℓ} where
  -- `v, ok := m[k]`
  unfoldable pub get : Map V → String → Option V
  get [] k = none
  get ((j, v) ∷ m) k = if j == k then some v else get m k

  -- `m[k] = v`
  unfoldable pub put : Map V → String → V → Map V
  put [] k v = (k, v) ∷ []
  put ((j, w) ∷ m) k v = if j == k then (k, v) ∷ m else (j, w) ∷ put m k v

  -- `delete(m, k)`
  unfoldable pub delete : Map V → String → Map V
  delete [] k = []
  delete ((j, w) ∷ m) k = let rest = delete m k in if j == k then rest else (j, w) ∷ rest

  -- `m[k]` of a map of maps: a missing key gives the nil map, which reads as empty.
  pub get-nil : (k : String) → get [] k ≡ none
  unfolding get
  get-nil k = refl

  pub get-put :
      (m : Map V) (k : String) (v : V) (j : String)
      → get (put m k v) j ≡ (if k == j then some v else get m j)
  unfolding get put
  get-put [] k v j = refl
  get-put ((i, w) ∷ m) k v j = ground (arith, eq_iff k j, eq_iff i k, eq_iff i j, get-put m k v j)

  pub get-delete :
      (m : Map V) (k j : String) → get (delete m k) j ≡ (if k == j then none else get m j)
  unfolding get delete
  get-delete [] k j = ground arith
  get-delete ((i, w) ∷ m) k j = ground (arith, eq_iff k j, eq_iff i k, eq_iff i j, get-delete m k j)

  pub get-put_self : (m : Map V) (k : String) (v : V) → get (put m k v) k ≡ some v
  get-put_self m k v = simp (get-put, eq_refl)

pub ruleset map_laws = (get-nil, get-put, get-delete)

-- `m[k]` where the map or the key may be missing: the nil map reads as the empty one.
abbrev pub or_empty {ℓ} : {V : Type ℓ} → Option (Map V) → Map V
or_empty none = []
or_empty (some m) = m

module _ {ℓ} {V : Type ℓ} where
  -- `m[k][j]`
  abbrev pub get_in : Map (Map V) → String → String → Option V
  get_in m k j = get (or_empty (get m k)) j

  -- `m[k][j] = v`, after `m[k] = make(...)` where `k` is missing
  abbrev pub put_in : Map (Map V) → String → String → V → Map (Map V)
  put_in m k j v = put m k (put (or_empty (get m k)) j v)

  -- `m[k]` becomes `inner`, and the entry is deleted if that is empty
  unfoldable pub prune : Map (Map V) → String → Map V → Map (Map V)
  prune m k [] = delete m k
  prune m k (e ∷ inner) = put m k (e ∷ inner)

  -- A write through a looked-up map, read through another look-up.
  pub get-put-or_empty :
      (b : Bool) (o o' : Option (Map V)) (j : String) (v : V) (j' : String)
      → (b ≡ true → o ≡ o')
      → get (or_empty (if b then some (put (or_empty o) j v) else o')) j'
        ≡ (if b && j == j' then some v else get (or_empty o') j')
  get-put-or_empty true o o' j v j' h = rw (get-put, h refl)
  get-put-or_empty false o o' j v j' h = refl

  pub get_in-put_in :
      (m : Map (Map V)) (k j : String) (v : V) (k' j' : String)
      → get_in (put_in m k j v) k' j' ≡ (if k == k' && j == j' then some v else get_in m k' j')
  get_in-put_in m k j v k' j' =
      rw get-put (
        get-put-or_empty (k == k') (get m k) (get m k') j v j'
          (λ e. ap (get m) ((eq_iff k k').0 e)))

  pub get_in-prune :
      (m : Map (Map V)) (k : String) (inner : Map V) (k' j : String)
      → get_in (prune m k inner) k' j ≡ (if k == k' then get inner j else get_in m k' j)
  unfolding prune
  get_in-prune m k [] k' j = rw get-delete (ground (arith, get-nil {V = V} j))
  get_in-prune m k (e ∷ inner) k' j = rw get-put (ground arith)

  -- `delete(m[k], j)` with the pruning of `m[k]`, read back at every pair of keys.
  pub get_in-prune-delete :
      (m : Map (Map V)) (k j k' j' : String)
      → get_in (prune m k (delete (or_empty (get m k)) j)) k' j'
        ≡ (if k == k' && j == j' then none else get_in m k' j')
  get_in-prune-delete m k j k' j' = rw (get_in-prune, get-delete) (ground (arith, eq_iff k k'))

-- A list stands for a Go map when no key occurs twice. Every write keeps that.
abbrev pub IsKeyed {ℓ} : {V : Type ℓ} → Map V → Type ℓ
IsKeyed [] = Unit
IsKeyed ((k, v) ∷ m) = (get m k ≡ none) × IsKeyed m

module _ {ℓ} {V : Type ℓ} where
  pub put-IsKeyed : (m : Map V) (k : String) (v : V) → IsKeyed m → IsKeyed (put m k v)
  unfolding put
  put-IsKeyed [] k v h = (get-nil k, tt)
  put-IsKeyed ((j, w) ∷ m) k v h = elim (Bool-cases (j == k)) [
    | inl e ↦ rw e (rw (← (eq_iff j k).0 e) h)
    | inr e ↦ rw e (rw get-put (ground (arith, eq_iff j k, eq_iff k j, h.0)), put-IsKeyed m k v h.1)
  ]

  pub delete-IsKeyed : (m : Map V) (k : String) → IsKeyed m → IsKeyed (delete m k)
  unfolding delete
  delete-IsKeyed [] k h = tt
  delete-IsKeyed ((j, w) ∷ m) k h = elim (Bool-cases (j == k)) [
    | inl e ↦ rw e (delete-IsKeyed m k h.1)
    | inr e ↦ rw e (rw get-delete (ground (arith, h.0)), delete-IsKeyed m k h.1)
  ]
