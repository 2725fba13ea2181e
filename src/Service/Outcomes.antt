-- ===== src/Service/Outcomes.antt =====
-- How a property of the state passes through the steps of a handler, whether they fail or not.
use pgcqrs.Base.{◌≡◌, refl, Bool, true, false, if◌then◌else◌}
use pgcqrs.Wire.{Result, ok, err}
use pgcqrs.Storage.State.{◌then_do◌}

-- The state behind a call has the property.
pub record Keeps {ℓ κ μ} {A : Type ℓ} {S : Type κ} (Q : S → Type μ) (r : Result A × S)
    : Type μ where
  pub kept : Q r.1

module _ {κ μ} {S : Type κ} (Q : S → Type μ) where
  pub keeps {ℓ} : {A : Type ℓ} (r : Result A × S) → Q r.1 → Keeps Q r
  keeps r h = record { kept = h }

  pub Keeps-if {ℓ} :
      {A : Type ℓ} {b : Bool} {x y : Result A × S}
      → (b ≡ true → Keeps Q x)
      → (b ≡ false → Keeps Q y)
      → Keeps Q (if b then x else y)
  Keeps-if {b = true} p q = p refl
  Keeps-if {b = false} p q = q refl

  pub Keeps-then_do {ℓ ν} :
      {A : Type ℓ} {B : Type ν} {r : Result A × S} {next : A → S → Result B × S}
      → Keeps Q r
      → ((a : A) (s : S) → Q s → Keeps Q (next a s))
      → Keeps Q (r then_do next)
  Keeps-then_do {r = (err e, s)} p q = record { kept = p.kept }
  Keeps-then_do {r = (ok a, s)} p q = q a s p.kept
