-- ===== src/Storage/Outcomes.antt =====
-- How a property of the state passes through the steps of an operation, whether they fail or not.
use pgcqrs.Base.{ℕ, ◌≤◌, String, ◌≡◌, refl, Bool, true, false, inl, inr, arith, if◌then◌else◌}
use pgcqrs.Wire.{Result, ok, err}
use pgcqrs.Storage.State.{
  Db, Tx, Server, failing, ◌then_do◌, transact, in_tx, insert_name, resolve_consumer_name,
}
use pgcqrs.Storage.Valid.{resolve-cases, grows}

module _ {ℓ κ μ} {A : Type ℓ} {S : Type κ} (Q : S → Type μ) where
  pub if-state :
      (b : Bool) (x y : Result A × S)
      → (b ≡ true → Q x.1)
      → (b ≡ false → Q y.1)
      → Q (if b then x else y).1
  if-state true x y p q = p refl
  if-state false x y p q = q refl

  pub failing-state :
      (server : Server) (operation : String) (s : S) (r : Result A × S)
      → Q s
      → Q r.1
      → Q (failing server operation s r).1
  failing-state server operation s r p q = if-state _ _ r (λ e. p) (λ e. q)

pub then_do-state {ℓ κ μ ν} :
    {B : Type κ} {S : Type μ} {A : Type ℓ} (Q : S → Type ν)
    → (r : Result A × S) (next : A → S → Result B × S) → Q r.1
    → ((a : A) (s : S) → Q s → Q (next a s).1)
    → Q (r then_do next).1
then_do-state Q (err e, s) next p q = p
then_do-state Q (ok a, s) next p q = q a s p

-- A predicate holds of what others see and of what the transaction sees, whose sequence is ahead.
abbrev pub Both {μ} : (Db → Type μ) → Tx → Type μ
Both P tx = P tx.committed × P tx.work × (tx.committed.next_name ≤ tx.work.next_name)

pub transact-state {ℓ μ} :
    {A : Type ℓ} (P : Db → Type μ)
    → ((db : Db) (n : ℕ) → db.next_name ≤ n → P db → P (record db { next_name = n }))
    → (r : Result A × Tx) → Both P r.1
    → P (transact r).1
transact-state P ahead (err e, tx) h = ahead tx.committed tx.work.next_name h.2 h.0
transact-state P ahead (ok a, tx) h = h.1

module _ {ℓ} (P : Db → Type ℓ)
    (keeps_names : (name : String) (db : Db) → P db → P (insert_name name db))
    (keeps_sequence : (db : Db) (n : ℕ)
      → db.next_name ≤ n
      → P db
      → P (record db { next_name = n })) where
  pub resolve-state :
      (server : Server) (name : String) (db : Db)
      → P db
      → P (resolve_consumer_name server name db).1
  resolve-state server name db h = elim (resolve-cases server name db) [
    | inl e ↦ rw e (keeps_names name db h)
    | inr (op, db', e, s, f) ↦ elim s [
      | inl q ↦ rw (e, q) h
      | inr q ↦ rw (e, q) (keeps_names name db h)
    ]
  ]

  pub resolve-Both :
      (server : Server) (name : String) (tx : Tx)
      → Both P tx
      → Both P (in_tx tx (resolve_consumer_name server name tx.work)).1
  resolve-Both server name tx h = elim (resolve-cases server name tx.work) [
    | inl e ↦ rw e (h.0, keeps_names name tx.work h.1, omega (arith, h.2, grows name tx.work))
    | inr (op, db', e, s, f) ↦ elim s [
      | inl q ↦ rw (e, q) h
      | inr q ↦
          rw (e, q) (h.0, keeps_names name tx.work h.1, omega (arith, h.2, grows name tx.work))
    ]
  ]
