-- ===== src/Storage/Locks/Clean.antt =====
-- The clean-up of expired locks of ConsumerStore: which rows it selects, and what it leaves.
use pgcqrs.Base.{
  ℕ, zero, suc, ◌≤◌, ◌<◌, ◌≡◌, ◌≢◌, String, refl, true, false, some, none, arith, if◌then◌else◌,
  List, [], ◌∷◌, Bool-cases, Option-cases, All, inl, inr, length,
}
use pgcqrs.Base.Table
use pgcqrs.Base.Table.{ids_key, Each, IsTable}
use pgcqrs.Base.Map.{Map}
use pgcqrs.Wire.{Runtime}
use pgcqrs.Storage.State.{Db, Tx, LockRow, Server, LockReleasedInfo, name_of}
use pgcqrs.Storage.Locks.{
  expired_row, selected, select_expired, delete_selected, released_infos, clean_expired_locks,
  lock_row,
}

module _ (now sid exclude : ℕ) where
  -- A row that may not be cleaned up.
  pub selected-select_expired :
      (limit : ℕ) (rows : List ((ℕ × ℕ) × LockRow)) (key : ℕ × ℕ)
      → Each (λ k row. Table.same_ids k key ≡ true → expired_row now sid exclude k row ≡ false) rows
      → selected (select_expired now sid exclude limit rows) key ≡ false
  unfolding select_expired
  selected-select_expired limit [] key h = refl
  selected-select_expired zero (row ∷ rows) key h = refl
  selected-select_expired (suc limit) ((k, row) ∷ rows) key h =
      elim (Bool-cases (expired_row now sid exclude k row)) [
        | inl e ↦
            rw (select_expired, e)
              (rw (selected-select_expired limit rows key h.1) (ground (arith, e, h.0)))
        | inr e ↦ rw (select_expired, e) (selected-select_expired (suc limit) rows key h.1)
      ]

  pub live-selected :
      (limit : ℕ) (rows : List ((ℕ × ℕ) × LockRow)) (key : ℕ × ℕ) (row : LockRow)
      → IsTable rows
      → Table.find rows key ≡ some row
      → now ≤ row.held_until
      → selected (select_expired now sid exclude limit rows) key ≡ false
  live-selected limit rows key row keyed e live = selected-select_expired limit rows key (
      Table.Each-map _ _ rows (λ k r same t. ground (arith, same t, live))
        (Table.find-only rows key row keyed e))

  pub excluded-selected :
      (limit : ℕ) (rows : List ((ℕ × ℕ) × LockRow)) (i : ℕ)
      → selected (select_expired now sid exclude limit rows) (i, exclude) ≡ false
  excluded-selected limit rows i =
      selected-select_expired limit rows (i, exclude)
        (Table.Each-all _ rows (λ k r t. ground (arith, t)))

pub find-delete_selected :
    (rows : List ((ℕ × ℕ) × LockRow)) (db : Db) (key : ℕ × ℕ)
    → IsTable db.locks
    → Table.find (delete_selected rows db).locks key
      ≡ (if selected rows key then none else Table.find db.locks key)
unfolding delete_selected
find-delete_selected rows db key keyed =
    rw (Table.find-delete_where _ db.locks key keyed)
      (elim (Option-cases (Table.find db.locks key)) [
        | inl e ↦ rw e (ground arith)
        | inr (row, e) ↦ rw e refl
      ])

-- A row that is not expired stays, whatever table the selection was made from, if the row was in it.
pub live-delete_selected :
    (now sid exclude limit : ℕ) (seen db : Db) (key : ℕ × ℕ) (row : LockRow)
    → IsTable seen.locks
    → IsTable db.locks
    → Table.find seen.locks key ≡ some row
    → Table.find db.locks key ≡ some row
    → now ≤ row.held_until
    → Table.find (delete_selected (select_expired now sid exclude limit seen.locks) db).locks key
      ≡ some row
live-delete_selected now sid exclude limit seen db key row keyed keyed' e e' live =
    rw
      (
        find-delete_selected _ db key keyed',
        e',
        live-selected now sid exclude limit seen.locks key row keyed e live,
      )
      refl

-- At most as many rows are selected as the limit says.
pub length-select_expired :
    (now sid exclude limit : ℕ) (rows : List ((ℕ × ℕ) × LockRow))
    → length (select_expired now sid exclude limit rows) ≤ limit
unfolding select_expired
length-select_expired now sid exclude limit [] = omega arith
length-select_expired now sid exclude zero (row ∷ rows) = omega arith
length-select_expired now sid exclude (suc limit) ((k, row) ∷ rows) =
    elim (Bool-cases (expired_row now sid exclude k row)) [
      | inl e ↦
          rw (select_expired, e) (omega (arith, length-select_expired now sid exclude limit rows))
      | inr e ↦ rw (select_expired, e) (length-select_expired now sid exclude (suc limit) rows)
    ]

module _ {ℓ} (P : ℕ × ℕ → LockRow → Type ℓ) where
  select_expired-Each :
      (now sid exclude limit : ℕ) (rows : List ((ℕ × ℕ) × LockRow))
      → Each P rows
      → Each
          (λ k row. P k row × (expired_row now sid exclude k row ≡ true))
          (select_expired now sid exclude limit rows)
  unfolding select_expired
  select_expired-Each now sid exclude limit [] h = tt
  select_expired-Each now sid exclude zero (row ∷ rows) h = tt
  select_expired-Each now sid exclude (suc limit) ((k, row) ∷ rows) h =
      elim (Bool-cases (expired_row now sid exclude k row)) [
        | inl e ↦
            rw (select_expired, e) ((h.0, e), select_expired-Each now sid exclude limit rows h.1)
        | inr e ↦ rw (select_expired, e) (select_expired-Each now sid exclude (suc limit) rows h.1)
      ]

  -- What is reported of a deleted row.
  abbrev pub Tells : Map ℕ → LockReleasedInfo → Type ℓ
  Tells names info =
      (k : ℕ × ℕ) × (row : LockRow) × P k row
      × (name_of names k.1 ≡ some info.consumer)
      × (info.holder ≡ row.holder)

  released_infos-Tells :
      (names : Map ℕ) (d s : String) (rows : List ((ℕ × ℕ) × LockRow))
      → Each P rows
      → All (Tells names) (released_infos names d s rows)
  unfolding released_infos
  released_infos-Tells names d s [] h = tt
  released_infos-Tells names d s ((k, row) ∷ rows) h = elim (Option-cases (name_of names k.1)) [
    | inl e ↦ rw (released_infos, e) (released_infos-Tells names d s rows h.1)
    | inr (name, e) ↦
        rw (released_infos, e) ((k, row, h.0, e, refl), released_infos-Tells names d s rows h.1)
  ]

length-released_infos :
    (names : Map ℕ) (d s : String) (rows : List ((ℕ × ℕ) × LockRow))
    → length (released_infos names d s rows) ≤ length rows
unfolding released_infos
length-released_infos names d s [] = omega arith
length-released_infos names d s ((k, row) ∷ rows) = elim (Option-cases (name_of names k.1)) [
  | inl e ↦ rw (released_infos, e) (omega (arith, length-released_infos names d s rows))
  | inr (name, e) ↦ rw (released_infos, e) (omega (arith, length-released_infos names d s rows))
]

-- Whether its statement fails or not, cleanExpiredLocks reports at most 128 locks, and each one is that of
-- an expired row of the stream, not of the excluded consumer, with the name of its consumer and its holder.
pub clean_expired_locks_bounded :
    (rt : Runtime) (server : Server) (d s : String) (sid exclude : ℕ) (tx : Tx)
    → IsTable tx.committed.locks
    → (length (clean_expired_locks rt server d s sid exclude tx).0 ≤ 128)
      × All
          (Tells
            (λ k row.
              (lock_row tx.committed k.0 k.1 ≡ some row)
              × (k.0 ≡ sid)
              × (row.held_until < server.clean_now)
              × (k.1 ≢ exclude))
            tx.committed.names)
          (clean_expired_locks rt server d s sid exclude tx).0
unfolding clean_expired_locks
clean_expired_locks_bounded rt server d s sid exclude tx keyed =
    elim (Bool-cases (server.fails "clean expired locks")) [
      | inl e ↦ rw e (omega arith, tt)
      | inr e ↦ rw e (
        omega (
          arith,
          length-released_infos tx.committed.names d s
              (select_expired server.clean_now sid exclude 128 tx.committed.locks),
          length-select_expired server.clean_now sid exclude 128 tx.committed.locks,
        ),
        released_infos-Tells _ tx.committed.names d s _ (
            Table.Each-map _ _ (select_expired server.clean_now sid exclude 128 tx.committed.locks)
              (λ k row h. (h.0, ground (arith, h.1), ground (arith, h.1), ground (arith, h.1)))
              (select_expired-Each (λ k row. lock_row tx.committed k.0 k.1 ≡ some row)
                server.clean_now sid exclude 128 tx.committed.locks
                (Table.Each-found tx.committed.locks keyed))),
      )
    ]
