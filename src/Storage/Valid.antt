-- ===== src/Storage/Valid.antt =====
-- The invariant of the tables: the schema's unique keys and references, and that a position's
-- consumer_id is the id of its consumer's text, which every write of the code and the migration's
-- backfill give it. The consumer names keep it.
use pgcqrs.Base.{
  ℕ, suc, ◌<◌, ◌≤◌, String, ◌==◌, ◌≡◌, ◌⊎◌, inl, inr, refl, sym, ◌∙◌, ap, Option, none, some, List,
  [], ◌∷◌, arith, eq_iff, if◌then◌else◌, Option-cases, Bool-cases, true, eqb,
}
use pgcqrs.Base.Map
use pgcqrs.Base.Map.{Map, IsKeyed, put-IsKeyed, get-put}
use pgcqrs.Base.Table
use pgcqrs.Base.Table.{ids_key, named_key, Each, IsTable}
use pgcqrs.Wire.{ok, err, operation_failed}
use pgcqrs.Storage.State.{
  Db, Server, LockRow, PositionRow, stream_id, name_of, insert_name, resolve_consumer_name,
  select_consumer_id,
}

abbrev pub Linked : Map ℕ → ℕ × String → PositionRow → Type 0
Linked names key row = (id : ℕ) → row.consumer_id ≡ some id → Map.get names key.1 ≡ some id

pub record IsValid (db : Db) : Type 0 where
  pub streams_apart :
      (d s d' s' : String) (i : ℕ)
      → stream_id db d s ≡ some i
      → stream_id db d' s' ≡ some i
      → (d ≡ d') × (s ≡ s')
  pub names_keyed : IsKeyed db.names
  pub names_apart :
      (a b : String) (i : ℕ) → Map.get db.names a ≡ some i → Map.get db.names b ≡ some i → a ≡ b
  pub names_old : (a : String) (i : ℕ) → Map.get db.names a ≡ some i → i < db.next_name
  pub locks_keyed : IsTable db.locks
  pub positions_keyed : IsTable db.positions
  pub positions_linked : Each (Linked db.names) db.positions

-- The name of an id that a name has.
pub name_of-get :
    (names : Map ℕ) (a : String) (i : ℕ)
    → IsKeyed names
    → ((b : String) → Map.get names b ≡ some i → b ≡ a)
    → Map.get names a ≡ some i
    → name_of names i ≡ some a
unfolding name_of Map.get
name_of-get [] a i keyed apart e = absurd cc
name_of-get ((b, j) ∷ names) a i keyed apart e = elim (Bool-cases (eqb j i)) [
  | inl h ↦ rw h (ap some (apart b (ground (arith, h, eq_iff b b))))
  | inr h ↦ rw h (
      name_of-get names a i keyed.1 (λ b' g. apart b' (ground (arith, g, keyed.0, eq_iff b b')))
        (ground (arith, h, e, eq_iff b a)))
]

-- The id of a name once it is inserted.
abbrev or_new : Option ℕ → ℕ → ℕ
or_new none new = new
or_new (some old) new = old

abbrev pub id_after : String → Db → ℕ
id_after name db = or_new (Map.get db.names name) db.next_name

pub insert_name-get :
    (name : String) (db : Db) (a : String)
    → Map.get (insert_name name db).names a
      ≡ (if name == a then some (id_after name db) else Map.get db.names a)
unfolding insert_name
insert_name-get name db a = elim (Option-cases (Map.get db.names name)) [
  | inl e ↦ rw (e, insert_name) (rw get-put refl)
  | inr (i, e) ↦ rw (e, insert_name) (ground (arith, e, eq_iff name a))
]

module _ (name : String) (db : Db) where
  pub same_streams : (insert_name name db).streams ≡ db.streams
  unfolding insert_name
  same_streams = elim (Option-cases (Map.get db.names name)) [
    | inl e ↦ rw (e, insert_name) refl
    | inr (i, e) ↦ rw (e, insert_name) refl
  ]

  pub same_locks : (insert_name name db).locks ≡ db.locks
  unfolding insert_name
  same_locks = elim (Option-cases (Map.get db.names name)) [
    | inl e ↦ rw (e, insert_name) refl
    | inr (i, e) ↦ rw (e, insert_name) refl
  ]

  pub same_positions : (insert_name name db).positions ≡ db.positions
  unfolding insert_name
  same_positions = elim (Option-cases (Map.get db.names name)) [
    | inl e ↦ rw (e, insert_name) refl
    | inr (i, e) ↦ rw (e, insert_name) refl
  ]

  pub grows : (insert_name name db).next_name ≡ suc db.next_name
  unfolding insert_name
  grows = elim (Option-cases (Map.get db.names name)) [
    | inl e ↦ rw (e, insert_name) refl
    | inr (i, e) ↦ rw (e, insert_name) refl
  ]

  keyed : IsKeyed db.names → IsKeyed (insert_name name db).names
  unfolding insert_name
  keyed h = elim (Option-cases (Map.get db.names name)) [
    | inl e ↦ rw (e, insert_name) (put-IsKeyed db.names name db.next_name h)
    | inr (i, e) ↦ rw (e, insert_name) h
  ]

module _ (name : String) (db : Db) (valid : IsValid db) where
  get-old :
      (a : String) (i : ℕ)
      → Map.get db.names a ≡ some i
      → Map.get (insert_name name db).names a ≡ some i
  get-old a i e = rw insert_name-get (ground (arith, eq_iff name a, e))

  old-or-new :
      (a : String) (i : ℕ)
      → Map.get (insert_name name db).names a ≡ some i
      → (Map.get db.names a ≡ some i)
        ⊎ ((Map.get db.names name ≡ none) × (a ≡ name) × (i ≡ db.next_name))
  old-or-new a i e = ground (arith, insert_name-get name db a, eq_iff name a)

  pub insert_name-IsValid : IsValid (insert_name name db)
  insert_name-IsValid = record {
    streams_apart = λ d s d' s' i. rw (same_streams name db) (valid.streams_apart d s d' s' i);
    names_keyed = keyed name db valid.names_keyed;
    names_apart = λ a b i g h. elim (old-or-new a i g) [
      | inl g' ↦ elim (old-or-new b i h) [
        | inl h' ↦ valid.names_apart a b i g' h'
        | inr (_, _, new) ↦ absurd (omega (arith, valid.names_old a i g', new))
      ]
      | inr (_, same, new) ↦ elim (old-or-new b i h) [
        | inl h' ↦ absurd (omega (arith, valid.names_old b i h', new))
        | inr (_, same', _) ↦ same ∙ sym same'
      ]
    ];
    names_old = λ a i g. elim (old-or-new a i g) [
      | inl g' ↦ omega (arith, valid.names_old a i g', grows name db)
      | inr (_, _, new) ↦ omega (arith, new, grows name db)
    ];
    locks_keyed = rw (same_locks name db) valid.locks_keyed;
    positions_keyed = rw (same_positions name db) valid.positions_keyed;
    positions_linked = rw (same_positions name db) (
        Table.Each-map (Linked db.names) (Linked (insert_name name db).names) db.positions
          (λ key row linked i e. get-old key.1 i (linked i e)) valid.positions_linked);
  }

module _ (server : Server) (name : String) (db : Db) where
  pub id_after-get : Map.get (insert_name name db).names name ≡ some (id_after name db)
  id_after-get = rw insert_name-get (ground (arith, eq_iff name name))

  -- Resolving a name finds or inserts it, or fails; where it fails the name may be inserted.
  pub resolve-cases :
      (resolve_consumer_name server name db ≡ (ok (id_after name db), insert_name name db))
      ⊎ ((op : String) × (db' : Db) × (resolve_consumer_name server name db
            ≡ (err (operation_failed op), db'))
          × ((db' ≡ db) ⊎ (db' ≡ insert_name name db))
          × (server.fails op ≡ true))
  unfolding resolve_consumer_name select_consumer_id
  resolve-cases = elim (Bool-cases (server.fails "insert consumer name")) [
    | inl e ↦ inr ("insert consumer name", db, rw e refl, inl refl, e)
    | inr e ↦ elim (Bool-cases (server.fails "select consumer id")) [
      | inl f ↦ inr (
        "select consumer id",
        insert_name name db,
        rw (e, select_consumer_id, id_after-get, f) refl,
        inr refl,
        f,
      )
      | inr f ↦ inl (rw (e, select_consumer_id, id_after-get, f) refl)
    ]
  ]

-- The invariant with other locks, other positions, and a later state of the sequence.
module _ (db : Db) (valid : IsValid db) where
  pub with_locks-IsValid :
      (rows : List ((ℕ × ℕ) × LockRow)) → IsTable rows → IsValid (record db { locks = rows })
  with_locks-IsValid rows keyed = record {
    streams_apart = valid.streams_apart;
    names_keyed = valid.names_keyed;
    names_apart = valid.names_apart;
    names_old = valid.names_old;
    locks_keyed = keyed;
    positions_keyed = valid.positions_keyed;
    positions_linked = valid.positions_linked;
  }

  pub with_positions-IsValid :
      (rows : List ((ℕ × String) × PositionRow))
      → IsTable rows
      → Each (Linked db.names) rows
      → IsValid (record db { positions = rows })
  with_positions-IsValid rows keyed linked = record {
    streams_apart = valid.streams_apart;
    names_keyed = valid.names_keyed;
    names_apart = valid.names_apart;
    names_old = valid.names_old;
    locks_keyed = valid.locks_keyed;
    positions_keyed = keyed;
    positions_linked = linked;
  }

  pub with_sequence-IsValid : (n : ℕ) → db.next_name ≤ n → IsValid (record db { next_name = n })
  with_sequence-IsValid n later = record {
    streams_apart = valid.streams_apart;
    names_keyed = valid.names_keyed;
    names_apart = valid.names_apart;
    names_old = λ a i e. omega (arith, valid.names_old a i e, later);
    locks_keyed = valid.locks_keyed;
    positions_keyed = valid.positions_keyed;
    positions_linked = valid.positions_linked;
  }
