-- ===== src/Storage/Positions/Refines.antt =====
-- SetPosition, GetPosition and DeletePosition of ConsumerStore implement a store of positions under
-- the names of their domain, stream and consumer, whatever calls are made one behind the other.
use pgcqrs.Base.{
  ℕ, String, ◌==◌, ℤ, leb_ℤ, ◌≡◌, inl, inr, refl, ◌∙◌, ap, Option, none, some, List, [], ◌∷◌, arith,
  eq_iff, if◌then◌else◌, Option-cases, Bool-cases, Bool, true, false, eqb, ◌&&◌,
}
use pgcqrs.Base.Map
use pgcqrs.Base.Map.{Map, IsKeyed}
use pgcqrs.Base.Table
use pgcqrs.Base.Table.{ids_key, named_key, Each, IsTable}
use pgcqrs.Wire.{ok}
use pgcqrs.Storage.State.{Db, Server, PositionRow, stream_id, insert_name}
use pgcqrs.Storage.Valid.{
  IsValid, Linked, id_after, resolve-cases, insert_name-IsValid, with_positions-IsValid,
  same_streams, name_of-get, id_after-get,
}
use pgcqrs.Storage.Positions.Keeps.{upsert_position-behind}
use pgcqrs.Storage.Positions.Abstract.{
  Store, same_place, write, store_set, store_call, store_run, db_call, db_run, Call, set, get,
  delete, was_set, was_deleted,
}
use pgcqrs.Storage.Positions.{
  position_row, event_of, row_of, scan_position, deleted, set_position_at, upsert_position,
  set_position, get_position, delete_position,
}

-- A position as the abstract store sees it.
pub position_at : Db → String → String → String → Option ℤ
position_at db d s c = elim (stream_id db d s) [
  | none ↦ none
  | some sid ↦ event_of (position_row db sid c)
]

module _ (names : Map ℕ) (keyed : IsKeyed names)
    (apart : (a b : String) (i : ℕ)
      → Map.get names a ≡ some i
      → Map.get names b ≡ some i
      → a ≡ b) where
  row_of-Linked :
      (c : String) (key : ℕ × String) (row : PositionRow)
      → Linked names key row
      → row_of names c key.1 row.consumer_id ≡ (key.1 == c)
  row_of-Linked c key row linked = elim (Option-cases row.consumer_id) [
    | inl e ↦ rw e refl
    | inr (i, e) ↦
        rw
          (
            e,
            row_of,
            name_of-get names key.1 i keyed (λ b g. apart b key.1 i g (linked i e)) (linked i e),
          )
          refl
  ]

  pub deleted-Linked :
      (c : String) (key : ℕ × String) (row : PositionRow)
      → Linked names key row
      → deleted (Map.get names c) c key.1 row.consumer_id ≡ (key.1 == c)
  deleted-Linked c key row linked = elim (Option-cases row.consumer_id) [
    | inl e ↦ rw e refl
    | inr (i, e) ↦ elim (Option-cases (Map.get names c)) [
      | inl g ↦ rw (e, g) (ground (arith, eq_iff key.1 c, g, linked i e))
      | inr (w, g) ↦
          rw (e, g) (ground (arith, eq_iff key.1 c, apart key.1 c i (linked i e), g, linked i e))
    ]
  ]

  scan_position-find :
      (sid : ℕ) (c : String) (rows : List ((ℕ × String) × PositionRow))
      → Each (Linked names) rows
      → scan_position names sid c rows ≡ event_of (Table.find rows (sid, c))
  unfolding scan_position Table.find
  scan_position-find sid c [] h = refl
  scan_position-find sid c ((key, row) ∷ rows) h =
      rw (row_of-Linked c key row h.0, scan_position-find sid c rows h.1) (ground arith)

module _ (db : Db) (valid : IsValid db) (d s : String) (sid : ℕ)
    (at : stream_id db d s ≡ some sid) where
  stream_id-same : (d' s' : String) → (d == d' && s == s') ≡ true → stream_id db d' s' ≡ some sid
  stream_id-same d' s' t =
      rw (← (eq_iff d d').0 (ground (arith, t)), ← (eq_iff s s').0 (ground (arith, t))) at

  same_stream :
      (d' s' : String) (i : ℕ) → stream_id db d' s' ≡ some i → (eqb sid i) ≡ (d == d' && s == s')
  same_stream d' s' i e = elim (Bool-cases (eqb sid i)) [
    | inl h ↦
        let (p, q) = valid.streams_apart d s d' s' sid at (ground (arith, h, e)) in
        ground (arith, h, (eq_iff d d').1 p, (eq_iff s s').1 q)
    | inr h ↦ elim (Bool-cases (d == d' && s == s')) [
      | inl t ↦ absurd (ground (arith, h, stream_id-same d' s' t, e))
      | inr t ↦ ground (arith, h, t)
    ]
  ]

  -- A table that differs in one row differs in one position.
  position_at-write :
      (c : String) (o : Option ℤ) (rows : List ((ℕ × String) × PositionRow))
      → ((i : ℕ) (c' : String)
          → event_of (Table.find rows (i, c'))
            ≡ (if eqb sid i && c == c' then o else event_of (position_row db i c')))
      → (d' s' c' : String)
      → position_at (record db { positions = rows }) d' s' c'
        ≡ (if same_place d s c d' s' c' then o else position_at db d' s' c')
  unfolding position_at
  position_at-write c o rows h d' s' c' = elim (Option-cases (stream_id db d' s')) [
    | inl e ↦
        rw (e, position_at)
          (elim (Bool-cases (d == d' && s == s')) [
            | inl t ↦ absurd (ground (arith, e, stream_id-same d' s' t))
            | inr t ↦ ground (arith, t)
          ])
    | inr (i, e) ↦ rw (e, position_at, h, same_stream d' s' i e) (ground arith)
  ]

abbrev is_some : Option ℕ → Bool
is_some none = false
is_some (some i) = true

-- The tables stand for the store.
pub record Refines (db : Db) (st : Store) : Type 0 where
  pub valid : IsValid db
  pub streams : (d s : String) → is_some (stream_id db d s) ≡ st.exists d s
  pub positions : (d s c : String) → position_at db d s c ≡ st.position d s c

module _ (db : Db) (st : Store) (h : Refines db st) (d s c : String) where
  write-Refines :
      (sid : ℕ)
      → stream_id db d s ≡ some sid
      → (o : Option ℤ) (rows : List ((ℕ × String) × PositionRow))
      → ((i : ℕ) (c' : String)
          → event_of (Table.find rows (i, c'))
            ≡ (if eqb sid i && c == c' then o else event_of (position_row db i c')))
      → IsTable rows
      → Each (Linked db.names) rows
      → Refines (record db { positions = rows }) (write d s c o st)
  write-Refines sid at o rows differs keyed linked = record {
    valid = with_positions-IsValid db h.valid rows keyed linked;
    streams = h.streams;
    positions = λ d' s' c'.
        rw (position_at-write db h.valid d s sid at c o rows differs d' s' c', h.positions d' s' c')
          refl;
  }

  nowhere : stream_id db d s ≡ none → position_at db d s c ≡ none
  unfolding position_at
  nowhere e = rw (e, position_at) refl

  nowhere-Refines : stream_id db d s ≡ none → Refines db (write d s c none st)
  nowhere-Refines e = record {
    valid = h.valid;
    streams = h.streams;
    positions = λ d' s' c'. elim (Bool-cases (same_place d s c d' s' c')) [
      | inl t ↦
          rw
            (
              ← (eq_iff d d').0 (ground (arith, t)),
              ← (eq_iff s s').0 (ground (arith, t)),
              ← (eq_iff c c').0 (ground (arith, t)),
            )
            (rw (← h.positions d s c, nowhere e) (ground arith))
      | inr t ↦ rw t (h.positions d' s' c')
    ];
  }

  deleted-differs :
      (sid i : ℕ) (c' : String)
      → event_of (
          Table.find
            (Table.delete_where
              (λ key row. eqb key.0 sid && deleted (Map.get db.names c) c key.1 row.consumer_id)
              db.positions)
            (i, c'))
        ≡ (if eqb sid i && c == c' then none else event_of (position_row db i c'))
  deleted-differs sid i c' = elim (Option-cases (position_row db i c')) [
    | inl e ↦
        rw (Table.find-delete_where _ db.positions (i, c') h.valid.positions_keyed, e)
          (ground arith)
    | inr (row, e) ↦
        rw
          (
            Table.find-delete_where _ db.positions (i, c') h.valid.positions_keyed,
            e,
            deleted-Linked db.names h.valid.names_keyed h.valid.names_apart c (i, c') row
                (Table.Each-find (Linked db.names) db.positions (i, c') row h.valid.positions_linked
                  e),
          )
          (ground (arith, eq_iff c c', eq_iff c' c))
  ]

  position-row :
      (sid : ℕ) → stream_id db d s ≡ some sid → event_of (position_row db sid c) ≡ st.position d s c
  unfolding position_at
  position-row sid at = rw (← h.positions d s c) (rw (at, position_at) refl)

  upserted-differs :
      (sid i : ℕ) (c' : String) (row : PositionRow)
      → event_of (Table.find (Table.upsert db.positions (sid, c) row) (i, c'))
        ≡ (if eqb sid i && c == c' then some row.event_id else event_of (position_row db i c'))
  upserted-differs sid i c' row = rw Table.find-upsert (ground arith)

  inserted-Refines :
      (row : PositionRow) (sid : ℕ)
      → stream_id db d s ≡ some sid
      → ((i : ℕ) → row.consumer_id ≡ some i → Map.get db.names c ≡ some i)
      → Refines
          (record db { positions = Table.upsert db.positions (sid, c) row })
          (write d s c (some row.event_id) st)
  inserted-Refines row sid at linked =
      write-Refines sid at (some row.event_id) _ (λ i c'. upserted-differs sid i c' row)
        (Table.upsert-IsTable db.positions (sid, c) row h.valid.positions_keyed)
        (Table.upsert-Each (Linked db.names) db.positions (sid, c) row linked
          h.valid.positions_linked)

  behind-Refines :
      (server : Server) (sid consumer_id : ℕ) (event_id : ℤ) (row : PositionRow)
      → stream_id db d s ≡ some sid
      → position_row db sid c ≡ some row
      → leb_ℤ row.event_id event_id ≡ false
      → ((set_position_at server d s c event_id consumer_id sid db).0
          ≡ (store_set d s c event_id st).0)
        × Refines
            (set_position_at server d s c event_id consumer_id sid db).1
            (store_set d s c event_id st).1
  unfolding set_position_at store_set
  behind-Refines server sid consumer_id event_id row at e l =
      rw
        (
          ← h.streams d s,
          at,
          ← position-row sid at,
          upsert_position-behind sid c consumer_id event_id row db e l,
          e,
          l,
        )
        (rw (upsert_position-behind sid c consumer_id event_id row db e l) (refl, h))

  set_at-Refines :
      (server : Server) (sid consumer_id : ℕ) (event_id : ℤ)
      → stream_id db d s ≡ some sid
      → Map.get db.names c ≡ some consumer_id
      → ((set_position_at server d s c event_id consumer_id sid db).0
          ≡ (store_set d s c event_id st).0)
        × Refines
            (set_position_at server d s c event_id consumer_id sid db).1
            (store_set d s c event_id st).1
  unfolding set_position_at upsert_position store_set
  set_at-Refines server sid consumer_id event_id at named =
      elim (Option-cases (position_row db sid c)) [
        | inl e ↦
            rw (← h.streams d s, at, ← position-row sid at, e)
              (
                refl,
                inserted-Refines (record { consumer_id = some consumer_id; event_id = event_id })
                    sid at (λ i g. named ∙ g),
              )
        | inr (row, e) ↦ elim (Bool-cases (leb_ℤ row.event_id event_id)) [
          | inl l ↦
              rw (← h.streams d s, at, ← position-row sid at, e, l)
                (
                  refl,
                  inserted-Refines (record { consumer_id = some consumer_id; event_id = event_id })
                      sid at (λ i g. named ∙ g),
                )
          | inr l ↦ behind-Refines server sid consumer_id event_id row at e l
        ]
      ]

position_at-insert_name :
    (name : String) (db : Db) (d s c : String)
    → position_at (insert_name name db) d s c ≡ position_at db d s c
unfolding position_at insert_name
position_at-insert_name name db d s c = elim (Option-cases (Map.get db.names name)) [
  | inl e ↦ rw (insert_name, e) refl
  | inr (i, e) ↦ rw (insert_name, e) refl
]

-- A new consumer name moves no position.
named-Refines :
    (db : Db) (st : Store) → Refines db st → (c : String) → Refines (insert_name c db) st
named-Refines db st h c = record {
  valid = insert_name-IsValid c db h.valid;
  streams = λ d s. rw (same_streams c db) (h.streams d s);
  positions = λ d s c'. rw (position_at-insert_name c db d s c') (h.positions d s c');
}

module _ (server : Server) (working : (op : String) → server.fails op ≡ false) where
  get_position-position_at :
      (db : Db)
      → IsValid db
      → (d s c : String) → get_position server d s c db ≡ (ok (position_at db d s c), db)
  unfolding get_position position_at
  get_position-position_at db valid d s c = rw working (elim (Option-cases (stream_id db d s)) [
    | inl e ↦ rw (e, position_at) refl
    | inr (sid, e) ↦
        rw
          (
            e,
            position_at,
            scan_position-find db.names valid.names_keyed valid.names_apart sid c db.positions
                valid.positions_linked,
          )
          refl
  ])

  delete_position-Refines :
      (db : Db) (st : Store)
      → Refines db st
      → (d s c : String) → Refines (delete_position server d s c db).1 (write d s c none st)
  unfolding delete_position
  delete_position-Refines db st h d s c = rw working (elim (Option-cases (stream_id db d s)) [
    | inl e ↦ rw e (nowhere-Refines db st h d s c e)
    | inr (sid, e) ↦ rw e (
        write-Refines db st h d s c sid e none _ (deleted-differs db st h d s c sid)
          (Table.delete_where-IsTable _ db.positions h.valid.positions_keyed)
          (Table.delete_where-Each (Linked db.names) _ db.positions h.valid.positions_linked))
  ])

  set_position-Refines :
      (db : Db) (st : Store)
      → Refines db st
      → (d s c : String) (e : ℤ)
      → ((set_position server d s c e db).0 ≡ (store_set d s c e st).0)
        × Refines (set_position server d s c e db).1 (store_set d s c e st).1
  unfolding set_position store_set
  set_position-Refines db st h d s c e = elim (resolve-cases server c db) [
    | inr (op, _, _, _, failed) ↦ absurd (ground (arith, failed, working op))
    | inl resolved ↦
        rw (resolved, working "select stream")
          (elim (Option-cases (stream_id (insert_name c db) d s)) [
            | inl none_there ↦
                rw (none_there, ← (named-Refines db st h c).streams d s, none_there)
                  (refl, named-Refines db st h c)
            | inr (sid, at) ↦
                rw (at, working "set position")
                  (set_at-Refines (insert_name c db) st (named-Refines db st h c) d s c server sid
                    (id_after c db) e at (id_after-get server c db))
          ])
  ]

  delete-answer : (db : Db) (d s c : String) → (delete_position server d s c db).0 ≡ ok tt
  unfolding delete_position
  delete-answer db d s c = rw working refl

  call-Refines :
      (call : Call) (db : Db) (st : Store)
      → Refines db st
      → ((db_call server call db).0 ≡ (store_call call st).0)
        × Refines (db_call server call db).1 (store_call call st).1
  call-Refines (set d s c e) db st h =
      let (answer, after) = set_position-Refines db st h d s c e in (ap was_set answer, after)
  call-Refines (get d s c) db st h =
      rw (get_position-position_at db h.valid d s c, h.positions d s c) (refl, h)
  call-Refines (delete d s c) db st h =
      (ap was_deleted (delete-answer db d s c), delete_position-Refines db st h d s c)

  -- Whatever calls of SetPosition, GetPosition and DeletePosition are made one behind the other, on tables
  -- that are valid and with no failing statement, the answers are those of the store of positions that
  -- the tables stand for.
  pub run_agrees :
      (calls : List Call) (db : Db) (st : Store)
      → Refines db st
      → db_run server calls db ≡ store_run calls st
  unfolding db_run store_run
  run_agrees [] db st h = refl
  run_agrees (call ∷ calls) db st h =
      let (answer, after) = call-Refines call db st h in
      rw (answer, run_agrees calls _ _ after) refl
