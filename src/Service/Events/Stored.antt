-- ===== src/Service/Events/Stored.antt =====
-- What Submit stores, and what Get finds of it (internal/service/grpc.go, internal/service/storage.go).
use pgcqrs.Base.{
  ℕ, suc, ◌<◌, String, ◌≡◌, refl, sym, ◌∙◌, true, false, Bool-cases, inl, inr, Option, Option-cases,
  none, some, List, [], ◌∷◌, ◌++◌, All, arith, pos,
}
use pgcqrs.Base.Map
use pgcqrs.Base.Map.{get-put_self}
use pgcqrs.Wire.{Runtime, Lock, Result, ok, err, Result-cases, no_such_id}
use pgcqrs.Storage.State.{Db, Tx, Server, stream_id, ◌then_do◌, insert_name}
use pgcqrs.Storage.Valid.{resolve-cases, id_after, same_locks, same_streams}
use pgcqrs.Storage.Locks.{resolve_and_check_lock, held_by, active, joined_lock}
use pgcqrs.Service.Events.{
  EventRow, EventsDb, insert_kind, new_row, find_event, fetch_payload, unsafe_store, check_lock,
  submit_within_tx, submit_with_lock, settled, on_work, running, found_or,
}

module _ (rt : Runtime) (server : Server) (domain stream : String) where
  -- The lock is the holder's, and its time lasts.
  abbrev pub Holds : Lock → Db → Type 0
  Holds lock db =
      held_by rt server domain stream lock.holder
        (active server.now (joined_lock db domain stream (id_after lock.consumer db)))
      ≡ true

  same_joined :
      (name : String) (db : Db) (id : ℕ)
      → joined_lock (insert_name name db) domain stream id ≡ joined_lock db domain stream id
  unfolding joined_lock
  same_joined name db id = rw (same_streams name db, same_locks name db) refl

  checked-Holds :
      (lock : Lock) (tx : Tx)
      → (resolve_and_check_lock rt server domain stream lock tx).0 ≡ ok tt
      → Holds lock tx.work
        × ((resolve_and_check_lock rt server domain stream lock tx).1.work
            ≡ insert_name lock.consumer tx.work)
  unfolding resolve_and_check_lock
  checked-Holds lock tx e = elim (resolve-cases server lock.consumer tx.work) [
    | inr (op, mid, r, q, f) ↦ absurd (let h = (rw r at e) in cc)
    | inl r ↦ rw r (elim (Bool-cases (server.fails "check lock")) [
      | inl f ↦ absurd (let h = (rw (r, f) at e) in cc)
      | inr f ↦
          elim (Bool-cases (
            held_by rt server domain stream lock.holder (
              active server.now
                (joined_lock tx.work domain stream (id_after lock.consumer tx.work))))) [
                  | inl g ↦ (
                    g,
                    rw (f, same_joined lock.consumer tx.work (id_after lock.consumer tx.work), g)
                        refl,
                  )
                  | inr g ↦ absurd (
                      let h =
                        (rw
                          (
                            r,
                            f,
                            same_joined lock.consumer tx.work (id_after lock.consumer tx.work),
                            g,
                          )
                          at e) in
                      cc)
                ]
    ])
  ]

  module _ (jsonb : String → Option String) (kind body : String) where
    -- The row of an event that is stored under the next ID.
    abbrev pub stored_row : String → Option ℕ → EventsDb → EventRow
    stored_row event kind_id db = record {
      id = db.next_event;
      stream_id = stream_id db.consumers domain stream;
      kind_id = kind_id;
      when_occurred = server.now;
      event = event;
    }

    -- What a store leaves: on success one more event, whose kind is in the table of kinds under the ID that the
    -- event has, or else the events that there were.
    abbrev pub Stores : EventsDb → Result ℕ × EventsDb → Type 0
    Stores db (ok id, db') =
        (id ≡ db.next_event)
        × ((event : String) × (kind_id : ℕ) × (jsonb body ≡ some event)
            × (Map.get db'.kinds kind ≡ some kind_id)
            × (db'.events ≡ db.events ++ stored_row event (some kind_id) db ∷ []))
    Stores db (err e, db') = db'.events ≡ db.events

    abbrev Same : EventsDb → EventsDb → Type 0
    Same db db' =
        (db'.events ≡ db.events) × (db'.next_event ≡ db.next_event) × (db'.consumers ≡ db.consumers)

    kinds_kept : (db : EventsDb) → Same db (insert_kind kind db)
    unfolding insert_kind
    kinds_kept db = elim (Option-cases (Map.get db.kinds kind)) [
      | inl e ↦ rw (e, insert_kind) (refl, refl, refl)
      | inr (i, e) ↦ rw (e, insert_kind) (refl, refl, refl)
    ]

    kind_stored : (db : EventsDb) → (id : ℕ) × (Map.get (insert_kind kind db).kinds kind ≡ some id)
    unfolding insert_kind
    kind_stored db = elim (Option-cases (Map.get db.kinds kind)) [
      | inl e ↦ (db.next_kind, rw (e, insert_kind) (get-put_self db.kinds kind db.next_kind))
      | inr (id, e) ↦ (id, rw (e, insert_kind) e)
    ]

    unsafe_store-Stores :
        (db : EventsDb) → Stores db (unsafe_store server rt jsonb domain stream kind body db)
    unfolding unsafe_store new_row
    unsafe_store-Stores db = elim (Bool-cases (server.fails "insert kind")) [
      | inl f ↦ rw f refl
      | inr f ↦ rw f (elim (Bool-cases (server.fails "insert event")) [
        | inl g ↦ rw g (kinds_kept db).0
        | inr g ↦ rw g (elim (Option-cases (jsonb body)) [
          | inl e ↦ rw e (kinds_kept db).0
          | inr (event, e) ↦
              let (id, at) = kind_stored db in
              rw (e, (kinds_kept db).0, (kinds_kept db).1, (kinds_kept db).2)
                (refl, (event, id, e, at, rw at refl))
        ])
      ])
    ]

    -- A submission under a lock: the stored event, and that the lock is held.
    abbrev pub StoresHeld : Lock → EventsDb → Result ℕ × EventsDb → Type 0
    StoresHeld lock db (ok id, db') = Holds lock db.consumers × Stores db (ok id, db')
    StoresHeld lock db (err e, db') = db'.events ≡ db.events

    commit-StoresHeld :
        (lock : Lock) (db : EventsDb) (c : Db) (r : Result ℕ × EventsDb)
        → Holds lock db.consumers
        → stream_id c domain stream ≡ stream_id db.consumers domain stream
        → Stores (record db { consumers = c }) r
        → StoresHeld lock db (
            settled server rt jsonb (
              on_work server rt jsonb
                (record { committed = db; work = record db { consumers = c } })
                r
              then_do λ id tx. running server "commit" tx (ok id, tx)))
    commit-StoresHeld lock db c (err e, db') held same h = refl
    commit-StoresHeld lock db c (ok id, db') held same (i, (event, kind_id, j, at, k)) =
        elim (Bool-cases (server.fails "commit")) [
          | inl f ↦ rw f refl
          | inr f ↦ rw f (held, (i, (event, kind_id, j, at, k ∙ rw same refl)))
        ]

    -- Whatever statement fails, a submission under a lock that succeeds has found the lock in its holder's
    -- hands with time left, and has stored the one event under the next ID, in the stream that it names, and
    -- with the ID under which the kind that it names is then stored; one that fails has stored no event.
    pub submit_with_lock-StoresHeld :
        (lock : Lock) (db : EventsDb)
        → StoresHeld lock db (submit_with_lock server rt jsonb domain stream kind body lock db)
    unfolding submit_with_lock submit_within_tx check_lock
    submit_with_lock-StoresHeld lock db = elim (Bool-cases (server.fails "begin")) [
      | inl f ↦ rw f refl
      | inr f ↦
          let r =
            resolve_and_check_lock rt server domain stream lock
              (record { committed = db.consumers; work = db.consumers }) in
          rw f (elim (Result-cases r.0) [
            | inr (e, q) ↦ rw q refl
            | inl (done, q) ↦
                let (held, moved) =
                  checked-Holds lock (record { committed = db.consumers; work = db.consumers }) q in
                rw q (
                  commit-StoresHeld lock db r.1.work _ held
                    (rw (moved, same_streams lock.consumer db.consumers) refl)
                    (unsafe_store-Stores (record db { consumers = r.1.work })))
          ])
    ]

-- Every event's ID is below the next one.
abbrev pub Numbered : EventsDb → Type 0
Numbered db = All (λ (row : EventRow). row.id < db.next_event) db.events

found-new :
    (sid id : ℕ) (rows : List EventRow) (new : EventRow)
    → All (λ (row : EventRow). row.id < id) rows
    → new.stream_id ≡ some sid
    → new.id ≡ id
    → find_event sid id (rows ++ new ∷ []) ≡ some new.event
unfolding find_event
found-new sid id [] new old at same = rw at (ground (arith, same))
found-new sid id (row ∷ rows) new old at same = elim (Option-cases row.stream_id) [
  | inl e ↦ rw e (found-new sid id rows new old.1 at same)
  | inr (s, e) ↦ rw (e, found-new sid id rows new old.1 at same) (ground (arith, old.0))
]

found-other :
    (sid id : ℕ) (rows : List EventRow) (new : EventRow)
    → new.stream_id ≡ none
    → find_event sid id (rows ++ new ∷ []) ≡ find_event sid id rows
unfolding find_event
found-other sid id [] new nowhere = rw nowhere refl
found-other sid id (row ∷ rows) new nowhere = elim (Option-cases row.stream_id) [
  | inl e ↦ rw e (found-other sid id rows new nowhere)
  | inr (s, e) ↦ rw (e, found-other sid id rows new nowhere) refl
]

later-Numbered :
    (rows : List EventRow) (n : ℕ) (new : EventRow)
    → All (λ (row : EventRow). row.id < n) rows
    → new.id ≡ n
    → All (λ (row : EventRow). row.id < suc n) (rows ++ new ∷ [])
later-Numbered [] n new h e = (omega (arith, e), tt)
later-Numbered (row ∷ rows) n new h e = (omega (arith, h.0), later-Numbered rows n new h.1 e)

module _ (rt : Runtime) (server : Server) (domain stream : String) (jsonb : String → Option String)
    (kind body event : String) (db : EventsDb) (working : (op : String) → server.fails op ≡ false)
    (accepted : jsonb body ≡ some event) where
  fetched :
      (d s : String) (id sid : ℕ) (db' : EventsDb)
      → stream_id db'.consumers d s ≡ some sid
      → (fetch_payload server d s id db').0 ≡ found_or server d s id (find_event sid id db'.events)
  unfolding fetch_payload
  fetched d s id sid db' at = rw (working "select event", at) refl

  unfetched :
      (d s : String) (id : ℕ) (db' : EventsDb)
      → stream_id db'.consumers d s ≡ none
      → (fetch_payload server d s id db').0 ≡ err (no_such_id d s (pos id))
  unfolding fetch_payload
  unfetched d s id db' at = rw (working "select event", at) refl

  abbrev after_store : EventsDb
  after_store = record (insert_kind kind db) {
    events =
        db.events
        ++ stored_row rt server domain stream jsonb kind body event
            (Map.get (insert_kind kind db).kinds kind) db
          ∷ [];
    next_event = suc db.next_event;
  }

  stored-db :
      unsafe_store server rt jsonb domain stream kind body db ≡ (ok db.next_event, after_store)
  unfolding unsafe_store new_row
  stored-db =
      let (events, next, consumers) = kinds_kept rt server domain stream jsonb kind body db in
      rw (working "insert kind", working "insert event", accepted)
        (rw (events, next, consumers) refl)

  -- Where no statement fails, PostgreSQL takes the body as jsonb, the stream exists, and the IDs of the events
  -- are below the next one: Submit without a lock stores the event under the next ID, Get finds under this
  -- ID in the stream what PostgreSQL has made of the body, and the IDs stay below the next one.
  pub unsafe_store-fetch_payload :
      (sid : ℕ)
      → stream_id db.consumers domain stream ≡ some sid
      → Numbered db
      → let (answer, db') = unsafe_store server rt jsonb domain stream kind body db in
        (answer ≡ ok db.next_event)
        × ((fetch_payload server domain stream db.next_event db').0 ≡ ok event)
        × Numbered db'
  unsafe_store-fetch_payload sid at old =
      let (events, next, consumers) = kinds_kept rt server domain stream jsonb kind body db in
      rw stored-db (
        refl,
        fetched domain stream db.next_event sid after_store (rw consumers at)
            ∙ rw
                (found-new sid db.next_event db.events
                  (stored_row rt server domain stream jsonb kind body event
                    (Map.get (insert_kind kind db).kinds kind) db)
                  old at refl)
                refl,
        later-Numbered db.events db.next_event _ old refl,
      )

  -- A defect. events.stream_id may be NULL, and nothing tests that the stream exists: for a stream that was
  -- not created, Submit without a lock stores the event and returns its ID, and whatever stream and ID
  -- are asked for, Get answers as it did before, so nobody can read the event.
  pub unsafe_store_lost :
      stream_id db.consumers domain stream ≡ none
      → let (answer, db') = unsafe_store server rt jsonb domain stream kind body db in
        (answer ≡ ok db.next_event)
        × ((d s : String) (id : ℕ)
            → (fetch_payload server d s id db').0 ≡ (fetch_payload server d s id db).0)
  unsafe_store_lost nowhere =
      let (events, next, consumers) = kinds_kept rt server domain stream jsonb kind body db in
      rw stored-db (
        refl,
        λ d s id. elim (Option-cases (stream_id db.consumers d s)) [
          | inl e ↦ unfetched d s id after_store (rw consumers e) ∙ sym (unfetched d s id db e)
          | inr (sid, e) ↦
              fetched d s id sid after_store (rw consumers e)
              ∙ rw
                  (found-other sid id db.events
                    (stored_row rt server domain stream jsonb kind body event
                      (Map.get (insert_kind kind db).kinds kind) db)
                    nowhere)
                  refl
              ∙ sym (fetched d s id sid db e)
        ],
      )
