-- ===== src/Storage/Positions/Abstract.antt =====
-- What the positions of ConsumerStore promise: a store of positions under three names, in which a
-- position does not go back, and runs of calls on it and on the tables.
use pgcqrs.Base.{
  String, ◌==◌, ℤ, leb_ℤ, Bool, ◌&&◌, Option, none, some, List, [], ◌∷◌, if◌then◌else◌,
}
use pgcqrs.Wire.{SetPositionResult, Result, ok, err, stream_not_found, backward_position}
use pgcqrs.Storage.State.{Db, Server}
use pgcqrs.Storage.Positions.{set_position, get_position, delete_position}

pub record Store : Type 0 where
  pub exists : String → String → Bool
  pub position : String → String → String → Option ℤ

abbrev pub same_place : String → String → String → String → String → String → Bool
same_place d s c d' s' c' = d == d' && s == s' && c == c'

abbrev pub write : String → String → String → Option ℤ → Store → Store
write d s c o st = record st {
  position = λ d' s' c'. if same_place d s c d' s' c' then o else st.position d' s' c';
}

abbrev pub accept :
    Store → String → String → String → Option ℤ → ℤ → Result SetPositionResult × Store
accept st d s c previous event_id = (
  ok (record { previous_event_id = previous; current_event_id = event_id }),
  write d s c (some event_id) st,
)

unfoldable pub store_set : String → String → String → ℤ → Store → Result SetPositionResult × Store
store_set d s c event_id st =
    if st.exists d s
    then elim (st.position d s c) [
      | none ↦ accept st d s c none event_id
      | some current ↦
          if leb_ℤ current event_id
          then accept st d s c (some current) event_id
          else (err (backward_position c current event_id), st)
    ]
    else (err (stream_not_found d s), st)

pub data Call : Type 0 where
  set : (domain stream consumer : String) (event_id : ℤ) → Call
  get : (domain stream consumer : String) → Call
  delete : (domain stream consumer : String) → Call

pub data Answer : Type 0 where
  was_set : Result SetPositionResult → Answer
  was_found : Result (Option ℤ) → Answer
  was_deleted : Result (Unit {0}) → Answer

abbrev pub store_call : Call → Store → Answer × Store
store_call (set d s c e) st = let (r, st') = store_set d s c e st in (was_set r, st')
store_call (get d s c) st = (was_found (ok (st.position d s c)), st)
store_call (delete d s c) st = (was_deleted (ok tt), write d s c none st)

unfoldable pub store_run : List Call → Store → List Answer
store_run [] st = []
store_run (call ∷ calls) st = let (answer, st') = store_call call st in answer ∷ store_run calls st'

module _ (server : Server) where
  abbrev pub db_call : Call → Db → Answer × Db
  db_call (set d s c e) db = let (r, db') = set_position server d s c e db in (was_set r, db')
  db_call (get d s c) db = let (r, db') = get_position server d s c db in (was_found r, db')
  db_call (delete d s c) db = let (r, db') = delete_position server d s c db in (was_deleted r, db')

  unfoldable pub db_run : List Call → Db → List Answer
  db_run [] db = []
  db_run (call ∷ calls) db = let (answer, db') = db_call call db in answer ∷ db_run calls db'
