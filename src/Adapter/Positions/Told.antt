-- ===== src/Adapter/Positions/Told.antt =====
-- What the client is told by the services of positions and locks (pkg/v1/grpcAdapter.go,
-- internal/service/grpcConsumerPosition.go, internal/service/grpcConsumerLocks.go).
use pgcqrs.Base.{String, ℤ, pos, eqb_ℤ, ◌≡◌, refl, Option, none, some, if◌then◌else◌}
use pgcqrs.Wire.{Error, Result, ok, err, plain_error, SetPositionResult}
use pgcqrs.Storage.State.{Db, Server}
use pgcqrs.Storage.Positions as Store
use pgcqrs.Service.Positions.{set_position_handler, set_answer, or_zero}
use pgcqrs.Adapter.Positions.{previous_or_nil, set_position}

abbrev pub known : Option ℤ → Option ℤ
known none = none
known (some id) = if eqb_ℤ id (pos 0) then none else some id

-- A result as the client sees it: a previous position of 0 is as none, and an error is its text.
abbrev pub told : (Error → String) → Result SetPositionResult → Result SetPositionResult
told text_of (err failure) = err (plain_error (text_of failure))
told text_of (ok result) = ok (record {
  previous_event_id = known result.previous_event_id;
  current_event_id = result.current_event_id;
})

answered :
    (server : Server) (text_of : Error → String) (d s : String) (r : Result SetPositionResult)
    → set_position (ok (set_answer server text_of d s r)) ≡ told text_of r
unfolding set_position previous_or_nil
answered server text_of d s (err failure) = refl
answered server text_of d s (ok result) = previous result.previous_event_id
  where
    previous :
        (p : Option ℤ)
        → ◌≡◌ {A = Result SetPositionResult}
            (ok (record {
              previous_event_id = if eqb_ℤ (or_zero p) (pos 0) then none else some (or_zero p);
              current_event_id = result.current_event_id;
            }))
            (ok
              (record { previous_event_id = known p; current_event_id = result.current_event_id }))
    previous none = refl
    previous (some id) = refl

-- SetPosition by gRPC does to the tables what the storage does, and returns its result, except that a
-- previous position of 0 is reported as none, and that of an error only the text is left.
pub set_position_tells :
    (server : Server) (text_of : Error → String) (domain stream consumer : String) (event_id : ℤ)
    (db : Db)
    → let (reply, db') = set_position_handler server text_of domain stream consumer event_id db in
      (set_position reply
        ≡ told text_of (Store.set_position server domain stream consumer event_id db).0)
      × (db' ≡ (Store.set_position server domain stream consumer event_id db).1)
unfolding set_position_handler
set_position_tells server text_of domain stream consumer event_id db =
    (answered server text_of domain stream _, refl)
