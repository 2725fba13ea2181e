-- ===== src/Service/Positions.antt =====
-- The ConsumerPosition service (internal/service/grpcConsumerPosition.go) on the tables of ConsumerStore.
-- `text_of` is the method Error of an error.
use pgcqrs.Base.{String, ℤ, pos, Bool, true, false, Option, none, some, List}
use pgcqrs.Wire.{Error, Result, ok, err, SetPositionResult}
use pgcqrs.Storage.State.{Db, Server, ◌then_do◌}
use pgcqrs.Storage.Positions.{set_position, get_position, list_consumers, delete_position}

pub record SetPositionOut : Type 0 where
  pub acknowledged : Bool
  pub error : String
  pub previous_event_id : ℤ
  pub current_event_id : ℤ

pub record GetPositionOut : Type 0 where
  pub event_id : ℤ
  pub found : Bool

abbrev pub or_zero : Option ℤ → ℤ
or_zero none = pos 0
or_zero (some id) = id

module _ (server : Server) (text_of : Error → String) (domain stream : String) where
  abbrev pub set_answer : Result SetPositionResult → SetPositionOut
  set_answer (err failure) = record {
    acknowledged = false;
    error = text_of failure;
    previous_event_id = pos 0;
    current_event_id = pos 0;
  }
  set_answer (ok result) = record {
    acknowledged = true;
    error = "";
    previous_event_id = or_zero result.previous_event_id;
    current_event_id = result.current_event_id;
  }

  -- An error is an answer too.
  unfoldable pub set_position_handler : String → ℤ → Db → Result SetPositionOut × Db
  set_position_handler consumer event_id db =
      let (r, db') = set_position server domain stream consumer event_id db in
      (ok (set_answer r), db')

  abbrev found_position : Option ℤ → GetPositionOut
  found_position none = record { event_id = pos 0; found = false }
  found_position (some id) = record { event_id = id; found = true }

  unfoldable pub get_position_handler : String → Db → Result GetPositionOut × Db
  get_position_handler consumer db =
      get_position server domain stream consumer db then_do λ found db'.
      (ok (found_position found), db')

  unfoldable pub list_consumers_handler : Db → Result (List String) × Db
  list_consumers_handler db = list_consumers server domain stream db

  unfoldable pub delete_position_handler : String → Db → Result (Unit {0}) × Db
  delete_position_handler consumer db = delete_position server domain stream consumer db
