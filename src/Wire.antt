-- ===== src/Wire.antt =====
-- The types that cross the transport interface (pkg/v1/transport.go, batch.go, transportBatch.go,
-- ipc.go, lock.go, errors.go, the messages of pkg/ipc/query.proto that a watch uses), the results of
-- its methods, and the functions of Go's library and of third parties that the code calls.
-- Times and durations are nanoseconds from an epoch before the program's run. A negative duration is
-- below `lock_minimum_ttl` as 0 is, so 0 stands for it.
pub mod Loops
use Prim.Native.Nat.{◌*◌, ◌^◌}
use pgcqrs.Base.{
  ℕ, String, ℤ, Bool, true, false, Option, List, ◌&&◌, [], ◌∷◌, ◌⊎◌, inl, inr, ◌≡◌, refl,
}

-- lock.go
pub record Lock : Type 0 where
  pub consumer : String
  pub holder : String

pub record LockResult : Type 0 where
  pub acquired : Bool
  pub held_by : String
  pub guarantee_until : ℕ
  pub held_until : ℕ
  pub position : ℤ

pub record LockState : Type 0 where
  pub consumer : String
  pub domain : String
  pub stream : String
  pub holder : String
  pub acquired_at : ℕ
  pub heartbeat_at : ℕ
  pub ttl : ℕ
  pub guarantee_until : ℕ
  pub held_until : ℕ

pub record LockReleasedEvent : Type 0 where
  pub domain : String
  pub stream : String
  pub consumer : String
  pub holder : String

abbrev pub lock_minimum_ttl : ℕ
lock_minimum_ttl = 6 * 10 ^ 9

-- The errors that the modelled methods return, with the fields that a caller can read.
-- `panicked` stands for a Go panic, which ends the process.
pub data Error : Type 0 where
  lock_not_held : (consumer holder domain stream : String) → Error
  lock_expired : (consumer domain stream : String) → Error
  lock_not_found : (domain stream consumer holder : String) → Error
  heartbeat_conflict : (target_version current_version : ℤ) → Error
  ttl_too_low : (provided minimum : ℕ) → Error
  position_backwards : Error
  empty_query : Error
  context_done : Error
  emit_failed : Error
  bad_json : Error
  panicked : Error
  no_handler : Error
  bad_key : Error
  -- storage/consumer.go; `operation_failed` is OperationError, and `database_failed` stands for an
  -- error of the driver that is passed on as it is
  stream_not_found : (domain stream : String) → Error
  backward_position : (consumer : String) (current requested : ℤ) → Error
  operation_failed : (operation : String) → Error
  database_failed : Error
  invalid_parameters : Error
  -- the gRPC service: a status InvalidArgument, the end of a stream, another error of a stream, and an
  -- error that errors.New makes
  invalid_argument : (message : String) → Error
  end_of_stream : Error
  stream_failed : Error
  plain_error : (message : String) → Error
  no_such_id : (app stream : String) (id : ℤ) → Error

pub data Result {ℓ} (A : Type ℓ) : Type ℓ where
  ok : A → Result A
  err : Error → Result A

-- A call behind which Go writes `if err != nil { return err }`.
infixl 5 ◌>>=◌
abbrev pub ◌>>=◌ {ℓ κ} : {B : Type κ} {A : Type ℓ} → Result A → (A → Result B) → Result B
err failure >>= next = err failure
ok value >>= next = next value

pub Result-cases {ℓ} :
    {A : Type ℓ} (r : Result A) → ((a : A) × (r ≡ ok a)) ⊎ ((e : Error) × (r ≡ err e))
Result-cases (ok a) = inl (a, refl)
Result-cases (err e) = inr (e, refl)

-- `for _, x := range xs { if err := f(x); err != nil { return err } }`, where `f` changes a state.
abbrev pub for_each {ℓ κ} : {A : Type ℓ} {S : Type κ} → (A → S → Result S) → List A → S → Result S
for_each f [] s = ok s
for_each f (x ∷ xs) s = f x s >>= λ t. for_each f xs t

-- ipc.go
pub record Envelope : Type 0 where
  pub id : ℤ
  pub when : String
  pub kind : String

-- transport.go
pub record WireMatcher : Type 0 where
  pub property : List String
  pub value : List String

pub record KindConstraint : Type 0 where
  pub kind : String
  pub eq : List WireMatcher
  pub match_subset : String

pub record WireQuery : Type 0 where
  pub kind_constraint : List KindConstraint
  pub after_id : Option ℤ

pub record WireQueryResult : Type 0 where
  pub filtered : Bool
  pub subset_match : Bool
  pub matching : List Envelope

pub record SetPositionResult : Type 0 where
  pub previous_event_id : Option ℤ
  pub current_event_id : ℤ

-- transportBatch.go
pub record WireBatchResultPair : Type 0 where
  pub meta : Envelope
  pub body : String

-- batch.go
pub record WireBatchKindMatch : Type 0 where
  pub op : ℤ
  pub subset : String

pub record WireBatchKindQuery : Type 0 where
  pub kind : String
  pub all : Option ℤ
  pub match : List WireBatchKindMatch

pub record WireBatchIdQuery : Type 0 where
  pub op : ℤ
  pub id : ℤ

pub record WireBatchRequest : Type 0 where
  pub on_kinds : List WireBatchKindQuery
  pub on_id : List WireBatchIdQuery
  pub after_id : Option ℤ

pub record WireBatchDispatch : Type 0 where
  pub envelope : Envelope
  pub event : String
  pub op : ℤ

abbrev pub is_nil {ℓ} : {A : Type ℓ} → List A → Bool
is_nil [] = true
is_nil _ = false

-- WireBatchR2Request.Empty
unfoldable pub request_empty : WireBatchRequest → Bool
request_empty w = is_nil w.on_kinds && is_nil w.on_id

-- The answers of jsondiff.Compare that the code tells apart.
pub data Difference : Type 0 where
  full_match superset_match other_difference : Difference

-- What the code calls in Go's library and in third-party packages.
pub record Runtime : Type 0 where
  -- time.Time.Format and time.Parse with time.RFC3339Nano
  pub format_when : ℕ → String
  pub parse_when : String → Option ℕ
  -- json.Unmarshal into a json.RawMessage
  pub unmarshal_raw : String → Option String
  -- jsondiff.Compare
  pub compare_json : String → String → Difference
  -- gojq.NewStringQuery, and QueryToString of the parser that it returns
  pub string_query : String → Option (String → Option String)
  -- time.Duration(float64(ttl) * DefaultGuaranteeFraction)
  pub guarantee : ℕ → ℕ
  -- whether emitter.MutexDispatcher.Emit returns nil, from whether each callback did
  pub emit : List Bool → Bool
  -- whether the Emit of a lock release returns nil: the subscribers are the callers' callbacks
  pub emit_release : LockReleasedEvent → Bool
