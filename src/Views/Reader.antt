-- ===== src/Views/Reader.antt =====
-- The notifier (pkg/indexer/views/notifier.go) and the reader of the in-memory store
-- (pkg/indexer/views/memory_reader.go, get_option.go, result.go). The dispatcher of the callbacks is of
-- another repository; what a wait sees of it is that each Emit, after it has raised lastVersion, calls the
-- callback of the wait. A wait and the Emits beside it are a sequence of steps; the proofs are in the modules
-- below.
pub mod Waits
pub mod Gets
mod Examples
use pgcqrs.Base.{
  ℕ, zero, suc, ltb, ℤ, ltb_ℤ, leb_ℤ, String, Bool, true, false, Option, none, some, List, [], ◌∷◌,
  if◌then◌else◌,
}
use pgcqrs.Wire.{Error, Result, ok, err, ◌>>=◌}
use pgcqrs.Views.{Key, Entity, MemoryStore, get}

-- Where WaitForVersion is: before a call of `reached`, in its select, behind `<-ctx.Done()`, or done.
pub data Phase : Type 0 where
  checking selecting ending : Phase
  returned : (reached : Bool) → Phase

-- `emitting` counts the Emits that have raised lastVersion behind the subscription and have not called the
-- callback yet, and `buffered` the changes in the channel.
pub record Wait : Type 0 where
  pub last_version : ℤ
  pub emitting : ℕ
  pub buffered : ℕ
  pub phase : Phase

pub data Step : Type 0 where
  raise : (version : ℤ) → Step
  call_back call_back_earlier check receive end : Step

-- The start of Emit
pub raised : ℤ → ℤ → ℤ
raised version last_version = if ltb_ℤ last_version version then version else last_version

abbrev pub capacity : ℕ
capacity = 16

-- The callback: a change for which the channel has no place is dropped.
pub offer : ℕ → ℕ
offer buffered = if ltb buffered capacity then suc buffered else buffered

-- `reached`, called in each of its places
pub check_in : ℤ → Bool → Phase → Phase
check_in target reached checking = if reached then returned true else selecting
check_in target reached ending = returned reached
check_in target reached selecting = selecting
check_in target reached (returned answer) = returned answer

abbrev take_change : ℕ → Wait → Wait
take_change zero w = w
take_change (suc n) w = record w { buffered = n; phase = checking }

pub receive_in : Phase → Wait → Wait
receive_in selecting w = take_change w.buffered w
receive_in checking w = w
receive_in ending w = w
receive_in (returned answer) w = w

pub end_in : Phase → Phase
end_in selecting = ending
end_in checking = checking
end_in ending = ending
end_in (returned answer) = returned answer

abbrev called_back : ℕ → Wait → Wait
called_back zero w = w
called_back (suc n) w = record w { emitting = n; buffered = offer w.buffered }

-- A wait_step that cannot happen changes nothing. `call_back_earlier` is the callback of an Emit that has raised
-- lastVersion before the subscription.
pub wait_step : ℤ → Step → Wait → Wait
wait_step target (raise version) w = record w {
  last_version = raised version w.last_version;
  emitting = suc w.emitting;
}
wait_step target call_back w = called_back w.emitting w
wait_step target call_back_earlier w = record w { buffered = offer w.buffered }
wait_step target check w = record w {
  phase = check_in target (leb_ℤ target w.last_version) w.phase;
}
wait_step target receive w = receive_in w.phase w
wait_step target end w = record w { phase = end_in w.phase }

pub run_wait : ℤ → List Step → Wait → Wait
run_wait target [] w = w
run_wait target (s ∷ steps) w = run_wait target steps (wait_step target s w)

-- WaitForVersion behind its subscription
abbrev pub subscribed : ℤ → Wait
subscribed last_version = record {
  last_version = last_version;
  emitting = 0;
  buffered = 0;
  phase = checking;
}

pub data Status : Type 0 where
  status_ok status_not_found status_stale status_timeout : Status

pub data GetOption : Type 0 where
  after_version : ℤ → GetOption
  until_version : (version : ℤ) (timeout : ℕ) → GetOption

pub record GetOptions : Type 0 where
  pub after : Option ℤ
  pub until : Option ℤ
  pub until_timeout : ℕ

pub apply_get : GetOption → GetOptions → GetOptions
apply_get (after_version version) cfg = record cfg { after = some version }
apply_get (until_version version timeout) cfg = record cfg {
  until = some version;
  until_timeout = timeout;
}

pub apply_all : List GetOption → GetOptions → GetOptions
apply_all [] cfg = cfg
apply_all (opt ∷ opts) cfg = apply_all opts (apply_get opt cfg)

-- How WaitForVersion ends under the context with the timeout, and whether the caller's context has ended.
pub data WaitEnd : Type 0 where
  version_reached : WaitEnd
  deadline_exceeded cancelled : (parent_ended : Bool) → WaitEnd

abbrev pub GetAnswer : Type 0
GetAnswer = Result (Option Entity × Status)

abbrev found_entity : Option Entity → Option Entity × Status
found_entity none = (none, status_not_found)
found_entity (some entity) = (some entity, status_ok)

pub refetch : String → Key → MemoryStore → GetAnswer
refetch kind key store = get kind key store >>= λ current. ok (found_entity current)

pub timeout_result : String → Key → MemoryStore → GetAnswer
timeout_result kind key store = get kind key store >>= λ current. ok (current, status_timeout)

-- What follows the wait, where `store` is the store by then.
pub after_wait : Error → String → Key → WaitEnd → MemoryStore → GetAnswer
after_wait wait_error kind key version_reached store = refetch kind key store
after_wait wait_error kind key (deadline_exceeded false) store = timeout_result kind key store
after_wait wait_error kind key (deadline_exceeded true) store = err wait_error
after_wait wait_error kind key (cancelled _) store = err wait_error

pub wait_until_version :
    Error → String → Key → Option Entity → ℤ → (ℕ → WaitEnd × MemoryStore) → ℕ → GetAnswer
wait_until_version wait_error kind key none target wait timeout =
    let (waited, store) = wait timeout in after_wait wait_error kind key waited store
wait_until_version wait_error kind key (some entity) target wait timeout =
    let (waited, store) = wait timeout in
    if leb_ℤ target entity.version
    then ok (some entity, status_ok)
    else after_wait wait_error kind key waited store

pub after_status : ℤ → Option Entity → Option Entity × Status
after_status version none = (none, status_not_found)
after_status version (some entity) =
    if ltb_ℤ entity.version version then (some entity, status_stale) else (some entity, status_ok)

abbrev constrained :
    Error
    → String
    → Key
    → (ℕ → WaitEnd × MemoryStore)
    → GetOptions
    → (after until : Option ℤ) → Option Entity
    → GetAnswer
constrained wait_error kind key wait cfg after (some target) entity =
    wait_until_version wait_error kind key entity target wait cfg.until_timeout
constrained wait_error kind key wait cfg (some version) none entity =
    ok (after_status version entity)
constrained wait_error kind key wait cfg none none entity = ok (found_entity entity)

abbrev no_options : GetOptions
no_options = record { after = none; until = none; until_timeout = 0 }

-- MemoryReader.Get. `wait` is how a wait of a given timeout ends and the store it leaves, and `wait_error` the
-- error of the context.
pub read_entity :
    Error → (ℕ → WaitEnd × MemoryStore) → String → Key → List GetOption → MemoryStore → GetAnswer
read_entity wait_error wait kind key opts store =
    let cfg = apply_all opts no_options in
    get kind key store >>= λ entity.
    constrained wait_error kind key wait cfg cfg.after cfg.until entity
