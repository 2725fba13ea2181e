-- ===== src/Memory/Watch.antt =====
-- Watches of the in-memory transport: Watch and memoryWatch (pkg/v1/memory.go), queryInFilter
-- (pkg/v1/queryInFilter.go) and ValidateQuery (pkg/v1/errors.go). A watch is an object that its methods
-- change: a method returns its result and the watch behind it, in the case of an error too. The calls of
-- one tick to the transport read one state of it. The proofs are in the modules below.
pub mod Order
pub mod Ends
mod Examples
use pgcqrs.Base.{
  ℕ, zero, suc, String, ◌==◌, ℤ, pos, negsuc, leb_ℤ, eqb_ℤ, Bool, true, false, not, ◌&&◌, Option,
  none, some, List, [], ◌∷◌, ◌++◌, length, if◌then◌else◌,
}
use pgcqrs.Base.Map
use pgcqrs.Wire.{
  Envelope, Result, ok, err, Error, empty_query, panicked, context_done, is_nil, Runtime,
}
use pgcqrs.Memory.State.{Memory, MemoryDomain, MemoryStream, Channel, Context, waits, cancelled}
use pgcqrs.Memory.Streams.{find_stream, put_stream, get_event, get_envelope, all_envelopes}
use pgcqrs.Memory.Queries.{json_is_subset, skipped}

-- The messages of pkg/ipc/query.proto, as far as a watch reads them.
pub record OnKindSubsetMatch : Type 0 where
  pub match : String
  pub op : ℤ

pub record OnKindClause : Type 0 where
  pub kind : String
  pub all_op : Option ℤ
  pub subsets : List OnKindSubsetMatch

pub record OnIdClause : Type 0 where
  pub id : ℤ
  pub op : ℤ

pub record QueryIn : Type 0 where
  pub domain : String
  pub stream : String
  pub on_kind : List OnKindClause
  pub on_id : List OnIdClause
  pub on_each : Option ℤ
  pub after_id : Option ℤ

pub record QueryOut : Type 0 where
  pub op : ℤ
  pub id : ℤ
  pub when : ℕ
  pub kind : String
  pub body : String

-- `channel` is the place of `pendingEvents` among the listeners of the stream.
pub record MemoryWatch : Type 0 where
  pub query : QueryIn
  pub channel : ℕ
  pub pending : List QueryOut
  pub last_event : ℤ
  pub init_done : Bool

abbrev is_none : Option ℤ → Bool
is_none none = true
is_none (some _) = false

pub validate_query : QueryIn → Result (Unit {0})
validate_query q =
    if is_nil q.on_kind && is_nil q.on_id && is_none q.on_each then err empty_query else ok tt

-- The listener is added behind the others.
abbrev add_listener : Bool → MemoryStream → MemoryStream
add_listener closed s = record s {
  on_add_packet = s.on_add_packet ++ record { buffer = []; closed = closed } ∷ [];
}

abbrev pub new_watch : QueryIn → MemoryStream → MemoryWatch
new_watch q s = record {
  query = q;
  channel = length s.on_add_packet;
  pending = [];
  last_event = negsuc 0;
  init_done = false;
}

-- Where the caller's context ends first, the channel is closed, and the listener stays. A stream that was
-- not ensured is a nil pointer, whose use panics.
pub watch : Context → QueryIn → Memory → Result MemoryWatch × Memory
watch ctx q m = elim (validate_query q) [
  | err e ↦ (err e, m)
  | ok _ ↦ elim (Map.get m.domains q.domain) [
    | none ↦ (err panicked, m)
    | some found ↦ elim (Map.get found.streams q.stream) [
      | none ↦ (err panicked, m)
      | some s ↦ elim ctx [
        | waits ↦ (ok (new_watch q s), put_stream m q.domain q.stream found (add_listener false s))
        | cancelled ↦ (err context_done, put_stream m q.domain q.stream found (add_listener true s))
      ]
    ]
  ]
]

-- `if err := …; err != nil { return err }` on an object.
abbrev pub and_then {κ} :
    {W : Type κ} → Result (Unit {0}) × W → (W → Result (Unit {0}) × W) → Result (Unit {0}) × W
and_then (err e, w) next = (err e, w)
and_then (ok _, w) next = next w

-- `for _, x := range xs { if err := f(x); err != nil { return err } }` on an object.
abbrev pub attempt_each {ℓ κ} :
    {A : Type ℓ} {W : Type κ} → (A → W → Result (Unit {0}) × W) → List A → W → Result (Unit {0}) × W
attempt_each f [] w = (ok tt, w)
attempt_each f (x ∷ xs) w = and_then (f x w) (λ w'. attempt_each f xs w')

pub pop : MemoryWatch → Option QueryOut × MemoryWatch
pop w = elim w.pending [ [] ↦ (none, w) | out ∷ rest ↦ (some out, record w { pending = rest }) ]

module _ (rt : Runtime) where
  -- A time that cannot be parsed panics.
  pub enqueue : ℤ → Envelope → String → MemoryWatch → Result (Unit {0}) × MemoryWatch
  enqueue op e message w =
      if leb_ℤ e.id w.last_event then (ok tt, w) else elim (rt.parse_when e.when) [
        | none ↦ (err panicked, record w { last_event = e.id })
        | some when ↦ (
          ok tt,
          record w {
            last_event = e.id;
            pending =
                w.pending
                ++ record { op = op; id = e.id; when = when; kind = e.kind; body = message } ∷ [];
          },
        )
      ]

  module _ (load : ℤ → Result String) where
    -- The read of an event, and the send of it to the watch.
    abbrev send : ℤ → Envelope → Result String → MemoryWatch → Result (Unit {0}) × MemoryWatch
    send op e (err failure) w = (err failure, w)
    send op e (ok body) w = enqueue op e body w

    abbrev send_subset :
        OnKindSubsetMatch → Envelope → Result String → MemoryWatch → Result (Unit {0}) × MemoryWatch
    send_subset match e (err failure) w = (err failure, w)
    send_subset match e (ok body) w =
        if json_is_subset rt body match.match then enqueue match.op e body w else (ok tt, w)

    pub process_match : Envelope → OnKindSubsetMatch → MemoryWatch → Result (Unit {0}) × MemoryWatch
    process_match e match w = send_subset match e (load e.id) w

    abbrev process_all : Envelope → Option ℤ → MemoryWatch → Result (Unit {0}) × MemoryWatch
    process_all e none w = (ok tt, w)
    process_all e (some op) w = send op e (load e.id) w

    pub process_on_kind : Envelope → OnKindClause → MemoryWatch → Result (Unit {0}) × MemoryWatch
    process_on_kind e on_kind w =
        and_then (process_all e on_kind.all_op w) (attempt_each (process_match e) on_kind.subsets)

    -- One round of the loop of queryInFilter.filter.
    pub filter_kind : Envelope → OnKindClause → MemoryWatch → Result (Unit {0}) × MemoryWatch
    filter_kind e on_kind w =
        if on_kind.kind == e.kind then process_on_kind e on_kind w else (ok tt, w)

    -- queryInFilter.filter
    pub filter_event : Envelope → MemoryWatch → Result (Unit {0}) × MemoryWatch
    filter_event e w =
        if skipped w.query.after_id e.id
        then (ok tt, w)
        else attempt_each (filter_kind e) w.query.on_kind w

    pub filter_all : Result (List Envelope) → MemoryWatch → Result (Unit {0}) × MemoryWatch
    filter_all (err failure) w = (err failure, w)
    filter_all (ok all) w =
        and_then (attempt_each filter_event all w) (λ w'. (ok tt, record w' { init_done = true }))

    pub process_init_events : Result (List Envelope) → MemoryWatch → Result (Unit {0}) × MemoryWatch
    process_init_events all w = if w.init_done then (ok tt, w) else filter_all all w

    -- The envelope of a missing event is the zero Envelope.
    pub process_new_event : ℤ → Result Envelope → MemoryWatch → Result (Unit {0}) × MemoryWatch
    process_new_event id (err failure) w = (err failure, w)
    process_new_event id (ok e) w =
        if eqb_ℤ e.id (pos 0) && not (eqb_ℤ id (pos 0)) then (ok tt, w) else filter_event e w

-- The three ends of a receive from a channel: an ID, the zero value of a closed channel, or a wait.
pub data Received : Type 0 where
  received : ℤ → Received
  closed_now : Received
  blocked : Received

-- `<-m.pendingEvents`
pub receive : Channel → Received × Channel
receive ch = elim ch.buffer [
  | id ∷ rest ↦ (received id, record ch { buffer = rest })
  | [] ↦ (if ch.closed then closed_now else blocked, ch)
]

-- What a tick comes to: an event, an error, or a wait for the context's end. `spins` is the end of the
-- fuel: from a closed channel the loop receives the zero ID again and again.
pub data Ticked : Type 0 where
  event : QueryOut → Ticked
  failed : Error → Ticked
  waiting : Ticked
  spins : Ticked

abbrev handled :
    (Channel → MemoryWatch → Ticked × (Channel × MemoryWatch))
    → Channel
    → Result (Unit {0}) × MemoryWatch
    → Ticked × (Channel × MemoryWatch)
handled next ch (err e, w) = (failed e, (ch, w))
handled next ch (ok _, w) = next ch w

abbrev or_pending :
    Option QueryOut × MemoryWatch
    → Channel
    → (MemoryWatch → Ticked × (Channel × MemoryWatch))
    → Ticked × (Channel × MemoryWatch)
or_pending (some out, w) ch otherwise = (event out, (ch, w))
or_pending (none, w) ch otherwise = otherwise w

module _ (rt : Runtime) (m : Memory) where
  abbrev load_event : MemoryWatch → ℤ → Result String
  load_event w id = (get_event rt waits w.query.domain w.query.stream id m).0

  abbrev new_event : ℤ → MemoryWatch → Result (Unit {0}) × MemoryWatch
  new_event id w =
      process_new_event rt (load_event w) id
        (get_envelope rt waits w.query.domain w.query.stream id m).0 w

  -- The `select` of waitForEvents.
  abbrev select :
      (Channel → MemoryWatch → Ticked × (Channel × MemoryWatch))
      → Received × Channel
      → MemoryWatch
      → Ticked × (Channel × MemoryWatch)
  select next (received id, ch) w = handled next ch (new_event id w)
  select next (closed_now, ch) w = handled next ch (new_event (pos 0) w)
  select next (blocked, ch) w = (waiting, (ch, w))

  -- memoryWatch.waitForEvents, where `fuel` bounds the IDs that it receives
  pub wait_for_events : ℕ → Channel → MemoryWatch → Ticked × (Channel × MemoryWatch)
  wait_for_events zero ch w = or_pending (pop w) ch (λ w'. (spins, (ch, w')))
  wait_for_events (suc fuel) ch w =
      or_pending (pop w) ch (λ w'. select (λ ch' w''. wait_for_events fuel ch' w'') (receive ch) w')

  -- memoryWatch.Tick
  pub tick : ℕ → Channel → MemoryWatch → Ticked × (Channel × MemoryWatch)
  tick fuel ch w = or_pending (pop w) ch (λ w'. handled (wait_for_events fuel) ch (
      process_init_events rt (load_event w')
        (all_envelopes rt waits w'.query.domain w'.query.stream m).0 w'))
