-- ===== src/Memory/Watch/Order.antt =====
-- A watch delivers its events in the order of their IDs, each one once.
use mathlib.Core.Path.{subst}
use pgcqrs.Base.{
  ℕ, zero, suc, String, ◌==◌, ℤ, pos, ◌≤ℤ◌, ◌<ℤ◌, leb_ℤ, eqb_ℤ, Bool, true, false, not, ◌&&◌, ◌≡◌,
  refl, ap, inl, inr, Option, none, some, List, [], ◌∷◌, ◌++◌, arith, Bool-cases, Option-cases,
  List-cases, if◌then◌else◌,
}
use pgcqrs.Wire.{Envelope, Result, Result-cases, ok, err, Runtime}
use pgcqrs.Memory.State.{Memory, Channel, waits}
use pgcqrs.Memory.Streams.{all_envelopes, get_envelope}
use pgcqrs.Memory.Queries.{json_is_subset, skipped}
use pgcqrs.Memory.Watch.{
  OnKindClause, OnKindSubsetMatch, QueryOut, MemoryWatch, and_then, attempt_each, enqueue, pop,
  process_match, process_all, process_on_kind, filter_kind, filter_event, filter_all,
  process_init_events, process_new_event, Received, received, closed_now, blocked, receive, Ticked,
  event, failed, waiting, spins, load_event, new_event, handled, select, or_pending,
  wait_for_events, tick,
}

-- The IDs grow from behind `b` to `last`.
abbrev pub Increasing : ℤ → List QueryOut → ℤ → Type 0
Increasing b [] last = b ≤ℤ last
Increasing b (x ∷ xs) last = (b <ℤ x.id) × Increasing x.id xs last

Increasing-append :
    (b : ℤ) (xs : List QueryOut) (last : ℤ) (x : QueryOut)
    → Increasing b xs last
    → last <ℤ x.id
    → Increasing b (xs ++ x ∷ []) x.id
Increasing-append b [] last x h g = (ground arith, ground arith)
Increasing-append b (y ∷ ys) last x h g = (h.0, Increasing-append y.id ys last x h.1 g)

Increasing-weaken :
    (b : ℤ) (xs : List QueryOut) (last last' : ℤ)
    → Increasing b xs last
    → last ≤ℤ last'
    → Increasing b xs last'
Increasing-weaken b [] last last' h g = ground arith
Increasing-weaken b (y ∷ ys) last last' h g = (h.0, Increasing-weaken y.id ys last last' h.1 g)

-- The events that wait are behind the ID `b`, in the order of their IDs, and none is behind lastEvent.
abbrev pub Ordered : ℤ → MemoryWatch → Type 0
Ordered b w = Increasing b w.pending w.last_event

-- A step on a watch keeps its events in order.
abbrev Keeps : (MemoryWatch → Result (Unit {0}) × MemoryWatch) → Type 0
Keeps f = (b : ℤ) (w : MemoryWatch) → Ordered b w → Ordered b (f w).1

and_then-Keeps :
    (b : ℤ) (r : Result (Unit {0}) × MemoryWatch)
    (next : MemoryWatch → Result (Unit {0}) × MemoryWatch)
    → Ordered b r.1
    → Keeps next
    → Ordered b (and_then r next).1
and_then-Keeps b (err e, w) next h k = h
and_then-Keeps b (ok _, w) next h k = k b w h

attempt_each-Keeps {ℓ} :
    {A : Type ℓ} (f : A → MemoryWatch → Result (Unit {0}) × MemoryWatch) (xs : List A)
    → ((x : A) → Keeps (f x))
    → Keeps (attempt_each f xs)
attempt_each-Keeps f [] k b w h = h
attempt_each-Keeps f (x ∷ xs) k b w h =
    and_then-Keeps b (f x w) (attempt_each f xs) (k x b w h) (attempt_each-Keeps f xs k)

leb_ℤ-refl : (i : ℤ) → leb_ℤ i i ≡ true
leb_ℤ-refl i = ground arith

if-Ordered :
    (b : ℤ) (c : Bool) (x y : Result (Unit {0}) × MemoryWatch)
    → Ordered b x.1
    → Ordered b y.1
    → Ordered b (if c then x else y).1
if-Ordered b true x y h g = h
if-Ordered b false x y h g = g

module _ (rt : Runtime) where
  enqueue-Keeps : (op : ℤ) (e : Envelope) (message : String) → Keeps (enqueue rt op e message)
  unfolding enqueue
  enqueue-Keeps op e message b w h = elim (Bool-cases (leb_ℤ e.id w.last_event)) [
    | inl stale ↦ rw stale h
    | inr new ↦ elim (Option-cases (rt.parse_when e.when)) [
      | inl f ↦ rw (new, f) (Increasing-weaken b w.pending w.last_event e.id h (ground arith))
      | inr (when, f) ↦
          rw (new, f)
            (Increasing-append b w.pending w.last_event
              (record { op = op; id = e.id; when = when; kind = e.kind; body = message }) h
              (ground arith))
    ]
  ]

  -- An event is put into the queue once: when it is there for one operation, the send of it for another one
  -- succeeds and changes nothing, so an event that meets two clauses of a query is delivered for the first alone.
  pub enqueue_again :
      (op op' : ℤ) (e : Envelope) (message message' : String) (w : MemoryWatch)
      → (enqueue rt op e message w).0 ≡ ok tt
      → enqueue rt op' e message' (enqueue rt op e message w).1
        ≡ (ok tt, (enqueue rt op e message w).1)
  unfolding enqueue
  enqueue_again op op' e message message' w sent = elim (Bool-cases (leb_ℤ e.id w.last_event)) [
    | inl stale ↦ rw (stale, stale) refl
    | inr new ↦ elim (Option-cases (rt.parse_when e.when)) [
      | inl f ↦ absurd (ground (arith, rw (new, f) at sent))
      | inr (when, f) ↦ rw (new, f, leb_ℤ-refl e.id) refl
    ]
  ]

  module _ (load : ℤ → Result String) where
    process_match-Keeps :
        (e : Envelope) (match : OnKindSubsetMatch) → Keeps (process_match rt load e match)
    unfolding process_match
    process_match-Keeps e match b w h = elim (Result-cases (load e.id)) [
      | inr (x, p) ↦ rw p h
      | inl (body, p) ↦ rw p (elim (Bool-cases (json_is_subset rt body match.match)) [
        | inl t ↦ rw t (enqueue-Keeps match.op e body b w h)
        | inr t ↦ rw t h
      ])
    ]

    process_all-Keeps : (e : Envelope) (all : Option ℤ) → Keeps (process_all rt load e all)
    process_all-Keeps e none b w h = h
    process_all-Keeps e (some op) b w h = elim (Result-cases (load e.id)) [
      | inr (x, p) ↦ rw p h
      | inl (body, p) ↦ rw p (enqueue-Keeps op e body b w h)
    ]

    filter_kind-Keeps : (e : Envelope) (k : OnKindClause) → Keeps (filter_kind rt load e k)
    unfolding filter_kind process_on_kind
    filter_kind-Keeps e k b w h = elim (Bool-cases (k.kind == e.kind)) [
      | inl t ↦ rw t (
          and_then-Keeps b (process_all rt load e k.all_op w)
            (attempt_each (process_match rt load e) k.subsets) (process_all-Keeps e k.all_op b w h)
            (attempt_each-Keeps (process_match rt load e) k.subsets (process_match-Keeps e)))
      | inr t ↦ rw t h
    ]

    filter_event-Keeps : (e : Envelope) → Keeps (filter_event rt load e)
    unfolding filter_event
    filter_event-Keeps e b w h = elim (Bool-cases (skipped w.query.after_id e.id)) [
      | inl t ↦ rw t h
      | inr t ↦
          rw t
            (attempt_each-Keeps (filter_kind rt load e) w.query.on_kind (filter_kind-Keeps e) b w h)
    ]

    filter_all-Keeps : (all : Result (List Envelope)) → Keeps (filter_all rt load all)
    unfolding filter_all
    filter_all-Keeps (err x) b w h = h
    filter_all-Keeps (ok all) b w h =
        and_then-Keeps b (attempt_each (filter_event rt load) all w)
          (λ w'. (ok tt, record w' { init_done = true }))
          (attempt_each-Keeps (filter_event rt load) all filter_event-Keeps b w h) (λ b' w' h'. h')

    process_init_events-Keeps :
        (all : Result (List Envelope)) → Keeps (process_init_events rt load all)
    unfolding process_init_events
    process_init_events-Keeps all b w h =
        if-Ordered b w.init_done (ok tt, w) (filter_all rt load all w) h
          (filter_all-Keeps all b w h)

    process_new_event-Keeps :
        (id : ℤ) (e : Result Envelope) → Keeps (process_new_event rt load id e)
    unfolding process_new_event
    process_new_event-Keeps id (err x) b w h = h
    process_new_event-Keeps id (ok e) b w h =
        elim (Bool-cases (eqb_ℤ e.id (pos 0) && not (eqb_ℤ id (pos 0)))) [
          | inl t ↦ rw t h
          | inr t ↦ rw t (filter_event-Keeps e b w h)
        ]

-- What a tick leaves: an event that it delivers is behind `b`, and what waits is behind that event.
abbrev pub Delivers : ℤ → Ticked × (Channel × MemoryWatch) → Type 0
Delivers b (event out, (ch, w)) = (b <ℤ out.id) × Ordered out.id w
Delivers b (_, (ch, w)) = Ordered b w

pub pop-eq :
    (w : MemoryWatch) (ps : List QueryOut)
    → w.pending ≡ ps
    → pop w ≡ (elim ps [ [] ↦ (none, w) | out ∷ rest ↦ (some out, record w { pending = rest }) ])
unfolding pop
pop-eq w ps e =
    ap
      (λ (qs : List QueryOut). elim qs as (λ _. Option QueryOut × MemoryWatch) [
        | [] ↦ (none, w)
        | out ∷ rest ↦ (some out, record w { pending = rest })
      ])
      e

or_pending-Delivers :
    (b : ℤ) (w : MemoryWatch) (ch : Channel)
    (otherwise : MemoryWatch → Ticked × (Channel × MemoryWatch))
    → Ordered b w
    → Delivers b (otherwise w)
    → Delivers b (or_pending (pop w) ch otherwise)
or_pending-Delivers b w ch otherwise h g = elim (List-cases w.pending) [
  | inl e ↦ rw (pop-eq w [] e) g
  | inr (out, rest, e) ↦
      rw (pop-eq w (out ∷ rest) e) (subst (λ ps. Increasing b ps w.last_event) e h)
]

handled-Delivers :
    (b : ℤ) (ch : Channel) (r : Result (Unit {0}) × MemoryWatch)
    (next : Channel → MemoryWatch → Ticked × (Channel × MemoryWatch))
    → Ordered b r.1
    → ((ch : Channel) (w : MemoryWatch) → Ordered b w → Delivers b (next ch w))
    → Delivers b (handled next ch r)
handled-Delivers b ch (err e, w) next h k = h
handled-Delivers b ch (ok _, w) next h k = k ch w h

module _ (rt : Runtime) (m : Memory) where
  new_event-Keeps : (id : ℤ) → Keeps (new_event rt m id)
  new_event-Keeps id b w h =
      process_new_event-Keeps rt (load_event rt m w) id
        (get_envelope rt waits w.query.domain w.query.stream id m).0 b w h

  select-Delivers :
      (b : ℤ) (r : Received × Channel) (w : MemoryWatch)
      (next : Channel → MemoryWatch → Ticked × (Channel × MemoryWatch))
      → Ordered b w
      → ((ch : Channel) (w : MemoryWatch) → Ordered b w → Delivers b (next ch w))
      → Delivers b (select rt m next r w)
  select-Delivers b (received id, ch) w next h k =
      handled-Delivers b ch (new_event rt m id w) next (new_event-Keeps id b w h) k
  select-Delivers b (closed_now, ch) w next h k =
      handled-Delivers b ch (new_event rt m (pos 0) w) next (new_event-Keeps (pos 0) b w h) k
  select-Delivers b (blocked, ch) w next h k = h

  wait_for_events-Delivers :
      (b : ℤ) (fuel : ℕ) (ch : Channel) (w : MemoryWatch)
      → Ordered b w
      → Delivers b (wait_for_events rt m fuel ch w)
  unfolding wait_for_events
  wait_for_events-Delivers b zero ch w h = or_pending-Delivers b w ch (λ w'. (spins, (ch, w'))) h h
  wait_for_events-Delivers b (suc fuel) ch w h =
      or_pending-Delivers b w ch
        (λ w'. select rt m (λ ch' w''. wait_for_events rt m fuel ch' w'') (receive ch) w') h
        (select-Delivers b (receive ch) w (λ ch' w''. wait_for_events rt m fuel ch' w'') h
          (wait_for_events-Delivers b fuel))

  -- A tick keeps the events that wait in order, and an event that it delivers has an ID behind every ID that was
  -- delivered before.
  pub tick-Delivers :
      (b : ℤ) (fuel : ℕ) (ch : Channel) (w : MemoryWatch)
      → Ordered b w
      → Delivers b (tick rt m fuel ch w)
  unfolding tick
  tick-Delivers b fuel ch w h =
      or_pending-Delivers b w ch (λ w'. handled (wait_for_events rt m fuel) ch (init w')) h
        (handled-Delivers b ch (init w) (wait_for_events rt m fuel)
          (process_init_events-Keeps rt (load_event rt m w)
            (all_envelopes rt waits w.query.domain w.query.stream m).0 b w h)
          (λ ch' w' h'. wait_for_events-Delivers b fuel ch' w' h'))
    where
      init : MemoryWatch → Result (Unit {0}) × MemoryWatch
      init w' =
          process_init_events rt (load_event rt m w')
            (all_envelopes rt waits w'.query.domain w'.query.stream m).0 w'

-- The IDs that the ticks of a watch deliver, where the transport and the channel are at each tick as other
-- goroutines have left them.
pub delivered : Runtime → ℕ → List (Memory × Channel) → MemoryWatch → List ℤ
delivered rt fuel [] w = []
delivered rt fuel ((m, ch) ∷ rest) w =
    let (answer, (_, w')) = tick rt m fuel ch w in
    let later = delivered rt fuel rest w' in elim answer [ event out ↦ out.id ∷ later | _ ↦ later ]

abbrev pub Rising : ℤ → List ℤ → Type 0
Rising b [] = Unit
Rising b (x ∷ xs) = (b <ℤ x) × Rising x xs

-- Whatever other goroutines do to the transport and to the channel between its ticks, a watch whose waiting
-- events are in order delivers events in strictly growing order of their IDs, so each one at most once.
pub delivered-Rising :
    (rt : Runtime) (fuel : ℕ) (turns : List (Memory × Channel)) (b : ℤ) (w : MemoryWatch)
    → Ordered b w
    → Rising b (delivered rt fuel turns w)
unfolding delivered
delivered-Rising rt fuel [] b w h = tt
delivered-Rising rt fuel ((m, ch) ∷ rest) b w h =
    turn (tick rt m fuel ch w) (tick-Delivers rt m b fuel ch w h)
      (λ b' w' h'. delivered-Rising rt fuel rest b' w' h')
  where
    turn :
        (r : Ticked × (Channel × MemoryWatch))
        → Delivers b r
        → ((b' : ℤ) (w' : MemoryWatch) → Ordered b' w' → Rising b' (delivered rt fuel rest w'))
        → Rising b (elim r.0 [
          | event out ↦ out.id ∷ delivered rt fuel rest r.1.1
          | _ ↦ delivered rt fuel rest r.1.1
        ])
    turn (event out, (ch', w')) d later = (d.0, later out.id w' d.1)
    turn (failed e, (ch', w')) d later = later b w' d
    turn (waiting, (ch', w')) d later = later b w' d
    turn (spins, (ch', w')) d later = later b w' d
