-- ===== src/Memory/Locks.antt =====
-- Consumer locks of the in-memory transport: the lock methods of pkg/v1/memory.go. The time
-- of `m.now()` is an argument of each method. The proofs are in the modules below.
pub mod Table
pub mod Clean
pub mod Acquire
pub mod Renew
pub mod Release
pub mod Expiry
use pgcqrs.Base.{
  ℕ, suc, ◌+◌, String, ◌==◌, ℤ, pos, negsuc, ltb_ℤ, Bool, true, false, not, ◌&&◌, ◌||◌, Option,
  none, some, List, [], ◌∷◌, ◌++◌, ltb, leb, eqb, if◌then◌else◌,
}
use pgcqrs.Base.Map
use pgcqrs.Base.Map.{Map, or_empty}
use pgcqrs.Wire.{
  Lock, LockResult, LockState, LockReleasedEvent, Result, ok, err, lock_not_held, lock_expired,
  heartbeat_conflict, ttl_too_low, emit_failed, context_done, lock_minimum_ttl, Runtime,
}
use pgcqrs.Memory.State.{
  Memory, MemoryLockState, LockExpiryOp, Timer, Context, waits, cancelled, simulate_network,
}
use pgcqrs.Memory.Positions.{stored_position, record_position, check_position_conflict}

unfoldable pub lock_state : Memory → String → String → String → Option MemoryLockState
lock_state m domain stream consumer = elim (Map.get m.locks domain) [
  | none ↦ none
  | some streams ↦ elim (Map.get streams stream) [
    | none ↦ none
    | some consumers ↦ Map.get consumers consumer
  ]
]

pub set_lock : Memory → String → String → String → MemoryLockState → Memory
set_lock m domain stream consumer state =
    let streams = or_empty (Map.get m.locks domain) in
    record m { locks = Map.put m.locks domain (Map.put_in streams stream consumer state) }

-- The stream's entry is pruned when it is empty, and the domain's entry stays.
pub delete_lock : Memory → String → String → String → Memory
delete_lock m domain stream consumer = elim (Map.get m.locks domain) [
  | none ↦ m
  | some streams ↦ elim (Map.get streams stream) [
    | none ↦ m
    | some consumers ↦ record m {
      locks = Map.put m.locks domain (Map.prune streams stream (Map.delete consumers consumer));
    }
  ]
]

-- `now.After(held_until)`
abbrev pub past : ℕ → MemoryLockState → Bool
past now state = ltb state.held_until now

pub check_lock : ℕ → Memory → String → String → Option Lock → Result (Unit {0})
check_lock now m domain stream none = ok tt
check_lock now m domain stream (some lock) = elim (lock_state m domain stream lock.consumer) [
  | none ↦ err (lock_not_held lock.consumer lock.holder domain stream)
  | some state ↦
      if past now state
      then err (lock_not_held lock.consumer lock.holder domain stream)
      else if not (state.holder == lock.holder)
      then err (lock_not_held lock.consumer lock.holder domain stream)
      else ok tt
]

-- `t.Stop()` of the time package
pub stop : ℕ → List Timer → List Timer
stop id [] = []
stop id (t ∷ ts) = let rest = stop id ts in if eqb t.id id then rest else t ∷ rest

-- Whether a timer has neither fired nor been stopped.
unfoldable pub pending : ℕ → List Timer → Bool
pending id [] = false
pending id (t ∷ ts) = let rest = pending id ts in eqb t.id id || rest

-- `if timer != nil { timer.Stop() }`
pub stop_timer : Option ℕ → Memory → Memory
unfolding stop
stop_timer none m = m
stop_timer (some id) m = record m { timers = stop id m.timers }

-- `time.AfterFunc`: the new timer's name is `next_timer`.
pub after_func : ℕ → LockExpiryOp → Memory → Memory
after_func fires_at op m = record m {
  timers = record { id = m.next_timer; fires_at = fires_at; op = op } ∷ m.timers;
  next_timer = suc m.next_timer;
}

-- The event of a lock that is gone.
abbrev pub released_event : String → String → String → String → LockReleasedEvent
released_event domain stream consumer holder = record {
  domain = domain;
  stream = stream;
  consumer = consumer;
  holder = holder;
}

-- `m.onLockRelease.Emit`, and whether it returned nil
pub emit_release : Runtime → LockReleasedEvent → Memory → Bool × Memory
emit_release rt event m = (rt.emit_release event, record m { released = m.released ++ event ∷ [] })

-- `for _, evt := range expiredEvents { retErr = errors.Join(retErr, Emit(evt)) }`
pub emit_all : Runtime → List LockReleasedEvent → Memory → Bool × Memory
unfolding emit_release
emit_all rt [] m = (true, m)
emit_all rt (event ∷ events) m =
    let (emitted, m') = emit_release rt event m in
    let (rest, m'') = emit_all rt events m' in (emitted && rest, m'')

-- lockExpiryOp.perform
pub perform_expiry : Runtime → LockExpiryOp → Memory → Memory
unfolding emit_release
perform_expiry rt op m = elim (lock_state m op.domain op.stream op.consumer) [
  | none ↦ m
  | some existing ↦
      if not (eqb existing.generation op.generation)
      then m
      else let event = released_event op.domain op.stream op.consumer existing.holder in
        let (emitted, m') = emit_release rt event m in
        if emitted then delete_lock m' op.domain op.stream op.consumer else m'
]

module _ (domain stream exclude_consumer : String) (now : ℕ) where
  -- The loop of cleanExpiredLocks over the range of the stream's locks.
  clean_loop : ℕ → Map MemoryLockState → Memory → List LockReleasedEvent × Memory
  clean_loop deleted [] m = ([], m)
  clean_loop deleted ((consumer, l) ∷ rest) m = elim (consumer == exclude_consumer) [
    | true ↦ clean_loop deleted rest m
    | false ↦ elim (leb 128 deleted) [
      | true ↦ ([], m)
      | false ↦ elim (past now l) [
        | false ↦ clean_loop deleted rest m
        | true ↦
            let stopped = stop_timer l.expiry_timer m in
            let (events, m') =
              clean_loop (suc deleted) rest (delete_lock stopped domain stream consumer) in
            (released_event domain stream consumer l.holder ∷ events, m')
      ]
    ]
  ]

  pub clean_expired_locks : Memory → List LockReleasedEvent × Memory
  clean_expired_locks m =
      clean_loop 0 (or_empty (Map.get (or_empty (Map.get m.locks domain)) stream)) m

-- `existing != nil && !now.After(existing.heldUntil) && existing.holder != holder`
abbrev pub held_by_other : ℕ → String → Option MemoryLockState → Option MemoryLockState
held_by_other now holder none = none
held_by_other now holder (some existing) =
    if not (past now existing) && not (existing.holder == holder) then some existing else none

abbrev or_zero : Option ℤ → ℤ
or_zero none = pos 0
or_zero (some position) = position

module _ (rt : Runtime) (now : ℕ) (domain stream consumer holder : String) where
  -- The state that a granted lock starts with; `timer` is the timer that was started for it.
  pub new_lock : ℕ → ℕ → MemoryLockState
  new_lock ttl timer = record {
    holder = holder;
    acquired_at = now;
    heartbeat_at = now;
    ttl = ttl;
    guarantee_until = now + rt.guarantee ttl;
    held_until = now + ttl;
    expiry_timer = some timer;
    generation = 0;
  }

  abbrev pub expiry_op : ℕ → LockExpiryOp
  expiry_op generation = record {
    domain = domain;
    stream = stream;
    consumer = consumer;
    generation = generation;
  }

  -- The rest of tryAcquireInternal, where nobody else holds the lock. The timer of a lock that the
  -- holder takes again is left running.
  pub grant : ℕ → Memory → (LockResult × List LockReleasedEvent) × Memory
  grant ttl m =
      let (expired, m') = clean_expired_locks domain stream consumer now m in
      let m'' = after_func (now + ttl) (expiry_op 0) m' in
      (
        (
          record {
            acquired = true;
            held_by = holder;
            guarantee_until = now + rt.guarantee ttl;
            held_until = now + ttl;
            position = or_zero (stored_position m'' domain stream consumer);
          },
          expired,
        ),
        set_lock m'' domain stream consumer (new_lock ttl m'.next_timer),
      )

  pub try_acquire_internal : ℕ → Memory → (LockResult × List LockReleasedEvent) × Memory
  try_acquire_internal ttl m =
      elim (held_by_other now holder (lock_state m domain stream consumer)) [
        | none ↦ grant ttl m
        | some existing ↦ (
          (
            record {
              acquired = false;
              held_by = existing.holder;
              guarantee_until = existing.guarantee_until;
              held_until = existing.held_until;
              position = negsuc 0;
            },
            [],
          ),
          m,
        )
      ]

  -- Where an Emit fails Go returns the result beside the error.
  pub try_acquire : Context → ℕ → Memory → Result LockResult × Memory
  try_acquire ctx ttl m =
      if ltb ttl lock_minimum_ttl
      then (err (ttl_too_low ttl lock_minimum_ttl), m)
      else let ((result, expired), m') = try_acquire_internal ttl m in
        elim ctx [
          | cancelled ↦ (err context_done, m')
          | waits ↦
              let (emitted, m'') = emit_all rt expired m' in
              (if emitted then ok result else err emit_failed, m'')
        ]

  -- `true` where the caller's lock was released, `false` where no active lock was there.
  pub release_internal : Memory → Result Bool × Memory
  release_internal m = elim (lock_state m domain stream consumer) [
    | none ↦ (ok false, m)
    | some state ↦
        if past now state
        then (ok false, m)
        else if not (state.holder == holder)
        then (err (lock_not_held consumer holder domain stream), m)
        else (ok true, delete_lock (stop_timer state.expiry_timer m) domain stream consumer)
  ]

  released_result : Result Bool × Memory → Result (Unit {0}) × Memory
  unfolding emit_release
  released_result (err e, m) = (err e, m)
  released_result (ok false, m) = (ok tt, m)
  released_result (ok true, m) =
      let (emitted, m') = emit_release rt (released_event domain stream consumer holder) m in
      (if emitted then ok tt else err emit_failed, m')

  pub release : Context → Memory → Result (Unit {0}) × Memory
  release waits m = released_result (release_internal m)
  release cancelled m = (err context_done, (release_internal m).1)

  -- The renewed state of heartbeatLockAndPosition, with the timer that it starts.
  pub renewed : MemoryLockState → ℕ → MemoryLockState
  renewed existing timer = record existing {
    heartbeat_at = now;
    guarantee_until = now + rt.guarantee existing.ttl;
    held_until = now + existing.ttl;
    expiry_timer = some timer;
    generation = suc existing.generation;
  }

  -- What the closure of a lock's timer sends: that of tryAcquireInternal has captured the generation 0, and
  -- that of a heartbeat reads the lock's generation when it fires.
  pub sent_generation : (of_timer current : ℕ) → ℕ
  sent_generation of_timer current = if eqb of_timer 0 then 0 else current

  -- Where the lock's pending timer fires behind the increment of the generation, its command is in the
  -- input before the timer is stopped.
  abbrev fired_input : Bool → MemoryLockState → Option ℕ → Memory → List LockExpiryOp
  fired_input fires existing none m = m.input
  fired_input fires existing (some id) m =
      if fires && pending id m.timers
      then m.input ++ expiry_op (sent_generation existing.generation (suc existing.generation)) ∷ []
      else m.input

  -- The state is changed in place, so in the table: first the generation. `fires` is whether the lock's
  -- timer fires between that and its Stop. A pending timer that does not fire then sends the lock's
  -- generation as it is, because each change of the generation stops it.
  pub renew : (fires : Bool) → MemoryLockState → ℤ → Memory → Memory
  unfolding pending sent_generation
  renew fires existing position m =
      let fired = record m { input = fired_input fires existing existing.expiry_timer m } in
      let stopped = stop_timer existing.expiry_timer fired in
      let started = after_func (now + existing.ttl) (expiry_op (suc existing.generation)) stopped in
      record_position
        (set_lock started domain stream consumer (renewed existing stopped.next_timer)) domain
        stream consumer position

  pub heartbeat_lock_and_position : (fires : Bool) → ℤ → Memory → Result (Unit {0}) × Memory
  heartbeat_lock_and_position fires position m = elim (lock_state m domain stream consumer) [
    | none ↦ (err (lock_expired consumer domain stream), m)
    | some existing ↦
        if past now existing
        then (err (lock_expired consumer domain stream), m)
        else if not (existing.holder == holder)
        then (err (lock_not_held consumer holder domain stream), m)
        else elim (check_position_conflict domain stream consumer position m) [
          | err e ↦ (err e, m)
          | ok _ ↦ (ok tt, renew fires existing position m)
        ]
  ]

  pub heartbeat_with_position : (fires : Bool) → Context → ℤ → Memory → Result (Unit {0}) × Memory
  heartbeat_with_position fires ctx position m =
      simulate_network ctx (heartbeat_lock_and_position fires position m)

-- What GetLock and ListLocks show of a lock.
abbrev pub shown : String → String → String → MemoryLockState → LockState
shown domain stream consumer l = record {
  consumer = consumer;
  domain = domain;
  stream = stream;
  holder = l.holder;
  acquired_at = l.acquired_at;
  heartbeat_at = l.heartbeat_at;
  ttl = l.ttl;
  guarantee_until = l.guarantee_until;
  held_until = l.held_until;
}

module _ (now : ℕ) (domain stream : String) where
  -- The result is `none` where Go returns `found` as false.
  pub get_lock : Context → String → Memory → Result (Option LockState) × Memory
  get_lock ctx consumer m = simulate_network ctx (ok found, m)
    where
      found : Option LockState
      found = elim (lock_state m domain stream consumer) [
        | none ↦ none
        | some existing ↦
            if past now existing then none else some (shown domain stream consumer existing)
      ]

  list_loop : Map MemoryLockState → List LockState
  list_loop [] = []
  list_loop ((consumer, l) ∷ rest) =
      let states = list_loop rest in
      if past now l then states else shown domain stream consumer l ∷ states

  pub list_locks : Context → Memory → Result (List LockState) × Memory
  unfolding list_loop
  list_locks ctx m =
      simulate_network ctx
        (ok (list_loop (or_empty (Map.get (or_empty (Map.get m.locks domain)) stream))), m)
