-- ===== src/Memory/Locks/Expiry.antt =====
-- lockExpiryOp of the in-memory transport: the guard by the generation, and what it misses.
use pgcqrs.Base.{
  Bool, suc, ℕ, ◌+◌, ◌≤◌, String, true, ◌≡◌, ◌≢◌, refl, ap, ◌∙◌, none, some, [], ◌∷◌, ◌++◌, arith,
  eq_refl, ℤ, Option-cases, Bool-cases, ◌&&◌, inl, inr, ◌<◌, ◌⊎◌, ◌≤ℤ◌, if◌then◌else◌,
}
use pgcqrs.Base.Map
use pgcqrs.Base.Map.{or_empty, get-put}
use pgcqrs.Wire.{Runtime, LockReleasedEvent, ok}
use pgcqrs.Memory.State.{Memory, MemoryLockState, LockExpiryOp, Timer}
use pgcqrs.Memory.Positions.{stored_position, record_position}
use pgcqrs.Memory.Locks.{
  lock_state, set_lock, pending, sent_generation, renew, stop_timer, delete_lock, released_event,
  emit_release, perform_expiry, clean_loop, clean_expired_locks, new_lock, after_func, renewed,
  grant, try_acquire_internal, heartbeat_lock_and_position, expiry_op,
}
use pgcqrs.Memory.Locks.Table.{
  same_key, lock_state-delete_lock, lock_state-set_lock, lock_state-read, released-delete_lock,
  lock_state-emit_release,
}
use pgcqrs.Memory.Locks.Clean.{stream_locks}
use pgcqrs.Memory.Locks.Acquire.{held_by_other-eq-none}
use pgcqrs.Memory.Locks.Renew.{heartbeat-renewed, beat_renews}

module _ (rt : Runtime) (op : LockExpiryOp) (m : Memory) where
  -- A timer's command whose generation is not the lock's changes nothing, nor does one whose lock is
  -- gone.
  pub perform_expiry_stale :
      ((l : MemoryLockState)
        → lock_state m op.domain op.stream op.consumer ≡ some l
        → l.generation ≢ op.generation)
      → perform_expiry rt op m ≡ m
  unfolding perform_expiry
  perform_expiry_stale stale = elim (Option-cases (lock_state m op.domain op.stream op.consumer)) [
    | inl e ↦ rw (e, perform_expiry)
    | inr (l, e) ↦ rw (e, perform_expiry) (ground (arith, stale l e))
  ]

  perform_expiry-eq :
      (l : MemoryLockState)
      → lock_state m op.domain op.stream op.consumer ≡ some l
      → l.generation ≡ op.generation
      → let event = released_event op.domain op.stream op.consumer l.holder in
        let emitted = (emit_release rt event m).1 in
        perform_expiry rt op m ≡ (
          if rt.emit_release event
          then delete_lock emitted op.domain op.stream op.consumer
          else emitted)
  unfolding perform_expiry
  perform_expiry-eq l e g = rw (e, perform_expiry) (ground arith)

  -- Otherwise the release of the lock is emitted; where a subscriber fails the lock stays, else it is
  -- gone and no other lock has moved.
  pub perform_expiry_current :
      (l : MemoryLockState)
      → lock_state m op.domain op.stream op.consumer ≡ some l
      → l.generation ≡ op.generation
      → let event = released_event op.domain op.stream op.consumer l.holder in
        ((perform_expiry rt op m).released ≡ m.released ++ event ∷ [])
        × ((d s c : String)
            → lock_state (perform_expiry rt op m) d s c ≡ (
                if rt.emit_release event && same_key op.domain op.stream op.consumer d s c
                then none
                else lock_state m d s c))
  perform_expiry_current l e g =
      rw (perform_expiry-eq l e g) (elim (Bool-cases (rt.emit_release event)) [
        | inl b ↦ rw b (
          released-delete_lock emitted op.domain op.stream op.consumer
              ∙ unfold emit_release in refl,
          λ d s c. simp (lock_state-delete_lock, lock_state-emit_release),
        )
        | inr b ↦ rw b (unfold emit_release in refl, λ d s c. simp lock_state-emit_release)
      ])
    where
      event : LockReleasedEvent
      event = released_event op.domain op.stream op.consumer l.holder

      emitted : Memory
      emitted = (emit_release rt event m).1

module _ (rt : Runtime) (d s c holder : String) where
  -- A command for this lock whose generation is not above the one before a heartbeat changes nothing behind
  -- the renewal.
  pub renewed_lock_survives :
      (now : ℕ) (fires : Bool) (position : ℤ) (m : Memory) (l : MemoryLockState)
      → lock_state m d s c ≡ some l
      → now ≤ l.held_until
      → l.holder ≡ holder
      → ((p : ℤ) → stored_position m d s c ≡ some p → p ≤ℤ position)
      → (g : ℕ) → g ≤ l.generation
      → let m' = (heartbeat_lock_and_position rt now d s c holder fires position m).1 in
        perform_expiry rt (expiry_op rt now d s c holder g) m' ≡ m'
  renewed_lock_survives now fires position m l e live own ahead g older =
      perform_expiry_stale rt (expiry_op rt now d s c holder g)
        (heartbeat_lock_and_position rt now d s c holder fires position m).1
        λ l' e'.
          unfold renewed in
          ground (
            arith,
            e',
            (heartbeat-renewed rt now d s c holder fires position m l e live own ahead).2.1 d s c,
            eq_refl d,
            eq_refl s,
            eq_refl c,
          )

  renewed-input :
      (now : ℕ) (position : ℤ) (m : Memory) (l : MemoryLockState) (id : ℕ)
      → lock_state m d s c ≡ some l
      → now ≤ l.held_until
      → l.holder ≡ holder
      → ((p : ℤ) → stored_position m d s c ≡ some p → p ≤ℤ position)
      → l.expiry_timer ≡ some id
      → pending id m.timers ≡ true
      → l.generation ≢ 0
      → (heartbeat_lock_and_position rt now d s c holder true position m).1.input
        ≡ m.input ++ expiry_op rt now d s c holder (suc l.generation) ∷ []
  unfolding renew sent_generation set_lock record_position after_func stop_timer
  renewed-input now position m l id e live own ahead timer waiting later =
      rw (beat_renews rt now d s c holder true position m l e live own ahead)
        (rw (timer, waiting) (ground (arith, later)))

  -- A defect. A lock that has been renewed before has a timer whose closure reads the lock's generation when it
  -- fires. Where that timer is pending and fires in a heartbeat behind the increment of the generation and
  -- before its Stop, the heartbeat succeeds and the lock lasts a whole TTL from now, but the command that
  -- is then in the input names the new generation, and it removes the renewed lock.
  pub renewed_lock_lost :
      (now : ℕ) (position : ℤ) (m : Memory) (l : MemoryLockState) (id : ℕ)
      → lock_state m d s c ≡ some l
      → now ≤ l.held_until
      → l.holder ≡ holder
      → ((p : ℤ) → stored_position m d s c ≡ some p → p ≤ℤ position)
      → l.expiry_timer ≡ some id
      → pending id m.timers ≡ true
      → l.generation ≢ 0
      → rt.emit_release (released_event d s c holder) ≡ true
      → let (answer, m') = heartbeat_lock_and_position rt now d s c holder true position m in
        (answer ≡ ok tt)
        × ((l' : MemoryLockState) × (lock_state m' d s c ≡ some l') × (l'.held_until ≡ now + l.ttl))
        × ((op : LockExpiryOp) × (m'.input ≡ m.input ++ op ∷ [])
            × (lock_state (perform_expiry rt op m') d s c ≡ none))
  unfolding renewed
  renewed_lock_lost now position m l id e live own ahead timer waiting later heard =
      let (answer, stored, (t, locks)) =
        heartbeat-renewed rt now d s c holder true position m l e live own ahead in
      let found = locks d s c ∙ simp (eq_refl) in
      (
        answer,
        (renewed rt now d s c holder l t, found, refl),
        (
          expiry_op rt now d s c holder (suc l.generation),
          renewed-input now position m l id e live own ahead timer waiting later,
          (perform_expiry_current rt (expiry_op rt now d s c holder (suc l.generation)) _ _ found
                  refl).1
                d s c
              ∙ rw (own, heard) (simp eq_refl),
        ),
      )

  -- A stream with no lock, or with this consumer's lock alone, has nothing to clean.
  clean_nothing :
      (now : ℕ) (m : Memory) → stream_locks m d s ≡ [] → clean_expired_locks d s c now m ≡ ([], m)
  unfolding clean_expired_locks clean_loop
  clean_nothing now m e = rw e

  clean_own :
      (now : ℕ) (m : Memory) (l : MemoryLockState)
      → stream_locks m d s ≡ (c, l) ∷ []
      → clean_expired_locks d s c now m ≡ ([], m)
  unfolding clean_expired_locks clean_loop
  clean_own now m l e = rw (e, clean_loop) (rw (eq_refl c))

  -- The transport after an acquisition, and the timer that it starts.
  abbrev pub once : ℕ → ℕ → Memory → Memory
  once t ttl m = (try_acquire_internal rt t d s c holder ttl m).1

  abbrev pub timer_of : ℕ → ℕ → Memory → Timer
  timer_of t ttl m = record {
    id = m.next_timer;
    fires_at = t + ttl;
    op = expiry_op rt t d s c holder 0;
  }

  try_acquire-eq :
      (t ttl : ℕ) (m : Memory)
      → ((l : MemoryLockState)
          → lock_state m d s c ≡ some l
          → (l.held_until < t) ⊎ (l.holder ≡ holder))
      → clean_expired_locks d s c t m ≡ ([], m)
      → once t ttl m
        ≡ set_lock
            (after_func (t + ttl) (expiry_op rt t d s c holder 0) m)
            d
            s
            c
            (new_lock rt t d s c holder ttl m.next_timer)
  unfolding try_acquire_internal grant
  try_acquire-eq t ttl m free clean =
      rw
        (
          once,
          held_by_other-eq-none rt t d s c holder ttl m (lock_state m d s c) free,
          try_acquire_internal,
        )
        (rw (clean, grant))

  stream_locks-set_lock :
      (m : Memory) (x : MemoryLockState)
      → stream_locks m d s ≡ []
      → stream_locks (set_lock m d s c x) d s ≡ (c, x) ∷ []
  unfolding set_lock
  stream_locks-set_lock m x e = simp (get-put, eq_refl, e) (unfold Map.put in refl)

  no_lock : (m : Memory) → stream_locks m d s ≡ [] → lock_state m d s c ≡ none
  no_lock m idle =
      lock_state-read m d s c
      ∙ ap (λ (locks : Map.Map MemoryLockState). Map.get locks c) idle
      ∙ Map.get-nil c

  module _ (t u ttl : ℕ) (m : Memory) (idle : stream_locks m d s ≡ []) where
    first-eq :
        once t ttl m
        ≡ set_lock
            (after_func (t + ttl) (expiry_op rt t d s c holder 0) m)
            d
            s
            c
            (new_lock rt t d s c holder ttl m.next_timer)
    first-eq =
        try_acquire-eq t ttl m (λ l e. absurd (ground (arith, e, no_lock m idle)))
          (clean_nothing t m idle)

    second-eq :
        once u ttl (once t ttl m)
        ≡ set_lock
            (after_func (u + ttl) (expiry_op rt u d s c holder 0) (once t ttl m))
            d
            s
            c
            (new_lock rt u d s c holder ttl (once t ttl m).next_timer)
    unfolding after_func
    second-eq = rw first-eq (
        try_acquire-eq u ttl first own (
          clean_own u first x (
            stream_locks-set_lock (after_func (t + ttl) (expiry_op rt t d s c holder 0) m) x idle)))
      where
        x : MemoryLockState
        x = new_lock rt t d s c holder ttl m.next_timer

        first : Memory
        first = set_lock (after_func (t + ttl) (expiry_op rt t d s c holder 0) m) d s c x

        own :
            (l : MemoryLockState)
            → lock_state first d s c ≡ some l
            → (l.held_until < u) ⊎ (l.holder ≡ holder)
        own l e =
            unfold new_lock in inr (ground (arith, (simp (lock_state-set_lock, eq_refl) at e)))

    timers-set_lock : (n : Memory) (x : MemoryLockState) → (set_lock n d s c x).timers ≡ n.timers
    unfolding set_lock
    timers-set_lock n x = refl

    -- The lock that a second acquisition leaves, and the timers that are then pending.
    second-lock :
        lock_state (once u ttl (once t ttl m)) d s c
        ≡ some (new_lock rt u d s c holder ttl (once t ttl m).next_timer)
    second-lock = rw second-eq (simp (lock_state-set_lock, eq_refl))

    second-timers :
        (once u ttl (once t ttl m)).timers
        ≡ timer_of u ttl (once t ttl m) ∷ timer_of t ttl m ∷ m.timers
    unfolding after_func
    second-timers =
        rw (second-eq, timers-set_lock)
          (ap (◌∷◌ (timer_of u ttl (once t ttl m))) (rw (first-eq, timers-set_lock)))

    -- A defect. In a stream with no lock a holder acquires the lock at `t` and again at `u`, before the
    -- first TTL has passed. The lock then lasts until `u + ttl`. The timer of the first acquisition is
    -- still pending, it fires after `u` and no later than that, and its command removes the lock of the second one.
    pub reacquired_lock_lost :
        t ≤ u
        → u ≤ t + ttl
        → rt.emit_release (released_event d s c holder) ≡ true
        → let m' = once u ttl (once t ttl m) in
          (m'.timers ≡ timer_of u ttl (once t ttl m) ∷ timer_of t ttl m ∷ m.timers)
          × ((l : MemoryLockState) × (lock_state m' d s c ≡ some l)
              × (l.holder ≡ holder)
              × (l.held_until ≡ u + ttl)
              × (u ≤ (timer_of t ttl m).fires_at)
              × ((timer_of t ttl m).fires_at ≤ l.held_until))
          × (lock_state (perform_expiry rt (timer_of t ttl m).op m') d s c ≡ none)
    unfolding new_lock
    reacquired_lock_lost early inside heard = (
      second-timers,
      (
        new_lock rt u d s c holder ttl (once t ttl m).next_timer,
        second-lock,
        refl,
        refl,
        inside,
        omega arith,
      ),
      (perform_expiry_current rt (timer_of t ttl m).op (once u ttl (once t ttl m)) _ second-lock
              refl).1
            d s c
          ∙ simp (heard, eq_refl),
    )
