-- ===== src/Memory/Locks/Renew.antt =====
-- HeartbeatWithPosition of the in-memory transport: every outcome, and what a renewal writes.
use pgcqrs.Base.{
  Bool, Bool-cases, Option, none, List, [], ◌∷◌, All, eqb, ◌+◌, suc, ℕ, ◌≤◌, ◌<◌, String, ℤ, ◌≤ℤ◌,
  ◌<ℤ◌, ◌≡◌, ◌≢◌, inl, inr, refl, some, arith, eq_iff, Option-cases, if◌then◌else◌,
}
use pgcqrs.Wire.{Error, Result, ok, err, Runtime, lock_expired, lock_not_held, heartbeat_conflict}
use pgcqrs.Memory.State.{Memory, MemoryLockState, Timer}
use pgcqrs.Memory.Positions.{stored_position, record_position, check_position_conflict}
use pgcqrs.Memory.Locks.{
  lock_state, set_lock, after_func, stop, stop_timer, expiry_op, renewed, renew,
  heartbeat_lock_and_position,
}
use pgcqrs.Memory.Locks.Table.{
  same_key, lock_state-set_lock, lock_state-stop_timer, lock_state-after_func,
  lock_state-record_position,
}
use pgcqrs.Memory.Positions.Store.{stored_position-record}

module _ (rt : Runtime) (now : ℕ) (d s c holder : String) (fires : Bool) (position : ℤ)
    (m : Memory) where
  abbrev beat : Result (Unit {0}) × Memory
  beat = heartbeat_lock_and_position rt now d s c holder fires position m

  next_timer-stop_timer : (t : Option ℕ) (n : Memory) → (stop_timer t n).next_timer ≡ n.next_timer
  unfolding stop_timer
  next_timer-stop_timer none n = refl
  next_timer-stop_timer (some id) n = refl

  stop-All :
      (t : Option ℕ) (n : Memory) → All (λ (x : Timer). some x.id ≢ t) (stop_timer t n).timers
  unfolding stop_timer stop
  stop-All none n = every n.timers
    where
      every : (ts : List Timer) → All (λ (x : Timer). some x.id ≢ none) ts
      every [] = tt
      every (x ∷ ts) = (λ e. absurd cc, every ts)
  stop-All (some id) n = left n.timers
    where
      left : (ts : List Timer) → All (λ (x : Timer). some x.id ≢ some id) (stop id ts)
      left [] = tt
      left (x ∷ ts) = elim (Bool-cases (eqb x.id id)) [
        | inl e ↦ rw e (left ts)
        | inr e ↦ rw e (λ same. ground (arith, e, same), left ts)
      ]

  lock_state-renew :
      (l : MemoryLockState) (d' s' c' : String)
      → lock_state (renew rt now d s c holder fires l position m) d' s' c' ≡ (
          if same_key d s c d' s' c'
          then some (renewed rt now d s c holder l m.next_timer)
          else lock_state m d' s' c')
  unfolding renew renewed lock_state
  lock_state-renew l d' s' c' = rw (next_timer-stop_timer l.expiry_timer) (
      simp (
        lock_state-record_position, lock_state-set_lock, lock_state-after_func,
        lock_state-stop_timer,
      ))

  no_conflict :
      ((p : ℤ) → stored_position m d s c ≡ some p → p ≤ℤ position)
      → check_position_conflict d s c position m ≡ ok tt
  unfolding check_position_conflict
  no_conflict ahead = elim (Option-cases (stored_position m d s c)) [
    | inl e ↦ rw (e, check_position_conflict)
    | inr (p, e) ↦ rw (e, check_position_conflict) (ground (arith, ahead p e))
  ]

  pub beat_renews :
      (l : MemoryLockState)
      → lock_state m d s c ≡ some l
      → now ≤ l.held_until
      → l.holder ≡ holder
      → ((p : ℤ) → stored_position m d s c ≡ some p → p ≤ℤ position)
      → beat ≡ (ok tt, renew rt now d s c holder fires l position m)
  unfolding heartbeat_lock_and_position
  beat_renews l e live own ahead = ground (arith, eq_iff l.holder holder, no_conflict ahead)

  stored_position-renew :
      (l : MemoryLockState)
      → stored_position (renew rt now d s c holder fires l position m) d s c ≡ some position
  unfolding renew
  stored_position-renew l = stored_position-record _ d s c position

  -- The renewal in terms of the renewed lock.
  pub heartbeat-renewed :
      (l : MemoryLockState)
      → lock_state m d s c ≡ some l
      → now ≤ l.held_until
      → l.holder ≡ holder
      → ((p : ℤ) → stored_position m d s c ≡ some p → p ≤ℤ position)
      → (beat.0 ≡ ok tt)
        × (stored_position beat.1 d s c ≡ some position)
        × ((timer : ℕ) × ((d' s' c' : String)
              → lock_state beat.1 d' s' c' ≡ (
                  if same_key d s c d' s' c'
                  then some (renewed rt now d s c holder l timer)
                  else lock_state m d' s' c')))
  heartbeat-renewed l e live own ahead =
      rw (beat_renews l e live own ahead)
        (refl, stored_position-renew l, (m.next_timer, lock_state-renew l))

  timers-renew :
      (l : MemoryLockState)
      → (renew rt now d s c holder fires l position m).timers
        ≡ record {
          id = m.next_timer;
          fires_at = now + l.ttl;
          op = expiry_op rt now d s c holder (suc l.generation);
        }
          ∷ (stop_timer l.expiry_timer m).timers
  unfolding renew set_lock record_position after_func stop_timer
  timers-renew l = elim (Option-cases l.expiry_timer) [
    | inl e ↦ rw e refl
    | inr (id, e) ↦ rw e refl
  ]

  -- A live lock of the caller is renewed by a position that does not go back, whether or not its timer fires
  -- meanwhile: the lock then lasts a whole TTL from now and has the next generation; a timer is pending
  -- that fires at the end of the lock with the command to remove this lock of this generation, and the timer that
  -- the lock had is not pending; the stored position is the given one, and no other lock of the transport
  -- has moved.
  pub heartbeat_renews :
      (l : MemoryLockState)
      → lock_state m d s c ≡ some l
      → now ≤ l.held_until
      → l.holder ≡ holder
      → ((p : ℤ) → stored_position m d s c ≡ some p → p ≤ℤ position)
      → (beat.0 ≡ ok tt)
        × (stored_position beat.1 d s c ≡ some position)
        × ((l' : MemoryLockState) × (timer : ℕ) × ((d' s' c' : String)
              → lock_state beat.1 d' s' c'
                ≡ (if same_key d s c d' s' c' then some l' else lock_state m d' s' c'))
            × (l'.holder ≡ holder)
            × (l'.ttl ≡ l.ttl)
            × (l'.held_until ≡ now + l.ttl)
            × (l'.generation ≡ suc l.generation)
            × (l'.expiry_timer ≡ some timer)
            × ((rest : List Timer) × (beat.1.timers
                  ≡ record {
                    id = timer;
                    fires_at = l'.held_until;
                    op = record {
                      domain = d;
                      stream = s;
                      consumer = c;
                      generation = l'.generation;
                    };
                  }
                    ∷ rest)
                × All (λ (x : Timer). some x.id ≢ l.expiry_timer) rest))
  unfolding renewed
  heartbeat_renews l e live own ahead = rw (beat_renews l e live own ahead) (
    refl,
    stored_position-renew l,
    (
      renewed rt now d s c holder l m.next_timer,
      m.next_timer,
      lock_state-renew l,
      own,
      refl,
      refl,
      refl,
      refl,
      ((stop_timer l.expiry_timer m).timers, timers-renew l, stop-All l.expiry_timer m),
    ),
  )

  -- Why a heartbeat is refused, and with which error.
  pub data Refusal : Error → Type 0 where
    missing :
        ((l : MemoryLockState) → lock_state m d s c ≡ some l → l.held_until < now)
        → Refusal (lock_expired c d s)
    others :
        (l : MemoryLockState)
        → lock_state m d s c ≡ some l
        → now ≤ l.held_until
        → l.holder ≢ holder
        → Refusal (lock_not_held c holder d s)
    behind :
        (l : MemoryLockState) (p : ℤ)
        → lock_state m d s c ≡ some l
        → now ≤ l.held_until
        → l.holder ≡ holder
        → stored_position m d s c ≡ some p
        → position <ℤ p
        → Refusal (heartbeat_conflict position p)

  -- Every refusal leaves the transport as it was: a missing or expired lock is reported as expired, a
  -- live lock of another holder as not held, and a position behind the stored one as a conflict.
  pub heartbeat_refused : (e : Error) → Refusal e → beat ≡ (err e, m)
  unfolding heartbeat_lock_and_position check_position_conflict
  heartbeat_refused _ (missing gone) = elim (Option-cases (lock_state m d s c)) [
    | inl e ↦ rw (e, heartbeat_lock_and_position)
    | inr (l, e) ↦ rw (e, heartbeat_lock_and_position) (ground (arith, gone l e))
  ]
  heartbeat_refused _ (others l e live other) = ground (arith, eq_iff l.holder holder)
  heartbeat_refused _ (behind l p e live own q back) = ground (arith, eq_iff l.holder holder)
