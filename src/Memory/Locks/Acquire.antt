-- ===== src/Memory/Locks/Acquire.antt =====
-- TryAcquire of the in-memory transport: who is granted, and what the grant writes.
use pgcqrs.Base.{
  ℕ, ◌+◌, ◌<◌, String, true, ◌≡◌, ◌⊎◌, refl, Option, none, some, List, ◌∷◌, arith, eq_iff, eq_refl,
}
use pgcqrs.Wire.{Runtime}
use pgcqrs.Memory.State.{Memory, MemoryLockState, Timer}
use pgcqrs.Memory.Positions.{stored_position}
use pgcqrs.Memory.Locks.{
  lock_state, set_lock, held_by_other, or_zero, new_lock, grant, after_func, clean_expired_locks,
  try_acquire_internal,
}
use pgcqrs.Memory.Locks.Table.{lock_state-set_lock}
use pgcqrs.Memory.Locks.Clean.{positions-clean_expired_locks}

module _ (rt : Runtime) (now : ℕ) (d s c holder : String) (ttl : ℕ) (m : Memory) where
  -- Nobody else holds the lock.
  abbrev IsFree : Type 0
  IsFree =
      (l : MemoryLockState)
      → lock_state m d s c ≡ some l
      → (l.held_until < now) ⊎ (l.holder ≡ holder)

  pub held_by_other-eq-none :
      (o : Option MemoryLockState)
      → ((l : MemoryLockState) → o ≡ some l → (l.held_until < now) ⊎ (l.holder ≡ holder))
      → held_by_other now holder o ≡ none
  held_by_other-eq-none none free = refl
  held_by_other-eq-none (some l) free = ground (arith, free l refl, eq_iff l.holder holder)

  stored_position-clean :
      stored_position (clean_expired_locks d s c now m).1 d s c ≡ stored_position m d s c
  unfolding stored_position
  stored_position-clean = rw positions-clean_expired_locks

  abbrev IsPending : ℕ → List Timer → Type 0
  IsPending timer timers =
      (rest : List Timer) × (timers
        ≡ record {
          id = timer;
          fires_at = now + ttl;
          op = record { domain = d; stream = s; consumer = c; generation = 0 };
        }
          ∷ rest)

  grant_lem :
      ((grant rt now d s c holder ttl m).0.0 ≡ record {
        acquired = true;
        held_by = holder;
        guarantee_until = now + rt.guarantee ttl;
        held_until = now + ttl;
        position = or_zero (stored_position m d s c);
      })
      × ((timer : ℕ) × (lock_state (grant rt now d s c holder ttl m).1 d s c
            ≡ some (new_lock rt now d s c holder ttl timer))
          × IsPending timer (grant rt now d s c holder ttl m).1.timers)
  unfolding grant stored_position after_func set_lock
  grant_lem = (
    rw positions-clean_expired_locks,
    (
      (clean_expired_locks d s c now m).1.next_timer,
      simp (lock_state-set_lock, eq_refl),
      ((clean_expired_locks d s c now m).1.timers, refl),
    ),
  )

  -- The grant in terms of the new lock.
  pub try_acquire_internal-new_lock :
      IsFree
      → ((try_acquire_internal rt now d s c holder ttl m).0.0 ≡ record {
        acquired = true;
        held_by = holder;
        guarantee_until = now + rt.guarantee ttl;
        held_until = now + ttl;
        position = or_zero (stored_position m d s c);
      })
        × ((timer : ℕ) × (lock_state (try_acquire_internal rt now d s c holder ttl m).1 d s c
              ≡ some (new_lock rt now d s c holder ttl timer))
            × IsPending timer (try_acquire_internal rt now d s c holder ttl m).1.timers)
  unfolding try_acquire_internal
  try_acquire_internal-new_lock free =
      rw (held_by_other-eq-none (lock_state m d s c) free, try_acquire_internal) grant_lem

  -- Where nobody else holds the lock, tryAcquireInternal acquires it: the result names the holder, the
  -- end of the guarantee, the end of the lock and the stored position (0 if there is none), and the
  -- table holds a lock of that holder and of generation 0 that ends after the TTL; its timer is pending, fires
  -- at the end of the lock, and has the command to remove this lock of this generation.
  pub try_acquire_internal_granted :
      IsFree
      → ((try_acquire_internal rt now d s c holder ttl m).0.0 ≡ record {
        acquired = true;
        held_by = holder;
        guarantee_until = now + rt.guarantee ttl;
        held_until = now + ttl;
        position = or_zero (stored_position m d s c);
      })
        × ((l : MemoryLockState) × (timer : ℕ) × (lock_state
                (try_acquire_internal rt now d s c holder ttl m).1
                d
                s
                c
              ≡ some l)
            × (l.holder ≡ holder)
            × (l.ttl ≡ ttl)
            × (l.guarantee_until ≡ now + rt.guarantee ttl)
            × (l.held_until ≡ now + ttl)
            × (l.generation ≡ 0)
            × (l.expiry_timer ≡ some timer)
            × ((rest : List Timer) × ((try_acquire_internal rt now d s c holder ttl m).1.timers
                  ≡ record {
                    id = timer;
                    fires_at = l.held_until;
                    op = record { domain = d; stream = s; consumer = c; generation = l.generation };
                  }
                    ∷ rest)))
  unfolding new_lock
  try_acquire_internal_granted free =
      let (result, (timer, e, pending)) = try_acquire_internal-new_lock free in
      (
        result,
        (
          new_lock rt now d s c holder ttl timer,
          timer,
          e,
          refl,
          refl,
          refl,
          refl,
          refl,
          refl,
          pending,
        ),
      )
