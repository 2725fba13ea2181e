-- ===== src/Memory/Locks/Release.antt =====
-- Release and checkLock of the in-memory transport.
use pgcqrs.Base.{
  ℕ, ◌≤◌, ◌<◌, String, ◌≡◌, ◌≢◌, inl, inr, refl, ◌↔◌, none, some, ◌∷◌, [], ◌++◌, arith, eq_iff,
  Option-cases, if◌then◌else◌,
}
use pgcqrs.Wire.{Result, Lock, ok, err, Runtime, lock_not_held, emit_failed}
use pgcqrs.Memory.State.{Memory, MemoryLockState, waits}
use pgcqrs.Memory.Locks.{
  lock_state, stop_timer, delete_lock, check_lock, released_event, emit_release, release_internal,
  released_result, release,
}
use pgcqrs.Memory.Locks.Table.{
  same_key, lock_state-delete_lock, lock_state-stop_timer, lock_state-emit_release,
}

module _ (rt : Runtime) (now : ℕ) (d s c holder : String) (m : Memory) where
  freed : MemoryLockState → Memory
  freed l = delete_lock (stop_timer l.expiry_timer m) d s c

  released-freed : (l : MemoryLockState) → (freed l).released ≡ m.released
  unfolding freed delete_lock stop_timer
  released-freed l = ground arith

  release-freed :
      (l : MemoryLockState)
      → lock_state m d s c ≡ some l
      → now ≤ l.held_until
      → l.holder ≡ holder
      → release rt now d s c holder waits m ≡ (
        if rt.emit_release (released_event d s c holder) then ok tt else err emit_failed,
        (emit_release rt (released_event d s c holder) (freed l)).1,
      )
  unfolding release release_internal released_result freed
  release-freed l e live own = ground (arith, eq_iff l.holder holder)

  -- The holder of a live lock frees it: the lock is gone, one event is emitted for it, every other lock
  -- of the transport is as it was, and the result is an error only where a subscriber failed.
  pub release_frees :
      (l : MemoryLockState)
      → lock_state m d s c ≡ some l
      → now ≤ l.held_until
      → l.holder ≡ holder
      → ((release rt now d s c holder waits m).0
          ≡ (if rt.emit_release (released_event d s c holder) then ok tt else err emit_failed))
        × ((release rt now d s c holder waits m).1.released
            ≡ m.released ++ released_event d s c holder ∷ [])
        × ((d' s' c' : String)
            → lock_state (release rt now d s c holder waits m).1 d' s' c'
              ≡ (if same_key d s c d' s' c' then none else lock_state m d' s' c'))
  release_frees l e live own = rw (release-freed l e live own) (
    refl,
    unfold emit_release in rw released-freed,
    λ d' s' c'.
        simp (lock_state-emit_release)
          (unfold freed in simp (lock_state-delete_lock, lock_state-stop_timer)),
  )

  -- Why Release changes nothing, and what it then returns.
  pub data Idle : Result (Unit {0}) → Type 0 where
    missing :
        ((l : MemoryLockState) → lock_state m d s c ≡ some l → l.held_until < now) → Idle (ok tt)
    others :
        (l : MemoryLockState)
        → lock_state m d s c ≡ some l
        → now ≤ l.held_until
        → l.holder ≢ holder
        → Idle (err (lock_not_held c holder d s))

  -- Releasing a missing or expired lock succeeds and changes nothing; a live lock of another holder is
  -- refused, and nothing changes.
  pub release-Idle : (r : Result (Unit {0})) → Idle r → release rt now d s c holder waits m ≡ (r, m)
  unfolding release release_internal released_result
  release-Idle _ (missing gone) = elim (Option-cases (lock_state m d s c)) [
    | inl e ↦ rw (e, release_internal)
    | inr (l, e) ↦ rw (e, release_internal) (ground (arith, gone l e))
  ]
  release-Idle _ (others l e live other) = ground (arith, eq_iff l.holder holder)

-- checkLock accepts an asserted lock exactly when the table holds it, not expired, for that holder.
pub check_lock_iff :
    (now : ℕ) (m : Memory) (d s : String) (a : Lock)
    → (check_lock now m d s (some a) ≡ ok tt) ↔ (
        (l : MemoryLockState) × (lock_state m d s a.consumer ≡ some l)
        × (now ≤ l.held_until)
        × (l.holder ≡ a.holder))
unfolding check_lock
check_lock_iff now m d s a = (
  λ h. elim (Option-cases (lock_state m d s a.consumer)) [
    | inl e ↦ absurd (ground (arith, h, e))
    | inr (l, e) ↦ (l, e, ground arith, ground (arith, eq_iff l.holder a.holder))
  ],
  λ (l, e, live, own). ground (arith, eq_iff l.holder a.holder),
)
