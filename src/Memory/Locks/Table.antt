-- ===== src/Memory/Locks/Table.antt =====
-- The table of locks as a finite function of (domain, stream, consumer): lockState reads what
-- setLock wrote and deleteLock removed, and nothing else moves.
use pgcqrs.Base.{
  ℕ, ℤ, String, ◌==◌, ◌&&◌, ◌≡◌, refl, Bool, Option, none, some, inl, inr, arith, eq_iff,
  Bool-cases, Option-cases, if◌then◌else◌,
}
use pgcqrs.Base.Map
use pgcqrs.Base.Map.{
  Map, or_empty, get_in, map_laws, get-nil, get-put, get-put-or_empty, get_in-put_in,
  get_in-prune-delete,
}
use pgcqrs.Wire.{Runtime}
use pgcqrs.Memory.State.{Memory, MemoryLockState, LockExpiryOp}
use pgcqrs.Memory.Positions.{record_position}
use pgcqrs.Memory.Locks.{
  lock_state, set_lock, delete_lock, stop_timer, after_func, released_event, emit_release,
}

-- Two keys name the same lock.
abbrev pub same_key : String → String → String → String → String → String → Bool
same_key d s c d' s' c' = d == d' && (s == s' && c == c')

-- Reading through `or_empty`, where a missing map reads as the empty one.
abbrev pub read :
    Map (Map (Map MemoryLockState)) → String → String → String → Option MemoryLockState
read locks d s c = get_in (or_empty (Map.get locks d)) s c

pub lock_state-read : (m : Memory) (d s c : String) → lock_state m d s c ≡ read m.locks d s c
unfolding lock_state
lock_state-read m d s c = elim (Option-cases (Map.get m.locks d)) [
  | inl e ↦ simp (e, lock_state, map_laws)
  | inr (streams, e) ↦ elim (Option-cases (Map.get streams s)) [
    | inl f ↦ simp (e, lock_state, f, map_laws)
    | inr (consumers, f) ↦ simp (e, lock_state, f)
  ]
]

-- setLock writes its own key and no other.
pub lock_state-set_lock :
    (m : Memory) (d s c : String) (x : MemoryLockState) (d' s' c' : String)
    → lock_state (set_lock m d s c x) d' s' c'
      ≡ (if same_key d s c d' s' c' then some x else lock_state m d' s' c')
unfolding set_lock
lock_state-set_lock m d s c x d' s' c' =
    simp (lock_state-read, get-put)
      (elim (Bool-cases (d == d')) [
        | inl e ↦
            rw (e, ← (eq_iff d d').0 e) (get_in-put_in (or_empty (Map.get m.locks d)) s c x s' c')
        | inr e ↦ rw e refl
      ])

-- What deleteLock does to the inner maps, also where one of them is missing.
read-delete_lock :
    (m : Memory) (d s c d' s' c' : String)
    → read (delete_lock m d s c).locks d' s' c'
      ≡ (if same_key d s c d' s' c' then none else read m.locks d' s' c')
unfolding delete_lock
read-delete_lock m d s c d' s' c' = elim (Option-cases (Map.get m.locks d)) [
  | inl e ↦
      rw (e, delete_lock)
        (ground (
          arith,
          eq_iff d d',
          get-nil {V = Map MemoryLockState} s',
          get-nil {V = MemoryLockState} c',
        ))
  | inr (streams, e) ↦ elim (Option-cases (Map.get streams s)) [
    | inl f ↦
        simp (e, delete_lock, f)
          (ground (arith, eq_iff d d', eq_iff s s', get-nil {V = MemoryLockState} c'))
    | inr (consumers, f) ↦
        simp (e, delete_lock, f, get-put)
          (elim (Bool-cases (d == d')) [
            | inl g ↦
                rw (g, ← (eq_iff d d').0 g, e) (rw f at (get_in-prune-delete streams s c s' c'))
            | inr g ↦ rw g refl
          ])
  ]
]

-- deleteLock removes its own key, present or not, and no other.
pub lock_state-delete_lock :
    (m : Memory) (d s c d' s' c' : String)
    → lock_state (delete_lock m d s c) d' s' c'
      ≡ (if same_key d s c d' s' c' then none else lock_state m d' s' c')
lock_state-delete_lock m d s c d' s' c' = simp lock_state-read (read-delete_lock m d s c d' s' c')

pub ruleset table_laws = (lock_state-set_lock, lock_state-delete_lock)

-- Timers and positions are no part of the table.
pub lock_state-stop_timer :
    (t : Option ℕ) (m : Memory) (d s c : String)
    → lock_state (stop_timer t m) d s c ≡ lock_state m d s c
unfolding stop_timer lock_state
lock_state-stop_timer none m d s c = refl
lock_state-stop_timer (some id) m d s c = refl

pub lock_state-after_func :
    (fires_at : ℕ) (op : LockExpiryOp) (m : Memory) (d s c : String)
    → lock_state (after_func fires_at op m) d s c ≡ lock_state m d s c
unfolding after_func lock_state
lock_state-after_func fires_at op m d s c = refl

pub lock_state-record_position :
    (m : Memory) (d s c : String) (p : ℤ) (d' s' c' : String)
    → lock_state (record_position m d s c p) d' s' c' ≡ lock_state m d' s' c'
unfolding record_position lock_state
lock_state-record_position m d s c p d' s' c' = refl

pub lock_state-emit_release :
    (rt : Runtime) (d s c h : String) (m : Memory) (d' s' c' : String)
    → lock_state (emit_release rt (released_event d s c h) m).1 d' s' c' ≡ lock_state m d' s' c'
unfolding emit_release lock_state
lock_state-emit_release rt d s c h m d' s' c' = refl

pub released-delete_lock :
    (m : Memory) (d s c : String) → (delete_lock m d s c).released ≡ m.released
unfolding delete_lock
released-delete_lock m d s c = ground arith
