-- ===== src/Memory/Locks/Clean.antt =====
-- cleanExpiredLocks: which locks it removes and which it reports.
use pgcqrs.Base.{
  ℕ, suc, ◌+◌, ◌≤◌, ◌<◌, String, ◌==◌, true, false, ◌≡◌, ◌≢◌, ◌⊎◌, inl, inr, refl, none, some, List,
  [], ◌∷◌, arith, eq_iff, eq_refl, Bool-cases, if◌then◌else◌, length, All, ◌∙◌, sym, leb,
}
use pgcqrs.Base.Map
use pgcqrs.Base.Map.{Map, or_empty, IsKeyed}
use pgcqrs.Wire.{LockReleasedEvent}
use pgcqrs.Memory.State.{Memory, MemoryLockState}
use pgcqrs.Memory.Locks.{
  lock_state, past, stop_timer, delete_lock, released_event, clean_loop, clean_expired_locks,
}
use pgcqrs.Memory.Locks.Table.{same_key, lock_state-delete_lock, lock_state-stop_timer}

module _ (domain stream exclude : String) (now : ℕ) where
  -- The state after an expired lock is dropped.
  abbrev dropped : String → MemoryLockState → Memory → Memory
  dropped c l m = delete_lock (stop_timer l.expiry_timer m) domain stream c

  abbrev loop : ℕ → Map MemoryLockState → Memory → List LockReleasedEvent × Memory
  loop = clean_loop domain stream exclude now

  -- The three ways of one round of the loop.
  data Round (deleted : ℕ) (c : String) (l : MemoryLockState) (rest : Map MemoryLockState)
      (m : Memory) : Type 0 where
    skips :
        (c ≡ exclude) ⊎ (past now l ≡ false)
        → loop deleted ((c, l) ∷ rest) m ≡ loop deleted rest m
        → Round deleted c l rest m
    stops : 128 ≤ deleted → loop deleted ((c, l) ∷ rest) m ≡ ([], m) → Round deleted c l rest m
    drops :
        c ≢ exclude
        → past now l ≡ true
        → deleted < 128
        → loop deleted ((c, l) ∷ rest) m ≡ (
          released_event domain stream c l.holder ∷ (loop (suc deleted) rest (dropped c l m)).0,
          (loop (suc deleted) rest (dropped c l m)).1,
        )
        → Round deleted c l rest m

  round :
      (deleted : ℕ) (c : String) (l : MemoryLockState) (rest : Map MemoryLockState) (m : Memory)
      → Round deleted c l rest m
  unfolding clean_loop
  round deleted c l rest m = elim (Bool-cases (c == exclude)) [
    | inl e ↦ skips (inl ((eq_iff c exclude).0 e)) (rw (e, clean_loop))
    | inr e ↦ elim (Bool-cases (leb 128 deleted)) [
      | inl f ↦ stops (ground arith) (rw (e, clean_loop, f))
      | inr f ↦ elim (Bool-cases (past now l)) [
        | inl g ↦
            drops (ground (arith, eq_iff c exclude)) g (ground arith) (rw (e, clean_loop, f, g))
        | inr g ↦ skips (inr g) (rw (e, clean_loop, f, g))
      ]
    ]
  ]

  lock_state-dropped :
      (c : String) (l : MemoryLockState) (m : Memory) (d' s' c' : String)
      → lock_state (dropped c l m) d' s' c'
        ≡ (if same_key domain stream c d' s' c' then none else lock_state m d' s' c')
  lock_state-dropped c l m d' s' c' = simp (lock_state-delete_lock, lock_state-stop_timer)

  -- A lock is as it was, or it was an expired lock of the range and is gone.
  abbrev Cleaned : Map MemoryLockState → Memory → Memory → String → String → String → Type 0
  Cleaned entries m m' d' s' c' =
      (lock_state m' d' s' c' ≡ lock_state m d' s' c')
      ⊎ ((lock_state m' d' s' c' ≡ none)
          × (d' ≡ domain)
          × (s' ≡ stream)
          × (c' ≢ exclude)
          × ((l : MemoryLockState) × (Map.get entries c' ≡ some l) × (past now l ≡ true)))

  -- An entry of the rest is an entry of the whole range.
  weaken :
      (c : String) (l : MemoryLockState) (rest : Map MemoryLockState) (m m' : Memory)
      (d' s' c' : String)
      → Map.get rest c ≡ none
      → Cleaned rest m m' d' s' c'
      → Cleaned ((c, l) ∷ rest) m m' d' s' c'
  unfolding Map.get
  weaken c l rest m m' d' s' c' fresh h = ground (arith, eq_iff c c', h)

  same_key-eq :
      (c d' s' c' : String)
      → same_key domain stream c d' s' c' ≡ true
      → (domain ≡ d') × (stream ≡ s') × (c ≡ c')
  same_key-eq c d' s' c' h = ground (arith, eq_iff domain d', eq_iff stream s', eq_iff c c')

  after_drop :
      (c : String) (l : MemoryLockState) (rest : Map MemoryLockState) (m m' : Memory)
      (d' s' c' : String)
      → Map.get rest c ≡ none
      → c ≢ exclude
      → past now l ≡ true
      → Cleaned rest (dropped c l m) m' d' s' c'
      → Cleaned ((c, l) ∷ rest) m m' d' s' c'
  unfolding Map.get
  after_drop c l rest m m' d' s' c' fresh other old (inr gone) =
      inr (ground (arith, eq_iff c c', gone))
  after_drop c l rest m m' d' s' c' fresh other old (inl same) =
      elim (Bool-cases (same_key domain stream c d' s' c')) [
        | inl e ↦
            let (p, q, r) = same_key-eq c d' s' c' e in
            inr (
              same ∙ rw (lock_state-dropped, e),
              sym p,
              sym q,
              rw (← r) other,
              (l, rw ((eq_iff c c').1 r), old),
            )
        | inr e ↦ inl (same ∙ rw (lock_state-dropped, e))
      ]

  loop-Cleaned :
      (entries : Map MemoryLockState) (deleted : ℕ) (m : Memory) (d' s' c' : String)
      → IsKeyed entries
      → Cleaned entries m (loop deleted entries m).1 d' s' c'
  unfolding clean_loop
  loop-Cleaned [] deleted m d' s' c' k = inl refl
  loop-Cleaned ((c, l) ∷ rest) deleted m d' s' c' k = elim (round deleted c l rest m) [
    | skips _ e ↦ rw e (weaken c l rest m _ d' s' c' k.0 (loop-Cleaned rest deleted m d' s' c' k.1))
    | stops _ e ↦ rw e (inl refl)
    | drops other old _ e ↦ rw e (
        after_drop c l rest m _ d' s' c' k.0 other old
          (loop-Cleaned rest (suc deleted) (dropped c l m) d' s' c' k.1))
  ]

  -- Once an entry is gone it stays gone for the rest of the loop.
  stays_gone :
      (entries : Map MemoryLockState) (deleted : ℕ) (m : Memory) (c' : String)
      → IsKeyed entries
      → lock_state m domain stream c' ≡ none
      → lock_state (loop deleted entries m).1 domain stream c' ≡ none
  stays_gone entries deleted m c' k gone =
      elim (loop-Cleaned entries deleted m domain stream c' k) [
        | inl same ↦ same ∙ gone
        | inr removed ↦ removed.0
      ]

  loop_complete :
      (entries : Map MemoryLockState) (deleted : ℕ) (m : Memory) (c' : String)
      (l' : MemoryLockState)
      → IsKeyed entries
      → deleted + length entries ≤ 128
      → Map.get entries c' ≡ some l'
      → past now l' ≡ true
      → c' ≢ exclude
      → lock_state (loop deleted entries m).1 domain stream c' ≡ none
  unfolding Map.get
  loop_complete [] deleted m c' l' k room e old other = cc
  loop_complete ((c, l) ∷ rest) deleted m c' l' k room e old other = elim (Bool-cases (c == c')) [
    | inl hit ↦ elim (round deleted c l rest m) [
      | skips (inl p) _ ↦ absurd (other (sym ((eq_iff c c').0 hit) ∙ p))
      | skips (inr p) _ ↦ absurd (ground (arith, e))
      | stops full _ ↦ absurd (omega arith)
      | drops _ _ _ f ↦ rw f (
          stays_gone rest (suc deleted) (dropped c l m) c' k.1
            (simp (lock_state-dropped, eq_refl, hit)))
    ]
    | inr miss ↦
        let e' : Map.get rest c' ≡ some l' = rw miss at e in
        elim (round deleted c l rest m) [
          | skips _ f ↦ rw f (loop_complete rest deleted m c' l' k.1 (omega arith) e' old other)
          | stops full _ ↦ absurd (omega arith)
          | drops _ _ _ f ↦ rw f (
              loop_complete rest (suc deleted) (dropped c l m) c' l' k.1 (omega arith) e' old other)
        ]
  ]

  positions-dropped :
      (c : String) (l : MemoryLockState) (m : Memory) → (dropped c l m).positions ≡ m.positions
  unfolding delete_lock stop_timer
  positions-dropped c l m = ground arith

  loop-positions :
      (entries : Map MemoryLockState) (deleted : ℕ) (m : Memory)
      → (loop deleted entries m).1.positions ≡ m.positions
  unfolding clean_loop
  loop-positions [] deleted m = refl
  loop-positions ((c, l) ∷ rest) deleted m = elim (round deleted c l rest m) [
    | skips _ f ↦ rw f (loop-positions rest deleted m)
    | stops _ f ↦ rw f
    | drops _ _ _ f ↦
        rw f (loop-positions rest (suc deleted) (dropped c l m) ∙ positions-dropped c l m)
  ]

  -- What a reported event says of the lock that it names.
  abbrev pub Reports : Map MemoryLockState → LockReleasedEvent → Type 0
  Reports entries e =
      (e.domain ≡ domain)
      × (e.stream ≡ stream)
      × (e.consumer ≢ exclude)
      × ((l : MemoryLockState) × (Map.get entries e.consumer ≡ some l)
          × (past now l ≡ true)
          × (e.holder ≡ l.holder))

  Reports-weaken :
      (c : String) (l : MemoryLockState) (rest : Map MemoryLockState) (es : List LockReleasedEvent)
      → Map.get rest c ≡ none
      → All (Reports rest) es
      → All (Reports ((c, l) ∷ rest)) es
  unfolding Map.get
  Reports-weaken c l rest [] fresh h = tt
  Reports-weaken c l rest (e ∷ es) fresh h =
      (ground (arith, eq_iff c e.consumer, h.0), Reports-weaken c l rest es fresh h.1)

  loop-Reports :
      (entries : Map MemoryLockState) (deleted : ℕ) (m : Memory)
      → IsKeyed entries
      → All (Reports entries) (loop deleted entries m).0
  unfolding clean_loop
  loop-Reports [] deleted m k = tt
  loop-Reports ((c, l) ∷ rest) deleted m k = elim (round deleted c l rest m) [
    | skips _ f ↦ rw f (Reports-weaken c l rest _ k.0 (loop-Reports rest deleted m k.1))
    | stops _ f ↦ rw f tt
    | drops other old _ f ↦ rw f (
      (refl, refl, other, (l, unfold Map.get in rw (eq_refl c), old, refl)),
      Reports-weaken c l rest _ k.0 (loop-Reports rest (suc deleted) (dropped c l m) k.1),
    )
  ]

  loop-bounded :
      (entries : Map MemoryLockState) (deleted : ℕ) (m : Memory)
      → deleted ≤ 128
      → length (loop deleted entries m).0 + deleted ≤ 128
  unfolding clean_loop
  loop-bounded [] deleted m h = omega arith
  loop-bounded ((c, l) ∷ rest) deleted m h = elim (round deleted c l rest m) [
    | skips _ f ↦ rw f (loop-bounded rest deleted m h)
    | stops _ f ↦ rw f (omega arith)
    | drops _ _ room f ↦ rw f (omega (arith, loop-bounded rest (suc deleted) (dropped c l m) room))
  ]

-- The locks of one stream.
abbrev pub stream_locks : Memory → String → String → Map MemoryLockState
stream_locks m d s = or_empty (Map.get (or_empty (Map.get m.locks d)) s)

module _ (d s exclude : String) (now : ℕ) (m : Memory) (keyed : IsKeyed (stream_locks m d s)) where
  -- cleanExpiredLocks leaves each lock of the transport as it was, unless that is an expired lock of
  -- the stream and not the excluded consumer's: such a lock may be removed. It removes at most 128,
  -- and each event that it returns names such a lock with its holder.
  pub clean_expired_locks_sound :
      ((d' s' c' : String)
        → Cleaned d s exclude now
            (stream_locks m d s)
            m
            (clean_expired_locks d s exclude now m).1
            d'
            s'
            c')
      × All (Reports d s exclude now (stream_locks m d s)) (clean_expired_locks d s exclude now m).0
      × (length (clean_expired_locks d s exclude now m).0 ≤ 128)
  unfolding clean_expired_locks
  clean_expired_locks_sound = (
    λ d' s' c'. loop-Cleaned d s exclude now (stream_locks m d s) 0 m d' s' c' keyed,
    loop-Reports d s exclude now (stream_locks m d s) 0 m keyed,
    omega (arith, loop-bounded d s exclude now (stream_locks m d s) 0 m (omega arith)),
  )

  -- In a stream with at most 128 locks, cleanExpiredLocks removes every expired lock but the
  -- excluded consumer's.
  pub clean_expired_locks_complete :
      (c : String) (l : MemoryLockState)
      → length (stream_locks m d s) ≤ 128
      → Map.get (stream_locks m d s) c ≡ some l
      → l.held_until < now
      → c ≢ exclude
      → lock_state (clean_expired_locks d s exclude now m).1 d s c ≡ none
  unfolding clean_expired_locks
  clean_expired_locks_complete c l few e old other =
      loop_complete d s exclude now (stream_locks m d s) 0 m c l keyed (omega arith) e
        (ground arith) other

pub positions-clean_expired_locks :
    (d s exclude : String) (now : ℕ) (m : Memory)
    → (clean_expired_locks d s exclude now m).1.positions ≡ m.positions
unfolding clean_expired_locks
positions-clean_expired_locks d s exclude now m =
    loop-positions d s exclude now (stream_locks m d s) 0 m
