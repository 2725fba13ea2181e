-- ===== src/Indexer/Pump/Beats.antt =====
-- The positions that the pump's watch loop sends.
use mathlib.Core.List.{Memᴰ}
use mathlib.Core.List.Memᴰ
use pgcqrs.Base.{ℤ, leb_ℤ, ◌≤ℤ◌, ◌≡◌, refl, none, List, [], ◌∷◌, All, arith, Bool-cases, inl, inr}
use pgcqrs.Indexer.Pump.{
  Beat, beat_ok, beat_conflict, beat_failed, Tick, event, deadline_exceeded, tick_failed, Watched,
  apply_heartbeat, run_watch_loop,
}

-- A list of positions that starts at `p` or behind it and does not go back.
abbrev pub Rising : ℤ → List ℤ → Type 0
Rising p [] = Unit
Rising p (b ∷ bs) = (p ≤ℤ b) × Rising b bs

-- A conflict is reported with a version that is not behind the position that was sent, as the storage
-- service and the in-memory transport report it.
abbrev pub Honest : (ℤ → Beat) → Type 0
Honest heartbeat = (sent version : ℤ) → heartbeat sent ≡ beat_conflict version → sent ≤ℤ version

abbrev pub HonestTick : Tick → Type 0
HonestTick (event id heartbeat) = Honest heartbeat
HonestTick (deadline_exceeded heartbeat) = Honest heartbeat
HonestTick (tick_failed failure) = Unit

Rising-weaken : (p q : ℤ) (bs : List ℤ) → p ≤ℤ q → Rising q bs → Rising p bs
Rising-weaken p q [] h r = tt
Rising-weaken p q (b ∷ bs) h r = (ground (arith, h, r.0), r.1)

beat-Rising :
    (b : Beat) (p : ℤ) (rest : ℤ → Watched)
    → ((version : ℤ) → b ≡ beat_conflict version → p ≤ℤ version)
    → ((q : ℤ) → Rising q (rest q).beats)
    → Rising p (apply_heartbeat b p rest).beats
unfolding apply_heartbeat
beat-Rising beat_ok p rest honest h = (ground arith, h p)
beat-Rising (beat_conflict v) p rest honest h =
    (ground arith, Rising-weaken p v _ (honest v refl) (h v))
beat-Rising (beat_failed f) p rest honest h = (ground arith, tt)

-- Where a conflict never reports a version behind the position that was sent, the positions that the watch
-- loop sends start at the position of the lock or behind it and do not go back.
watch_loop-Rising :
    (ticks : List Tick) (p : ℤ) → All HonestTick ticks → Rising p (run_watch_loop ticks p).beats
unfolding run_watch_loop
watch_loop-Rising [] p h = tt
watch_loop-Rising (deadline_exceeded heartbeat ∷ ticks) p h =
    beat-Rising (heartbeat p) p (run_watch_loop ticks) (h.0 p) (λ q. watch_loop-Rising ticks q h.1)
watch_loop-Rising (tick_failed failure ∷ ticks) p h = tt
watch_loop-Rising (event id heartbeat ∷ ticks) p h = elim (Bool-cases (leb_ℤ id p)) [
  | inl e ↦ rw (run_watch_loop, e) (watch_loop-Rising ticks p h.1)
  | inr e ↦
      rw (run_watch_loop, e)
        (Rising-weaken p id _ (ground (arith, e)) (
          beat-Rising (heartbeat id) id (run_watch_loop ticks) (h.0 id)
            (λ q. watch_loop-Rising ticks q h.1)))
]

-- A heartbeat that the loop goes on behind.
goes_on :
    (b : Beat) (p : ℤ) (rest : ℤ → Watched)
    → ((version : ℤ) → b ≡ beat_conflict version → p ≤ℤ version)
    → (apply_heartbeat b p rest).failure ≡ none
    → (q : ℤ) × (p ≤ℤ q)
      × ((apply_heartbeat b p rest).position ≡ (rest q).position)
      × ((rest q).failure ≡ none)
unfolding apply_heartbeat
goes_on beat_ok p rest honest e = (p, ground arith, refl, e)
goes_on (beat_conflict v) p rest honest e = (v, honest v refl, refl, e)
goes_on (beat_failed f) p rest honest e = absurd (ground (arith, e))

forward :
    (ticks : List Tick) (p : ℤ)
    → All HonestTick ticks
    → (run_watch_loop ticks p).failure ≡ none
    → p ≤ℤ (run_watch_loop ticks p).position
unfolding run_watch_loop
forward [] p h e = ground arith
forward (deadline_exceeded heartbeat ∷ ticks) p h e =
    let (q, l, same, f) = goes_on (heartbeat p) p (run_watch_loop ticks) (h.0 p) e in
    ground (arith, l, same, forward ticks q h.1 f)
forward (tick_failed failure ∷ ticks) p h e = absurd (ground (arith, e))
forward (event id heartbeat ∷ ticks) p h e = elim (Bool-cases (leb_ℤ id p)) [
  | inl t ↦ rw (run_watch_loop, t) (forward ticks p h.1 (rw (run_watch_loop, t) at e))
  | inr t ↦
      let (q, l, same, f) =
        goes_on (heartbeat id) id (run_watch_loop ticks) (h.0 id) (rw (run_watch_loop, t) at e) in
      rw (run_watch_loop, t) (ground (arith, t, l, same, forward ticks q h.1 f))
]

-- Where the loop has met no error, and no conflict reports a version behind the position that was sent,
-- the loop's position is not behind any event that the watch has delivered.
pub watch_loop_covers :
    (ticks : List Tick) (p : ℤ)
    → All HonestTick ticks
    → (run_watch_loop ticks p).failure ≡ none
    → (id : ℤ) (heartbeat : ℤ → Beat) → Memᴰ (event id heartbeat) ticks
    → id ≤ℤ (run_watch_loop ticks p).position
unfolding run_watch_loop
watch_loop_covers [] p h e id beat m = absurd (Memᴰ.not-nil m)
watch_loop_covers (deadline_exceeded heartbeat ∷ ticks) p h e id beat m =
    let (q, l, same, f) = goes_on (heartbeat p) p (run_watch_loop ticks) (h.0 p) e in
    elim (Memᴰ.cases_cons m) [
      | inl x ↦ absurd cc
      | inr n ↦ rw same (watch_loop_covers ticks q h.1 f id beat n)
    ]
watch_loop_covers (tick_failed failure ∷ ticks) p h e id beat m = absurd (ground (arith, e))
watch_loop_covers (event i heartbeat ∷ ticks) p h e id beat m = elim (Bool-cases (leb_ℤ i p)) [
  | inl t ↦
      let f = (rw (run_watch_loop, t) at e) in
      rw (run_watch_loop, t)
        (elim (Memᴰ.cases_cons m) [
          | inl x ↦ ground (arith, t, id_of x, forward ticks p h.1 f)
          | inr n ↦ watch_loop_covers ticks p h.1 f id beat n
        ])
  | inr t ↦
      let (q, l, same, f) =
        goes_on (heartbeat i) i (run_watch_loop ticks) (h.0 i) (rw (run_watch_loop, t) at e) in
      rw (run_watch_loop, t, same)
        (elim (Memᴰ.cases_cons m) [
          | inl x ↦ ground (arith, id_of x, l, forward ticks q h.1 f)
          | inr n ↦ watch_loop_covers ticks q h.1 f id beat n
        ])
]
  where
    id_of : event id beat ≡ event i heartbeat → id ≡ i
    id_of x = cc
