-- ===== src/Views/Reader/Waits.antt =====
-- WaitForVersion among the Emits beside it (pkg/indexer/views/notifier.go).
use mathlib.Core.Path.{subst}
use pgcqrs.Base.{
  ℕ, zero, suc, ℤ, leb_ℤ, ◌≤ℤ◌, ◌<◌, ◌≡◌, true, false, List, [], ◌∷◌, arith, Bool-cases, inl, inr,
  ◌+◌,
}
use pgcqrs.Views.Reader.{
  Phase, checking, selecting, ending, returned, Wait, Step, raise, call_back, call_back_earlier,
  check, receive, end, raised, offer, check_in, receive_in, end_in, wait_step, run_wait, subscribed,
}

-- What a wait in a phase promises about lastVersion and about the wake-ups that are still to come.
abbrev pub Awake : ℤ → (last_version : ℤ) → (wake_ups : ℕ) → Phase → Type 0
Awake target last_version wake_ups selecting = target ≤ℤ last_version → 0 < wake_ups
Awake target last_version wake_ups (returned true) = target ≤ℤ last_version
Awake target last_version wake_ups (returned false) = Unit {0}
Awake target last_version wake_ups checking = Unit {0}
Awake target last_version wake_ups ending = Unit {0}

abbrev pub IsAwake : ℤ → Wait → Type 0
IsAwake target w = Awake target w.last_version (w.emitting + w.buffered) w.phase

raised_le : (version last_version : ℤ) → last_version ≤ℤ raised version last_version
unfolding raised
raised_le version last_version = ground arith

offer_pos : (buffered : ℕ) → 0 < offer buffered
unfolding offer
offer_pos buffered = ground arith

Awake-weaken :
    (target old new : ℤ) (wake_ups more : ℕ) (phase : Phase)
    → old ≤ℤ new
    → 0 < more
    → Awake target old wake_ups phase
    → Awake target new more phase
Awake-weaken target old new wake_ups more selecting l pos a = λ _. pos
Awake-weaken target old new wake_ups more (returned true) l pos a = ground (arith, l, a)
Awake-weaken target old new wake_ups more (returned false) l pos a = tt
Awake-weaken target old new wake_ups more checking l pos a = tt
Awake-weaken target old new wake_ups more ending l pos a = tt

check-Awake :
    (target last_version : ℤ) (wake_ups : ℕ) (phase : Phase)
    → Awake target last_version wake_ups phase
    → Awake target last_version wake_ups (check_in target (leb_ℤ target last_version) phase)
unfolding check_in
check-Awake target last_version wake_ups selecting a = a
check-Awake target last_version wake_ups (returned answer) a = a
check-Awake target last_version wake_ups checking a =
    elim (Bool-cases (leb_ℤ target last_version)) [
      | inl t ↦ rw t (ground (arith, t))
      | inr f ↦ rw f (λ l. absurd (ground (arith, f, l)))
    ]
check-Awake target last_version wake_ups ending a = elim (Bool-cases (leb_ℤ target last_version)) [
  | inl t ↦ rw t (ground (arith, t))
  | inr f ↦ rw f tt
]

end-Awake :
    (target last_version : ℤ) (wake_ups : ℕ) (phase : Phase)
    → Awake target last_version wake_ups phase
    → Awake target last_version wake_ups (end_in phase)
unfolding end_in
end-Awake target last_version wake_ups selecting a = tt
end-Awake target last_version wake_ups (returned answer) a = a
end-Awake target last_version wake_ups checking a = tt
end-Awake target last_version wake_ups ending a = tt

receive-Awake :
    (target last_version : ℤ) (emitting buffered : ℕ) (phase : Phase)
    → Awake target last_version (emitting + buffered) phase
    → IsAwake target (
        receive_in phase (record {
          last_version = last_version;
          emitting = emitting;
          buffered = buffered;
          phase = phase;
        }))
unfolding receive_in
receive-Awake target last_version emitting zero selecting a = a
receive-Awake target last_version emitting (suc n) selecting a = tt
receive-Awake target last_version emitting buffered (returned answer) a = a
receive-Awake target last_version emitting buffered checking a = tt
receive-Awake target last_version emitting buffered ending a = tt

call_back-Awake :
    (target last_version : ℤ) (emitting buffered : ℕ) (phase : Phase)
    → Awake target last_version (emitting + buffered) phase
    → IsAwake target (
        wait_step target call_back (record {
          last_version = last_version;
          emitting = emitting;
          buffered = buffered;
          phase = phase;
        }))
unfolding wait_step
call_back-Awake target last_version zero buffered phase a = a
call_back-Awake target last_version (suc n) buffered phase a =
    Awake-weaken target last_version last_version (suc n + buffered) (n + offer buffered) phase
      (ground arith) (omega (arith, offer_pos buffered)) a

wait_step-Awake :
    (target : ℤ) (s : Step) (w : Wait) → IsAwake target w → IsAwake target (wait_step target s w)
unfolding wait_step
wait_step-Awake target (raise version) w a =
    Awake-weaken target w.last_version (raised version w.last_version) (w.emitting + w.buffered)
      (suc w.emitting + w.buffered) w.phase (raised_le version w.last_version) (omega arith) a
wait_step-Awake target call_back w a =
    call_back-Awake target w.last_version w.emitting w.buffered w.phase a
wait_step-Awake target call_back_earlier w a =
    Awake-weaken target w.last_version w.last_version (w.emitting + w.buffered)
      (w.emitting + offer w.buffered) w.phase (ground arith) (omega (arith, offer_pos w.buffered)) a
wait_step-Awake target check w a =
    check-Awake target w.last_version (w.emitting + w.buffered) w.phase a
wait_step-Awake target receive w a =
    receive-Awake target w.last_version w.emitting w.buffered w.phase a
wait_step-Awake target end w a = end-Awake target w.last_version (w.emitting + w.buffered) w.phase a

run_wait-Awake :
    (target : ℤ) (steps : List Step) (w : Wait)
    → IsAwake target w
    → IsAwake target (run_wait target steps w)
unfolding run_wait
run_wait-Awake target [] w a = a
run_wait-Awake target (s ∷ steps) w a =
    run_wait-Awake target steps (wait_step target s w) (wait_step-Awake target s w a)

wakes_buffered :
    (target last_version : ℤ) (emitting buffered : ℕ)
    → 0 < buffered
    → target ≤ℤ last_version
    → (run_wait target (receive ∷ check ∷ []) (record {
      last_version = last_version;
      emitting = emitting;
      buffered = buffered;
      phase = selecting;
    })).phase
      ≡ returned true
unfolding run_wait wait_step receive_in check_in
wakes_buffered target last_version emitting zero pos l = absurd (omega (arith, pos))
wakes_buffered target last_version emitting (suc n) pos l = ground (arith, l)

wakes_from :
    (target last_version : ℤ) (emitting buffered : ℕ) (phase : Phase)
    → phase ≡ selecting
    → 0 < emitting + buffered
    → target ≤ℤ last_version
    → (run_wait target (call_back ∷ receive ∷ check ∷ []) (record {
      last_version = last_version;
      emitting = emitting;
      buffered = buffered;
      phase = phase;
    })).phase
      ≡ returned true
unfolding run_wait wait_step
wakes_from target last_version zero buffered phase e pos l =
    rw e (wakes_buffered target last_version zero buffered (omega (arith, pos)) l)
wakes_from target last_version (suc m) buffered phase e pos l =
    rw e (wakes_buffered target last_version m (offer buffered) (offer_pos buffered) l)

pending :
    (target last_version : ℤ) (wake_ups : ℕ) (phase : Phase)
    → phase ≡ selecting
    → Awake target last_version wake_ups phase
    → target ≤ℤ last_version
    → 0 < wake_ups
pending target last_version wake_ups phase e a l =
    (subst (Awake target last_version wake_ups) e a) l

-- However the steps of a wait and of the Emits beside it are ordered: where the wait is in its select while
-- lastVersion is not below its target, the callback of an Emit that is under way, if there is one, a receive
-- and the check behind it make the wait return true. So no wake-up is lost, though a full channel drops
-- changes.
pub wait_for_version_wakes :
    (target last_version : ℤ) (steps : List Step)
    → (run_wait target steps (subscribed last_version)).phase ≡ selecting
    → target ≤ℤ (run_wait target steps (subscribed last_version)).last_version
    → (run_wait target
        (call_back ∷ receive ∷ check ∷ [])
        (run_wait target steps (subscribed last_version))).phase
      ≡ returned true
wait_for_version_wakes target last_version steps e l =
    let w = run_wait target steps (subscribed last_version) in
    wakes_from target w.last_version w.emitting w.buffered w.phase e
      (pending target w.last_version (w.emitting + w.buffered) w.phase e
        (run_wait-Awake target steps (subscribed last_version) tt) l)
      l

-- However the steps of a wait and of the Emits beside it are ordered: where the wait has returned true, the
-- lastVersion is not below its target.
pub wait_for_version_reached :
    (target last_version : ℤ) (steps : List Step)
    → (run_wait target steps (subscribed last_version)).phase ≡ returned true
    → target ≤ℤ (run_wait target steps (subscribed last_version)).last_version
wait_for_version_reached target last_version steps e =
    let w = run_wait target steps (subscribed last_version) in
    subst (Awake target w.last_version (w.emitting + w.buffered)) e
      (run_wait-Awake target steps (subscribed last_version) tt)
