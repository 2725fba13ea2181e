-- ===== src/Views/Reader/Examples.antt =====
-- The theorems on the notifier and the reader applied to concrete runs.
use pgcqrs.Base.{ℕ, pos, ◌≡◌, refl, arith, true, List, [], ◌∷◌}
use pgcqrs.Base.Map
use pgcqrs.Wire.{context_done}
use pgcqrs.Views.{Key, Entity, MemoryStore, validate_key, get, entity_key}
use pgcqrs.Views.Reader.{
  Step, raise, call_back, check, receive, returned, raised, check_in, wait_step, run_wait,
  subscribed, GetOption, after_version, until_version, apply_get, apply_all, WaitEnd,
  version_reached, refetch, after_wait, wait_until_version, read_entity,
}
use pgcqrs.Views.Reader.Waits.{wait_for_version_wakes}
use pgcqrs.Views.Reader.Gets.{Fresh, read_entity-Fresh}

-- The wait checks, and an Emit then raises lastVersion to its target.
abbrev raised_behind : List Step
raised_behind = check ∷ raise (pos 5) ∷ []

wait_for_version_wakes_example :
    (run_wait
      (pos 5)
      (call_back ∷ receive ∷ check ∷ [])
      (run_wait (pos 5) raised_behind (subscribed (pos 3)))).phase
    ≡ returned true
unfolding run_wait wait_step check_in raised
wait_for_version_wakes_example =
    wait_for_version_wakes (pos 5) (pos 3) raised_behind refl (omega arith)

abbrev key : Key
key = record { parts = "a" ∷ [] }

abbrev entity : Entity
entity = record { kind = "k"; key = key; value = "1"; version = pos 6 }

abbrev before : MemoryStore
before = record { entities = []; version = pos 3 }

abbrev later : MemoryStore
later = record { entities = Map.put [] "k:a" entity; version = pos 6 }

abbrev wait : ℕ → WaitEnd × MemoryStore
wait timeout = (version_reached, later)

abbrev options : List GetOption
options = after_version (pos 9) ∷ until_version (pos 5) 100 ∷ []

read_entity-Fresh_example : Fresh "k" key (pos 5) before (wait 100) entity
unfolding read_entity apply_all apply_get get validate_key entity_key wait_until_version after_wait
    refetch Map.get Map.put
read_entity-Fresh_example =
    read_entity-Fresh context_done wait "k" key options before (pos 5) entity refl refl
