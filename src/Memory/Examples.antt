-- ===== src/Memory/Examples.antt =====
-- The theorems on the in-memory transport applied to concrete states.
use Prim.Native.Nat.{◌*◌, ◌^◌}
use pgcqrs.Base.{ℤ, ◌≤ℤ◌, [], ◌∷◌, ◌++◌, some, pos, true, ◌≡◌, refl, none, arith}
use pgcqrs.Base.Map
use pgcqrs.Wire.{Lock, ok}
use pgcqrs.Memory.State.{Memory, MemoryLockState, LockExpiryOp}
use pgcqrs.Memory.Locks.{
  lock_state, pending, expiry_op, perform_expiry, try_acquire_internal, heartbeat_lock_and_position,
}
use pgcqrs.Memory.Locks.Acquire.{try_acquire_internal_granted}
use pgcqrs.Memory.Locks.Renew.{heartbeat_renews}
use pgcqrs.Memory.Locks.Expiry.{renewed_lock_lost, once, reacquired_lock_lost}
use pgcqrs.Memory.Positions.{stored_position}
use pgcqrs.Memory.Fixture.{runtime, lock_a, held, held-lock_state, held-idle, held-free, held-ahead}

try_acquire_internal_granted_example :
    (try_acquire_internal runtime 5 "d" "s" "c" "a" 8 held).0.0 ≡ record {
      acquired = true;
      held_by = "a";
      guarantee_until = 13;
      held_until = 13;
      position = pos 3;
    }
unfolding stored_position Map.get
try_acquire_internal_granted_example =
    (try_acquire_internal_granted runtime 5 "d" "s" "c" "a" 8 held held-free).0

heartbeat_renews_example :
    (heartbeat_lock_and_position runtime 5 "d" "s" "c" "a" true (pos 4) held).0 ≡ ok tt
heartbeat_renews_example =
    (heartbeat_renews runtime 5 "d" "s" "c" "a" true (pos 4) held lock_a held-lock_state
      (omega arith) refl held-ahead).0

reacquired_lock_lost_example :
    lock_state
      (perform_expiry runtime
        (expiry_op runtime 5 "d" "s2" "c" "a" 0)
        (once runtime "d" "s2" "c" "a" 9 10 (once runtime "d" "s2" "c" "a" 5 10 held)))
      "d"
      "s2"
      "c"
    ≡ none
reacquired_lock_lost_example =
    (reacquired_lock_lost runtime "d" "s2" "c" "a" 5 9 10 held held-idle (omega arith) (omega arith)
      refl).2

abbrev lock_c : Lock
lock_c = record { consumer = "c"; holder = "a" }

-- The lock of "a" as its first heartbeat leaves it.
abbrev lock_renewed : MemoryLockState
lock_renewed = record lock_a { generation = 1 }

abbrev renewed_once : Memory
renewed_once = record held {
  locks = ("d", ("s", ("c", lock_renewed) ∷ []) ∷ []) ∷ [];
  timers =
      record { id = 0; fires_at = 10 * 10 ^ 9; op = expiry_op runtime 0 "d" "s" "c" "a" 1 } ∷ [];
}

renewed_once-lock_state : lock_state renewed_once "d" "s" "c" ≡ some lock_renewed
unfolding lock_state Map.get
renewed_once-lock_state = refl

renewed_once-pending : pending 0 renewed_once.timers ≡ true
unfolding pending
renewed_once-pending = refl

renewed_once-ahead : (p : ℤ) → stored_position renewed_once "d" "s" "c" ≡ some p → p ≤ℤ pos 4
unfolding stored_position
renewed_once-ahead p e = held-ahead p e

renewed_lock_lost_example :
    (op : LockExpiryOp) × ((heartbeat_lock_and_position runtime 5 "d" "s" "c" "a" true
        (pos 4)
        renewed_once).1.input
      ≡ [] ++ op ∷ [])
    × (lock_state
          (perform_expiry runtime op
            (heartbeat_lock_and_position runtime 5 "d" "s" "c" "a" true (pos 4) renewed_once).1)
          "d"
          "s"
          "c"
        ≡ none)
renewed_lock_lost_example =
    (renewed_lock_lost runtime "d" "s" "c" "a" 5 (pos 4) renewed_once lock_renewed 0
      renewed_once-lock_state (omega arith) refl renewed_once-ahead refl renewed_once-pending
      (λ e. omega (arith, e)) refl).2
