-- ===== src/Memory/Fixture.antt =====
-- A runtime and a state of the in-memory transport for examples.
use Prim.Native.Nat.{◌*◌, ◌^◌}
use pgcqrs.Base.{
  ℕ, ◌<◌, String, ℤ, pos, ◌≤ℤ◌, true, false, ◌≡◌, ◌≢◌, ◌⊎◌, inr, refl, some, [], ◌∷◌, arith, ◌==◌,
  eq_iff, if◌then◌else◌,
}
use pgcqrs.Base.Map
use pgcqrs.Base.Map.{IsKeyed}
use pgcqrs.Wire.{full_match, other_difference, Runtime}
use pgcqrs.Memory.State.{Memory, MemoryLockState, MemoryPacket, MemoryStream}
use pgcqrs.Memory.Locks.{lock_state, expiry_op}
use pgcqrs.Memory.Locks.Clean.{stream_locks}
use pgcqrs.Memory.Positions.{stored_position}
use pgcqrs.Memory.Streams.{find_stream}

abbrev pub runtime : Runtime
runtime = record {
  format_when = λ when. "2026";
  parse_when = λ text. some 0;
  unmarshal_raw = some;
  compare_json = λ superset subset. if superset == subset then full_match else other_difference;
  string_query = λ body. some (λ path. some body);
  guarantee = λ ttl. ttl;
  emit = λ answers. true;
  emit_release = λ event. true;
}

abbrev pub lock_a : MemoryLockState
lock_a = record {
  holder = "a";
  acquired_at = 0;
  heartbeat_at = 0;
  ttl = 10 * 10 ^ 9;
  guarantee_until = 10 * 10 ^ 9;
  held_until = 10 * 10 ^ 9;
  expiry_timer = some 0;
  generation = 0;
}

abbrev pub packet : MemoryPacket
packet = record { when = 0; kind = "k"; body = "x" }

abbrev pub stream : MemoryStream
stream = record { name = "s"; packets = packet ∷ []; on_add_packet = [] }

-- One stream with one event, where "a" holds the lock of the consumer "c", whose position is 3.
abbrev pub held : Memory
held = record {
  domains = ("d", record { name = "d"; streams = ("s", stream) ∷ [] }) ∷ [];
  positions = ("d/s/c", ("c", pos 3) ∷ []) ∷ [];
  locks = ("d", ("s", ("c", lock_a) ∷ []) ∷ []) ∷ [];
  timers =
      record { id = 0; fires_at = 10 * 10 ^ 9; op = expiry_op runtime 0 "d" "s" "c" "a" 0 } ∷ [];
  next_timer = 1;
  input = [];
  released = [];
}

pub held-lock_state : lock_state held "d" "s" "c" ≡ some lock_a
unfolding lock_state Map.get
held-lock_state = refl

pub held-stored_position : stored_position held "d" "s" "c" ≡ some (pos 3)
unfolding stored_position Map.get
held-stored_position = refl

pub held-find_stream : find_stream held "d" "s" ≡ some stream
unfolding find_stream Map.get
held-find_stream = refl

pub held-stream_locks : Map.get (stream_locks held "d" "s") "c" ≡ some lock_a
unfolding Map.get
held-stream_locks = refl

pub held-IsKeyed : IsKeyed (stream_locks held "d" "s")
unfolding Map.get
held-IsKeyed = (refl, tt)

pub held-free :
    (l : MemoryLockState)
    → lock_state held "d" "s" "c" ≡ some l
    → (l.held_until < 5) ⊎ (l.holder ≡ "a")
held-free l e = inr (ground (arith, e, held-lock_state))

pub held-ahead : (p : ℤ) → stored_position held "d" "s" "c" ≡ some p → p ≤ℤ pos 4
held-ahead p e = ground (arith, e, held-stored_position)

pub differ : (x y : String) → (x == y) ≡ false → x ≢ y
differ x y e f = absurd (ground (arith, e, (eq_iff x y).1 f))

-- The state after the lock's time, where its release is reported.
abbrev pub late : ℕ
late = 11 * 10 ^ 9

pub held-idle : stream_locks held "d" "s2" ≡ []
unfolding Map.get
held-idle = refl
