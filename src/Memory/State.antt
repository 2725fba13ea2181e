-- ===== src/Memory/State.antt =====
-- The state of the in-memory transport (the types at the top of pkg/v1/memory.go). All of it is
-- touched only by the service goroutine, which performs one command at a time, so a command is a
-- function of the state. Timers of the time package are a list of pending timers.
use pgcqrs.Base.{ℕ, String, ℤ, Bool, Option, List, ◌≡◌, refl}
use pgcqrs.Base.Map.{Map}
use pgcqrs.Wire.{LockReleasedEvent, Result, err, context_done}

-- The state of one lock. `expiry_timer` names a pending timer.
pub record MemoryLockState : Type 0 where
  pub holder : String
  pub acquired_at : ℕ
  pub heartbeat_at : ℕ
  pub ttl : ℕ
  pub guarantee_until : ℕ
  pub held_until : ℕ
  pub expiry_timer : Option ℕ
  pub generation : ℕ

pub record MemoryPacket : Type 0 where
  pub when : ℕ
  pub kind : String
  pub body : String

-- The channel `pendingEvents` of one watch, made with room for 128 IDs.
pub record Channel : Type 0 where
  pub buffer : List ℤ
  pub closed : Bool

pub record MemoryStream : Type 0 where
  pub name : String
  pub packets : List MemoryPacket
  pub on_add_packet : List Channel

pub record MemoryDomain : Type 0 where
  pub name : String
  pub streams : Map MemoryStream

pub record LockExpiryOp : Type 0 where
  pub domain : String
  pub stream : String
  pub consumer : String
  pub generation : ℕ

-- A timer that time.AfterFunc started and that has neither fired nor been stopped: at `fires_at`
-- it sends its command to the service goroutine.
pub record Timer : Type 0 where
  pub id : ℕ
  pub fires_at : ℕ
  pub op : LockExpiryOp

pub record Memory : Type 0 where
  pub domains : Map MemoryDomain
  pub positions : Map (Map ℤ)
  pub locks : Map (Map (Map MemoryLockState))
  pub timers : List Timer
  pub next_timer : ℕ
  -- commands of fired timers that wait in the channel `input`
  pub input : List LockExpiryOp
  -- the events that `onLockRelease` has been given to emit, in order
  pub released : List LockReleasedEvent

-- How a call's context ends the wait for its command.
pub data Context : Type 0 where
  waits cancelled : Context

-- simulateNetwork: the command is performed in any case. A caller whose context ends first is told
-- so, and does not see the command's result.
abbrev pub simulate_network {ℓ κ} :
    {A : Type ℓ} {S : Type κ} → Context → Result A × S → Result A × S
simulate_network waits r = r
simulate_network cancelled (r, m) = (err context_done, m)

-- A call changes the state whether or not its caller waits.
pub state-simulate_network {ℓ κ} :
    {A : Type ℓ} {S : Type κ} (ctx : Context) (r : Result A × S) → (simulate_network ctx r).1 ≡ r.1
state-simulate_network waits r = refl
state-simulate_network cancelled r = refl
