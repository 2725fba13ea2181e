-- ===== src/Memory/Positions.antt =====
-- Consumer positions of the in-memory transport: SetPosition, GetPosition, ListConsumers,
-- DeletePosition and checkPositionConflict of pkg/v1/memory.go. The proofs are in the modules below.
pub mod Store
pub mod Keys
pub mod Listing
use Prim.Native.String.{◌++◌ as str_append, len, slice}
use text.Mathlib.Text.{starts_with}
use pgcqrs.Base.{
  String, ◌==◌, ℤ, pos, ltb_ℤ, Bool, true, false, ◌&&◌, Option, none, some, List, [], ◌∷◌, ltb,
  if◌then◌else◌,
}
use pgcqrs.Base.Map
use pgcqrs.Base.Map.{Map, or_empty}
use pgcqrs.Wire.{
  SetPositionResult, Error, Result, ok, err, position_backwards, heartbeat_conflict, ◌>>=◌,
}
use pgcqrs.Memory.State.{Memory, Context, simulate_network}

abbrev pub position_key : String → String → String → String
position_key domain stream consumer =
    str_append domain (str_append "/" (str_append stream (str_append "/" consumer)))

-- `m.positions[key][consumer]`, as a read that tells whether both keys are there
unfoldable pub stored_position : Memory → String → String → String → Option ℤ
stored_position m domain stream consumer =
    Map.get_in m.positions (position_key domain stream consumer) consumer

-- `m.positions[key][consumer] = id`, making the inner map where it is missing
unfoldable pub record_position : Memory → String → String → String → ℤ → Memory
record_position m domain stream consumer id = record m {
  positions = Map.put_in m.positions (position_key domain stream consumer) consumer id;
}

abbrev goes_back : Option ℤ → ℤ → Bool
goes_back none id = false
goes_back (some current) id = ltb_ℤ id current

set_position_command : String → String → String → ℤ → Memory → Result SetPositionResult × Memory
set_position_command domain stream consumer event_id m =
    let current = stored_position m domain stream consumer in
    if goes_back current event_id then (err position_backwards, m) else (
      ok (record { previous_event_id = current; current_event_id = event_id }),
      record_position m domain stream consumer event_id,
    )

pub set_position :
    Context → String → String → String → ℤ → Memory → Result SetPositionResult × Memory
set_position ctx domain stream consumer event_id m =
    simulate_network ctx (set_position_command domain stream consumer event_id m)

-- The result is `none` where Go returns `found` as false.
pub get_position : Context → String → String → String → Memory → Result (Option ℤ) × Memory
get_position ctx domain stream consumer m =
    simulate_network ctx (ok (stored_position m domain stream consumer), m)

-- The consumer of a key with this prefix: `key[:len(prefix)] == prefix` and longer than it.
consumer_of : String → String → Option String
consumer_of prefix key =
    if ltb (len prefix) (len key) && starts_with key prefix
    then some (slice key (len prefix) (len key))
    else none

consumers_of : String → Map (Map ℤ) → List String
consumers_of prefix [] = []
consumers_of prefix ((key, _) ∷ rest) = elim (consumer_of prefix key) [
  | none ↦ consumers_of prefix rest
  | some consumer ↦ consumer ∷ consumers_of prefix rest
]

pub list_consumers : Context → String → String → Memory → Result (List String) × Memory
list_consumers ctx domain stream m =
    let prefix = str_append domain (str_append "/" (str_append stream "/")) in
    simulate_network ctx (ok (consumers_of prefix m.positions), m)

-- The inner map is pruned when it is empty.
delete_position_command : String → String → String → Memory → Memory
delete_position_command domain stream consumer m =
    let key = position_key domain stream consumer in
    elim (Map.get m.positions key) [
      | none ↦ m
      | some stream_positions ↦ record m {
        positions = Map.prune m.positions key (Map.delete stream_positions consumer);
      }
    ]

pub delete_position : Context → String → String → String → Memory → Result (Unit {0}) × Memory
delete_position ctx domain stream consumer m =
    simulate_network ctx (ok tt, delete_position_command domain stream consumer m)

-- checkPositionConflict
unfoldable pub check_position_conflict : String → String → String → ℤ → Memory → Result (Unit {0})
check_position_conflict domain stream consumer position m =
    elim (stored_position m domain stream consumer) [
      | none ↦ ok tt
      | some current_id ↦
          if ltb_ℤ position current_id then err (heartbeat_conflict position current_id) else ok tt
    ]
