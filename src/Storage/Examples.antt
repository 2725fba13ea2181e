-- ===== src/Storage/Examples.antt =====
-- The theorems on ConsumerStore applied to concrete tables.
use Prim.Native.Nat.{◌*◌, ◌^◌}
use pgcqrs.Base.{String, pos, true, ◌≡◌, refl, some, List, [], ◌∷◌, arith, ◌==◌, ap, sym, ◌∙◌, ◌&&◌}
use pgcqrs.Base.Map
use pgcqrs.Base.Table
use pgcqrs.Base.Table.{ids_key, named_key}
use pgcqrs.Wire.{ok, heartbeat_conflict}
use pgcqrs.Memory.Fixture.{runtime, differ}
use pgcqrs.Storage.Valid.{IsValid}
use pgcqrs.Storage.Positions.Abstract.{Store, Call, set, get, delete, db_run, store_run}
use pgcqrs.Storage.Positions.Refines.{Refines, run_agrees, position_at}
use pgcqrs.Storage.Positions.{advances, position_row}
use pgcqrs.Storage.Heartbeat.{heartbeat_with_position}
use pgcqrs.Storage.Heartbeat.Effects.{
  heartbeat_atomic, heartbeat_conflicts, heartbeat_with_position_renews,
}
use pgcqrs.Storage.Steps.{perform, acquire, start, step}
use pgcqrs.Storage.Steps.Invariant.{perform-IsValid}
use pgcqrs.Storage.Steps.Protects.{Others, Reach-Held}
use pgcqrs.Storage.Fixture.{
  at_time, row_a, stored_c, tables, tables-IsValid, tables-held, tables-stream, tables-row,
  tables-position,
}

-- What the tables stand for.
abbrev store : Store
store = record {
  exists = λ d s. "d" == d && "s" == s;
  position = λ d s c. position_at tables d s c;
}

tables-Refines : Refines tables store
unfolding Map.get
tables-Refines = record {
  valid = tables-IsValid;
  streams = λ d s. ground arith;
  positions = λ d s c. refl;
}

abbrev calls : List Call
calls =
    set "d" "s" "c" (pos 2)
    ∷ set "d" "s" "c" (pos 5)
    ∷ get "d" "s" "c"
    ∷ delete "d" "s" "c"
    ∷ get "d" "s" "c"
    ∷ []

run_agrees_example : db_run (at_time 5) calls tables ≡ store_run calls store
run_agrees_example = run_agrees (at_time 5) (λ op. refl) calls tables store tables-Refines

perform-IsValid_example :
    IsValid (perform runtime (at_time 5) (acquire "d" "s" "e" "b" (7 * 10 ^ 9)) tables)
perform-IsValid_example =
    perform-IsValid runtime (at_time 5) (acquire "d" "s" "e" "b" (7 * 10 ^ 9)) tables tables-IsValid

some_injective : {x y : String} → some x ≡ some y → x ≡ y
some_injective e = cc

others : Others row_a (at_time 5) (acquire "d" "s" "c" "b" (7 * 10 ^ 9))
others = record {
  in_time = omega arith;
  clean_in_time = omega arith;
  other = λ h e q. differ "a" "b" refl (q ∙ sym (some_injective e));
}

Reach-Held_example :
    Table.find
      (perform runtime (at_time 5) (acquire "d" "s" "c" "b" (7 * 10 ^ 9)) tables).locks
      (1, 1)
    ≡ some row_a
Reach-Held_example =
    Reach-Held runtime (1, 1) row_a tables _ tables-IsValid tables-held
      (step (at_time 5) (acquire "d" "s" "c" "b" (7 * 10 ^ 9)) tables others start)

tables-advances : advances (position_row tables 1 "c") (pos 4) ≡ true
unfolding Table.find
tables-advances = refl

heartbeat_atomic_example :
    (heartbeat_with_position (at_time 5) "d" "s" "c" "a" (pos 2) tables).1.locks ≡ tables.locks
heartbeat_atomic_example =
    (heartbeat_atomic (at_time 5) "d" "s" "c" "a" (pos 2) tables
      (heartbeat_conflict (pos 2) (pos 3))
      (ap (λ r. r.0)
        (heartbeat_conflicts (at_time 5) "d" "s" "c" "a" (λ op. refl) 1 row_a stored_c (pos 2) refl
          tables tables-stream tables-row (omega arith) refl tables-position))).0

heartbeat_with_position_renews_example :
    (heartbeat_with_position (at_time 5) "d" "s" "c" "a" (pos 4) tables).0 ≡ ok tt
heartbeat_with_position_renews_example =
    (heartbeat_with_position_renews (at_time 5) "d" "s" "c" "a" (λ op. refl) 1 row_a (pos 4) tables
      tables-stream tables-row (omega arith) refl tables-advances).0
