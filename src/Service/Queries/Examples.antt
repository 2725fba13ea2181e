-- ===== src/Service/Queries/Examples.antt =====
-- The theorems on watches applied to concrete rows.
use pgcqrs.Base.{All, ◌<ℤ◌, ℕ, ℤ, pos, negsuc, ◌≡◌, refl, none, Option, List, [], ◌∷◌, ◌++◌, arith}
use pgcqrs.Wire.{Error, Result, ok}
use pgcqrs.Memory.Fixture.{runtime}
use pgcqrs.Memory.Watch.{QueryOut}
use pgcqrs.Storage.Sql.{Operation, each_kind}
use pgcqrs.Service.Queries.{
  OperationResult, WatchState, WatchTurn, signalled, query_out, watch_round, watch_loop,
}
use pgcqrs.Service.Queries.Watches.{
  Increasing, outs_of, watch_loop-Increasing, watch_round-sends, watch_round_loses,
}

abbrev sends : QueryOut → Option Error
sends out = none

abbrev row : ℤ → OperationResult
row id = record {
  op = pos 0;
  envelope = record { id = id; when = "2026"; kind = "k" };
  event = "x";
}

abbrev ops : List Operation
ops = each_kind "d" "s" (pos 0) "k" (pos 0) ∷ []

abbrev new_watch : WatchState
new_watch = record {
  stream = record { sent = []; last_sent_id = negsuc 0 };
  last_delivered_id = pos 0;
  asked = [];
}

abbrev rows : List (OperationResult × ℕ)
rows = (row (pos 1), 0) ∷ (row (pos 2), 0) ∷ []

abbrev in_order : List Operation → List (Result OperationResult)
in_order asked = ok (row (pos 1)) ∷ ok (row (pos 2)) ∷ []

abbrev out_of_order : List Operation → List (Result OperationResult)
out_of_order asked = ok (row (pos 2)) ∷ ok (row (pos 1)) ∷ []

abbrev turns : List WatchTurn
turns = signalled in_order ∷ signalled out_of_order ∷ []

watch_loop-Increasing_example :
    Increasing (watch_loop runtime sends turns ops new_watch).1.stream.sent
watch_loop-Increasing_example =
    watch_loop-Increasing runtime sends turns ops new_watch (record { rising = tt; below = tt })

watch_round-sends_example :
    (watch_round runtime sends in_order ops new_watch).1.stream.sent
    ≡ [] ++ outs_of runtime sends (λ m. refl) rows
watch_round-sends_example =
    (watch_round-sends runtime sends (λ m. refl) in_order ops new_watch rows refl
      (omega arith, refl, (omega arith, refl, tt))).1

watch_round_loses_example :
    (more : List QueryOut) × ((watch_loop runtime sends
        (signalled out_of_order ∷ signalled in_order ∷ [])
        ops
        new_watch).1.stream.sent
      ≡ ([] ++ query_out runtime sends (row (pos 2)) 0 ∷ []) ++ more)
    × All (λ (x : QueryOut). pos 1 <ℤ x.id) more
watch_round_loses_example =
    watch_round_loses runtime sends (λ m. refl) out_of_order (signalled in_order ∷ []) ops new_watch
      (row (pos 2)) (row (pos 1)) 0 refl (omega arith) refl (omega arith)
