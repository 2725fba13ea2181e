-- ===== src/Adapter/Queries/Examples.antt =====
-- The theorems on the client's queries applied to concrete queries.
use pgcqrs.Base.{pos, ◌≡◌, refl, none, some, Option, List, [], ◌∷◌, if◌then◌else◌, map}
use pgcqrs.Wire.{Error, Result, ok, err, empty_query, is_nil, WireBatchRequest}
use pgcqrs.Memory.Fixture.{runtime}
use pgcqrs.Memory.Watch.{QueryOut}
use pgcqrs.Storage.Sql.{Operation, each_kind, translate_batch_r2}
use pgcqrs.Service.Queries.{OperationResult, build_query_ops, query}
use pgcqrs.Adapter.Queries.{
  build_batch_r2_request, received, NilableQuery, KindBuilder, to_kind_constraint,
  build_query_request, receive_batch_r2_results,
}
use pgcqrs.Adapter.Queries.Operations.{
  batch_r2_operations, query_operations, built_query_operations, constraint_ops,
}
use pgcqrs.Adapter.Queries.Replies.{Row, dispatched, yielded, query-receive}

abbrev batch : WireBatchRequest
batch = record {
  on_kinds =
      record { kind = "k"; all = some (pos 1); match = record { op = pos 2; subset = "{}" } ∷ [] }
      ∷ [];
  on_id = record { op = pos 3; id = pos 7 } ∷ [];
  after_id = some (pos 4);
}

batch_r2_operations_example : build_query_ops (received (build_batch_r2_request "d" "s" batch)) ≡ (
    if is_nil (translate_batch_r2 "d" "s" batch)
    then err empty_query
    else ok (translate_batch_r2 "d" "s" batch))
batch_r2_operations_example = batch_r2_operations "d" "s" batch

abbrev wire_query : NilableQuery
wire_query = record {
  kind_constraint =
      record { kind = "k"; eq = none; match_subset = none }
      ∷ record { kind = "l"; eq = none; match_subset = some "{}" }
      ∷ [];
  after_id = some (pos 4);
}

abbrev builder : KindBuilder
builder = record { kind = "l"; eq = []; match = some "{}" }

built_query_operations_example :
    build_query_ops
      (build_query_request "d" "s"
        (record { kind_constraint = to_kind_constraint builder ∷ []; after_id = some (pos 4) })).0
    ≡ ok (each_kind "d" "s" (pos 42) "l" (pos 0) ∷ [])
built_query_operations_example = (built_query_operations "d" "s" builder [] (some (pos 4))).0

abbrev sends : QueryOut → Option Error
sends out = none

abbrev rows : List Row
rows = record { op = pos 42; id = pos 1; when = 0; kind = "k"; event = "x" } ∷ []

abbrev stream : List Operation → List (Result OperationResult)
stream ops = yielded runtime sends (λ m. refl) rows

query-receive_example :
    receive_batch_r2_results runtime
      ((query runtime sends stream (build_query_request "d" "s" wire_query).0).1, none)
      []
    ≡ (ok tt, map (dispatched runtime sends (λ m. refl)) rows)
query-receive_example =
    (query-receive runtime sends (λ m. refl) stream (build_query_request "d" "s" wire_query).0
      (constraint_ops "d" "s" 0 wire_query.kind_constraint) rows
      (query_operations "d" "s" wire_query) refl (refl, tt)).1
