-- ===== src/Adapter/Queries/Replies.antt =====
-- What the client gets of the rows that the service reads (pkg/v1/grpcAdapter.go and grpcQuery.Query of
-- internal/service/grpc.go).
use pgcqrs.Base.{
  ℕ, String, ℤ, ◌≡◌, refl, ap, ◌∙◌, Option, none, some, List, [], ◌∷◌, ◌++◌, append_assoc,
  append-nil, map, All,
}
use pgcqrs.Wire.{Runtime, Error, Result, ok, WireBatchDispatch}
use pgcqrs.Memory.Watch.{QueryIn, QueryOut}
use pgcqrs.Storage.Sql.{Operation}
use pgcqrs.Service.Queries.{
  OperationResult, build_query_ops, query_out, send_out, send_result, send_rows, query,
}
use pgcqrs.Adapter.Queries.{envelope_of, dispatch_of, receive_batch_r2_results}

-- A row that the repository has read: its time is formatted.
pub record Row : Type 0 where
  pub op : ℤ
  pub id : ℤ
  pub when : ℕ
  pub kind : String
  pub event : String

module _ (rt : Runtime) (sends : QueryOut → Option Error)
    (working : (m : QueryOut) → sends m ≡ none) where
  abbrev pub result_of : Row → OperationResult
  result_of row = record {
    op = row.op;
    envelope = record { id = row.id; when = rt.format_when row.when; kind = row.kind };
    event = row.event;
  }

  abbrev pub yielded : List Row → List (Result OperationResult)
  yielded [] = []
  yielded (row ∷ rows) = ok (result_of row) ∷ yielded rows

  abbrev pub dispatched : Row → WireBatchDispatch
  dispatched row = record {
    envelope = record { id = row.id; when = rt.format_when row.when; kind = row.kind };
    event = row.event;
    op = row.op;
  }

  -- The times of rows parse to what they were formatted from.
  abbrev pub Parses : List Row → Type 0
  Parses rows = All (λ (row : Row). rt.parse_when (rt.format_when row.when) ≡ some row.when) rows

  abbrev out_of : Row → QueryOut
  out_of row = query_out rt sends (result_of row) row.when

  rows-sent :
      (rows : List Row) (sent : List QueryOut)
      → Parses rows
      → send_rows rt sends (yielded rows) sent ≡ (ok tt, sent ++ map out_of rows)
  unfolding send_rows send_result send_out
  rows-sent [] sent p = rw (append-nil sent) refl
  rows-sent (row ∷ rows) sent p =
      rw (p.0, working (out_of row))
        (rows-sent rows (sent ++ out_of row ∷ []) p.1
          ∙ rw (append_assoc sent (out_of row ∷ []) (map out_of rows)) refl)

  map-out : (rows : List Row) → map (dispatch_of rt) (map out_of rows) ≡ map dispatched rows
  unfolding dispatch_of envelope_of query_out
  map-out [] = refl
  map-out (row ∷ rows) = ap (λ ds. dispatched row ∷ ds) (map-out rows)

  -- Where the rows' times parse to what they were formatted from and no Send fails: the client of QueryBatchR2 gets
  -- each row that the repository yields for the query's operations, in order, with its operation, ID, time,
  -- kind and event.
  pub query-receive :
      (stream : List Operation → List (Result OperationResult)) (q : QueryIn) (ops : List Operation)
      (rows : List Row)
      → build_query_ops q ≡ ok ops
      → stream ops ≡ yielded rows
      → Parses rows
      → ((query rt sends stream q).0 ≡ ok tt)
        × (receive_batch_r2_results rt ((query rt sends stream q).1, none) []
            ≡ (ok tt, map dispatched rows))
  unfolding query receive_batch_r2_results
  query-receive stream q ops rows e f p =
      rw (e, f) (rw (rows-sent rows [] p) (refl, ap (λ ds. (ok tt, ds)) (map-out rows)))
