-- ===== src/Service/Queries.antt =====
-- The Query service (grpcQuery of internal/service/grpc.go, grpcResultStream.go, requery_signal.go) on the
-- operations of the repository. What Repository.Stream yields is passed in: a list of rows, each of them a
-- result or the error that ends the iteration. The proofs are in the modules below.
pub mod Watches
mod Examples
use pgcqrs.Base.{
  ℕ, String, ℤ, pos, leb_ℤ, ltb_ℤ, Bool, true, false, Option, none, some, List, [], ◌∷◌, ◌++◌,
  if◌then◌else◌, map,
}
use pgcqrs.Wire.{
  Runtime, Envelope, Error, Result, ok, err, ◌>>=◌, empty_query, context_done, is_nil, plain_error,
}
use pgcqrs.Memory.Watch.{OnKindSubsetMatch, OnKindClause, OnIdClause, QueryIn, QueryOut}
use pgcqrs.Storage.State.{◌then_do◌}
use pgcqrs.Storage.Sql.{
  Operation, all_stream_events, each_kind, match_subset, match_id, update_after_id, flat_map,
  or_zero,
}

module _ (domain stream : String) (after_id : ℤ) where
  abbrev pub subset_op : String → OnKindSubsetMatch → Operation
  subset_op kind s = match_subset domain stream s.op kind s.match after_id

  abbrev pub all_op : String → Option ℤ → List Operation
  all_op kind none = []
  all_op kind (some op) = each_kind domain stream op kind after_id ∷ []

  unfoldable pub clause_ops : OnKindClause → List Operation
  clause_ops k = all_op k.kind k.all_op ++ map (subset_op k.kind) k.subsets

  abbrev pub each_op : Option ℤ → List Operation
  each_op none = []
  each_op (some op) = all_stream_events domain stream op after_id ∷ []

abbrev pub id_op : String → String → OnIdClause → Operation
id_op domain stream i = match_id domain stream i.id i.op

unfoldable pub query_ops : QueryIn → List Operation
unfolding clause_ops
query_ops q =
    let after_id = or_zero q.after_id in
    flat_map (clause_ops q.domain q.stream after_id) q.on_kind
    ++ map (id_op q.domain q.stream) q.on_id
    ++ each_op q.domain q.stream after_id q.on_each

unfoldable pub build_query_ops : QueryIn → Result (List Operation)
unfolding query_ops
build_query_ops q = if is_nil (query_ops q) then err empty_query else ok (query_ops q)

-- A row of Repository.Stream
pub record OperationResult : Type 0 where
  pub op : ℤ
  pub envelope : Envelope
  pub event : String

-- grpcResultStream
pub record ResultStream : Type 0 where
  pub sent : List QueryOut
  pub last_sent_id : ℤ

-- One turn of Watch: the signal, with what the repository then yields for each list of operations, or the
-- end of the context.
pub data WatchTurn : Type 0 where
  signalled : (List Operation → List (Result OperationResult)) → WatchTurn
  context_ended : WatchTurn

pub record WatchState : Type 0 where
  pub stream : ResultStream
  pub last_delivered_id : ℤ
  -- the operations that the repository has been asked for, the last one first
  pub asked : List (List Operation)

-- The body of the range loop: the rest is left at the first error. A Send that fails has the error
-- that `sends` gives for its message.
module _ (rt : Runtime) (sends : QueryOut → Option Error) where
  unfoldable pub query_out : OperationResult → ℕ → QueryOut
  query_out r when = record {
    op = r.op;
    id = r.envelope.id;
    when = when;
    kind = r.envelope.kind;
    body = r.event;
  }

  abbrev sent_or : List QueryOut → QueryOut → Option Error → Result (Unit {0}) × List QueryOut
  sent_or sent out none = (ok tt, sent ++ out ∷ [])
  sent_or sent out (some failure) = (err failure, sent)

  unfoldable pub send_out : QueryOut → List QueryOut → Result (Unit {0}) × List QueryOut
  send_out out sent = sent_or sent out (sends out)

  abbrev parsed_when : Option ℕ → Result ℕ
  parsed_when none = err (plain_error "parsing time")
  parsed_when (some when) = ok when

  unfoldable pub send_result : OperationResult → List QueryOut → Result (Unit {0}) × List QueryOut
  unfolding send_out query_out
  send_result r sent = (parsed_when (rt.parse_when r.envelope.when), sent) then_do λ when sent'.
      send_out (query_out r when) sent'

  unfoldable pub send_rows :
      List (Result OperationResult) → List QueryOut → Result (Unit {0}) × List QueryOut
  unfolding send_result
  send_rows [] sent = (ok tt, sent)
  send_rows (err failure ∷ rows) sent = (err failure, sent)
  send_rows (ok r ∷ rows) sent = send_result r sent then_do λ done sent'. send_rows rows sent'

  -- grpcQuery.Query
  unfoldable pub query :
      (List Operation → List (Result OperationResult)) → QueryIn → Result (Unit {0}) × List QueryOut
  unfolding build_query_ops send_rows
  query stream q = (build_query_ops q, []) then_do λ ops sent. send_rows (stream ops) sent

  abbrev on_stream {ℓ} :
      {A : Type ℓ} → ResultStream → Result A × List QueryOut → Result A × ResultStream
  on_stream g (r, sent) = (r, record g { sent = sent })

  -- The last ID moves before the time is parsed and the message is sent.
  unfoldable pub push_translator_message :
      OperationResult → ResultStream → Result (Unit {0}) × ResultStream
  unfolding send_result
  push_translator_message r g =
      if leb_ℤ r.envelope.id g.last_sent_id
      then (ok tt, g)
      else (let moved = record g { last_sent_id = r.envelope.id } in
          on_stream moved (send_result r moved.sent))

  abbrev pub max_id : ℤ → ℤ → ℤ
  max_id id last_id = if ltb_ℤ last_id id then id else last_id

  -- processWatchResults; `last_id` is the loop's.
  unfoldable pub process_rows :
      List (Result OperationResult) → ℤ → ResultStream → Result ℤ × ResultStream
  unfolding push_translator_message
  process_rows [] last_id g = (ok last_id, g)
  process_rows (err failure ∷ rows) last_id g = (err failure, g)
  process_rows (ok r ∷ rows) last_id g = push_translator_message r g then_do λ done g'.
      process_rows rows (max_id r.envelope.id last_id) g'

  abbrev pub update_all : ℤ → List Operation → List Operation
  update_all id ops = map (λ (op : Operation). update_after_id op id) ops

  abbrev delivered : ℤ → WatchState → ResultStream → List Operation → WatchState
  delivered last_id s g ops = record {
    stream = g;
    last_delivered_id = max_id last_id s.last_delivered_id;
    asked = ops ∷ s.asked;
  }

  abbrev pub after_rows :
      WatchState → List Operation → Result ℤ × ResultStream → Result (Unit {0}) × WatchState
  after_rows s ops (err failure, g) = (err failure, record s { stream = g; asked = ops ∷ s.asked })
  after_rows s ops (ok last_id, g) = (ok tt, delivered last_id s g ops)

  -- One round of the loop behind its signal. The operations' cursors are set in place.
  unfoldable pub watch_round :
      (List Operation → List (Result OperationResult))
      → List Operation
      → WatchState
      → Result (Unit {0}) × WatchState
  unfolding process_rows
  watch_round stream ops s =
      let asked = update_all s.last_delivered_id ops in
      after_rows s asked (process_rows (stream asked) (pos 0) s.stream)

  -- The loop: at the end of the script the watch is still running, which is `ok`.
  unfoldable pub watch_loop :
      List WatchTurn → List Operation → WatchState → Result (Unit {0}) × WatchState
  unfolding watch_round
  watch_loop [] ops s = (ok tt, s)
  watch_loop (context_ended ∷ turns) ops s = (err context_done, s)
  watch_loop (signalled stream ∷ turns) ops s = watch_round stream ops s then_do λ done s'.
      watch_loop turns (update_all s.last_delivered_id ops) s'
