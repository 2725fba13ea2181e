-- ===== src/Adapter/Queries.antt =====
-- The queries of the gRPC transport (GrpcAdapter.AllEnvelopes, Query, QueryBatch and QueryBatchR2 of
-- pkg/v1/grpcAdapter.go). What the stream of a query yields is passed in. The proofs are in the modules
-- below.
pub mod Operations
pub mod Replies
mod Examples
use pgcqrs.Base.{
  ℕ, suc, String, ◌==◌, ℤ, pos, eqb_ℤ, Bool, true, false, not, Option, none, some, List, [], ◌∷◌,
  ◌++◌, if◌then◌else◌, map,
}
use pgcqrs.Wire.{
  Runtime, Envelope, Error, Result, ok, err, end_of_stream, WireMatcher, WireQueryResult,
  WireBatchResultPair, WireBatchKindMatch, WireBatchKindQuery, WireBatchIdQuery, WireBatchRequest,
  WireBatchDispatch, request_empty,
}
use pgcqrs.Memory.Watch.{OnKindSubsetMatch, OnKindClause, OnIdClause, QueryIn, QueryOut}

abbrev pub target_op : ℤ
target_op = pos 42

abbrev pub subset_of : WireBatchKindMatch → OnKindSubsetMatch
subset_of m = record { match = m.subset; op = m.op }

-- buildBatchR2KindClause; grpcMaybeWireOp keeps the number.
unfoldable pub build_batch_r2_kind_clause : WireBatchKindQuery → OnKindClause
build_batch_r2_kind_clause k = record {
  kind = k.kind;
  all_op = k.all;
  subsets = map subset_of k.match;
}

abbrev pub id_clause : WireBatchIdQuery → OnIdClause
id_clause i = record { id = i.id; op = i.op }

-- buildBatchR2Request: nil for an empty batch.
unfoldable pub build_batch_r2_request : String → String → WireBatchRequest → Option QueryIn
unfolding build_batch_r2_kind_clause
build_batch_r2_request domain stream batch =
    if request_empty batch
    then none
    else some (record {
      domain = domain;
      stream = stream;
      on_kind = map build_batch_r2_kind_clause batch.on_kinds;
      on_id = map id_clause batch.on_id;
      on_each = none;
      after_id = batch.after_id;
    })

-- The message that the service gets: nil is sent as an empty one.
abbrev pub received : Option QueryIn → QueryIn
received (some q) = q
received none = record {
  domain = "";
  stream = "";
  on_kind = [];
  on_id = [];
  on_each = none;
  after_id = none;
}

-- KindConstraint and WireQuery with what the adapter sees of a slice: `none` where it is nil, which an empty
-- one is not.
pub record NilableConstraint : Type 0 where
  pub kind : String
  pub eq : Option (List WireMatcher)
  pub match_subset : Option String

pub record NilableQuery : Type 0 where
  pub kind_constraint : List NilableConstraint
  pub after_id : Option ℤ

-- KindBuilder, without its handler; `match` is none where it is nil.
pub record KindBuilder : Type 0 where
  pub kind : String
  pub eq : List (List String × String)
  pub match : Option String

abbrev matcher_of : List String × String → WireMatcher
matcher_of (property, value) = record { property = property; value = value ∷ [] }

-- toKindConstraint, which makes its slice of matchers in any case
unfoldable pub to_kind_constraint : KindBuilder → NilableConstraint
to_kind_constraint k = record {
  kind = k.kind;
  eq = some (map matcher_of k.eq);
  match_subset = k.match;
}

-- buildKindConstraint
abbrev subsets_of : Option String → ℕ → List OnKindSubsetMatch
subsets_of none index = []
subsets_of (some match_subset) index = record { match = match_subset; op = pos index } ∷ []

unfoldable pub build_kind_constraint : NilableConstraint → ℕ → OnKindClause
build_kind_constraint k index = record {
  kind = k.kind;
  all_op = none;
  subsets = subsets_of k.match_subset index;
}

-- A round of the loop of buildQueryRequest
unfoldable pub query_clause : NilableConstraint → ℕ → OnKindClause
unfolding build_kind_constraint
query_clause k index = elim k.eq [
  | some matchers ↦ record { kind = k.kind; all_op = some target_op; subsets = [] }
  | none ↦ elim k.match_subset [
    | none ↦ record (build_kind_constraint k index) { all_op = some target_op }
    | some subset ↦ build_kind_constraint k index
  ]
]

unfoldable pub query_clauses : List NilableConstraint → ℕ → List OnKindClause
unfolding query_clause
query_clauses [] index = []
query_clauses (k ∷ ks) index = query_clause k index ∷ query_clauses ks (suc index)

-- `filtered`: every Eq is nil.
unfoldable pub all_filtered : List NilableConstraint → Bool
all_filtered [] = true
all_filtered (k ∷ ks) =
    let rest = all_filtered ks in elim k.eq [ none ↦ rest | some matchers ↦ false ]

-- buildQueryRequest
unfoldable pub build_query_request : String → String → NilableQuery → QueryIn × Bool
unfolding query_clauses all_filtered
build_query_request domain stream query = (
  record {
    domain = domain;
    stream = stream;
    on_kind = query_clauses query.kind_constraint 0;
    on_id = [];
    on_each = none;
    after_id = none;
  },
  all_filtered query.kind_constraint,
)

unfoldable pub batch_clause : NilableConstraint → OnKindClause
batch_clause k = elim k.match_subset [
  | none ↦ record { kind = k.kind; all_op = some target_op; subsets = [] }
  | some subset ↦ record {
    kind = k.kind;
    all_op = none;
    subsets = record { match = subset; op = target_op } ∷ [];
  }
]

-- The request of QueryBatch
unfoldable pub query_batch_request : String → String → NilableQuery → QueryIn
unfolding batch_clause
query_batch_request domain stream query = record {
  domain = domain;
  stream = stream;
  on_kind = map batch_clause query.kind_constraint;
  on_id = [];
  on_each = none;
  after_id = none;
}

-- The request of AllEnvelopes
abbrev pub all_envelopes_request : String → String → QueryIn
all_envelopes_request domain stream = record {
  domain = domain;
  stream = stream;
  on_kind = [];
  on_id = [];
  on_each = some target_op;
  after_id = none;
}

-- How a stream of answers ends: at its end, or with another error.
abbrev pub Stream : Type 0
Stream = List QueryOut × Option Error

module _ (rt : Runtime) where
  unfoldable pub envelope_of : QueryOut → Envelope
  envelope_of out = record { id = out.id; when = rt.format_when out.when; kind = out.kind }

  -- The answer of a loop that returns nil at the end of the stream, and what it has collected.
  abbrev at_end : Option Error → Result (Unit {0})
  at_end none = ok tt
  at_end (some failure) = err failure

  -- receiveQueryResults, behind the result's flags
  unfoldable pub receive_query_results :
      Stream → WireQueryResult → Result (Unit {0}) × WireQueryResult
  unfolding envelope_of
  receive_query_results (answers, end) out =
      (at_end end, record out { matching = out.matching ++ map envelope_of answers })

  unfoldable pub pair_of : QueryOut → WireBatchResultPair
  unfolding envelope_of
  pair_of out = record { meta = envelope_of out; body = out.body }

  unfoldable pub receive_query_batch :
      Stream → List WireBatchResultPair → Result (Unit {0}) × List WireBatchResultPair
  unfolding pair_of
  receive_query_batch (answers, end) page = (at_end end, page ++ map pair_of answers)

  unfoldable pub dispatch_of : QueryOut → WireBatchDispatch
  unfolding envelope_of
  dispatch_of out = record { envelope = envelope_of out; event = out.body; op = out.op }

  -- receiveBatchR2Results
  unfoldable pub receive_batch_r2_results :
      Stream → List WireBatchDispatch → Result (Unit {0}) × List WireBatchDispatch
  unfolding dispatch_of
  receive_batch_r2_results (answers, end) results = (at_end end, results ++ map dispatch_of answers)

  -- The loop of AllEnvelopes: answers of other operations are left out.
  unfoldable pub collect_envelopes : List QueryOut → List Envelope
  unfolding envelope_of
  collect_envelopes [] = []
  collect_envelopes (out ∷ answers) =
      let rest = collect_envelopes answers in
      if eqb_ℤ out.op target_op then envelope_of out ∷ rest else rest
