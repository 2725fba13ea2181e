-- ===== src/Memory/Queries.antt =====
-- Queries of the in-memory transport: filter (pkg/v1/filter.go), Query and QueryBatchR2
-- (pkg/v1/memory.go) and QueryBatch (pkg/v1/memoryBatch.go). They read only. Each read of an event is a
-- command of its own, and other commands may be performed between two of them: what a query reads is
-- given by a function, the `filterLoader` of the source. The proofs are in the modules below.
pub mod Filter
pub mod Answers
pub mod Batch
mod Examples
use Prim.Native.String.{◌++◌ as str_append}
use pgcqrs.Base.{
  String, ◌==◌, ℤ, leb_ℤ, eqb_ℤ, Bool, true, false, not, Option, none, some, List, [], ◌∷◌, ◌++◌,
  if◌then◌else◌,
}
use pgcqrs.Wire.{
  Envelope, WireMatcher, KindConstraint, WireQuery, WireQueryResult, WireBatchResultPair,
  WireBatchKindMatch, WireBatchKindQuery, WireBatchIdQuery, WireBatchRequest, WireBatchDispatch,
  Result, ok, err, bad_json, panicked, Difference, full_match, superset_match, other_difference,
  Runtime, is_nil, for_each, ◌>>=◌,
}
use pgcqrs.Memory.State.{Memory, Context}
use pgcqrs.Memory.Streams.{get_event, all_envelopes}

-- local.JSONIsSubset
unfoldable pub json_is_subset : Runtime → String → String → Bool
json_is_subset rt superset subset = elim (rt.compare_json superset subset) [
  | full_match ↦ true
  | superset_match ↦ true
  | other_difference ↦ false
]

-- `after != nil && id <= *after`
abbrev pub skipped : Option ℤ → ℤ → Bool
skipped none id = false
skipped (some after) id = leb_ℤ id after

pub find_matching_constraint : String → List KindConstraint → Option KindConstraint
find_matching_constraint kind [] = none
find_matching_constraint kind (c ∷ cs) =
    let rest = find_matching_constraint kind cs in if kind == c.kind then some c else rest

-- `strings.Join(property, ".")`
abbrev pub join : List String → String
join [] = ""
join (x ∷ []) = x
join (x ∷ y ∷ rest) = str_append x (str_append "." (join (y ∷ rest)))

-- The loop of filterMatchedProperties. A matcher with no value is an index out of range.
pub match_properties : (String → Option String) → List WireMatcher → Result Bool
match_properties parser [] = ok true
match_properties parser (w ∷ ws) =
    let rest = match_properties parser ws in
    elim (parser (join w.property)) [
      | none ↦ ok false
      | some value ↦ elim w.value [
        | [] ↦ err panicked
        | wanted ∷ _ ↦ if value == wanted then rest else ok false
      ]
    ]

module _ (rt : Runtime) (load : ℤ → Result String) where
  filter_matched_properties : KindConstraint → Envelope → Result Bool
  filter_matched_properties c e = load e.id >>= λ body. elim (rt.string_query body) [
    | none ↦ err bad_json
    | some parser ↦ match_properties parser c.eq
  ]

  filter_subset_match : KindConstraint → Envelope → Result Bool
  filter_subset_match c e = load e.id >>= λ body. ok (json_is_subset rt body c.match_subset)

  pub apply_eq_filter : KindConstraint → Envelope → Result Bool
  unfolding filter_matched_properties
  apply_eq_filter c e = if is_nil c.eq then ok true else filter_matched_properties c e

  pub apply_subset_filter : KindConstraint → Envelope → Result Bool
  unfolding filter_subset_match
  apply_subset_filter c e = if c.match_subset == "" then ok true else filter_subset_match c e

  -- The part of filter behind its early returns.
  filter_constrained : WireQuery → Envelope → Result Bool
  filter_constrained query e = elim (find_matching_constraint e.kind query.kind_constraint) [
    | none ↦ ok false
    | some constraint ↦ apply_eq_filter constraint e >>= λ matched.
        if matched then apply_subset_filter constraint e else ok false
  ]

  pub filter : WireQuery → Envelope → Result Bool
  filter query e =
      if skipped query.after_id e.id
      then ok false
      else if is_nil query.kind_constraint
      then ok true
      else filter_constrained query e

  -- One round of the loop of Query.
  pub add_matching : WireQuery → Envelope → List Envelope → Result (List Envelope)
  add_matching query e out = filter query e >>= λ add. ok (if add then out ++ e ∷ [] else out)

  pub query_envelopes : WireQuery → List Envelope → Result WireQueryResult
  query_envelopes query envelopes = for_each (add_matching query) envelopes [] >>= λ matching.
      ok (record { filtered = true; subset_match = true; matching = matching })

  -- One round of the loop of QueryBatch.
  pub add_pair : Envelope → List WireBatchResultPair → Result (List WireBatchResultPair)
  add_pair e out = load e.id >>= λ body. ok (out ++ record { meta = e; body = body } ∷ [])

  query_batch_envelopes : WireQuery → List Envelope → Result (List WireBatchResultPair)
  query_batch_envelopes query envelopes = query_envelopes query envelopes >>= λ results.
      if not results.subset_match
      then err panicked
      else if not results.filtered
      then err panicked
      else for_each add_pair results.matching []

  -- One round of the loop over `onKind.Match`.
  pub add_match :
      Envelope → WireBatchKindMatch → List WireBatchDispatch → Result (List WireBatchDispatch)
  add_match e match out = load e.id >>= λ body. ok (
      if json_is_subset rt body match.subset
      then out ++ record { envelope = e; event = body; op = match.op } ∷ []
      else out)

  pub add_all : Envelope → Option ℤ → List WireBatchDispatch → Result (List WireBatchDispatch)
  add_all e none out = ok out
  add_all e (some op) out =
      load e.id >>= λ body. ok (out ++ record { envelope = e; event = body; op = op } ∷ [])

  pub match_kind_clause :
      Envelope → WireBatchKindQuery → List WireBatchDispatch → Result (List WireBatchDispatch)
  match_kind_clause e on_kind out =
      add_all e on_kind.all out >>= λ out'. for_each (add_match e) on_kind.match out'

  -- One round of the loop of processEnvelopeForKinds.
  pub process_kind :
      Envelope → WireBatchKindQuery → List WireBatchDispatch → Result (List WireBatchDispatch)
  process_kind e on_kind out =
      if on_kind.kind == e.kind then match_kind_clause e on_kind out else ok out

  pub process_envelope_for_kinds :
      List WireBatchKindQuery → Envelope → List WireBatchDispatch → Result (List WireBatchDispatch)
  process_envelope_for_kinds on_kinds e out = for_each (process_kind e) on_kinds out

  -- One round of the loop of processEnvelopeForIDs.
  pub process_id :
      Envelope → WireBatchIdQuery → List WireBatchDispatch → Result (List WireBatchDispatch)
  process_id e on_id out =
      if eqb_ℤ e.id on_id.id
      then (load e.id >>= λ body.
          ok (out ++ record { envelope = e; event = body; op = on_id.op } ∷ []))
      else ok out

  pub process_envelope_for_ids :
      List WireBatchIdQuery → Envelope → List WireBatchDispatch → Result (List WireBatchDispatch)
  process_envelope_for_ids on_id e out = for_each (process_id e) on_id out

  -- One round of the loop of QueryBatchR2.
  pub process_envelope :
      WireBatchRequest → Envelope → List WireBatchDispatch → Result (List WireBatchDispatch)
  process_envelope request e out =
      if skipped request.after_id e.id
      then ok out
      else process_envelope_for_kinds request.on_kinds e out >>= λ out'.
          process_envelope_for_ids request.on_id e out'

module _ (rt : Runtime) (ctx : Context) (domain stream : String) (m : Memory) where
  -- memoryFilterLoader.Get, and GetEvent as the batch queries call it
  abbrev pub load : ℤ → Result String
  load id = (get_event rt ctx domain stream id m).0

  pub query : WireQuery → Result WireQueryResult
  unfolding query_envelopes
  query wire = (all_envelopes rt ctx domain stream m).0 >>= query_envelopes rt load wire

  pub query_batch : WireQuery → Result (List WireBatchResultPair)
  unfolding query_batch_envelopes
  query_batch wire = (all_envelopes rt ctx domain stream m).0 >>= query_batch_envelopes rt load wire

  pub query_batch_r2 : WireBatchRequest → Result (List WireBatchDispatch)
  query_batch_r2 request = (all_envelopes rt ctx domain stream m).0 >>= λ envelopes.
      for_each (process_envelope rt load request) envelopes []
