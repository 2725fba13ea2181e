-- ===== src/Query2.antt =====
-- The query builder (pkg/v1/query2): what StreamBatch sends, and which handler gets which result. A
-- handler is a parameter: its type, and what calling it does to the caller's world. The subset of a
-- clause is what json.Marshal makes of it, `none` where that fails. The proofs are in the modules below.
pub mod Prepared
mod Examples
use pgcqrs.Base.{
  ℕ, String, ℤ, pos, negsuc, Bool, true, false, Option, none, some, List, [], ◌∷◌, ◌++◌, length,
  get_elem?, if◌then◌else◌,
}
use pgcqrs.Wire.{
  Envelope, WireBatchKindMatch, WireBatchKindQuery, WireBatchIdQuery, WireBatchRequest,
  WireBatchDispatch, request_empty, Result, ok, err, bad_json, panicked, no_handler, for_each,
  ◌>>=◌,
}

pub record MatchedKind {ℓ} (H : Type ℓ) : Type ℓ where
  pub processor : Option H
  pub subset : Option String

pub record KindClause {ℓ} (H : Type ℓ) : Type ℓ where
  pub kind : String
  pub each : Option H
  pub matched : List (MatchedKind H)

pub record IdClause {ℓ} (H : Type ℓ) : Type ℓ where
  pub id : ℤ
  pub on : Option H

pub record Query {ℓ} (H : Type ℓ) : Type ℓ where
  pub kinds : List (KindClause H)
  pub ids : List (IdClause H)
  pub after_id : Option ℤ

module _ {ℓ} {H : Type ℓ} where
  -- handlers.register; a handler that was not set is nil.
  abbrev pub register : Option H → List (Option H) → ℕ × List (Option H)
  register processor registered = (length registered, registered ++ processor ∷ [])

  abbrev pub register_optional : Option H → List (Option H) → Option ℤ × List (Option H)
  register_optional none registered = (none, registered)
  register_optional (some h) registered =
      let (id, registered') = register (some h) registered in (some (pos id), registered')

  -- MatchedKind.prepareRequest. The state is `r.Match` and the handlers.
  pub prepare_match :
      MatchedKind H
      → List WireBatchKindMatch × List (Option H)
      → Result (List WireBatchKindMatch × List (Option H))
  prepare_match m (match, registered) = elim m.processor [
    | none ↦ ok (match, registered)
    | some h ↦ elim m.subset [
      | none ↦ err bad_json
      | some doc ↦
          let (id, registered') = register (some h) registered in
          ok (match ++ record { op = pos id; subset = doc } ∷ [], registered')
    ]
  ]

  -- KindClause.prepareRequest. The state is `r.OnKinds` and the handlers.
  pub prepare_kind :
      KindClause H
      → List WireBatchKindQuery × List (Option H)
      → Result (List WireBatchKindQuery × List (Option H))
  prepare_kind k (on_kinds, registered) =
      let (all, registered') = register_optional k.each registered in
      for_each prepare_match k.matched ([], registered') >>= λ (match, registered'').
      ok (on_kinds ++ record { kind = k.kind; all = all; match = match } ∷ [], registered'')

  -- IDClause.prepareRequest. The state is `r.OnID` and the handlers.
  pub prepare_id :
      IdClause H
      → List WireBatchIdQuery × List (Option H)
      → Result (List WireBatchIdQuery × List (Option H))
  prepare_id i (on_id, registered) =
      let (op, registered') = register i.on registered in
      ok (on_id ++ record { op = pos op; id = i.id } ∷ [], registered')

  pub build_batch_request : Query H → Result (WireBatchRequest × List (Option H))
  build_batch_request q = for_each prepare_kind q.kinds ([], []) >>= λ (on_kinds, registered).
      for_each prepare_id q.ids ([], registered) >>= λ (on_id, registered').
      ok (record { on_kinds = on_kinds; on_id = on_id; after_id = q.after_id }, registered')

  module _ {κ} {W : Type κ} (call : H → Envelope → String → W → Result W) where
    -- One round of the loop of processBatchResults: an operation that is no index of the handlers is an
    -- error, and the call of a nil handler panics.
    pub process_result : List (Option H) → WireBatchDispatch → W → Result W
    process_result registered result w = elim result.op [
      | negsuc _ ↦ err no_handler
      | pos op ↦ elim (get_elem? registered op) [
        | none ↦ err no_handler
        | some none ↦ err panicked
        | some (some h) ↦ call h result.envelope result.event w
      ]
    ]

    pub process_batch_results : List (Option H) → List WireBatchDispatch → W → Result W
    process_batch_results registered results w = for_each (process_result registered) results w

    -- `transport` is the stream's QueryBatchR2.
    pub stream_batch : (WireBatchRequest → Result (List WireBatchDispatch)) → Query H → W → Result W
    stream_batch transport q w = build_batch_request q >>= λ (request, registered).
        if request_empty request
        then ok w
        else transport request >>= λ reply. process_batch_results registered reply w
