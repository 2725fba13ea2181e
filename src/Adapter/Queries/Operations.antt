-- ===== src/Adapter/Queries/Operations.antt =====
-- The operations that the service makes of the client's requests (pkg/v1/grpcAdapter.go and buildQueryOps of
-- internal/service/grpc.go).
use pgcqrs.Base.{
  ℕ, suc, String, ℤ, pos, ◌≡◌, refl, ap, ◌∙◌, true, Bool-cases, Option, Option-cases, some, none,
  false, inl, inr, ◌&&◌, List, [], ◌∷◌, ◌++◌, append-nil, map, arith, if◌then◌else◌,
}
use pgcqrs.Wire.{
  ok, err, empty_query, is_nil, WireBatchKindQuery, WireBatchIdQuery, WireBatchRequest,
  request_empty,
}
use pgcqrs.Storage.Sql.{
  Operation, each_kind, match_subset, flat_map, or_zero, translate_kind, translate_all,
  translate_id, translate_batch_r2,
}
use pgcqrs.Service.Queries.{subset_op, clause_ops, id_op, query_ops, build_query_ops}
use pgcqrs.Adapter.Queries.{
  target_op, subset_of, id_clause, build_batch_r2_kind_clause, build_batch_r2_request, received,
  NilableConstraint, NilableQuery, KindBuilder, to_kind_constraint, all_filtered,
  build_kind_constraint, query_clause, query_clauses, build_query_request,
}

map-map {ℓ κ μ} :
    {A : Type ℓ} {B : Type κ} {C : Type μ} (f : A → B) (g : B → C) (xs : List A)
    → map g (map f xs) ≡ map (λ x. g (f x)) xs
map-map f g [] = refl
map-map f g (x ∷ xs) = ap (λ ys. g (f x) ∷ ys) (map-map f g xs)

flat_map-map {ℓ κ μ} :
    {A : Type ℓ} {B : Type κ} {C : Type μ} (f : A → B) (g : B → List C) (h : A → List C)
    → ((x : A) → g (f x) ≡ h x)
    → (xs : List A) → flat_map g (map f xs) ≡ flat_map h xs
unfolding flat_map
flat_map-map f g h e [] = refl
flat_map-map f g h e (x ∷ xs) = rw (e x, flat_map-map f g h e xs) refl

module _ (domain stream : String) where
  clause-kind :
      (after_id : ℤ) (k : WireBatchKindQuery)
      → clause_ops domain stream after_id (build_batch_r2_kind_clause k)
        ≡ translate_kind domain stream after_id k
  unfolding clause_ops build_batch_r2_kind_clause translate_kind
  clause-kind after_id k =
      ap (λ ops. translate_all domain stream after_id k.kind k.all ++ ops)
        (map-map subset_of (subset_op domain stream after_id k.kind) k.match)

  nothing-asked :
      (after_id : ℤ) (kinds : List WireBatchKindQuery) (ids : List WireBatchIdQuery)
      → is_nil kinds && is_nil ids ≡ true
      → []
        ≡ flat_map (translate_kind domain stream after_id) kinds
          ++ map (translate_id domain stream) ids
  unfolding flat_map
  nothing-asked after_id [] [] e = refl
  nothing-asked after_id [] (i ∷ ids) e = absurd (ground (arith, e))
  nothing-asked after_id (k ∷ kinds) ids e = absurd (ground (arith, e))

  ops-batch :
      (batch : WireBatchRequest)
      → query_ops (received (build_batch_r2_request domain stream batch))
        ≡ translate_batch_r2 domain stream batch
  unfolding query_ops build_batch_r2_request translate_batch_r2 request_empty
  ops-batch batch = elim (Bool-cases (request_empty batch)) [
    | inl e ↦ rw e (nothing-asked (or_zero batch.after_id) batch.on_kinds batch.on_id e)
    | inr e ↦ rw e (
        append-nil _
        ∙ rw
            (
              flat_map-map build_batch_r2_kind_clause
                  (clause_ops domain stream (or_zero batch.after_id))
                  (translate_kind domain stream (or_zero batch.after_id))
                  (clause-kind (or_zero batch.after_id)) batch.on_kinds,
              map-map id_clause (id_op domain stream) batch.on_id,
            )
            refl)
  ]

  -- A batch that goes by gRPC is made into the same operations, in the same order, as the REST service makes
  -- of it by TranslateBatchR2; where there is none, the gRPC service answers that the query is empty.
  pub batch_r2_operations :
      (batch : WireBatchRequest)
      → build_query_ops (received (build_batch_r2_request domain stream batch)) ≡ (
          if is_nil (translate_batch_r2 domain stream batch)
          then err empty_query
          else ok (translate_batch_r2 domain stream batch))
  unfolding build_query_ops
  batch_r2_operations batch = rw (ops-batch batch) refl

  -- The operation of a constraint that stands at an index.
  abbrev pub constraint_op : ℕ → NilableConstraint → Operation
  constraint_op index k = elim k.eq [
    | some matchers ↦ each_kind domain stream target_op k.kind (pos 0)
    | none ↦ elim k.match_subset [
      | none ↦ each_kind domain stream target_op k.kind (pos 0)
      | some subset ↦ match_subset domain stream (pos index) k.kind subset (pos 0)
    ]
  ]

  abbrev pub constraint_ops : ℕ → List NilableConstraint → List Operation
  constraint_ops index [] = []
  constraint_ops index (k ∷ ks) = constraint_op index k ∷ constraint_ops (suc index) ks

  clause-constraint :
      (index : ℕ) (k : NilableConstraint) (rest : List Operation)
      → clause_ops domain stream (pos 0) (query_clause k index) ++ rest
        ≡ constraint_op index k ∷ rest
  unfolding clause_ops query_clause build_kind_constraint
  clause-constraint index k rest = elim (Option-cases k.eq) [
    | inr (matchers, e) ↦ rw e refl
    | inl e ↦ elim (Option-cases k.match_subset) [
      | inl f ↦ rw (e, f) refl
      | inr (subset, f) ↦ rw (e, f) refl
    ]
  ]

  ops-constraints :
      (ks : List NilableConstraint) (index : ℕ)
      → flat_map (clause_ops domain stream (pos 0)) (query_clauses ks index)
        ≡ constraint_ops index ks
  unfolding flat_map query_clauses
  ops-constraints [] index = refl
  ops-constraints (k ∷ ks) index =
      clause-constraint index k _
      ∙ ap (λ ops. constraint_op index k ∷ ops) (ops-constraints ks (suc index))

  -- A query that goes by gRPC is made into one operation for each of its constraints, in order: all events
  -- of the kind where Eq is not nil, even if it is empty, or where MatchSubset is nil too, else those that
  -- the subset matches. No operation has a cursor, whatever AfterID the query has.
  pub query_operations :
      (query : NilableQuery)
      → build_query_ops (build_query_request domain stream query).0 ≡ (
          if is_nil query.kind_constraint
          then err empty_query
          else ok (constraint_ops 0 query.kind_constraint))
  unfolding build_query_ops query_ops build_query_request
  query_operations query = rw (ops-constraints query.kind_constraint 0) (
      rw (append-nil (constraint_ops 0 query.kind_constraint ++ []))
        (rw (append-nil (constraint_ops 0 query.kind_constraint)) (some-ops query.kind_constraint)))
    where
      some-ops :
          (ks : List NilableConstraint)
          → (if is_nil (constraint_ops 0 ks) then err empty_query else ok (constraint_ops 0 ks))
            ≡ (if is_nil ks then err empty_query else ok (constraint_ops 0 ks))
      some-ops [] = refl
      some-ops (k ∷ ks) = refl

  abbrev pub kind_op : KindBuilder → Operation
  kind_op b = each_kind domain stream target_op b.kind (pos 0)

  built-ops :
      (bs : List KindBuilder) (index : ℕ)
      → constraint_ops index (map to_kind_constraint bs) ≡ map kind_op bs
  unfolding to_kind_constraint
  built-ops [] index = refl
  built-ops (b ∷ bs) index = ap (λ ops. kind_op b ∷ ops) (built-ops bs (suc index))

  -- A query of kind builders that goes by gRPC asks for all events of each kind, in order, from the first event
  -- on, whatever values and subset each builder has, a subset alone included, and whatever AfterID the query
  -- has; and its result is told to be unfiltered, so that the client filters it.
  pub built_query_operations :
      (b : KindBuilder) (bs : List KindBuilder) (after_id : Option ℤ)
      → let (request, filtered) =
          build_query_request domain stream
            (record { kind_constraint = map to_kind_constraint (b ∷ bs); after_id = after_id }) in
        (build_query_ops request ≡ ok (map kind_op (b ∷ bs))) × (filtered ≡ false)
  unfolding build_query_request all_filtered to_kind_constraint
  built_query_operations b bs after_id = (
    query_operations
          (record { kind_constraint = map to_kind_constraint (b ∷ bs); after_id = after_id })
        ∙ ap ok (built-ops (b ∷ bs) 0),
    refl,
  )
