-- ===== src/Storage/Sql/Operations.antt =====
-- The statement of Repository.Stream: its holes, and what is passed for them.
use pgcqrs.Base.{
  suc, String, ℤ, pos, ltb_ℤ, ◌≡◌, refl, sym, ◌∙◌, false, some, List, [], ◌∷◌, ◌++◌, append_assoc,
  append-nil, length, Bool-cases, inl, inr, if◌then◌else◌,
}
use pgcqrs.Storage.Sql.{
  Piece, hole_of, Argument, string_argument, id_argument, json_argument, SqlQuery, hole, Operation,
  all_stream_events, each_kind, match_subset, match_id, append_after, operation_query, cursor,
  append_operation, append_rest, stream_query,
}
use pgcqrs.Storage.Sql.Holes.{
  holes, upto, holes-append, Pending, append-Pending, hole-Pending, text-Pending, numbered-all,
}
use pgcqrs.Storage.Sql.Arguments.{args-append}

abbrev pub behind_arguments : ℤ → List Argument
behind_arguments after_id = if ltb_ℤ (pos 0) after_id then id_argument after_id ∷ [] else []

-- The values of an operation: its stream, what it selects, and the cursor where it is above 0.
pub operation_arguments : Operation → List Argument
operation_arguments (all_stream_events domain stream op after_id) =
    string_argument domain ∷ string_argument stream ∷ behind_arguments after_id
operation_arguments (each_kind app stream op kind after_id) =
    string_argument app ∷ string_argument stream ∷ string_argument kind ∷ behind_arguments after_id
operation_arguments (match_subset app stream op kind subset after_id) =
    string_argument app
    ∷ string_argument stream
    ∷ string_argument kind
    ∷ json_argument subset
    ∷ behind_arguments after_id
operation_arguments (match_id app stream id op) =
    string_argument app ∷ string_argument stream ∷ id_argument id ∷ []

pub operations_arguments : List Operation → List Argument
unfolding operation_arguments
operations_arguments [] = []
operations_arguments (op ∷ ops) = operation_arguments op ++ operations_arguments ops

module _ (format_int : ℤ → String) where
  after-Pending :
      (dml : List Piece) (after_id : ℤ) (q : SqlQuery)
      → Pending q dml
      → Pending (append_after format_int dml after_id q) []
  unfolding append_after hole holes
  after-Pending dml after_id q h = elim (Bool-cases (ltb_ℤ (pos 0) after_id)) [
    | inl e ↦ rw e (
        append-Pending _ [] _ refl
          (hole-Pending (id_argument after_id) dml _ q (holes-append dml _) h))
    | inr e ↦ rw e (append-Pending dml [] q refl h)
  ]

  -- The two holes of the stream, which each operation starts with.
  abbrev first_two : Argument → SqlQuery → List Piece
  first_two a q = hole_of (suc (length q.args)) ∷ hole_of (suc (length (q.args ++ a ∷ []))) ∷ []

  in_stream-Pending :
      (a b : Argument) (q : SqlQuery)
      → Pending q []
      → Pending (hole b (hole a q).1).1 (first_two a q)
  unfolding hole holes
  in_stream-Pending a b q h =
      hole-Pending b (hole_of (suc (length q.args)) ∷ []) (first_two a q) _ refl
        (hole-Pending a [] (hole_of (suc (length q.args)) ∷ []) q refl h)

  same-Pending :
      (dml dml' : List Piece) (q : SqlQuery)
      → holes dml' ≡ holes dml
      → Pending q dml
      → Pending q dml'
  same-Pending dml dml' q e h = record { started = h.started; numbered = rw e h.numbered }

  query-Pending :
      (op : Operation) (q : SqlQuery)
      → Pending q []
      → Pending (operation_query format_int op q).1 (operation_query format_int op q).0
  unfolding operation_query hole holes
  query-Pending (all_stream_events domain stream op after_id) q h =
      same-Pending (first_two (string_argument domain) q) _ _ refl
        (in_stream-Pending (string_argument domain) (string_argument stream) q h)
  query-Pending (each_kind app stream op kind after_id) q h =
      hole-Pending (string_argument kind) (first_two (string_argument app) q) _ _ refl
        (in_stream-Pending (string_argument app) (string_argument stream) q h)
  query-Pending (match_subset app stream op kind subset after_id) q h =
      let two = in_stream-Pending (string_argument app) (string_argument stream) q h in
      let (_, q') = hole (string_argument app) q in
      let (_, q'') = hole (string_argument stream) q' in
      let three = first_two (string_argument app) q ++ hole_of (suc (length q''.args)) ∷ [] in
      hole-Pending (json_argument subset) three _ _ refl
        (hole-Pending (string_argument kind) (first_two (string_argument app) q) three q'' refl two)
  query-Pending (match_id app stream id op) q h =
      hole-Pending (id_argument id) (first_two (string_argument app) q) _ _ refl
        (in_stream-Pending (string_argument app) (string_argument stream) q h)

  operation-Pending :
      (op : Operation) (q : SqlQuery) → Pending q [] → Pending (append_operation format_int op q) []
  unfolding append_operation
  operation-Pending op q h =
      after-Pending (operation_query format_int op q).0 (cursor format_int op)
        (operation_query format_int op q).1 (query-Pending op q h)

  rest-Pending :
      (ops : List Operation) (q : SqlQuery)
      → Pending q []
      → Pending (append_rest format_int ops q) []
  unfolding append_rest
  rest-Pending [] q h = h
  rest-Pending (op ∷ ops) q h =
      rest-Pending ops _ (operation-Pending op _ (text-Pending "UNION ALL" q h))

  args-after :
      (dml : List Piece) (after_id : ℤ) (q : SqlQuery)
      → (append_after format_int dml after_id q).args ≡ q.args ++ behind_arguments after_id
  unfolding append_after hole
  args-after dml after_id q = elim (Bool-cases (ltb_ℤ (pos 0) after_id)) [
    | inl e ↦ rw (e, args-append) refl
    | inr e ↦ rw (e, args-append, append-nil) refl
  ]

  args-query :
      (op : Operation) (q : SqlQuery)
      → (operation_query format_int op q).1.args ++ behind_arguments (cursor format_int op)
        ≡ q.args ++ operation_arguments op
  unfolding operation_query hole operation_arguments
  args-query (all_stream_events domain stream op after_id) q = rw (append_assoc, append_assoc) refl
  args-query (each_kind app stream op kind after_id) q =
      rw (append_assoc, append_assoc, append_assoc) refl
  args-query (match_subset app stream op kind subset after_id) q =
      rw (append_assoc, append_assoc, append_assoc, append_assoc) refl
  args-query (match_id app stream id op) q = rw (append_assoc, append_assoc, append_assoc) refl

  args-operation :
      (op : Operation) (q : SqlQuery)
      → (append_operation format_int op q).args ≡ q.args ++ operation_arguments op
  unfolding append_operation
  args-operation op q =
      args-after (operation_query format_int op q).0 (cursor format_int op)
        (operation_query format_int op q).1
      ∙ args-query op q

  args-rest :
      (ops : List Operation) (q : SqlQuery)
      → (append_rest format_int ops q).args ≡ q.args ++ operations_arguments ops
  unfolding append_rest operations_arguments
  args-rest [] q = sym (append-nil q.args)
  args-rest (op ∷ ops) q = rw (args-rest ops, args-operation, args-append, append_assoc) refl

  -- Repository.Stream without an operation is an error. With operations its statement's holes are 1 to the
  -- number of its arguments, each once and in their order, and the arguments are, in that order, those of
  -- each operation: its stream, what it selects, and its cursor where that is above 0.
  pub stream_query_binds :
      (op : Operation) (ops : List Operation)
      → (q : SqlQuery) × (stream_query format_int (op ∷ ops) ≡ some q)
        × (holes q.dml ≡ upto (length q.args))
        × (q.args ≡ operations_arguments (op ∷ ops))
  unfolding stream_query operations_arguments holes upto
  stream_query_binds op ops = (
    _,
    refl,
    numbered-all _ (
        text-Pending _ _ (
          rest-Pending ops _ (
            operation-Pending op _ (
              text-Pending _ (record { first = false; dml = []; args = [] })
                (record { started = refl; numbered = refl }))))),
    rw (args-append, args-rest, args-operation) refl,
  )
