-- ===== src/Storage/Sql.antt =====
-- The SQL that the storage service builds (internal/service/storage/sqlquery.go, queryBuilder.go,
-- allStreamEvents.go, eachKind.go, matchsubset.go, matchid.go, batchr2.go, and the query of
-- repository.go). A statement is the list of its pieces, which are texts and the holes of its
-- parameters: Go's string is their concatenation, where the hole `n` reads `$n`.
pub mod Holes
pub mod Arguments
pub mod Operations
use Prim.Native.String.{◌++◌ as str_append}
use pgcqrs.Base.{
  ℕ, suc, String, ◌==◌, ℤ, pos, ltb_ℤ, Bool, true, false, Option, none, some, List, [], ◌∷◌, ◌++◌,
  if◌then◌else◌, length, map,
}
use pgcqrs.Wire.{
  WireQuery, KindConstraint, WireMatcher, WireBatchRequest, WireBatchKindQuery, WireBatchKindMatch,
  WireBatchIdQuery, is_nil,
}

pub data Piece : Type 0 where
  text : String → Piece
  hole_of : ℕ → Piece

-- A value that is passed for a hole: a string, an int64 or a json.RawMessage.
pub data Argument : Type 0 where
  string_argument : String → Argument
  id_argument : ℤ → Argument
  json_argument : String → Argument

pub record SqlQuery : Type 0 where
  pub first : Bool
  pub dml : List Piece
  pub args : List Argument

pub append : List Piece → SqlQuery → SqlQuery
append dml q =
    if q.first
    then record q { dml = dml; first = false }
    else record q { dml = q.dml ++ text " " ∷ dml }

pub hole : Argument → SqlQuery → Piece × SqlQuery
hole what q = (hole_of (suc (length q.args)), record q { args = q.args ++ what ∷ [] })

-- `q.append(before + q.hole(what) + after)`
pub append_hole : String → Argument → String → SqlQuery → SqlQuery
unfolding append hole
append_hole before what after q =
    let (piece, q') = hole what q in append (text before ∷ piece ∷ text after ∷ []) q'

-- strings.Join(c.Property, "\",\"") between braces and quotes
pub joined : List String → String
joined [] = ""
joined (x ∷ []) = x
joined (x ∷ y ∷ rest) = str_append x (str_append "\",\"" (joined (y ∷ rest)))

pub property_path : List String → String
unfolding joined
property_path property = str_append "{\"" (str_append (joined property) "\"}")

pub translate_values : List String → SqlQuery → SqlQuery
unfolding append_hole
translate_values [] q = q
translate_values (v ∷ vs) q = translate_values vs (append_hole "" (string_argument v) "" q)

pub translate_eq : List WireMatcher → SqlQuery → SqlQuery
unfolding append append_hole property_path translate_values
translate_eq [] q = q
translate_eq (c ∷ cs) q =
    let opened =
      append_hole "event#>>" (string_argument (property_path c.property)) " IN ("
        (append (text "AND" ∷ []) q) in
    translate_eq cs (append (text ")" ∷ []) (translate_values c.value opened))

pub translate_kind_constraint : KindConstraint → SqlQuery → SqlQuery
unfolding append append_hole translate_eq
translate_kind_constraint k q =
    let matched = translate_eq k.eq (append_hole "( k.kind = " (string_argument k.kind) "" q) in
    let subset =
      if k.match_subset == ""
      then matched
      else append_hole " event @> " (string_argument k.match_subset) ""
          (append (text "AND" ∷ []) matched) in
    append (text ")" ∷ []) subset

pub translate_kinds : String → List KindConstraint → SqlQuery → SqlQuery
unfolding append translate_kind_constraint
translate_kinds joiner [] q = q
translate_kinds joiner (k ∷ ks) q =
    translate_kinds "OR" ks (translate_kind_constraint k (append (text joiner ∷ []) q))

abbrev pub add_after : Option ℤ → SqlQuery → SqlQuery
add_after none q = q
add_after (some after_id) q = append_hole "AND e.id > " (id_argument after_id) "" q

-- The statement with the clause of the stream and its two arguments.
pub open_query : String → String → Bool → SqlQuery
unfolding append hole
open_query app stream extract_event =
    let projection =
      if extract_event
      then "SELECT e.id, when_occurred, k.kind, event"
      else "SELECT e.id, when_occurred, k.kind" in
    let selected = append (text projection ∷ []) (record { first = true; dml = []; args = [] }) in
    let joined_tables =
      append
        (text
            "FROM events e INNER JOIN events_kind k ON e.kind_id = k.id INNER JOIN events_stream s ON e.stream_id = s.id"
          ∷ [])
        selected in
    let constrained =
      append
        (text "WHERE (s.app = " ∷ hole_of 1 ∷ text " AND s.stream = " ∷ hole_of 2 ∷ text ")" ∷ [])
        joined_tables in
    let (_, with_app) = hole (string_argument app) constrained in
    let (_, with_stream) = hole (string_argument stream) with_app in with_stream

pub translate_query : String → String → WireQuery → Bool → SqlQuery
unfolding append open_query translate_kinds
translate_query app stream input extract_event =
    let opened = add_after input.after_id (open_query app stream extract_event) in
    let kinds = translate_kinds "AND (" input.kind_constraint opened in
    let closed = if is_nil input.kind_constraint then kinds else append (text ")" ∷ []) kinds in
    append (text "ORDER BY when_occurred ASC" ∷ []) closed

pub data Operation : Type 0 where
  all_stream_events : (domain stream : String) (op after_id : ℤ) → Operation
  each_kind : (app stream : String) (op : ℤ) (kind : String) (after_id : ℤ) → Operation
  match_subset : (app stream : String) (op : ℤ) (kind subset : String) (after_id : ℤ) → Operation
  match_id : (app stream : String) (id op : ℤ) → Operation

-- UpdateAfterID
pub update_after_id : Operation → ℤ → Operation
update_after_id (all_stream_events domain stream op _) id = all_stream_events domain stream op id
update_after_id (each_kind app stream op kind _) id = each_kind app stream op kind id
update_after_id (match_subset app stream op kind subset _) id =
    match_subset app stream op kind subset id
update_after_id (match_id app stream wanted op) id = match_id app stream wanted op

module _ (format_int : ℤ → String) where
  -- The query's text up to its first hole; `format_int` is `%d`.
  abbrev pub selecting : ℤ → List Piece
  selecting op =
      text "SELECT e.id as id, e.when_occurred, "
      ∷ text (format_int op)
      ∷ text
          " as op, e.event, ek.kind\nFROM events e\nINNER JOIN events_kind ek on e.kind_id = ek.id\nINNER JOIN events_stream es ON e.stream_id = es.id\nWHERE es.app = "
      ∷ []

  -- `if AfterID > 0 { query += " AND e.id > " + q.hole(AfterID) }` and q.append
  pub append_after : List Piece → ℤ → SqlQuery → SqlQuery
  unfolding append hole
  append_after query after_id q =
      if ltb_ℤ (pos 0) after_id
      then (let (after, q') = hole (id_argument after_id) q in
          append (query ++ text " AND e.id > " ∷ after ∷ []) q')
      else append query q

  -- The clauses of the stream, which each operation starts with.
  abbrev pub in_stream : ℤ → String → String → SqlQuery → List Piece × SqlQuery
  in_stream op app stream q =
      let (app_hole, q') = hole (string_argument app) q in
      let (stream_hole, q'') = hole (string_argument stream) q' in
      (selecting op ++ app_hole ∷ text " and es.stream = " ∷ stream_hole ∷ [], q'')

  -- The Sprintf of an operation's method append.
  pub operation_query : Operation → SqlQuery → List Piece × SqlQuery
  unfolding hole
  operation_query (all_stream_events domain stream op after_id) q = in_stream op domain stream q
  operation_query (each_kind app stream op kind after_id) q =
      let (query, q') = in_stream op app stream q in
      let (kind_hole, q'') = hole (string_argument kind) q' in
      (query ++ text " and ek.kind = " ∷ kind_hole ∷ [], q'')
  operation_query (match_subset app stream op kind subset after_id) q =
      let (query, q') = in_stream op app stream q in
      let (kind_hole, q'') = hole (string_argument kind) q' in
      let (subset_hole, q''') = hole (json_argument subset) q'' in
      (
        query ++ text " and ek.kind = " ∷ kind_hole ∷ text " AND e.event @> " ∷ subset_hole ∷ [],
        q''',
      )
  operation_query (match_id app stream id op) q =
      let (query, q') = in_stream op app stream q in
      let (id_hole, q'') = hole (id_argument id) q' in
      (query ++ text " and e.id = " ∷ id_hole ∷ [], q'')

  -- The method append of an operation. One by ID has no cursor, which is as one that is 0.
  abbrev pub cursor : Operation → ℤ
  cursor (all_stream_events domain stream op after_id) = after_id
  cursor (each_kind app stream op kind after_id) = after_id
  cursor (match_subset app stream op kind subset after_id) = after_id
  cursor (match_id app stream id op) = pos 0

  pub append_operation : Operation → SqlQuery → SqlQuery
  unfolding append_after operation_query
  append_operation op q =
      let (query, q') = operation_query op q in append_after query (cursor op) q'

  pub append_rest : List Operation → SqlQuery → SqlQuery
  unfolding append append_operation
  append_rest [] q = q
  append_rest (op ∷ ops) q =
      append_rest ops (append_operation op (append (text "UNION ALL" ∷ []) q))

  -- The statement of Repository.Stream; `none` where it yields the error "no target operations". Its
  -- builder starts with `first` as false.
  pub stream_query : List Operation → Option SqlQuery
  unfolding append append_operation append_rest
  stream_query [] = none
  stream_query (op ∷ ops) =
      let opened =
        append (text "SELECT o.id, o.when_occurred, o.op, o.event, o.kind FROM (" ∷ [])
          (record { first = false; dml = []; args = [] }) in
      some (
        append (text ") as o ORDER BY o.when_occurred ASC" ∷ [])
          (append_rest ops (append_operation op opened)))

-- The rounds of a loop that append to `output`.
unfoldable pub flat_map {ℓ κ} : {A : Type ℓ} {B : Type κ} → (A → List B) → List A → List B
flat_map f [] = []
flat_map f (x ∷ xs) = f x ++ flat_map f xs

module _ (app stream : String) (after_id : ℤ) where
  abbrev pub translate_match : String → WireBatchKindMatch → Operation
  translate_match kind m = match_subset app stream m.op kind m.subset after_id

  abbrev pub translate_all : String → Option ℤ → List Operation
  translate_all kind none = []
  translate_all kind (some op) = each_kind app stream op kind after_id ∷ []

  unfoldable pub translate_kind : WireBatchKindQuery → List Operation
  translate_kind k = translate_all k.kind k.all ++ map (translate_match k.kind) k.match

abbrev pub translate_id : String → String → WireBatchIdQuery → Operation
translate_id app stream i = match_id app stream i.id i.op

abbrev pub or_zero : Option ℤ → ℤ
or_zero none = pos 0
or_zero (some id) = id

unfoldable pub translate_batch_r2 : String → String → WireBatchRequest → List Operation
unfolding flat_map translate_kind
translate_batch_r2 app stream request =
    flat_map (translate_kind app stream (or_zero request.after_id)) request.on_kinds
    ++ map (translate_id app stream) request.on_id
