-- ===== src/Storage/Sql/Arguments.antt =====
-- What TranslateQuery passes for the holes of its statement.
use pgcqrs.Base.{
  String, ◌==◌, ℤ, ◌≡◌, refl, ap, sym, ◌∙◌, Bool, Option, none, some, List, [], ◌∷◌, ◌++◌, map,
  append_assoc, append-nil, length, Bool-cases, inl, inr, if◌then◌else◌,
}
use pgcqrs.Wire.{WireQuery, KindConstraint, WireMatcher, is_nil}
use pgcqrs.Storage.Sql.{
  Piece, Argument, string_argument, id_argument, SqlQuery, append, hole, append_hole, property_path,
  translate_values, translate_eq, translate_kind_constraint, translate_kinds, open_query,
  translate_query, add_after,
}
use pgcqrs.Storage.Sql.Holes.{holes, upto, query-Pending, numbered-all}

-- The values that a query constrains, in the order of its constraints.
pub eq_arguments : List WireMatcher → List Argument
eq_arguments [] = []
eq_arguments (c ∷ cs) =
    string_argument (property_path c.property) ∷ map string_argument c.value ++ eq_arguments cs

pub kind_arguments : KindConstraint → List Argument
unfolding eq_arguments
kind_arguments k =
    string_argument k.kind ∷ eq_arguments k.eq
    ++ (if k.match_subset == "" then [] else string_argument k.match_subset ∷ [])

pub kinds_arguments : List KindConstraint → List Argument
unfolding kind_arguments
kinds_arguments [] = []
kinds_arguments (k ∷ ks) = kind_arguments k ++ kinds_arguments ks

abbrev pub after_arguments : Option ℤ → List Argument
after_arguments none = []
after_arguments (some id) = id_argument id ∷ []

pub query_arguments : String → String → WireQuery → List Argument
unfolding kinds_arguments
query_arguments app stream input =
    string_argument app ∷ string_argument stream ∷ after_arguments input.after_id
    ++ kinds_arguments input.kind_constraint

pub args-append : (dml : List Piece) (q : SqlQuery) → (append dml q).args ≡ q.args
unfolding append
args-append dml q = elim (Bool-cases q.first) [ inl e ↦ rw e refl | inr e ↦ rw e refl ]

args-append_hole :
    (before : String) (what : Argument) (after : String) (q : SqlQuery)
    → (append_hole before what after q).args ≡ q.args ++ what ∷ []
unfolding append_hole hole
args-append_hole before what after q = args-append _ _

args-values :
    (vs : List String) (q : SqlQuery)
    → (translate_values vs q).args ≡ q.args ++ map string_argument vs
unfolding translate_values
args-values [] q = sym (append-nil q.args)
args-values (v ∷ vs) q =
    args-values vs _
    ∙ ap (λ l. l ++ map string_argument vs) (args-append_hole "" (string_argument v) "" q)
    ∙ append_assoc q.args (string_argument v ∷ []) (map string_argument vs)

args-eq :
    (cs : List WireMatcher) (q : SqlQuery) → (translate_eq cs q).args ≡ q.args ++ eq_arguments cs
unfolding translate_eq eq_arguments
args-eq [] q = sym (append-nil q.args)
args-eq (c ∷ cs) q =
    rw
      (
        args-eq cs,
        args-append,
        args-values,
        args-append_hole,
        args-append,
        append_assoc,
        append_assoc,
      )
      refl

args-kind :
    (k : KindConstraint) (q : SqlQuery)
    → (translate_kind_constraint k q).args ≡ q.args ++ kind_arguments k
unfolding translate_kind_constraint kind_arguments
args-kind k q = elim (Bool-cases (k.match_subset == "")) [
  | inl e ↦ rw (e, args-append, args-eq, args-append_hole, append_assoc, append-nil) refl
  | inr e ↦
      rw
        (
          e, args-append, args-append_hole, args-append, args-eq, args-append_hole, append_assoc,
          append_assoc,
        )
        refl
]

args-kinds :
    (joiner : String) (ks : List KindConstraint) (q : SqlQuery)
    → (translate_kinds joiner ks q).args ≡ q.args ++ kinds_arguments ks
unfolding translate_kinds kinds_arguments
args-kinds joiner [] q = sym (append-nil q.args)
args-kinds joiner (k ∷ ks) q = rw (args-kinds "OR" ks, args-kind, args-append, append_assoc) refl

args-after :
    (after_id : Option ℤ) (q : SqlQuery)
    → (add_after after_id q).args ≡ q.args ++ after_arguments after_id
args-after none q = sym (append-nil q.args)
args-after (some id) q = args-append_hole "AND e.id > " (id_argument id) "" q

args-opened :
    (app stream : String) (extract_event : Bool)
    → (open_query app stream extract_event).args ≡ string_argument app ∷ string_argument stream ∷ []
unfolding open_query append hole
args-opened app stream extract_event = refl

args-closed :
    (app stream : String) (input : WireQuery) (extract_event : Bool)
    → (translate_query app stream input extract_event).args
      ≡ (translate_kinds "AND (" input.kind_constraint
          (add_after input.after_id (open_query app stream extract_event))).args
unfolding translate_query
args-closed app stream input extract_event = elim (Bool-cases (is_nil input.kind_constraint)) [
  | inl e ↦ rw (e, args-append) refl
  | inr e ↦ rw e (rw args-append (rw args-append refl))
]

-- The holes of TranslateQuery's statement are 1 to the number of its arguments, each once and in their
-- order, and the arguments are, in that order, the domain, the stream, After if it is set, and for each
-- constraint its kind, the path and the values of each of its properties, and its subset if it has one.
pub translate_query_binds :
    (app stream : String) (input : WireQuery) (extract_event : Bool)
    → (holes (translate_query app stream input extract_event).dml
        ≡ upto (length (translate_query app stream input extract_event).args))
      × ((translate_query app stream input extract_event).args ≡ query_arguments app stream input)
unfolding query_arguments
translate_query_binds app stream input extract_event = (
  numbered-all _ (query-Pending app stream input extract_event),
  args-closed app stream input extract_event
      ∙ rw (args-kinds "AND (" input.kind_constraint, args-after, args-opened) refl,
)
