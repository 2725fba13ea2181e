-- ===== src/Storage/Sql/Holes.antt =====
-- The holes of the statements that the storage service builds, and what is passed for them.
use pgcqrs.Base.{
  ℕ, zero, suc, String, ◌==◌, ℤ, ◌≡◌, refl, ap, sym, ◌∙◌, Bool, false, Option, none, some, List, [],
  ◌∷◌, ◌++◌, append_assoc, append-nil, length, length-append, arith, Bool-cases, inl, inr,
}
use pgcqrs.Wire.{WireQuery, KindConstraint, WireMatcher, is_nil}
use pgcqrs.Storage.Sql.{
  Piece, text, hole_of, Argument, string_argument, id_argument, SqlQuery, append, hole, append_hole,
  translate_values, translate_eq, translate_kind_constraint, translate_kinds, open_query,
  translate_query, add_after,
}

-- The numbers of the holes of a statement, in their order.
unfoldable pub holes : List Piece → List ℕ
holes [] = []
holes (text t ∷ rest) = holes rest
holes (hole_of n ∷ rest) = n ∷ holes rest

-- 1 to `n`
unfoldable pub upto : ℕ → List ℕ
upto zero = []
upto (suc n) = upto n ++ suc n ∷ []

pub holes-append : (xs ys : List Piece) → holes (xs ++ ys) ≡ holes xs ++ holes ys
unfolding holes
holes-append [] ys = refl
holes-append (text t ∷ xs) ys = holes-append xs ys
holes-append (hole_of n ∷ xs) ys = ap (λ l. n ∷ l) (holes-append xs ys)

-- With the pieces that are still to be appended, the holes are 1 to the number of arguments.
pub record Pending (q : SqlQuery) (dml : List Piece) : Type 0 where
  pub started : q.first ≡ false
  pub numbered : holes q.dml ++ holes dml ≡ upto (length q.args)

pub append-Pending :
    (dml next : List Piece) (q : SqlQuery)
    → holes next ≡ []
    → Pending q dml
    → Pending (append dml q) next
unfolding append holes
append-Pending dml next q none_there h = record {
  started = rw h.started refl;
  numbered =
      rw h.started (rw (holes-append q.dml (text " " ∷ dml), none_there, append-nil) h.numbered);
}

pub hole-Pending :
    (what : Argument) (dml dml' : List Piece) (q : SqlQuery)
    → holes dml' ≡ holes dml ++ suc (length q.args) ∷ []
    → Pending q dml
    → Pending (hole what q).1 dml'
unfolding hole upto
hole-Pending what dml dml' q more h = record {
  started = h.started;
  numbered =
      rw (more, one_more)
        (sym (append_assoc (holes q.dml) (holes dml) (suc (length q.args) ∷ []))
          ∙ ap (λ l. l ++ suc (length q.args) ∷ []) h.numbered);
}
  where
    one_more : length (q.args ++ what ∷ []) ≡ suc (length q.args)
    one_more = omega (arith, length-append q.args (what ∷ []))

pub append_hole-Pending :
    (before : String) (what : Argument) (after : String) (q : SqlQuery)
    → Pending q []
    → Pending (append_hole before what after q) []
unfolding append_hole hole holes
append_hole-Pending before what after q h =
    append-Pending (text before ∷ hole_of (suc (length q.args)) ∷ text after ∷ []) [] _ refl
      (hole-Pending what [] _ q refl h)

pub text-Pending : (t : String) (q : SqlQuery) → Pending q [] → Pending (append (text t ∷ []) q) []
unfolding holes
text-Pending t q h =
    append-Pending (text t ∷ []) [] q refl (record { started = h.started; numbered = h.numbered })

values-Pending :
    (vs : List String) (q : SqlQuery) → Pending q [] → Pending (translate_values vs q) []
unfolding translate_values
values-Pending [] q h = h
values-Pending (v ∷ vs) q h =
    values-Pending vs _ (append_hole-Pending "" (string_argument v) "" q h)

eq-Pending : (cs : List WireMatcher) (q : SqlQuery) → Pending q [] → Pending (translate_eq cs q) []
unfolding translate_eq
eq-Pending [] q h = h
eq-Pending (c ∷ cs) q h = eq-Pending cs _ (
    text-Pending ")" _ (
      values-Pending c.value _
        (append_hole-Pending "event#>>" _ " IN (" _ (text-Pending "AND" q h))))

kind-Pending :
    (k : KindConstraint) (q : SqlQuery) → Pending q [] → Pending (translate_kind_constraint k q) []
unfolding translate_kind_constraint
kind-Pending k q h =
    let matched =
      eq-Pending k.eq _ (append_hole-Pending "( k.kind = " (string_argument k.kind) "" q h) in
    elim (Bool-cases (k.match_subset == "")) [
      | inl e ↦ rw e (text-Pending ")" _ matched)
      | inr e ↦ rw e (
          text-Pending ")" _ (
            append_hole-Pending " event @> " (string_argument k.match_subset) "" _
              (text-Pending "AND" _ matched)))
    ]

kinds-Pending :
    (joiner : String) (ks : List KindConstraint) (q : SqlQuery)
    → Pending q []
    → Pending (translate_kinds joiner ks q) []
unfolding translate_kinds
kinds-Pending joiner [] q h = h
kinds-Pending joiner (k ∷ ks) q h =
    kinds-Pending "OR" ks _ (kind-Pending k _ (text-Pending joiner q h))

after-Pending :
    (after_id : Option ℤ) (q : SqlQuery) → Pending q [] → Pending (add_after after_id q) []
after-Pending none q h = h
after-Pending (some id) q h = append_hole-Pending "AND e.id > " (id_argument id) "" q h

opened-Pending :
    (app stream : String) (extract_event : Bool) → Pending (open_query app stream extract_event) []
unfolding open_query append hole holes upto
opened-Pending app stream extract_event = record { started = refl; numbered = refl }

pub query-Pending :
    (app stream : String) (input : WireQuery) (extract_event : Bool)
    → Pending (translate_query app stream input extract_event) []
unfolding translate_query
query-Pending app stream input extract_event =
    let kinds =
      kinds-Pending "AND (" input.kind_constraint _
        (after-Pending input.after_id _ (opened-Pending app stream extract_event)) in
    elim (Bool-cases (is_nil input.kind_constraint)) [
      | inl e ↦ rw e (text-Pending "ORDER BY when_occurred ASC" _ kinds)
      | inr e ↦ rw e (text-Pending "ORDER BY when_occurred ASC" _ (text-Pending ")" _ kinds))
    ]

pub numbered-all : (q : SqlQuery) → Pending q [] → holes q.dml ≡ upto (length q.args)
unfolding holes
numbered-all q h = sym (append-nil (holes q.dml)) ∙ h.numbered
