-- ===== src/Memory/Queries/Answers.antt =====
-- Query answers: where nothing in the stream or the request is malformed it returns the events that match.
use mathlib.Core.List.{Memᴰ}
use mathlib.Core.Path.{subst}
use pgcqrs.Base.{
  Bool, ◌++◌, String, ◌==◌, ℤ, true, false, ◌≡◌, inl, inr, refl, ◌↔◌, Option, some, List, [], ◌∷◌,
  Bool-cases, Option-cases, if◌then◌else◌, All,
}
use pgcqrs.Wire.{
  Envelope, WireMatcher, KindConstraint, WireQuery, WireQueryResult, Result, ok, Runtime, is_nil,
}
use pgcqrs.Wire.Loops.{for_each-ok}
use pgcqrs.Memory.State.{Memory, waits}
use pgcqrs.Memory.Streams.{all_envelopes}
use pgcqrs.Memory.Queries.{
  json_is_subset, skipped, find_matching_constraint, join, match_properties,
  filter_matched_properties, filter_subset_match, apply_eq_filter, apply_subset_filter,
  filter_constrained, filter, add_matching, query_envelopes, query, load,
}
use pgcqrs.Memory.Queries.Filter.{IsFirst, Matches, find_iff, query_envelopes_lem}

-- A matcher that names a value.
abbrev pub HasValue : WireMatcher → Type 0
HasValue w = (v : String) × (vs : List String) × (w.value ≡ v ∷ vs)

match_properties-ok :
    (parser : String → Option String) (ws : List WireMatcher)
    → All HasValue ws
    → (b : Bool) × (match_properties parser ws ≡ ok b)
unfolding match_properties
match_properties-ok parser [] fine = (true, refl)
match_properties-ok parser (w ∷ ws) ((x, xs, q), fine) =
    elim (Option-cases (parser (join w.property))) [
      | inl p ↦ (false, rw (p, match_properties))
      | inr (v, p) ↦ elim (Bool-cases (v == x)) [
        | inl b ↦
            let (r, e) = match_properties-ok parser ws fine in (r, rw (p, match_properties, q, b) e)
        | inr b ↦ (false, rw (p, match_properties, q, b) refl)
      ]
    ]

IsFirst-All :
    (P : KindConstraint → Type 0) (kind : String) (cs : List KindConstraint) (c : KindConstraint)
    → IsFirst kind cs c
    → All P cs
    → P c
IsFirst-All P kind [] c h fine = absurd h
IsFirst-All P kind (x ∷ xs) c (inl (k, s)) fine = subst P s fine.0
IsFirst-All P kind (x ∷ xs) c (inr (k, s)) fine = IsFirst-All P kind xs c s fine.1

module _ (rt : Runtime) (load : ℤ → Result String) where
  -- The event can be read, and a JSON query can be made of its body.
  abbrev pub IsReadable : Envelope → Type 0
  IsReadable e =
      (body : String) × (parser : (String → Option String)) × (load e.id ≡ ok body)
      × (rt.string_query body ≡ some parser)

  apply_eq_filter-ok :
      (c : KindConstraint) (e : Envelope) (body : String) (parser : String → Option String)
      → load e.id ≡ ok body
      → rt.string_query body ≡ some parser
      → All HasValue c.eq
      → (b : Bool) × (apply_eq_filter rt load c e ≡ ok b)
  unfolding apply_eq_filter filter_matched_properties
  apply_eq_filter-ok c e body parser p q fine = elim (Bool-cases (is_nil c.eq)) [
    | inl n ↦ (true, rw n refl)
    | inr n ↦ let (b, r) = match_properties-ok parser c.eq fine in (b, rw (n, p, q) r)
  ]

  apply_subset_filter-ok :
      (c : KindConstraint) (e : Envelope) (body : String)
      → load e.id ≡ ok body
      → (b : Bool) × (apply_subset_filter rt load c e ≡ ok b)
  unfolding apply_subset_filter filter_subset_match
  apply_subset_filter-ok c e body p = elim (Bool-cases (c.match_subset == "")) [
    | inl n ↦ (true, rw n refl)
    | inr n ↦ (json_is_subset rt body c.match_subset, rw (n, p) refl)
  ]

  filter-ok :
      (q : WireQuery) (e : Envelope) (body : String) (parser : String → Option String)
      → load e.id ≡ ok body
      → rt.string_query body ≡ some parser
      → All (λ (c : KindConstraint). All HasValue c.eq) q.kind_constraint
      → (b : Bool) × (filter rt load q e ≡ ok b)
  unfolding filter filter_constrained
  filter-ok q e body parser p jq fine = elim (Bool-cases (skipped q.after_id e.id)) [
    | inl s ↦ (false, rw s refl)
    | inr s ↦ elim (Bool-cases (is_nil q.kind_constraint)) [
      | inl n ↦ (true, rw (s, n) refl)
      | inr n ↦ elim (Option-cases (find_matching_constraint e.kind q.kind_constraint)) [
        | inl f ↦ (false, rw (s, n, filter_constrained, f) refl)
        | inr (c, f) ↦
            let has =
              IsFirst-All (λ (c : KindConstraint). All HasValue c.eq) e.kind q.kind_constraint c
                ((find_iff e.kind q.kind_constraint c).0 f) fine in
            let (b, r) = apply_eq_filter-ok c e body parser p jq has in
            elim (Bool-cases b) [
              | inl t ↦
                  let (b', r') = apply_subset_filter-ok c e body p in
                  (b', rw (s, n, filter_constrained, f, r, t) r')
              | inr t ↦ (false, rw (s, n, filter_constrained, f, r, t) refl)
            ]
      ]
    ]
  ]

  query_envelopes-ok :
      (q : WireQuery) (es : List Envelope)
      → ((e : Envelope) → Memᴰ e es → IsReadable e)
      → All (λ (c : KindConstraint). All HasValue c.eq) q.kind_constraint
      → (r : WireQueryResult) × (query_envelopes rt load q es ≡ ok r)
  unfolding query_envelopes add_matching
  query_envelopes-ok q es readable fine =
      let (out, h) = for_each-ok (add_matching rt load q) es [] round in
      (record { filtered = true; subset_match = true; matching = out }, rw h refl)
    where
      round :
          (e : Envelope) (out : List Envelope)
          → Memᴰ e es
          → (out' : List Envelope) × (add_matching rt load q e out ≡ ok out')
      round e out k =
          let (body, parser, p, jq) = readable e k in
          let (b, r) = filter-ok q e body parser p jq fine in
          (if b then out ++ e ∷ [] else out, rw r refl)

-- Query on a stream whose events can be read, each with a body that is JSON for the JSON query, and with a value
-- for each matcher, returns a result, and that holds exactly the envelopes of the stream that match.
pub query-Matches :
    (rt : Runtime) (d s : String) (m : Memory) (q : WireQuery) (es : List Envelope)
    → (all_envelopes rt waits d s m).0 ≡ ok es
    → ((e : Envelope) → Memᴰ e es → IsReadable rt (load rt waits d s m) e)
    → All (λ (c : KindConstraint). All HasValue c.eq) q.kind_constraint
    → (r : WireQueryResult) × (query rt waits d s m q ≡ ok r)
      × ((e : Envelope) → Memᴰ e r.matching ↔ (Memᴰ e es × Matches rt (load rt waits d s m) q e))
unfolding query
query-Matches rt d s m q es listed readable fine =
    let (r, h) = query_envelopes-ok rt (load rt waits d s m) q es readable fine in
    (r, rw listed h, query_envelopes_lem rt (load rt waits d s m) q es r h)
