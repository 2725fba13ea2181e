-- ===== src/Memory/Queries/Filter.antt =====
-- The filter of a query: which events pass it.
use mathlib.Core.List.{Memᴰ}
use mathlib.Core.List.Memᴰ
use pgcqrs.Base.{
  String, ◌==◌, ℤ, true, false, ◌≡◌, ◌≢◌, ◌⊎◌, inl, inr, refl, sym, ap, ◌∙◌, ◌↔◌, Option, some,
  List, [], ◌∷◌, arith, eq_iff, Bool-cases, Option-cases, List-cases, if◌then◌else◌, All,
}
use pgcqrs.Wire.{
  Envelope, WireMatcher, KindConstraint, WireQuery, WireQueryResult, Result, Result-cases, ok,
  Runtime, is_nil, for_each,
}
use pgcqrs.Wire.Loops.{bind-ok, ok_injective, read-Adds, for_each-Adds}
use pgcqrs.Memory.Queries.{
  json_is_subset, skipped, find_matching_constraint, join, match_properties,
  filter_matched_properties, filter_subset_match, apply_eq_filter, apply_subset_filter,
  filter_constrained, filter, add_matching, query_envelopes,
}

-- The constraint is the first one of the list for this kind.
abbrev pub IsFirst : String → List KindConstraint → KindConstraint → Type 0
IsFirst kind [] c = ⊥
IsFirst kind (x ∷ xs) c = ((x.kind ≡ kind) × (x ≡ c)) ⊎ ((x.kind ≢ kind) × IsFirst kind xs c)

pub find_iff :
    (kind : String) (cs : List KindConstraint) (c : KindConstraint)
    → (find_matching_constraint kind cs ≡ some c) ↔ IsFirst kind cs c
unfolding find_matching_constraint
find_iff kind [] c = (λ e. absurd (ground (arith, e)), λ h. absurd h)
find_iff kind (x ∷ xs) c = elim (Bool-cases (kind == x.kind)) [
  | inl e ↦ rw e (
    λ h. inl (sym ((eq_iff kind x.kind).0 e), ground (arith, h)),
    λ h. elim h [
      | inl (k, s) ↦ ap some s
      | inr (k, s) ↦ absurd (k (sym ((eq_iff kind x.kind).0 e)))
    ],
  )
  | inr e ↦ rw e (
    λ h.
        inr (
          λ k. absurd (ground (arith, e, (eq_iff kind x.kind).1 (sym k))),
          (find_iff kind xs c).0 h,
        ),
    λ h. elim h [
      | inl (k, s) ↦ absurd (ground (arith, e, (eq_iff kind x.kind).1 (sym k)))
      | inr (k, s) ↦ (find_iff kind xs c).1 s
    ],
  )
]

-- The document has the first value of the matcher at its path.
abbrev pub Holds : (String → Option String) → WireMatcher → Type 0
Holds parser w =
    (v : String) × (vs : List String) × (w.value ≡ v ∷ vs) × (parser (join w.property) ≡ some v)

match_properties_iff :
    (parser : String → Option String) (ws : List WireMatcher)
    → (match_properties parser ws ≡ ok true) ↔ All (Holds parser) ws
unfolding match_properties
match_properties_iff parser [] = (λ e. tt, λ h. refl)
match_properties_iff parser (w ∷ ws) = elim (Option-cases (parser (join w.property))) [
  | inl p ↦ (
    λ e. absurd (ground (arith, rw (p, match_properties) at e)),
    λ ((v, vs, q, r), rest). absurd (ground (arith, p, r)),
  )
  | inr (v, p) ↦ elim (List-cases w.value) [
    | inl q ↦ (
      λ e. absurd (ground (arith, rw (p, match_properties, q) at e)),
      λ ((x, xs, r, s), rest). absurd (ground (arith, q, r)),
    )
    | inr (x, xs, q) ↦ elim (Bool-cases (v == x)) [
      | inl b ↦
          rw (p, match_properties, q, b)
            (
              λ e.
                  ((x, xs, refl, ap some ((eq_iff v x).0 b)), (match_properties_iff parser ws).0 e),
              λ (_, rest). (match_properties_iff parser ws).1 rest,
            )
      | inr b ↦
          rw (p, match_properties, q, b)
            (
              λ e. absurd (ground (arith, e)),
              λ ((y, ys, r, s), rest). absurd (ground (arith, p, q, r, s, b, eq_iff v x)),
            )
    ]
  ]
]

module _ (rt : Runtime) (load : ℤ → Result String) where
  -- The properties of a constraint hold of the event, if it has any.
  abbrev pub EqHolds : KindConstraint → Envelope → Type 0
  EqHolds c e =
      (c.eq ≡ [])
      ⊎ ((body : String) × (parser : (String → Option String)) × (load e.id ≡ ok body)
          × (rt.string_query body ≡ some parser)
          × All (Holds parser) c.eq)

  -- The subset of a constraint, if it has one, is a subset of the event.
  abbrev pub SubsetHolds : KindConstraint → Envelope → Type 0
  SubsetHolds c e =
      (c.match_subset ≡ "")
      ⊎ ((body : String) × (load e.id ≡ ok body) × (json_is_subset rt body c.match_subset ≡ true))

  abbrev pub Matches : WireQuery → Envelope → Type 0
  Matches q e =
      (skipped q.after_id e.id ≡ false)
      × ((q.kind_constraint ≡ [])
          ⊎ ((c : KindConstraint) × IsFirst e.kind q.kind_constraint c
              × EqHolds c e
              × SubsetHolds c e))

  matched_iff :
      (c : KindConstraint) (e : Envelope)
      → (filter_matched_properties rt load c e ≡ ok true) ↔ (
          (body : String) × (parser : (String → Option String)) × (load e.id ≡ ok body)
          × (rt.string_query body ≡ some parser)
          × All (Holds parser) c.eq)
  unfolding filter_matched_properties
  matched_iff c e = elim (Result-cases (load e.id)) [
    | inr (x, p) ↦ (
      λ h. absurd (ground (arith, rw p at h)),
      λ (body, parser, q, r, s). absurd (ground (arith, p, q)),
    )
    | inl (body, p) ↦ elim (Option-cases (rt.string_query body)) [
      | inl n ↦ (
        λ h. absurd (ground (arith, rw (p, n) at h)),
        λ (body', parser, q, r, s). absurd (ground (arith, p, q, n, r)),
      )
      | inr (parser, n) ↦ (
        λ h. (body, parser, p, n, (match_properties_iff parser c.eq).0 (rw (p, n) at h)),
        λ (body', parser', q, r, s). rw (q, r) ((match_properties_iff parser' c.eq).1 s),
      )
    ]
  ]

  apply_eq_iff :
      (c : KindConstraint) (e : Envelope) → (apply_eq_filter rt load c e ≡ ok true) ↔ EqHolds c e
  unfolding apply_eq_filter
  apply_eq_iff c e = elim (List-cases c.eq) [
    | inl n ↦ (λ h. inl n, λ h. rw (n, apply_eq_filter))
    | inr (w, ws, n) ↦ rw (is_nil_false n) (
      λ h. inr ((matched_iff c e).0 h),
      λ h. elim h [ inl z ↦ absurd (ground (arith, n, z)) | inr y ↦ (matched_iff c e).1 y ],
    )
  ]
    where
      is_nil_false : {w : WireMatcher} {ws : List WireMatcher} → c.eq ≡ w ∷ ws → is_nil c.eq ≡ false
      is_nil_false n = rw n refl

  apply_subset_iff :
      (c : KindConstraint) (e : Envelope)
      → (apply_subset_filter rt load c e ≡ ok true) ↔ SubsetHolds c e
  unfolding apply_subset_filter filter_subset_match
  apply_subset_iff c e = elim (Bool-cases (c.match_subset == "")) [
    | inl b ↦ rw b (λ h. inl ((eq_iff c.match_subset "").0 b), λ h. refl)
    | inr b ↦ rw b (
      λ h.
          let (body, p, q) =
            bind-ok (load e.id) (λ body. ok (json_is_subset rt body c.match_subset)) true h in
          inr (body, p, ok_injective (json_is_subset rt body c.match_subset) true q),
      λ h. elim h [
        | inl n ↦ absurd (ground (arith, b, (eq_iff c.match_subset "").1 n))
        | inr (body, p, q) ↦ rw p (ap ok q)
      ],
    )
  ]

  constrained_iff :
      (q : WireQuery) (e : Envelope)
      → (filter_constrained rt load q e ≡ ok true) ↔ (
          (c : KindConstraint) × IsFirst e.kind q.kind_constraint c × EqHolds c e × SubsetHolds c e)
  unfolding filter_constrained
  constrained_iff q e = elim (Option-cases (find_matching_constraint e.kind q.kind_constraint)) [
    | inl n ↦ (
      λ h. absurd (ground (arith, rw (n, filter_constrained) at h)),
      λ (c, first, p, s). absurd (ground (arith, n, (find_iff e.kind q.kind_constraint c).1 first)),
    )
    | inr (c, n) ↦ (
      λ h.
          let (b, p, r) =
            bind-ok (apply_eq_filter rt load c e)
              (λ matched. if matched then apply_subset_filter rt load c e else ok false) true
              (rw (n, filter_constrained) at h) in
          elim (Bool-cases b) [
            | inl t ↦ (
              c,
              (find_iff e.kind q.kind_constraint c).0 n,
              (apply_eq_iff c e).0 (p ∙ ap ok t),
              (apply_subset_iff c e).0 (rw t at r),
            )
            | inr t ↦ absurd (ground (arith, rw t at r))
          ],
      λ (c', first, p, s).
          rw
            (
              (find_iff e.kind q.kind_constraint c').1 first,
              filter_constrained,
              (apply_eq_iff c' e).1 p,
            )
            ((apply_subset_iff c' e).1 s),
    )
  ]

  -- The filter passes an event exactly where its ID is behind After, if that is set, and, if there are
  -- constraints, the first one for its kind holds: the event has each of its properties, and its subset.
  pub filter_iff : (q : WireQuery) (e : Envelope) → (filter rt load q e ≡ ok true) ↔ Matches q e
  unfolding filter
  filter_iff q e = elim (Bool-cases (skipped q.after_id e.id)) [
    | inl b ↦ (λ h. absurd (ground (arith, rw b at h)), λ (n, rest). absurd (ground (arith, b, n)))
    | inr b ↦ elim (List-cases q.kind_constraint) [
      | inl n ↦ (λ h. (b, inl n), λ h. rw (b, n) refl)
      | inr (c, cs, n) ↦ rw (is_nil_false n) (
        λ h. (b, inr ((constrained_iff q e).0 (rw b at h))),
        λ (_, h). elim h [
          | inl z ↦ absurd (ground (arith, n, z))
          | inr y ↦ rw b ((constrained_iff q e).1 y)
        ],
      )
    ]
  ]
    where
      is_nil_false :
          {c : KindConstraint} {cs : List KindConstraint}
          → q.kind_constraint ≡ c ∷ cs
          → is_nil q.kind_constraint ≡ false
      is_nil_false n = rw n refl

  pub query_envelopes_lem :
      (q : WireQuery) (es : List Envelope) (r : WireQueryResult)
      → query_envelopes rt load q es ≡ ok r
      → (e : Envelope) → Memᴰ e r.matching ↔ (Memᴰ e es × Matches q e)
  unfolding query_envelopes add_matching
  query_envelopes_lem q es r h e =
      let (out, p, r-eq) =
        bind-ok (for_each (add_matching rt load q) es [])
          (λ matching. ok (record { filtered = true; subset_match = true; matching = matching })) r
          h in
      let found =
        for_each-Adds (add_matching rt load q) (λ x d. (filter rt load q x ≡ ok true) × (d ≡ x))
          adds es [] out p e in
      rw
        (← ap (λ (w : WireQueryResult). w.matching)
          (ok_injective (record { filtered = true; subset_match = true; matching = out }) r r-eq))
        (
          λ m. elim (found.0 m) [
            | inl n ↦ absurd (Memᴰ.not-nil n)
            | inr (x, k, (f, same)) ↦ rw same (k, (filter_iff q x).0 f)
          ],
          λ (k, f). found.1 (inr (e, k, ((filter_iff q e).1 f, refl))),
        )
    where
      adds :
          (x : Envelope) (out out' : List Envelope)
          → add_matching rt load q x out ≡ ok out'
          → (d : Envelope) → Memᴰ d out' ↔ (Memᴰ d out ⊎ ((filter rt load q x ≡ ok true) × (d ≡ x)))
      adds x out out' e d =
          let i = read-Adds (filter rt load q x) (λ b. b) (λ _. x) out out' e d in
          (
            λ h. elim (i.0 h) [ inl m ↦ inl m | inr (b, p, t, s) ↦ inr (p ∙ ap ok t, s) ],
            λ h. i.1 (elim h [ inl m ↦ inl m | inr (p, s) ↦ inr (true, p, refl, s) ]),
          )
