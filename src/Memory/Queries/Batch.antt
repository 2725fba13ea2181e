-- ===== src/Memory/Queries/Batch.antt =====
-- Batch queries, second revision: what is dispatched.
use mathlib.Core.List.{Memᴰ}
use mathlib.Core.List.Memᴰ
use mathlib.Core.Path.{subst}
use pgcqrs.Base.{
  String, ◌==◌, ℤ, eqb_ℤ, eqb_ℤ_iff, true, false, ◌≡◌, ◌⊎◌, inl, inr, refl, ◌↔◌, Option, none, some,
  List, [], ◌∷◌, ◌++◌, arith, eq_iff, Bool-cases, if◌then◌else◌,
}
use pgcqrs.Wire.{
  Envelope, WireBatchKindMatch, WireBatchKindQuery, WireBatchIdQuery, WireBatchRequest,
  WireBatchDispatch, Result, ok, Runtime, for_each, ◌>>=◌,
}
use pgcqrs.Wire.Loops.{
  after_both, bind-ok, ok_injective, read-Adds, for_each-Adds, for_each-ok, Adds,
}
use pgcqrs.Memory.State.{Memory, waits}
use pgcqrs.Memory.Streams.{all_envelopes}
use pgcqrs.Memory.Queries.{
  json_is_subset, skipped, add_match, add_all, match_kind_clause, process_kind,
  process_envelope_for_kinds, process_id, process_envelope_for_ids, process_envelope,
  query_batch_r2, load,
}

some_injective : (x y : ℤ) → some y ≡ some x → x ≡ y
some_injective x y e = cc

module _ (rt : Runtime) (load : ℤ → Result String) where
  -- The dispatch of an event, as it is read, for an operation.
  abbrev pub Dispatches : Envelope → ℤ → WireBatchDispatch → Type 0
  Dispatches e op d =
      (body : String) × (load e.id ≡ ok body) × (d ≡ record { envelope = e; event = body; op = op })

  -- The dispatch of an event that has the subset of a match.
  abbrev pub DispatchesMatch : Envelope → WireBatchKindMatch → WireBatchDispatch → Type 0
  DispatchesMatch e match d =
      (body : String) × (load e.id ≡ ok body)
      × (json_is_subset rt body match.subset ≡ true)
      × (d ≡ record { envelope = e; event = body; op = match.op })

  -- What a clause for the event's kind asks for: all of them, or those that have one of the subsets.
  abbrev pub DispatchesClause : Envelope → WireBatchKindQuery → WireBatchDispatch → Type 0
  DispatchesClause e k d =
      ((op : ℤ) × (k.all ≡ some op) × Dispatches e op d)
      ⊎ ((match : WireBatchKindMatch) × Memᴰ match k.match × DispatchesMatch e match d)

  abbrev pub DispatchesKind : Envelope → WireBatchKindQuery → WireBatchDispatch → Type 0
  DispatchesKind e k d = (k.kind ≡ e.kind) × DispatchesClause e k d

  abbrev pub DispatchesId : Envelope → WireBatchIdQuery → WireBatchDispatch → Type 0
  DispatchesId e i d = (e.id ≡ i.id) × Dispatches e i.op d

  -- What a request asks for of one event.
  abbrev pub Asked : WireBatchRequest → Envelope → WireBatchDispatch → Type 0
  Asked request e d =
      (skipped request.after_id e.id ≡ false)
      × (((k : WireBatchKindQuery) × Memᴰ k request.on_kinds × DispatchesKind e k d)
          ⊎ ((i : WireBatchIdQuery) × Memᴰ i request.on_id × DispatchesId e i d))

  add_match-Adds : (e : Envelope) → Adds (add_match rt load e) (DispatchesMatch e)
  unfolding add_match
  add_match-Adds e match out out' h d =
      read-Adds (load e.id) (λ body. json_is_subset rt body match.subset)
        (λ body. record { envelope = e; event = body; op = match.op }) out out' h d

  -- A read whose result is dispatched without a test.
  read-Dispatches :
      (e : Envelope) (op : ℤ) (out out' : List WireBatchDispatch)
      → (load e.id >>= λ body. ok (out ++ record { envelope = e; event = body; op = op } ∷ []))
        ≡ ok out'
      → (d : WireBatchDispatch) → Memᴰ d out' ↔ (Memᴰ d out ⊎ Dispatches e op d)
  read-Dispatches e op out out' h d =
      let i =
        read-Adds (load e.id) (λ _. true) (λ body. record { envelope = e; event = body; op = op })
          out out' h d in
      (
        λ m. elim (i.0 m) [ inl k ↦ inl k | inr (body, p, t, s) ↦ inr (body, p, s) ],
        λ m. i.1 (elim m [ inl k ↦ inl k | inr (body, p, s) ↦ inr (body, p, refl, s) ]),
      )

  add_all-Adds :
      (e : Envelope) (all : Option ℤ) (out out' : List WireBatchDispatch)
      → add_all rt load e all out ≡ ok out'
      → (d : WireBatchDispatch)
      → Memᴰ d out' ↔ (Memᴰ d out ⊎ ((op : ℤ) × (all ≡ some op) × Dispatches e op d))
  unfolding add_all
  add_all-Adds e none out out' h d =
      rw (← ok_injective out out' h)
        (λ m. inl m, λ m. elim m [ inl x ↦ x | inr (op, p, q) ↦ absurd (ground (arith, p)) ])
  add_all-Adds e (some op) out out' h d =
      let i = read-Dispatches e op out out' h d in
      (
        λ m. elim (i.0 m) [ inl x ↦ inl x | inr c ↦ inr (op, refl, c) ],
        λ m. i.1 (elim m [
          | inl x ↦ inl x
          | inr (op', p, c) ↦ inr (subst (λ o. Dispatches e o d) (some_injective op' op p) c)
        ]),
      )

  match_kind_clause-Adds : (e : Envelope) → Adds (match_kind_clause rt load e) (DispatchesClause e)
  unfolding match_kind_clause
  match_kind_clause-Adds e k out out' h d =
      let (mid, p, q) =
        bind-ok (add_all rt load e k.all out) (λ out'. for_each (add_match rt load e) k.match out')
          out' h in
      after_both (add_all-Adds e k.all out mid p d) (
        for_each-Adds (add_match rt load e) (DispatchesMatch e) (add_match-Adds e) k.match mid out'
          q d)

  process_kind-Adds : (e : Envelope) → Adds (process_kind rt load e) (DispatchesKind e)
  unfolding process_kind
  process_kind-Adds e k out out' h d = elim (Bool-cases (k.kind == e.kind)) [
    | inl b ↦
        let i = match_kind_clause-Adds e k out out' (rw b at h) d in
        let same = (eq_iff k.kind e.kind).0 b in
        (
          λ m. elim (i.0 m) [ inl x ↦ inl x | inr c ↦ inr (same, c) ],
          λ m. i.1 (elim m [ inl x ↦ inl x | inr (s, c) ↦ inr c ]),
        )
    | inr b ↦ rw (← ok_injective out out' (rw b at h)) (
      λ m. inl m,
      λ m. elim m [
        | inl x ↦ x
        | inr (s, c) ↦ absurd (ground (arith, b, (eq_iff k.kind e.kind).1 s))
      ],
    )
  ]

  process_id-Adds : (e : Envelope) → Adds (process_id rt load e) (DispatchesId e)
  unfolding process_id
  process_id-Adds e i out out' h d = elim (Bool-cases (eqb_ℤ e.id i.id)) [
    | inl b ↦
        let j = read-Dispatches e i.op out out' (rw b at h) d in
        let same = (eqb_ℤ_iff e.id i.id).0 b in
        (
          λ m. elim (j.0 m) [ inl x ↦ inl x | inr c ↦ inr (same, c) ],
          λ m. j.1 (elim m [ inl x ↦ inl x | inr (s, c) ↦ inr c ]),
        )
    | inr b ↦ rw (← ok_injective out out' (rw b at h)) (
      λ m. inl m,
      λ m. elim m [
        | inl x ↦ x
        | inr (s, c) ↦ absurd (ground (arith, b, (eqb_ℤ_iff e.id i.id).1 s))
      ],
    )
  ]

  process_envelope-Adds :
      (request : WireBatchRequest) → Adds (process_envelope rt load request) (Asked request)
  unfolding process_envelope process_envelope_for_kinds process_envelope_for_ids
  process_envelope-Adds request e out out' h d = elim (Bool-cases (skipped request.after_id e.id)) [
    | inl b ↦
        rw (← ok_injective out out' (rw b at h))
          (λ m. inl m, λ m. elim m [ inl x ↦ x | inr (s, c) ↦ absurd (ground (arith, b, s)) ])
    | inr b ↦
        let (mid, p, q) =
          bind-ok (process_envelope_for_kinds rt load request.on_kinds e out)
            (λ out'. process_envelope_for_ids rt load request.on_id e out') out' (rw b at h) in
        let i =
          after_both
            (for_each-Adds (process_kind rt load e) (DispatchesKind e) (process_kind-Adds e)
              request.on_kinds out mid p d)
            (for_each-Adds (process_id rt load e) (DispatchesId e) (process_id-Adds e) request.on_id
              mid out' q d) in
        (
          λ m. elim (i.0 m) [ inl x ↦ inl x | inr c ↦ inr (b, c) ],
          λ m. i.1 (elim m [ inl x ↦ inl x | inr (s, c) ↦ inr c ]),
        )
  ]

module _ (rt : Runtime) (load : ℤ → Result String) (e : Envelope) (body : String)
    (readable : load e.id ≡ ok body) where
  match_kind_clause-ok :
      (k : WireBatchKindQuery) (out : List WireBatchDispatch)
      → (out' : List WireBatchDispatch) × (match_kind_clause rt load e k out ≡ ok out')
  unfolding match_kind_clause add_all add_match
  match_kind_clause-ok k out =
      let (mid, p) = all_ok k.all in
      let (out', q) = for_each-ok (add_match rt load e) k.match mid (λ x t _. match_ok x t) in
      (out', rw p q)
    where
      all_ok :
          (all : Option ℤ) → (mid : List WireBatchDispatch) × (add_all rt load e all out ≡ ok mid)
      all_ok none = (out, refl)
      all_ok (some op) =
          (out ++ record { envelope = e; event = body; op = op } ∷ [], rw readable refl)

      match_ok :
          (x : WireBatchKindMatch) (t : List WireBatchDispatch)
          → (u : List WireBatchDispatch) × (add_match rt load e x t ≡ ok u)
      match_ok x t = (
        if json_is_subset rt body x.subset
            then t ++ record { envelope = e; event = body; op = x.op } ∷ []
            else t,
        rw (readable, add_match),
      )

  process_kind-ok :
      (k : WireBatchKindQuery) (out : List WireBatchDispatch)
      → (out' : List WireBatchDispatch) × (process_kind rt load e k out ≡ ok out')
  unfolding process_kind
  process_kind-ok k out = elim (Bool-cases (k.kind == e.kind)) [
    | inl b ↦ let (out', p) = match_kind_clause-ok k out in (out', rw b p)
    | inr b ↦ (out, rw b refl)
  ]

  process_id-ok :
      (i : WireBatchIdQuery) (out : List WireBatchDispatch)
      → (out' : List WireBatchDispatch) × (process_id rt load e i out ≡ ok out')
  unfolding process_id
  process_id-ok i out = elim (Bool-cases (eqb_ℤ e.id i.id)) [
    | inl b ↦ (out ++ record { envelope = e; event = body; op = i.op } ∷ [], rw (b, readable) refl)
    | inr b ↦ (out, rw b refl)
  ]

  process_envelope-ok :
      (request : WireBatchRequest) (out : List WireBatchDispatch)
      → (out' : List WireBatchDispatch) × (process_envelope rt load request e out ≡ ok out')
  unfolding process_envelope process_envelope_for_kinds process_envelope_for_ids
  process_envelope-ok request out = elim (Bool-cases (skipped request.after_id e.id)) [
    | inl b ↦ (out, rw b refl)
    | inr b ↦
        let (mid, p) =
          for_each-ok (process_kind rt load e) request.on_kinds out
            (λ k t _. process_kind-ok k t) in
        let (out', q) =
          for_each-ok (process_id rt load e) request.on_id mid (λ i t _. process_id-ok i t) in
        (out', rw (b, p) q)
  ]

-- Where each event of the stream can be read, QueryBatchR2 returns a result, and that holds a dispatch
-- exactly where an envelope of the stream and a clause of the request ask for it: the envelope's ID is behind
-- After, if that is set, and the clause is for its kind and for all events, or for its kind and a subset that
-- it has, or for its ID. So After leaves out events that a clause asks for by their ID, although the
-- documentation of the query builder says that it is ignored for those.
pub query_batch_r2-Asked :
    (rt : Runtime) (d s : String) (m : Memory) (request : WireBatchRequest) (es : List Envelope)
    → (all_envelopes rt waits d s m).0 ≡ ok es
    → ((e : Envelope) → Memᴰ e es → (body : String) × (load rt waits d s m e.id ≡ ok body))
    → (out : List WireBatchDispatch) × (query_batch_r2 rt waits d s m request ≡ ok out)
      × ((x : WireBatchDispatch)
          → Memᴰ x out ↔ ((e : Envelope) × Memᴰ e es × Asked rt (load rt waits d s m) request e x))
unfolding query_batch_r2
query_batch_r2-Asked rt d s m request es listed readable =
    let get = load rt waits d s m in
    let (out, h) =
      for_each-ok (process_envelope rt get request) es []
        (λ e t k. process_envelope-ok rt get e (readable e k).0 (readable e k).1 request t) in
    let added =
      for_each-Adds (process_envelope rt get request) (Asked rt get request)
        (process_envelope-Adds rt get request) es [] out h in
    (
      out,
      rw listed h,
      λ x. (
        λ m. elim ((added x).0 m) [ inl n ↦ absurd (Memᴰ.not-nil n) | inr a ↦ a ],
        λ a. (added x).1 (inr a),
      ),
    )
