-- ===== src/Query2/Prepared.antt =====
-- What the query builder makes of its clauses: every operation that it sends is the place of the clause's
-- own handler.
use mathlib.Core.List.{append_assoc, append-nil}
use pgcqrs.Base.{
  ℕ, String, ℤ, pos, ◌≡◌, ◌⊎◌, refl, ◌∙◌, Option, none, some, List, [], ◌∷◌, ◌++◌, arith, length,
  get_elem?, get_elem?-append_left, get_elem?-append_last, get_elem?-eq-some, Option-cases, inl,
  inr, All,
}
use pgcqrs.Wire.{
  WireBatchKindMatch, WireBatchKindQuery, WireBatchIdQuery, WireBatchRequest, Result, ok, for_each,
}
use pgcqrs.Query2.{
  MatchedKind, KindClause, IdClause, Query, register_optional, prepare_match, prepare_kind,
  prepare_id, build_batch_request,
}

-- The list is the clauses' shares of it, one behind the other.
pub data Shares {ℓ κ μ} {A : Type ℓ} {W : Type κ} (R : A → List W → Type μ)
    : List A → List W → Type (ℓ ⊔ κ ⊔ μ) where
  no_clause : Shares R [] []
  clause :
      (x : A) (xs : List A) (share rest : List W)
      → R x share
      → Shares R xs rest
      → Shares R (x ∷ xs) (share ++ rest)

Shares-map {ℓ κ μ} :
    {A : Type ℓ} {W : Type κ} (R S : A → List W → Type μ)
    → ((x : A) (ws : List W) → R x ws → S x ws)
    → (xs : List A) (ws : List W) → Shares R xs ws
    → Shares S xs ws
Shares-map R S f _ _ no_clause = no_clause
Shares-map R S f _ _ (clause x xs share rest r s) =
    clause x xs share rest (f x share r) (Shares-map R S f xs rest s)

module _ {ℓ κ μ ν ξ} {A : Type ℓ} {W : Type κ} {H : Type μ}
    (f : A → List W × List H → Result (List W × List H)) (R : List H → A → List W → Type ν)
    (Fine : A → Type ξ)
    (grows : (hs new : List H) (x : A) (ws : List W) → R hs x ws → R (hs ++ new) x ws)
    (step : (x : A) (out : List W) (hs : List H)
      → Fine x
      → (share : List W) × (new : List H) × (f x (out, hs) ≡ ok (out ++ share, hs ++ new))
        × R (hs ++ new) x share) where
  -- A loop whose rounds each append a share, and append to the handlers.
  loop-Shares :
      (xs : List A) (out : List W) (hs : List H)
      → All Fine xs
      → (ws : List W) × (new : List H) × (for_each f xs (out, hs) ≡ ok (out ++ ws, hs ++ new))
        × Shares (R (hs ++ new)) xs ws
  loop-Shares [] out hs fine = ([], [], rw (append-nil out, append-nil hs) refl, no_clause)
  loop-Shares (x ∷ xs) out hs fine =
      let (share, first, e, r) = step x out hs fine.0 in
      let (rest, later, e', s) = loop-Shares xs (out ++ share) (hs ++ first) fine.1 in
      (
        share ++ rest,
        first ++ later,
        rw (e, ← append_assoc out share rest, ← append_assoc hs first later) e',
        rw (← append_assoc hs first later)
            (clause x xs share rest (grows (hs ++ first) later x share r) s),
      )

module _ {ℓ} {H : Type ℓ} where
  -- The operation is the place of the handler.
  abbrev pub Registered : List (Option H) → ℕ → Option H → Type ℓ
  Registered hs op h = get_elem? hs op ≡ some h

  Registered-append :
      (hs new : List (Option H)) (op : ℕ) (h : Option H)
      → Registered hs op h
      → Registered (hs ++ new) op h
  Registered-append hs new op h r = get_elem?-append_left hs new op (get_elem?-eq-some hs op r) ∙ r

  pub data MatchShare (hs : List (Option H)) (m : MatchedKind H) (ws : List WireBatchKindMatch)
      : Type ℓ where
    unused : m.processor ≡ none → ws ≡ [] → MatchShare hs m ws
    used :
        (h : H) (op : ℕ) (doc : String)
        → m.processor ≡ some h
        → m.subset ≡ some doc
        → Registered hs op (some h)
        → ws ≡ record { op = pos op; subset = doc } ∷ []
        → MatchShare hs m ws

  pub data AllShare (hs : List (Option H)) (each : Option H) (all : Option ℤ) : Type ℓ where
    no_each : each ≡ none → all ≡ none → AllShare hs each all
    with_each :
        (h : H) (op : ℕ)
        → each ≡ some h
        → all ≡ some (pos op)
        → Registered hs op (some h)
        → AllShare hs each all

  pub data KindShare (hs : List (Option H)) (k : KindClause H) (ws : List WireBatchKindQuery)
      : Type ℓ where
    kind_share :
        (all : Option ℤ) (match : List WireBatchKindMatch)
        → AllShare hs k.each all
        → Shares (MatchShare hs) k.matched match
        → ws ≡ record { kind = k.kind; all = all; match = match } ∷ []
        → KindShare hs k ws

  pub data IdShare (hs : List (Option H)) (i : IdClause H) (ws : List WireBatchIdQuery)
      : Type ℓ where
    id_share :
        (op : ℕ)
        → Registered hs op i.on
        → ws ≡ record { op = pos op; id = i.id } ∷ []
        → IdShare hs i ws

  -- The subset of a clause with a handler can be marshalled.
  abbrev pub Marshals : MatchedKind H → Type ℓ
  Marshals m = (m.processor ≡ none) ⊎ ((doc : String) × (m.subset ≡ some doc))

  match_grows :
      (hs new : List (Option H)) (m : MatchedKind H) (ws : List WireBatchKindMatch)
      → MatchShare hs m ws
      → MatchShare (hs ++ new) m ws
  match_grows hs new m ws (unused p e) = unused p e
  match_grows hs new m ws (used h op doc p s r e) =
      used h op doc p s (Registered-append hs new op (some h) r) e

  all_grows :
      (hs new : List (Option H)) (each : Option H) (all : Option ℤ)
      → AllShare hs each all
      → AllShare (hs ++ new) each all
  all_grows hs new each all (no_each p e) = no_each p e
  all_grows hs new each all (with_each h op p e r) =
      with_each h op p e (Registered-append hs new op (some h) r)

  kind_grows :
      (hs new : List (Option H)) (k : KindClause H) (ws : List WireBatchKindQuery)
      → KindShare hs k ws
      → KindShare (hs ++ new) k ws
  kind_grows hs new k ws (kind_share all match a s e) =
      kind_share all match (all_grows hs new k.each all a)
        (Shares-map (MatchShare hs) (MatchShare (hs ++ new)) (match_grows hs new) k.matched match s)
        e

  id_grows :
      (hs new : List (Option H)) (i : IdClause H) (ws : List WireBatchIdQuery)
      → IdShare hs i ws
      → IdShare (hs ++ new) i ws
  id_grows hs new i ws (id_share op r e) = id_share op (Registered-append hs new op i.on r) e

  match_step :
      (m : MatchedKind H) (out : List WireBatchKindMatch) (hs : List (Option H))
      → Marshals m
      → (share : List WireBatchKindMatch) × (new : List (Option H)) × (prepare_match m (out, hs)
          ≡ ok (out ++ share, hs ++ new))
        × MatchShare (hs ++ new) m share
  unfolding prepare_match
  match_step m out hs fine = elim (Option-cases m.processor) [
    | inl p ↦
        ([], [], rw (p, prepare_match) (rw (append-nil out, append-nil hs) refl), unused p refl)
    | inr (h, p) ↦ elim fine [
      | inl q ↦ absurd (ground (arith, p, q))
      | inr (doc, s) ↦ (
        record { op = pos (length hs); subset = doc } ∷ [],
        some h ∷ [],
        rw (p, prepare_match, s) refl,
        used h (length hs) doc p s (get_elem?-append_last hs (some h)) refl,
      )
    ]
  ]

  all_step :
      (each : Option H) (hs : List (Option H))
      → (all : Option ℤ) × (new : List (Option H)) × (register_optional each hs ≡ (all, hs ++ new))
        × AllShare (hs ++ new) each all
  all_step none hs = (none, [], rw (append-nil hs) refl, no_each refl refl)
  all_step (some h) hs = (
    some (pos (length hs)),
    some h ∷ [],
    refl,
    with_each h (length hs) refl refl (get_elem?-append_last hs (some h)),
  )

  kind_step :
      (k : KindClause H) (out : List WireBatchKindQuery) (hs : List (Option H))
      → All Marshals k.matched
      → (share : List WireBatchKindQuery) × (new : List (Option H)) × (prepare_kind k (out, hs)
          ≡ ok (out ++ share, hs ++ new))
        × KindShare (hs ++ new) k share
  unfolding prepare_kind
  kind_step k out hs fine =
      let (all, first, e, a) = all_step k.each hs in
      let (match, later, e', s) =
        loop-Shares prepare_match MatchShare Marshals match_grows match_step k.matched []
          (hs ++ first) fine in
      (
        record { kind = k.kind; all = all; match = match } ∷ [],
        first ++ later,
        rw (e, e', ← append_assoc hs first later) refl,
        rw (← append_assoc hs first later)
            (kind_share all match (all_grows (hs ++ first) later k.each all a) s refl),
      )

  id_step :
      (i : IdClause H) (out : List WireBatchIdQuery) (hs : List (Option H))
      → Unit {0}
      → (share : List WireBatchIdQuery) × (new : List (Option H)) × (prepare_id i (out, hs)
          ≡ ok (out ++ share, hs ++ new))
        × IdShare (hs ++ new) i share
  unfolding prepare_id
  id_step i out hs fine = (
    record { op = pos (length hs); id = i.id } ∷ [],
    i.on ∷ [],
    refl,
    id_share (length hs) (get_elem?-append_last hs i.on) refl,
  )

  All-trivial : (xs : List (IdClause H)) → All (λ _. Unit {0}) xs
  All-trivial [] = tt
  All-trivial (x ∷ xs) = (tt, All-trivial xs)

  -- Where each subset that has a handler can be marshalled, the request is built: it has the clauses in their
  -- order, without the subsets that have no handler, and After; and the operation of each clause is the place of
  -- the clause's own handler among the registered ones.
  pub build_batch_request-Shares :
      (q : Query H)
      → All (λ (k : KindClause H). All Marshals k.matched) q.kinds
      → (request : WireBatchRequest) × (hs : List (Option H)) × (build_batch_request q
          ≡ ok (request, hs))
        × Shares (KindShare hs) q.kinds request.on_kinds
        × Shares (IdShare hs) q.ids request.on_id
        × (request.after_id ≡ q.after_id)
  unfolding build_batch_request
  build_batch_request-Shares q fine =
      let (on_kinds, first, e, s) =
        loop-Shares prepare_kind KindShare (λ (k : KindClause H). All Marshals k.matched) kind_grows
          kind_step q.kinds [] [] fine in
      let (on_id, later, e', t) =
        loop-Shares prepare_id IdShare (λ _. Unit {0}) id_grows id_step q.ids [] first
          (All-trivial q.ids) in
      (
        record { on_kinds = on_kinds; on_id = on_id; after_id = q.after_id },
        first ++ later,
        rw (e, e') refl,
        Shares-map (KindShare first) (KindShare (first ++ later)) (kind_grows first later) q.kinds
            on_kinds s,
        t,
        refl,
      )
