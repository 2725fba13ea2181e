-- ===== src/Memory/Streams/Log.antt =====
-- A stream is a log: Submit appends to it, and nothing rewrites or removes what is stored.
use pgcqrs.Base.{
  ℕ, ◌&&◌, String, ◌==◌, pos, true, ◌≡◌, inl, inr, refl, ap, ◌∙◌, sym, none, some, List, [], ◌++◌,
  append-nil, append_assoc, arith, eq_iff, Option-cases, Bool-cases, if◌then◌else◌, get_elem?,
}
use pgcqrs.Base.Map
use pgcqrs.Base.Map.{get-put}
use pgcqrs.Wire.{ok}
use pgcqrs.Memory.State.{
  state-simulate_network, Memory, MemoryDomain, MemoryStream, MemoryPacket, Context,
}
use pgcqrs.Memory.Streams.{
  find_stream, put_stream, ensure_domain, ensure_stream_command, ensure_stream, packet_at,
  new_stream,
}

pub find_stream-put_stream :
    (m : Memory) (d s : String) (found : MemoryDomain) (new : MemoryStream) (d' s' : String)
    → Map.get m.domains d ≡ some found
    → find_stream (put_stream m d s found new) d' s'
      ≡ (if d == d' && s == s' then some new else find_stream m d' s')
unfolding find_stream put_stream
find_stream-put_stream m d s found new d' s' e = elim (Bool-cases (d == d')) [
  | inl h ↦
      rw (get-put, find_stream)
        (rw (h, find_stream) (rw (get-put, ← (eq_iff d d').0 h, e, find_stream)))
  | inr h ↦ rw (get-put, find_stream) (rw (h, find_stream) refl)
]

pub packet_at-pos :
    (m : Memory) (d s : String) (st : MemoryStream) (i : ℕ)
    → find_stream m d s ≡ some st
    → packet_at m d s (pos i) ≡ ok (get_elem? st.packets i)
unfolding packet_at
packet_at-pos m d s st i e = rw (e, packet_at)

-- Every stream of `m` is in `m'`, with packets added at most.
pub record Extends (m m' : Memory) : Type 0 where
  pub at :
      (d s : String) (st : MemoryStream)
      → find_stream m d s ≡ some st
      → (st' : MemoryStream) × (rest : List MemoryPacket) × (find_stream m' d s ≡ some st')
        × (st'.packets ≡ st.packets ++ rest)

pub Extends-refl : (m : Memory) → Extends m m
Extends-refl m = record { at = λ d s st e. (st, [], e, sym (append-nil st.packets)) }

pub Extends-trans : {m n o : Memory} → Extends m n → Extends n o → Extends m o
Extends-trans f g = record {
  at = λ d s st e.
      let (st₁, r₁, e₁, p₁) = f.at d s st e in
      let (st₂, r₂, e₂, p₂) = g.at d s st₁ e₁ in
      (
        st₂,
        r₁ ++ r₂,
        e₂,
        p₂ ∙ ap (λ (l : List MemoryPacket). l ++ r₂) p₁ ∙ append_assoc st.packets r₁ r₂,
      );
}

pub both_eq : (d s d' s' : String) → (d == d' && s == s') ≡ true → (d ≡ d') × (s ≡ s')
both_eq d s d' s' h = ground (arith, eq_iff d d', eq_iff s s')

find_stream-eq :
    (m : Memory) (d s : String) (found : MemoryDomain) (st : MemoryStream)
    → Map.get m.domains d ≡ some found
    → Map.get found.streams s ≡ some st
    → find_stream m d s ≡ some st
unfolding find_stream
find_stream-eq m d s found st e f = rw (e, find_stream) f

-- Where a stored stream is replaced by one that has its packets and more.
pub Extends-put_stream :
    (m : Memory) (d s : String) (found : MemoryDomain) (st new : MemoryStream)
    (rest : List MemoryPacket)
    → Map.get m.domains d ≡ some found
    → Map.get found.streams s ≡ some st
    → new.packets ≡ st.packets ++ rest
    → Extends m (put_stream m d s found new)
Extends-put_stream m d s found st new rest e f p = record {
  at = λ d' s' st' g. elim (Bool-cases (d == d' && s == s')) [
    | inl h ↦
        let (x, y) = both_eq d s d' s' h in
        let same : st ≡ st' = ground (arith, find_stream-eq m d s found st e f, x, y, g) in
        (
          new,
          rest,
          rw (find_stream-put_stream m d s found new d' s' e, h),
          p ∙ ap (λ (o : MemoryStream). o.packets ++ rest) same,
        )
    | inr h ↦ (
      st',
      [],
      rw (find_stream-put_stream m d s found new d' s' e, h) g,
      sym (append-nil st'.packets),
    )
  ];
}

pub no_domain : (m : Memory) (d s : String) → Map.get m.domains d ≡ none → find_stream m d s ≡ none
unfolding find_stream
no_domain m d s e = rw (e, find_stream)

Extends-ensure_domain : (d : String) (m : Memory) → Extends m (ensure_domain d m)
unfolding ensure_domain find_stream
Extends-ensure_domain d m = elim (Option-cases (Map.get m.domains d)) [
  | inr (found, e) ↦ rw (e, ensure_domain) (Extends-refl m)
  | inl e ↦
      rw (e, ensure_domain)
        (record {
          at = λ d' s' st g. (
            st,
            [],
            elim (Bool-cases (d == d')) [
              | inl h ↦ absurd (ground (arith, no_domain m d s' e, (eq_iff d d').0 h, g))
              | inr h ↦ rw (get-put, find_stream) (rw (h, find_stream) g)
            ],
            sym (append-nil st.packets),
          );
        })
]

-- A stream that was missing is added, and the others stay.
Extends-add_stream :
    (m : Memory) (d s : String) (found : MemoryDomain) (new : MemoryStream)
    → Map.get m.domains d ≡ some found
    → Map.get found.streams s ≡ none
    → Extends m (put_stream m d s found new)
unfolding find_stream
Extends-add_stream m d s found new e f = record {
  at = λ d' s' st g. (
    st,
    [],
    elim (Bool-cases (d == d' && s == s')) [
      | inl h ↦
          let missing : find_stream m d s ≡ none = rw (e, find_stream) f in
          absurd (ground (arith, missing, (both_eq d s d' s' h).0, (both_eq d s d' s' h).1, g))
      | inr h ↦ rw (find_stream-put_stream m d s found new d' s' e, h) g
    ],
    sym (append-nil st.packets),
  );
}

Extends-ensure_stream_command :
    (d s : String) (m : Memory) → Extends m (ensure_stream_command d s m)
unfolding ensure_stream_command
Extends-ensure_stream_command d s m =
    let m' = ensure_domain d m in
    let first = Extends-ensure_domain d m in
    elim (Option-cases (Map.get m'.domains d)) [
      | inl e ↦ rw (e, ensure_stream_command) first
      | inr (found, e) ↦ elim (Option-cases (Map.get found.streams s)) [
        | inl f ↦
            rw (e, ensure_stream_command)
              (rw (f, ensure_stream_command)
                (Extends-trans first (Extends-add_stream m' d s found (new_stream s) e f)))
        | inr (st, f) ↦ rw (e, ensure_stream_command) (rw (f, ensure_stream_command) first)
      ]
    ]

-- EnsureStream keeps every stream as it is: no packet is added, changed or removed.
pub Extends-ensure_stream :
    (ctx : Context) (d s : String) (m : Memory) → Extends m (ensure_stream ctx d s m).1
unfolding ensure_stream
Extends-ensure_stream ctx d s m = rw state-simulate_network (Extends-ensure_stream_command d s m)
