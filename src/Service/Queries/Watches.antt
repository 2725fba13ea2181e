-- ===== src/Service/Queries/Watches.antt =====
-- What a watch of the Query service sends (grpcQuery.Watch, processWatchResults, grpcResultStream of
-- internal/service/grpc.go and grpcResultStream.go).
use pgcqrs.Base.{
  ℕ, ℤ, pos, leb_ℤ, ◌≤ℤ◌, ◌<ℤ◌, Bool-cases, inl, inr, Option, none, some, Option-cases, List, [],
  ◌∷◌, ◌++◌, append_assoc, append-nil, All, ◌≡◌, refl, sym, ◌∙◌, arith,
}
use pgcqrs.Wire.{Runtime, Error, Result, ok, err}
use pgcqrs.Memory.Watch.{QueryOut}
use pgcqrs.Storage.Sql.{Operation}
use pgcqrs.Service.Outcomes.{Keeps, keeps, Keeps-then_do}
use pgcqrs.Service.Queries.{
  OperationResult, ResultStream, WatchTurn, signalled, context_ended, WatchState, query_out,
  send_out, send_result, push_translator_message, process_rows, watch_round, watch_loop, update_all,
  after_rows, max_id,
}

-- IDs rise strictly.
abbrev pub Increasing : List QueryOut → Type 0
Increasing [] = Unit {0}
Increasing (x ∷ xs) = All (λ (y : QueryOut). x.id <ℤ y.id) xs × Increasing xs

All-weaken :
    (a b : ℤ) (xs : List QueryOut)
    → a ≤ℤ b
    → All (λ (x : QueryOut). x.id ≤ℤ a) xs
    → All (λ (x : QueryOut). x.id ≤ℤ b) xs
All-weaken a b [] l h = tt
All-weaken a b (x ∷ xs) l h = (ground (arith, l, h.0), All-weaken a b xs l h.1)

All-snoc {ℓ} :
    (P : QueryOut → Type ℓ) (xs : List QueryOut) (y : QueryOut)
    → All P xs
    → P y
    → All P (xs ++ y ∷ [])
All-snoc P [] y h p = (p, tt)
All-snoc P (x ∷ xs) y h p = (h.0, All-snoc P xs y h.1 p)

Increasing-snoc :
    (xs : List QueryOut) (y : QueryOut) (b : ℤ)
    → Increasing xs
    → All (λ (x : QueryOut). x.id ≤ℤ b) xs
    → b <ℤ y.id
    → Increasing (xs ++ y ∷ [])
Increasing-snoc [] y b i h l = (tt, tt)
Increasing-snoc (x ∷ xs) y b i h l = (
  All-snoc (λ (z : QueryOut). x.id <ℤ z.id) xs y i.0 (ground (arith, h.0, l)),
  Increasing-snoc xs y b i.1 h.1 l,
)

-- What has been sent rises, up to the last ID.
pub record Ordered (g : ResultStream) : Type 0 where
  pub rising : Increasing g.sent
  pub below : All (λ (x : QueryOut). x.id ≤ℤ g.last_sent_id) g.sent

module _ (rt : Runtime) (sends : QueryOut → Option Error) where
  -- Sending the row of an ID above the last one.
  send-Ordered :
      (r : OperationResult) (g : ResultStream)
      → g.last_sent_id <ℤ r.envelope.id
      → Ordered g
      → Ordered (record { sent = (send_result rt sends r g.sent).1; last_sent_id = r.envelope.id })
  unfolding send_result send_out query_out
  send-Ordered r g l o = elim (Option-cases (rt.parse_when r.envelope.when)) [
    | inl e ↦ rw e (unsent o)
    | inr (when, e) ↦ rw e (elim (Option-cases (sends (query_out rt sends r when))) [
      | inr (f, e') ↦ rw e' (unsent o)
      | inl e' ↦ rw e' (record {
        rising = Increasing-snoc g.sent _ g.last_sent_id o.rising o.below l;
        below =
            All-snoc (λ (x : QueryOut). x.id ≤ℤ r.envelope.id) g.sent _ (unsent o).below
              (ground arith);
      })
    ])
  ]
    where
      unsent : Ordered g → Ordered (record { sent = g.sent; last_sent_id = r.envelope.id })
      unsent o = record {
        rising = o.rising;
        below = All-weaken g.last_sent_id r.envelope.id g.sent (ground (arith, l)) o.below;
      }

  -- What each send of a row above the last ID keeps, the whole watch keeps.
  module _ (Q : ResultStream → Type 0)
      (send_keeps : (r : OperationResult) (g : ResultStream)
        → g.last_sent_id <ℤ r.envelope.id
        → Q g
        → Q (record {
          sent = (send_result rt sends r g.sent).1;
          last_sent_id = r.envelope.id;
        })) where
    record Kept (s : WatchState) : Type 0 where
      pub kept_stream : Q s.stream

    push-Keeps :
        (r : OperationResult) (g : ResultStream)
        → Q g
        → Keeps Q (push_translator_message rt sends r g)
    unfolding push_translator_message
    push-Keeps r g o = elim (Bool-cases (leb_ℤ r.envelope.id g.last_sent_id)) [
      | inl e ↦ rw e (keeps Q (ok tt, g) o)
      | inr e ↦ rw e (keeps Q _ (send_keeps r g (ground (arith, e)) o))
    ]

    rows-Keeps :
        (rows : List (Result OperationResult)) (last_id : ℤ) (g : ResultStream)
        → Q g
        → Keeps Q (process_rows rt sends rows last_id g)
    unfolding process_rows
    rows-Keeps [] last_id g o = keeps Q _ o
    rows-Keeps (err failure ∷ rows) last_id g o = keeps Q _ o
    rows-Keeps (ok r ∷ rows) last_id g o =
        Keeps-then_do Q (push-Keeps r g o) (λ done g' o'. rows-Keeps rows _ g' o')

    after-kept :
        (s : WatchState) (ops : List Operation) (r : Result ℤ × ResultStream)
        → Keeps Q r
        → Q (after_rows rt sends s ops r).1.stream
    after-kept s ops (ok last_id, g) h = h.kept
    after-kept s ops (err failure, g) h = h.kept

    round-Keeps :
        (stream : List Operation → List (Result OperationResult)) (ops : List Operation)
        (s : WatchState)
        → Q s.stream
        → Keeps Kept (watch_round rt sends stream ops s)
    unfolding watch_round
    round-Keeps stream ops s o = keeps Kept _ (record {
      kept_stream =
          let asked = update_all rt sends s.last_delivered_id ops in
          after-kept s asked (process_rows rt sends (stream asked) (pos 0) s.stream)
            (rows-Keeps (stream asked) (pos 0) s.stream o);
    })

    loop-Keeps :
        (turns : List WatchTurn) (ops : List Operation) (s : WatchState)
        → Kept s
        → Keeps Kept (watch_loop rt sends turns ops s)
    unfolding watch_loop
    loop-Keeps [] ops s o = keeps Kept _ o
    loop-Keeps (context_ended ∷ turns) ops s o = keeps Kept _ o
    loop-Keeps (signalled stream ∷ turns) ops s o =
        Keeps-then_do Kept (round-Keeps stream ops s o.kept_stream)
          (λ done s' o'. loop-Keeps turns (update_all rt sends s.last_delivered_id ops) s' o')

    loop-kept :
        (turns : List WatchTurn) (ops : List Operation) (s : WatchState)
        → Q s.stream
        → Q (watch_loop rt sends turns ops s).1.stream
    loop-kept turns ops s o = (loop-Keeps turns ops s (record { kept_stream = o })).kept.kept_stream

  -- Whatever the repository yields behind the signals, and whichever Sends fail, the IDs of the messages
  -- that a watch sends rise strictly: no event is sent twice.
  pub watch_loop-Increasing :
      (turns : List WatchTurn) (ops : List Operation) (s : WatchState)
      → Ordered s.stream
      → Increasing (watch_loop rt sends turns ops s).1.stream.sent
  watch_loop-Increasing turns ops s o = (loop-kept Ordered send-Ordered turns ops s o).rising

  -- What has been sent since `sent` is above `bound`.
  record Beyond (sent : List QueryOut) (bound : ℤ) (g : ResultStream) : Type 0 where
    pub more : List QueryOut
    pub sent_more : g.sent ≡ sent ++ more
    pub above : All (λ (x : QueryOut). bound <ℤ x.id) more
    pub last_above : bound ≤ℤ g.last_sent_id

  send-Beyond :
      (sent : List QueryOut) (bound : ℤ) (r : OperationResult) (g : ResultStream)
      → g.last_sent_id <ℤ r.envelope.id
      → Beyond sent bound g
      → Beyond sent bound
          (record { sent = (send_result rt sends r g.sent).1; last_sent_id = r.envelope.id })
  unfolding send_result send_out query_out
  send-Beyond sent bound r g l o = elim (Option-cases (rt.parse_when r.envelope.when)) [
    | inl e ↦ rw e unsent
    | inr (when, e) ↦ rw e (elim (Option-cases (sends (query_out rt sends r when))) [
      | inr (f, e') ↦ rw e' unsent
      | inl e' ↦ rw e' (record {
        more = o.more ++ query_out rt sends r when ∷ [];
        sent_more = rw o.sent_more (append_assoc sent o.more (query_out rt sends r when ∷ []));
        above =
            All-snoc (λ (x : QueryOut). bound <ℤ x.id) o.more _ o.above
              (ground (arith, l, o.last_above));
        last_above = ground (arith, l, o.last_above);
      })
    ])
  ]
    where
      unsent : Beyond sent bound (record { sent = g.sent; last_sent_id = r.envelope.id })
      unsent = record {
        more = o.more;
        sent_more = o.sent_more;
        above = o.above;
        last_above = ground (arith, l, o.last_above);
      }

  loop-Beyond :
      (turns : List WatchTurn) (ops : List Operation) (s : WatchState) (bound : ℤ)
      → bound ≤ℤ s.stream.last_sent_id
      → (more : List QueryOut) × ((watch_loop rt sends turns ops s).1.stream.sent
          ≡ s.stream.sent ++ more)
        × All (λ (x : QueryOut). bound <ℤ x.id) more
  loop-Beyond turns ops s bound l =
      let grown =
        loop-kept (Beyond s.stream.sent bound) (send-Beyond s.stream.sent bound) turns ops s
          (record {
            more = [];
            sent_more = sym (append-nil s.stream.sent);
            above = tt;
            last_above = l;
          }) in
      (grown.more, grown.sent_more, grown.above)

  module _ (working : (m : QueryOut) → sends m ≡ none) where
    -- Rows with the times that their texts parse to, whose IDs rise from a bound on.
    abbrev pub Above : ℤ → List (OperationResult × ℕ) → Type 0
    Above b [] = Unit {0}
    Above b ((r, when) ∷ rs) =
        (b <ℤ r.envelope.id) × (rt.parse_when r.envelope.when ≡ some when) × Above r.envelope.id rs

    abbrev pub rows_of : List (OperationResult × ℕ) → List (Result OperationResult)
    rows_of [] = []
    rows_of ((r, when) ∷ rs) = ok r ∷ rows_of rs

    abbrev pub outs_of : List (OperationResult × ℕ) → List QueryOut
    outs_of [] = []
    outs_of ((r, when) ∷ rs) = query_out rt sends r when ∷ outs_of rs

    abbrev pub last_of : ℤ → List (OperationResult × ℕ) → ℤ
    last_of b [] = b
    last_of b ((r, when) ∷ rs) = last_of r.envelope.id rs

    push-sends :
        (r : OperationResult) (when : ℕ) (g : ResultStream)
        → g.last_sent_id <ℤ r.envelope.id
        → rt.parse_when r.envelope.when ≡ some when
        → push_translator_message rt sends r g ≡ (
          ok tt,
          record { sent = g.sent ++ query_out rt sends r when ∷ []; last_sent_id = r.envelope.id },
        )
    unfolding push_translator_message send_result send_out
    push-sends r when g l e = elim (Bool-cases (leb_ℤ r.envelope.id g.last_sent_id)) [
      | inl t ↦ absurd (ground (arith, t, l))
      | inr t ↦ rw (t, e) (rw (working (query_out rt sends r when)) refl)
    ]

    push-skips :
        (r : OperationResult) (g : ResultStream)
        → r.envelope.id ≤ℤ g.last_sent_id
        → push_translator_message rt sends r g ≡ (ok tt, g)
    unfolding push_translator_message
    push-skips r g l = ground (arith, l)

    -- The last ID of rows that rise, as the loop keeps it.
    last_kept : ℤ → ℤ → List (OperationResult × ℕ) → ℤ
    last_kept last b [] = last
    last_kept last b ((r, when) ∷ rs) = last_kept (max_id rt sends r.envelope.id last) b rs

    rows-send :
        (rs : List (OperationResult × ℕ)) (last : ℤ) (g : ResultStream)
        → Above g.last_sent_id rs
        → process_rows rt sends (rows_of rs) last g ≡ (
          ok (last_kept last (pos 0) rs),
          record { sent = g.sent ++ outs_of rs; last_sent_id = last_of g.last_sent_id rs },
        )
    unfolding process_rows last_kept
    rows-send [] last g h = rw (append-nil g.sent) refl
    rows-send ((r, when) ∷ rs) last g (l, e, h) = rw (push-sends r when g l e) (
        rows-send rs (max_id rt sends r.envelope.id last)
          (record { sent = g.sent ++ query_out rt sends r when ∷ []; last_sent_id = r.envelope.id })
          h
        ∙ rw (append_assoc g.sent (query_out rt sends r when ∷ []) (outs_of rs)) refl)

    kept_le : (rs : List (OperationResult × ℕ)) (last : ℤ) → last ≤ℤ last_kept last (pos 0) rs
    unfolding last_kept
    kept_le [] last = ground arith
    kept_le ((r, when) ∷ rs) last = ground (arith, kept_le rs (max_id rt sends r.envelope.id last))

    kept-All :
        (rs : List (OperationResult × ℕ)) (last bound : ℤ)
        → last_kept last (pos 0) rs ≤ℤ bound
        → All (λ (p : OperationResult × ℕ). p.0.envelope.id ≤ℤ bound) rs
    unfolding last_kept
    kept-All [] last bound l = tt
    kept-All ((r, when) ∷ rs) last bound l = (
      ground (arith, kept_le rs (max_id rt sends r.envelope.id last), l),
      kept-All rs (max_id rt sends r.envelope.id last) bound l,
    )

    -- Where no Send fails, and the rows that the repository yields for the operations, asked behind the last
    -- delivered ID, rise in their IDs from the last sent one on: a round sends all of them, in order, each
    -- with the time that its text parses to, and the next round asks behind every one of them.
    pub watch_round-sends :
        (stream : List Operation → List (Result OperationResult)) (ops : List Operation)
        (s : WatchState) (rs : List (OperationResult × ℕ))
        → stream (update_all rt sends s.last_delivered_id ops) ≡ rows_of rs
        → Above s.stream.last_sent_id rs
        → let (answer, s') = watch_round rt sends stream ops s in
          (answer ≡ ok tt)
          × (s'.stream.sent ≡ s.stream.sent ++ outs_of rs)
          × (s'.asked ≡ update_all rt sends s.last_delivered_id ops ∷ s.asked)
          × All (λ (p : OperationResult × ℕ). p.0.envelope.id ≤ℤ s'.last_delivered_id) rs
    unfolding watch_round
    watch_round-sends stream ops s rs e h =
        rw (e, rows-send rs (pos 0) s.stream h)
          (refl, refl, refl, kept-All rs (pos 0) _ (ground arith))

    -- A defect. The repository yields rows in the order of their times. Where a row's ID is not above that of the
    -- row before it, which has been sent, the round does not send it, and whatever the repository yields in later
    -- rounds, they send no message with its ID: the event, or the second operation that the one event meets,
    -- is never delivered.
    pub watch_round_loses :
        (stream : List Operation → List (Result OperationResult)) (turns : List WatchTurn)
        (ops : List Operation) (s : WatchState) (a b : OperationResult) (when : ℕ)
        → stream (update_all rt sends s.last_delivered_id ops) ≡ ok a ∷ ok b ∷ []
        → s.stream.last_sent_id <ℤ a.envelope.id
        → rt.parse_when a.envelope.when ≡ some when
        → b.envelope.id ≤ℤ a.envelope.id
        → (more : List QueryOut) × ((watch_loop rt sends
              (signalled stream ∷ turns)
              ops
              s).1.stream.sent
            ≡ (s.stream.sent ++ query_out rt sends a when ∷ []) ++ more)
          × All (λ (x : QueryOut). b.envelope.id <ℤ x.id) more
    unfolding watch_loop watch_round process_rows
    watch_round_loses stream turns ops s a b when e l parsed late =
        rw (e, push-sends a when s.stream l parsed)
          (rw
            (push-skips b
              (record {
                sent = s.stream.sent ++ query_out rt sends a when ∷ [];
                last_sent_id = a.envelope.id;
              })
              late)
            (loop-Beyond turns _ _ b.envelope.id late))
