-- ===== src/Memory/Queries/Examples.antt =====
-- The theorems on queries applied to concrete requests.
use mathlib.Core.List.{Memᴰ}
use mathlib.Core.List.Memᴰ
use pgcqrs.Base.{String, pos, ◌≡◌, refl, ap, ◌↔◌, none, some, List, [], ◌∷◌}
use pgcqrs.Base.Map
use pgcqrs.Wire.{WireQueryResult, Envelope, WireQuery, WireBatchRequest, WireBatchDispatch, ok}
use pgcqrs.Memory.State.{waits}
use pgcqrs.Memory.Streams.{
  find_stream, packet_at, envelopes, envelopes_from, all_envelopes, get_event,
}
use pgcqrs.Memory.Queries.{load, query, query_batch_r2}
use pgcqrs.Memory.Queries.Filter.{Matches}
use pgcqrs.Memory.Queries.Answers.{IsReadable, query-Matches}
use pgcqrs.Memory.Queries.Batch.{Asked, query_batch_r2-Asked}
use pgcqrs.Memory.Fixture.{runtime, held}

abbrev envelope : Envelope
envelope = record { id = pos 0; when = "2026"; kind = "k" }

abbrev by_subset : WireQuery
by_subset = record {
  kind_constraint = record { kind = "k"; eq = []; match_subset = "x" } ∷ [];
  after_id = none;
}

abbrev request : WireBatchRequest
request = record {
  on_kinds =
      record { kind = "k"; all = some (pos 0); match = record { op = pos 1; subset = "x" } ∷ [] }
      ∷ [];
  on_id = record { op = pos 2; id = pos 0 } ∷ [];
  after_id = none;
}

listed : (all_envelopes runtime waits "d" "s" held).0 ≡ ok (envelope ∷ [])
unfolding all_envelopes envelopes envelopes_from find_stream Map.get
listed = refl

readable :
    (e : Envelope)
    → Memᴰ e (envelope ∷ [])
    → (body : String) × (load runtime waits "d" "s" held e.id ≡ ok body)
unfolding get_event packet_at find_stream Map.get
readable e k =
    ("x", ap (λ (e : Envelope). load runtime waits "d" "s" held e.id) (Memᴰ.eq_of_singleton k))

query_batch_r2-Asked_example :
    (out : List WireBatchDispatch) × (query_batch_r2 runtime waits "d" "s" held request ≡ ok out)
    × ((x : WireBatchDispatch)
        → Memᴰ x out ↔ (
            (e : Envelope) × Memᴰ e (envelope ∷ [])
            × Asked runtime (load runtime waits "d" "s" held) request e x))
query_batch_r2-Asked_example =
    query_batch_r2-Asked runtime "d" "s" held request (envelope ∷ []) listed readable

envelope-IsReadable :
    (e : Envelope) → Memᴰ e (envelope ∷ []) → IsReadable runtime (load runtime waits "d" "s" held) e
envelope-IsReadable e k = let (body, h) = readable e k in (body, (λ path. some body), h, refl)

query-Matches_example :
    (r : WireQueryResult) × (query runtime waits "d" "s" held by_subset ≡ ok r)
    × ((e : Envelope)
        → Memᴰ e r.matching ↔ (
            Memᴰ e (envelope ∷ []) × Matches runtime (load runtime waits "d" "s" held) by_subset e))
query-Matches_example =
    query-Matches runtime "d" "s" held by_subset (envelope ∷ []) listed envelope-IsReadable (tt, tt)
