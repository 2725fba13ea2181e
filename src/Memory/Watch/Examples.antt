-- ===== src/Memory/Watch/Examples.antt =====
-- The theorems on watches applied to a watch of one stream.
use pgcqrs.Base.{pos, negsuc, false, none, some, [], ◌∷◌, arith}
use pgcqrs.Memory.State.{Channel}
use pgcqrs.Memory.Watch.{QueryIn, new_watch}
use pgcqrs.Wire.{Envelope}
use pgcqrs.Memory.Watch.Order.{Rising, delivered, delivered-Rising}
use pgcqrs.Memory.Fixture.{runtime, held, stream}

abbrev query_in : QueryIn
query_in = record {
  domain = "d";
  stream = "s";
  on_kind = record { kind = "k"; all_op = some (pos 0); subsets = [] } ∷ [];
  on_id = [];
  on_each = none;
  after_id = none;
}

abbrev channel : Channel
channel = record { buffer = pos 0 ∷ []; closed = false }

delivered-Rising_example :
    Rising
      (negsuc 0)
      (delivered runtime 2 ((held, channel) ∷ (held, channel) ∷ []) (new_watch query_in stream))
delivered-Rising_example =
    delivered-Rising runtime 2 ((held, channel) ∷ (held, channel) ∷ []) (negsuc 0)
      (new_watch query_in stream) (ground arith)

abbrev first : Envelope
first = record { id = pos 0; when = "2026"; kind = "k" }
