-- ===== src/Memory/Streams.antt =====
-- Streams and events of the in-memory transport: EnsureStream, Submit, GetEvent, GetEnvelope,
-- AllEnvelopes and Meta of pkg/v1/memory.go. The proofs are in the modules below.
pub mod Log
pub mod Submit
pub mod Reads
use pgcqrs.Base.{
  ℕ, zero, suc, String, ℤ, pos, negsuc, Bool, true, false, Option, none, some, List, [], ◌∷◌, ◌++◌,
  map, ltb, length, get_elem?, if◌then◌else◌,
}
use pgcqrs.Base.Map
use pgcqrs.Base.Map.{Map}
use pgcqrs.Wire.{Lock, Envelope, Result, ok, err, panicked, emit_failed, bad_json, Runtime, ◌>>=◌}
use pgcqrs.Memory.State.{
  Memory, MemoryDomain, MemoryStream, MemoryPacket, Channel, Context, waits, cancelled,
  simulate_network,
}
use pgcqrs.Memory.Locks.{check_lock}

-- `m.domains[domain]`, then `domain.streams[stream]`
unfoldable pub find_stream : Memory → String → String → Option MemoryStream
find_stream m domain stream = elim (Map.get m.domains domain) [
  | none ↦ none
  | some found ↦ Map.get found.streams stream
]

pub put_stream : Memory → String → String → MemoryDomain → MemoryStream → Memory
put_stream m domain stream found new = record m {
  domains = Map.put m.domains domain (record found { streams = Map.put found.streams stream new });
}

abbrev new_domain : String → MemoryDomain
new_domain domain = record { name = domain; streams = [] }

abbrev new_stream : String → MemoryStream
new_stream stream = record { name = stream; packets = []; on_add_packet = [] }

-- `if _, hasDomain := m.domains[domain]; !hasDomain { … }`
pub ensure_domain : String → Memory → Memory
ensure_domain domain m = elim (Map.get m.domains domain) [
  | some _ ↦ m
  | none ↦ record m { domains = Map.put m.domains domain (new_domain domain) }
]

ensure_stream_command : String → String → Memory → Memory
ensure_stream_command domain stream m =
    let m' = ensure_domain domain m in
    elim (Map.get m'.domains domain) [
      | none ↦ m'
      | some found ↦ elim (Map.get found.streams stream) [
        | some _ ↦ m'
        | none ↦ put_stream m' domain stream found (new_stream stream)
      ]
    ]

pub ensure_stream : Context → String → String → Memory → Result (Unit {0}) × Memory
ensure_stream ctx domain stream m =
    simulate_network ctx (ok tt, ensure_stream_command domain stream m)

-- The callback of a watch for a new packet: a full buffer closes the channel. A send on a closed
-- channel panics, which the emitter contains and reports as an error (see Notifier.Emit).
pub notify : ℤ → Channel → Channel × Bool
notify id ch =
    if ch.closed
    then (ch, false)
    else if ltb (length ch.buffer) 128
    then (record ch { buffer = ch.buffer ++ id ∷ [] }, true)
    else (record ch { closed = true }, true)

pub append_packet : Runtime → MemoryPacket → MemoryStream → Result ℤ × MemoryStream
append_packet rt packet s =
    let out = pos (length s.packets) in
    (
      if rt.emit (map (λ ch. (notify out ch).1) s.on_add_packet) then ok out else err emit_failed,
      record s {
        packets = s.packets ++ packet ∷ [];
        on_add_packet = map (λ ch. (notify out ch).0) s.on_add_packet;
      },
    )

-- The command of Submit. A stream that was not ensured is a nil map entry, whose use panics.
pub submit_command :
    Runtime → ℕ → String → String → Option Lock → MemoryPacket → Memory → Result ℤ × Memory
submit_command rt now domain stream lock packet m = elim (check_lock now m domain stream lock) [
  | err e ↦ (err e, m)
  | ok _ ↦ elim (Map.get m.domains domain) [
    | none ↦ (err panicked, m)
    | some found ↦ elim (Map.get found.streams stream) [
      | none ↦ (err panicked, m)
      | some s ↦
          let (result, s') = append_packet rt packet s in
          (result, put_stream m domain stream found s')
    ]
  ]
]

-- `body` is what json.Marshal made of the event. The result is the new event's ID.
pub submit :
    Runtime
    → Context
    → (now when : ℕ) → (domain stream kind : String) → Option String
    → Option Lock
    → Memory
    → Result ℤ × Memory
submit rt ctx now when domain stream kind none lock m = (err bad_json, m)
submit rt ctx now when domain stream kind (some body) lock m =
    simulate_network ctx (
      submit_command rt now domain stream lock (record { when = when; kind = kind; body = body }) m)

-- `s.packets[id]` behind `len(s.packets) <= int(id)`: a negative ID passes the test and panics.
abbrev packet_of : ℤ → List MemoryPacket → Result (Option MemoryPacket)
packet_of (pos i) packets = ok (get_elem? packets i)
packet_of (negsuc i) packets = err panicked

unfoldable pub packet_at : Memory → String → String → ℤ → Result (Option MemoryPacket)
packet_at m domain stream id = elim (find_stream m domain stream) [
  | none ↦ ok none
  | some s ↦ packet_of id s.packets
]

-- json.Unmarshal of the stored event; a missing event leaves the target empty.
abbrev pub decode : Runtime → Option MemoryPacket → Result String
decode rt none = ok ""
decode rt (some packet) = elim (rt.unmarshal_raw packet.body) [
  | none ↦ err bad_json
  | some raw ↦ ok raw
]

-- GetEvent into a json.RawMessage.
unfoldable pub get_event : Runtime → Context → String → String → ℤ → Memory → Result String × Memory
get_event rt ctx domain stream id m =
    simulate_network ctx (packet_at m domain stream id >>= decode rt, m)

abbrev pub envelope_of : Runtime → ℤ → MemoryPacket → Envelope
envelope_of rt id packet = record { id = id; when = rt.format_when packet.when; kind = packet.kind }

-- The zero Envelope stands for a missing one.
abbrev pub or_zero_envelope : Runtime → ℤ → Option MemoryPacket → Result Envelope
or_zero_envelope rt id none = ok (record { id = pos 0; when = ""; kind = "" })
or_zero_envelope rt id (some packet) = ok (envelope_of rt id packet)

pub get_envelope : Runtime → Context → String → String → ℤ → Memory → Result Envelope × Memory
get_envelope rt ctx domain stream id m =
    simulate_network ctx (packet_at m domain stream id >>= or_zero_envelope rt id, m)

-- `for id, e := range event`
unfoldable pub envelopes_from : Runtime → ℕ → List MemoryPacket → List Envelope
envelopes_from rt id [] = []
envelopes_from rt id (packet ∷ packets) =
    envelope_of rt (pos id) packet ∷ envelopes_from rt (suc id) packets

-- A stream that was not ensured is a nil pointer, whose use panics.
unfoldable pub envelopes : Runtime → String → String → Memory → Result (List Envelope)
envelopes rt domain stream m = elim (find_stream m domain stream) [
  | none ↦ err panicked
  | some s ↦ ok (envelopes_from rt 0 s.packets)
]

unfoldable pub all_envelopes :
    Runtime → Context → String → String → Memory → Result (List Envelope) × Memory
all_envelopes rt ctx domain stream m = simulate_network ctx (envelopes rt domain stream m, m)

-- Meta reports the domains' names, and no streams.
pub meta : Context → Memory → Result (List String) × Memory
meta ctx m = simulate_network ctx (ok (map (λ (d : String × MemoryDomain). d.0) m.domains), m)
