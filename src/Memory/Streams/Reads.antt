-- ===== src/Memory/Streams/Reads.antt =====
-- What reads of a stream return: they agree with each other, and what is stored stays.
use pgcqrs.Base.{
  ℕ, zero, suc, ◌+◌, String, ℤ, pos, negsuc, ◌≡◌, inl, inr, refl, ◌∙◌, Option, none, some, List, [],
  ◌∷◌, arith, Option-cases, length, get_elem?, get_elem?-append_left, get_elem?-eq-some,
}
use pgcqrs.Wire.{Envelope, ok, Runtime}
use pgcqrs.Memory.State.{Memory, MemoryStream, MemoryPacket, waits}
use pgcqrs.Memory.Streams.{
  find_stream, packet_at, envelope_of, envelopes_from, envelopes, all_envelopes, get_envelope,
}
use pgcqrs.Memory.Streams.Log.{Extends, packet_at-pos}

get_elem?-envelopes_from :
    (rt : Runtime) (k : ℕ) (packets : List MemoryPacket) (i : ℕ) {p : MemoryPacket}
    → get_elem? packets i ≡ some p
    → get_elem? (envelopes_from rt k packets) i ≡ some (envelope_of rt (pos (k + i)) p)
unfolding envelopes_from
get_elem?-envelopes_from rt k [] i e = cc
get_elem?-envelopes_from rt k (x ∷ packets) zero e = ground (arith, e)
get_elem?-envelopes_from rt k (x ∷ packets) (suc i) e =
    get_elem?-envelopes_from rt (suc k) packets i e ∙ ground arith

get_elem?-envelopes_from-none :
    (rt : Runtime) (k : ℕ) (packets : List MemoryPacket) (i : ℕ)
    → get_elem? packets i ≡ none
    → get_elem? (envelopes_from rt k packets) i ≡ none
unfolding envelopes_from
get_elem?-envelopes_from-none rt k [] i e = refl
get_elem?-envelopes_from-none rt k (x ∷ packets) zero e = cc
get_elem?-envelopes_from-none rt k (x ∷ packets) (suc i) e =
    get_elem?-envelopes_from-none rt (suc k) packets i e

length-envelopes_from :
    (rt : Runtime) (k : ℕ) (packets : List MemoryPacket)
    → length (envelopes_from rt k packets) ≡ length packets
unfolding envelopes_from
length-envelopes_from rt k [] = refl
length-envelopes_from rt k (x ∷ packets) = omega (arith, length-envelopes_from rt (suc k) packets)

-- An event that is stored is read the same after every change that extends the log.
pub packet_at-Extends :
    (m m' : Memory) (d s : String) (id : ℤ) (p : MemoryPacket)
    → Extends m m'
    → packet_at m d s id ≡ ok (some p)
    → packet_at m' d s id ≡ ok (some p)
unfolding packet_at
packet_at-Extends m m' d s (negsuc i) p x h = elim (Option-cases (find_stream m d s)) [
  | inl e ↦ absurd (ground (arith, rw (e, packet_at) at h))
  | inr (st, e) ↦ absurd (ground (arith, rw (e, packet_at) at h))
]
packet_at-Extends m m' d s (pos i) p x h = elim (Option-cases (find_stream m d s)) [
  | inl e ↦ absurd (ground (arith, rw (e, packet_at) at h))
  | inr (st, e) ↦
      let (st', rest, e', q) = x.at d s st e in
      let stored : get_elem? st.packets i ≡ some p =
        ground (arith, packet_at-pos m d s st i e, h) in
      packet_at-pos m' d s st' i e'
      ∙ rw (
        q,
        get_elem?-append_left st.packets rest i (get_elem?-eq-some st.packets i stored),
        stored,
      )
]

-- What GetEnvelope returns for a place of a list of envelopes: the zero Envelope behind its end.
abbrev pub or_missing : Option Envelope → Envelope
or_missing none = record { id = pos 0; when = ""; kind = "" }
or_missing (some e) = e

-- AllEnvelopes of a stream that is there returns one envelope for each event, and GetEnvelope returns for
-- each ID from 0 on the envelope at that place of the list, or the zero Envelope where the list has ended.
pub all_envelopes-get_envelope :
    (rt : Runtime) (d s : String) (m : Memory) (st : MemoryStream)
    → find_stream m d s ≡ some st
    → (es : List Envelope) × ((all_envelopes rt waits d s m).0 ≡ ok es)
      × (length es ≡ length st.packets)
      × ((i : ℕ) → (get_envelope rt waits d s (pos i) m).0 ≡ ok (or_missing (get_elem? es i)))
unfolding all_envelopes envelopes get_envelope
all_envelopes-get_envelope rt d s m st e = (
  envelopes_from rt 0 st.packets,
  rw (e, envelopes),
  length-envelopes_from rt 0 st.packets,
  λ i.
      rw (packet_at-pos m d s st i e, get_envelope)
        (elim (Option-cases (get_elem? st.packets i)) [
          | inl f ↦ rw (f, get_elem?-envelopes_from-none rt 0 st.packets i f) refl
          | inr (p, f) ↦ rw (f, get_elem?-envelopes_from rt 0 st.packets i f) (ground arith)
        ]),
)
