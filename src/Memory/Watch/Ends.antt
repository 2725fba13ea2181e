-- ===== src/Memory/Watch/Ends.antt =====
-- A tick of a watch whose channel is open comes to an end: it needs no more rounds than IDs wait in the
-- channel, and one.
use pgcqrs.Base.{
  ℕ, zero, suc, ◌<◌, ℤ, Bool, false, ◌≡◌, ap, inl, inr, List, [], ◌∷◌, arith, List-cases, length,
  ◌∙◌, if◌then◌else◌,
}
use pgcqrs.Wire.{Result, ok, err, Runtime}
use pgcqrs.Memory.State.{Memory, Channel, waits}
use pgcqrs.Memory.Streams.{all_envelopes}
use pgcqrs.Memory.Watch.{
  MemoryWatch, pop, process_init_events, Received, received, closed_now, blocked, receive, Ticked,
  spins, load_event, new_event, handled, select, or_pending, wait_for_events, tick,
}
use pgcqrs.Memory.Watch.Order.{pop-eq}

-- The answer of a tick is an event, an error or a wait for the context.
abbrev pub Ends : Ticked × (Channel × MemoryWatch) → Type 0
Ends (spins, _) = ⊥
Ends (_, _) = Unit

abbrev IsOpen : ℕ → Channel → Type 0
IsOpen fuel ch = (ch.closed ≡ false) × (length ch.buffer < fuel)

or_pending-Ends :
    (w : MemoryWatch) (ch : Channel) (otherwise : MemoryWatch → Ticked × (Channel × MemoryWatch))
    → Ends (otherwise w)
    → Ends (or_pending (pop w) ch otherwise)
or_pending-Ends w ch otherwise g = elim (List-cases w.pending) [
  | inl e ↦ rw (pop-eq w [] e) g
  | inr (out, rest, e) ↦ rw (pop-eq w (out ∷ rest) e) tt
]

handled-Ends :
    (ch : Channel) (r : Result (Unit {0}) × MemoryWatch)
    (next : Channel → MemoryWatch → Ticked × (Channel × MemoryWatch))
    → ((w : MemoryWatch) → Ends (next ch w))
    → Ends (handled next ch r)
handled-Ends ch (err e, w) next k = tt
handled-Ends ch (ok _, w) next k = k w

receive-eq :
    (ch : Channel) (buffer : List ℤ)
    → ch.buffer ≡ buffer
    → receive ch ≡ (elim buffer [
      | id ∷ rest ↦ (received id, record ch { buffer = rest })
      | [] ↦ (if ch.closed then closed_now else blocked, ch)
    ])
unfolding receive
receive-eq ch buffer e =
    ap
      (λ (ids : List ℤ). elim ids as (λ _. Received × Channel) [
        | id ∷ rest ↦ (received id, record ch { buffer = rest })
        | [] ↦ (if ch.closed then closed_now else blocked, ch)
      ])
      e

receive-blocked : (ch : Channel) → ch.buffer ≡ [] → ch.closed ≡ false → receive ch ≡ (blocked, ch)
receive-blocked ch e open_ch =
    receive-eq ch [] e ∙ ap (λ (b : Bool). (if b then closed_now else blocked, ch)) open_ch

module _ (rt : Runtime) (m : Memory) where
  wait_for_events-Ends :
      (fuel : ℕ) (ch : Channel) (w : MemoryWatch)
      → IsOpen fuel ch
      → Ends (wait_for_events rt m fuel ch w)
  unfolding wait_for_events
  wait_for_events-Ends zero ch w (open_ch, room) = absurd (omega arith)
  wait_for_events-Ends (suc fuel) ch w (open_ch, room) =
      or_pending-Ends w ch (λ w'. select rt m next (receive ch) w')
        (elim (List-cases ch.buffer) [
          | inl e ↦ rw (receive-blocked ch e open_ch) tt
          | inr (id, rest, e) ↦ rw (receive-eq ch (id ∷ rest) e) (
              handled-Ends (record ch { buffer = rest }) (new_event rt m id w) next
                (λ w'.
                  wait_for_events-Ends fuel (record ch { buffer = rest }) w'
                    (open_ch, shorter id rest e)))
        ])
    where
      next : Channel → MemoryWatch → Ticked × (Channel × MemoryWatch)
      next ch' w'' = wait_for_events rt m fuel ch' w''

      shorter : (id : ℤ) (rest : List ℤ) → ch.buffer ≡ id ∷ rest → length rest < fuel
      shorter id rest e = omega (arith, room, ap length e)

  -- Where the channel of a watch has not been closed, a tick with more fuel than IDs wait in the channel does
  -- not run out of it: it delivers an event, fails, or waits for the next event or the context's end.
  pub tick-Ends :
      (fuel : ℕ) (ch : Channel) (w : MemoryWatch)
      → ch.closed ≡ false
      → length ch.buffer < fuel
      → Ends (tick rt m fuel ch w)
  unfolding tick
  tick-Ends fuel ch w open_ch room =
      or_pending-Ends w ch (λ w'. handled (wait_for_events rt m fuel) ch (init w'))
        (handled-Ends ch (init w) (wait_for_events rt m fuel)
          (λ w'. wait_for_events-Ends fuel ch w' (open_ch, room)))
    where
      init : MemoryWatch → Result (Unit {0}) × MemoryWatch
      init w' =
          process_init_events rt (load_event rt m w')
            (all_envelopes rt waits w'.query.domain w'.query.stream m).0 w'
