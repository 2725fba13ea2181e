-- ===== src/Memory/Streams/Submit.antt =====
-- Submit of the in-memory transport.
use pgcqrs.Base.{
  ℕ, ◌&&◌, String, ◌==◌, ℤ, pos, ◌≡◌, inl, inr, refl, ap, Option, some, ◌∙◌, [], ◌∷◌, ◌++◌, map,
  arith, eq_refl, Option-cases, if◌then◌else◌, length, get_elem?-append_last,
}
use pgcqrs.Base.Map
use pgcqrs.Base.Map.{get-put}
use pgcqrs.Wire.{Lock, Result, Result-cases, ok, err, Runtime, emit_failed}
use pgcqrs.Memory.State.{Memory, MemoryDomain, MemoryStream, MemoryPacket, waits}
use pgcqrs.Memory.Locks.{check_lock}
use pgcqrs.Memory.Streams.{
  find_stream, put_stream, notify, append_packet, submit_command, submit, get_event, decode,
}
use pgcqrs.Memory.Streams.Log.{
  Extends, Extends-refl, Extends-put_stream, no_domain, packet_at-pos, find_stream-put_stream,
}

module _ (rt : Runtime) (now : ℕ) (d s : String) (lock : Option Lock) (packet : MemoryPacket)
    (m : Memory) where
  abbrev pub command : Result ℤ × Memory
  command = submit_command rt now d s lock packet m

  -- What the command does where the lock is accepted and the stream is there.
  command-eq :
      (st : MemoryStream)
      → check_lock now m d s lock ≡ ok tt
      → find_stream m d s ≡ some st
      → (found : MemoryDomain) × (Map.get m.domains d ≡ some found)
        × (Map.get found.streams s ≡ some st)
        × (command ≡ (
          (append_packet rt packet st).0,
          put_stream m d s found (append_packet rt packet st).1,
        ))
  unfolding submit_command
  command-eq st held e = elim (Option-cases (Map.get m.domains d)) [
    | inl f ↦ absurd (ground (arith, e, no_domain m d s f))
    | inr (found, f) ↦
        let g : Map.get found.streams s ≡ some st =
          unfold find_stream in (rw (f, find_stream) at e) in
        (found, f, g, rw (held, submit_command) (rw (f, submit_command) (rw (g, submit_command))))
  ]

  appended :
      (st : MemoryStream) → (append_packet rt packet st).1.packets ≡ st.packets ++ packet ∷ []
  unfolding append_packet
  appended st = refl

  -- Whatever the command of Submit does, it keeps the log.
  pub Extends-command : Extends m command.1
  unfolding submit_command
  Extends-command = elim (Result-cases (check_lock now m d s lock)) [
    | inr (e, refused) ↦ rw (refused, submit_command) (Extends-refl m)
    | inl (_, held) ↦ elim (Option-cases (Map.get m.domains d)) [
      | inl f ↦ rw (held, submit_command) (rw (f, submit_command) (Extends-refl m))
      | inr (found, f) ↦ elim (Option-cases (Map.get found.streams s)) [
        | inl g ↦
            rw (held, submit_command)
              (rw (f, submit_command) (rw (g, submit_command) (Extends-refl m)))
        | inr (st, g) ↦
            rw (held, submit_command)
              (rw (f, submit_command)
                (rw (g, submit_command)
                  (Extends-put_stream m d s found st (append_packet rt packet st).1 (packet ∷ []) f
                    g (appended st))))
      ]
    ]
  ]

  module _ (st : MemoryStream) (held : check_lock now m d s lock ≡ ok tt)
      (there : find_stream m d s ≡ some st) where
    command-result : command.0 ≡ (
        if rt.emit (map (λ ch. (notify (pos (length st.packets)) ch).1) st.on_add_packet)
        then ok (pos (length st.packets))
        else err emit_failed)
    unfolding append_packet
    command-result = ap (λ (r : Result ℤ × Memory). r.0) (command-eq st held there).3

    command-streams :
        (d' s' : String)
        → find_stream command.1 d' s' ≡ (
            if d == d' && s == s' then some (append_packet rt packet st).1 else find_stream m d' s')
    command-streams d' s' =
        let (found, f, g, e) = command-eq st held there in
        rw e (find_stream-put_stream m d s found (append_packet rt packet st).1 d' s' f)

module _ (rt : Runtime) (now when : ℕ) (d s kind body : String) (lock : Option Lock) (m : Memory)
    (st : MemoryStream) (held : check_lock now m d s lock ≡ ok tt)
    (there : find_stream m d s ≡ some st) where
  abbrev event : MemoryPacket
  event = record { when = when; kind = kind; body = body }

  abbrev submitted : Result ℤ × Memory
  submitted = submit rt waits now when d s kind (some body) lock m

  -- Submit to a stream that is there, with a lock assertion that holds or none: the result is the number of
  -- events before it, or an error where a watch could not be notified; the event is the stream's new
  -- last one in either case; and every other stream is as it was.
  pub submit_appends :
      (submitted.0 ≡ (
        if rt.emit (map (λ ch. (notify (pos (length st.packets)) ch).1) st.on_add_packet)
        then ok (pos (length st.packets))
        else err emit_failed))
      × ((st' : MemoryStream) × (st'.packets ≡ st.packets ++ event ∷ [])
          × ((d' s' : String)
              → find_stream submitted.1 d' s'
                ≡ (if d == d' && s == s' then some st' else find_stream m d' s')))
  unfolding submit
  submit_appends = (
    command-result rt now d s lock event m st held there,
    (
      (append_packet rt event st).1,
      appended rt now d s lock event m st,
      command-streams rt now d s lock event m st held there,
    ),
  )

  -- The event that Submit stored is read back by GetEvent under the ID that it was given.
  pub submit-get_event :
      (raw : String)
      → rt.unmarshal_raw body ≡ some raw
      → (get_event rt waits d s (pos (length st.packets)) submitted.1).0 ≡ ok raw
  unfolding get_event
  submit-get_event raw valid =
      let (st', p, streams) = submit_appends.1 in
      let e : find_stream submitted.1 d s ≡ some st' = streams d s ∙ simp (eq_refl) in
      rw (packet_at-pos submitted.1 d s st' (length st.packets) e, get_event)
        (rw (p, get_elem?-append_last st.packets event) (rw (valid, decode)))
