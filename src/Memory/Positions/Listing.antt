-- ===== src/Memory/Positions/Listing.antt =====
-- ListConsumers of the in-memory transport.
use Prim.Native.String.{◌++◌ as str_append, len}
use text.Mathlib.TextPositions.{len-append, starts_with-append, slice-append_right}
use text.Mathlib.TextLemmas.{append_assoc as text_assoc}
use mathlib.Core.List.{Memᴰ}
use pgcqrs.Base.{
  ◌<◌, String, ◌==◌, ℤ, ◌≡◌, inl, inr, refl, ap, ◌∙◌, some, List, [], ◌∷◌, arith, eq_iff,
  Bool-cases, Option-cases,
}
use pgcqrs.Base.Map
use pgcqrs.Base.Map.{Map}
use pgcqrs.Wire.{ok}
use pgcqrs.Memory.State.{Memory, waits}
use pgcqrs.Memory.Positions.{
  position_key, consumer_of, consumers_of, stored_position, list_consumers,
}

consumer_of-append :
    (prefix c : String) → 0 < len c → consumer_of prefix (str_append prefix c) ≡ some c
unfolding consumer_of
consumer_of-append prefix c named =
    rw (len-append prefix c, starts_with-append, slice-append_right) (ground arith)

-- A key of the map that belongs to a consumer is listed.
consumers_of-complete :
    (prefix c : String) (m : Map (Map ℤ)) (inner : Map ℤ)
    → 0 < len c
    → Map.get m (str_append prefix c) ≡ some inner
    → Memᴰ c (consumers_of prefix m)
unfolding consumers_of
consumers_of-complete prefix c [] inner named e =
    absurd (ground (arith, e, Map.get-nil {V = Map ℤ} (str_append prefix c)))
consumers_of-complete prefix c ((k, v) ∷ m) inner named e =
    elim (Bool-cases (k == str_append prefix c)) [
      | inl hit ↦
          rw ((eq_iff k (str_append prefix c)).0 hit)
            (rw (consumer_of-append prefix c named, consumers_of) (Memᴰ.head refl))
      | inr miss ↦
          let later =
            consumers_of-complete prefix c m inner named
              (unfold Map.get in (rw (miss, Map.get) at e)) in
          elim (Option-cases (consumer_of prefix k)) [
            | inl f ↦ rw (f, consumers_of) later
            | inr (c', f) ↦ rw (f, consumers_of) (Memᴰ.tail later)
          ]
    ]

-- ListConsumers names every consumer that has a position in the stream, but one with the empty name.
pub list_consumers_complete :
    (d s c : String) (p : ℤ) (m : Memory)
    → 0 < len c
    → stored_position m d s c ≡ some p
    → (names : List String) × ((list_consumers waits d s m).0 ≡ ok names) × Memᴰ c names
unfolding list_consumers stored_position
list_consumers_complete d s c p m named e = (
  consumers_of prefix m.positions,
  refl,
  elim (Option-cases (Map.get m.positions (position_key d s c))) [
    | inl f ↦ absurd (ground (arith, rw f at e, Map.get-nil {V = ℤ} c))
    | inr (inner, f) ↦
        consumers_of-complete prefix c m.positions inner named (ap (Map.get m.positions) join ∙ f)
  ],
)
  where
    prefix : String
    prefix = str_append d (str_append "/" (str_append s "/"))

    join : str_append prefix c ≡ position_key d s c
    join = simp text_assoc
