-- ===== src/Memory/Positions/Store.antt =====
-- SetPosition, GetPosition and DeletePosition of the in-memory transport as a store.
use pgcqrs.Base.{
  String, ◌==◌, ◌&&◌, ℤ, ◌≤ℤ◌, false, ◌≡◌, ap, ◌⊎◌, inl, inr, refl, Option, none, some, arith,
  eq_iff, if◌then◌else◌, eq_refl, Option-cases, Bool-cases, ltb_ℤ,
}
use pgcqrs.Base.Map
use pgcqrs.Base.Map.{Map, get_in, get_in-put_in, get_in-prune-delete, or_empty, get-nil}
use pgcqrs.Wire.{ok}
use pgcqrs.Memory.State.{Memory, Context, waits, state-simulate_network}
use pgcqrs.Memory.Positions.{
  position_key, stored_position, record_position, set_position_command, set_position, get_position,
  delete_position_command, delete_position, goes_back,
}

pub stored_position-record :
    (m : Memory) (d s c : String) (p : ℤ)
    → stored_position (record_position m d s c p) d s c ≡ some p
unfolding stored_position record_position
stored_position-record m d s c p = simp (get_in-put_in, eq_refl)

goes_back-false :
    (o : Option ℤ) (id : ℤ) → ((p : ℤ) → o ≡ some p → p ≤ℤ id) → goes_back o id ≡ false
goes_back-false none id ahead = refl
goes_back-false (some p) id ahead = ground (arith, ahead p refl)

module _ (d s c : String) (id : ℤ) (m : Memory) where
  -- Where the new position is not behind the stored one, SetPosition returns the stored one and the new
  -- one, and GetPosition then finds the new one.
  pub set_position-get_position :
      ((p : ℤ) → stored_position m d s c ≡ some p → p ≤ℤ id)
      → ((set_position waits d s c id m).0
          ≡ ok (record { previous_event_id = stored_position m d s c; current_event_id = id }))
        × ((get_position waits d s c (set_position waits d s c id m).1).0 ≡ ok (some id))
  unfolding set_position set_position_command get_position
  set_position-get_position ahead =
      rw (goes_back-false (stored_position m d s c) id ahead, set_position_command)
        (refl, ap ok (stored_position-record m d s c id))

  -- Whatever SetPosition is given, and whether or not its caller waits, the stored position of a consumer
  -- does not go back.
  pub set_position_monotone :
      (ctx : Context) (p : ℤ)
      → stored_position m d s c ≡ some p
      → (q : ℤ) × (stored_position (set_position ctx d s c id m).1 d s c ≡ some q) × (p ≤ℤ q)
  unfolding set_position set_position_command
  set_position_monotone ctx p e = elim (Bool-cases (ltb_ℤ id p)) [
    | inl back ↦ (p, rw state-simulate_network (rw (e, back) e), omega arith)
    | inr fwd ↦ (
      id,
      rw state-simulate_network (rw (e, fwd) (stored_position-record m d s c id)),
      ground arith,
    )
  ]

module _ (m : Memory) (d s c : String) where
  command-eq :
      (delete_position_command d s c m).positions
        ≡ Map.prune m.positions
            (position_key d s c)
            (Map.delete (or_empty (Map.get m.positions (position_key d s c))) c)
      ⊎ (Map.get m.positions (position_key d s c) ≡ none)
        × ((delete_position_command d s c m).positions ≡ m.positions)
  unfolding delete_position_command
  command-eq = elim (Option-cases (Map.get m.positions (position_key d s c))) [
    | inl e ↦ inr (e, rw (e, delete_position_command))
    | inr (inner, e) ↦ inl (rw (e, delete_position_command) refl)
  ]

  -- DeletePosition forgets the consumer's position under the stream's key, and keeps every other one,
  -- whether or not its caller waits.
  pub delete_position_lem :
      (ctx : Context)
      → (d' s' c' : String)
      → stored_position (delete_position ctx d s c m).1 d' s' c' ≡ (
          if position_key d s c == position_key d' s' c' && c == c'
          then none
          else stored_position m d' s' c')
  unfolding delete_position stored_position
  delete_position_lem ctx d' s' c' = elim command-eq [
    | inl e ↦
        rw (state-simulate_network, e)
          (get_in-prune-delete m.positions (position_key d s c) c (position_key d' s' c') c')
    | inr (gone, e) ↦
        rw (state-simulate_network, e)
          (elim (Bool-cases (position_key d s c == position_key d' s' c')) [
            | inl k ↦
                rw (k, ← (eq_iff (position_key d s c) (position_key d' s' c')).0 k, gone)
                  (ground (arith, get-nil {V = ℤ} c'))
            | inr k ↦ rw k refl
          ])
  ]
