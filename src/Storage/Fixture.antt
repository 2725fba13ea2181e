-- ===== src/Storage/Fixture.antt =====
-- A server and tables of ConsumerStore for examples.
use Prim.Native.Nat.{◌*◌, ◌^◌}
use pgcqrs.Base.{
  ℕ, String, pos, true, false, ◌≡◌, refl, some, [], ◌∷◌, arith, eq_iff, ◌==◌, sym, ◌∙◌, Bool-cases,
  inl, inr,
}
use pgcqrs.Base.Map
use pgcqrs.Base.Table
use pgcqrs.Base.Table.{ids_key, named_key}
use pgcqrs.Memory.Fixture.{runtime}
use pgcqrs.Storage.State.{Db, Server, LockRow, PositionRow, stream_id}
use pgcqrs.Storage.Valid.{IsValid, id_after}
use pgcqrs.Storage.Positions.{position_row}
use pgcqrs.Storage.Locks.{lock_row, can_take}

-- A server at a moment at which every statement works.
abbrev pub at_time : ℕ → Server
at_time now = record {
  fails = λ operation. false;
  now = now;
  clean_now = now;
  guarantee_clock = now;
  clock = now;
  fraction_of = λ ttl. ttl;
}

abbrev pub row_a : LockRow
row_a = record {
  holder = "a";
  acquired_at = 0;
  heartbeat_at = 0;
  ttl = 10 * 10 ^ 9;
  guarantee_until = 10 * 10 ^ 9;
  held_until = 10 * 10 ^ 9;
}

abbrev pub stored_c : PositionRow
stored_c = record { consumer_id = some 1; event_id = pos 3 }

-- One stream, where "a" holds the lock of the consumer "c", whose position is 3.
abbrev pub tables : Db
tables = record {
  streams = ("d", ("s", 1) ∷ []) ∷ [];
  names = ("c", 1) ∷ [];
  next_name = 2;
  locks = ((1, 1), row_a) ∷ [];
  positions = ((1, "c"), stored_c) ∷ [];
}

only_stream : (d s : String) (i : ℕ) → stream_id tables d s ≡ some i → ("d" ≡ d) × ("s" ≡ s)
unfolding Map.get
only_stream d s i e = elim (Bool-cases ("d" == d)) [
  | inl t ↦ elim (Bool-cases ("s" == s)) [
    | inl u ↦ ((eq_iff "d" d).0 t, (eq_iff "s" s).0 u)
    | inr u ↦ absurd (ground (arith, rw (t, u) at e))
  ]
  | inr t ↦ absurd (ground (arith, rw t at e))
]

only_name : (a : String) (i : ℕ) → Map.get tables.names a ≡ some i → ("c" ≡ a) × (1 ≡ i)
unfolding Map.get
only_name a i e = elim (Bool-cases ("c" == a)) [
  | inl t ↦ ((eq_iff "c" a).0 t, ground (arith, rw t at e))
  | inr t ↦ absurd (ground (arith, rw t at e))
]

pub tables-IsValid : IsValid tables
unfolding Map.get Table.find
tables-IsValid = record {
  streams_apart = λ d s d' s' i e f. (
    sym (only_stream d s i e).0 ∙ (only_stream d' s' i f).0,
    sym (only_stream d s i e).1 ∙ (only_stream d' s' i f).1,
  );
  names_keyed = (refl, tt);
  names_apart = λ a b i e f. sym (only_name a i e).0 ∙ (only_name b i f).0;
  names_old = λ a i e. omega (arith, (only_name a i e).1);
  locks_keyed = (refl, tt);
  positions_keyed = (refl, tt);
  positions_linked = (λ i e. e, tt);
}

pub tables-held : Table.find tables.locks (1, 1) ≡ some row_a
unfolding Table.find
tables-held = refl

pub tables-stream : stream_id tables "d" "s" ≡ some 1
unfolding Map.get
tables-stream = refl

pub tables-row : lock_row tables 1 (id_after "c" tables) ≡ some row_a
unfolding Map.get Table.find
tables-row = refl

pub tables-position : position_row tables 1 "c" ≡ some stored_c
unfolding Table.find
tables-position = refl

pub tables-own :
    can_take runtime
      (at_time 5)
      "d"
      "s"
      "c"
      "a"
      (7 * 10 ^ 9)
      (lock_row tables 1 (id_after "c" tables))
    ≡ true
unfolding Map.get Table.find
tables-own = refl
