-- ===== src/Memory/Positions/Keys.antt =====
-- The keys of the position table: positionKey joins three names by slashes. Streams whose names hold
-- no slash never share a key; other streams can.
use Prim.Native.Char.{Char}
use Prim.Native.String.{◌++◌ as str_append}
use text.Mathlib.TextLemmas.{
  cons-eq-cons, nil-append as text_nil, cons-append as text_cons, append_assoc as text_assoc,
}
use pgcqrs.Base.{
  String, ◌==◌, ℤ, ◌≤ℤ◌, ◌≡◌, ◌≢◌, inl, inr, refl, sym, ap, ◌∙◌, some, eq_iff, Bool-cases,
}
use pgcqrs.Base.Map
use pgcqrs.Base.Map.{get_in-put_in}
use pgcqrs.Wire.{ok}
use pgcqrs.Memory.State.{Memory, Context, waits, state-simulate_network}
use pgcqrs.Memory.Positions.{
  position_key, stored_position, record_position, set_position_command, set_position, get_position,
  goes_back,
}
use pgcqrs.Memory.Positions.Store.{set_position-get_position}

abbrev slash : Char
slash = "/"

-- No character of the text is a slash.
abbrev pub NoSlash : String → Type 0
NoSlash String.[] = Unit
NoSlash (String.◌∷◌ c s) = (c ≢ slash) × NoSlash s

sep : (x : String) → str_append "/" x ≡ String.◌∷◌ slash x
sep x = text_cons slash String.[] x ∙ ap (String.◌∷◌ slash) (text_nil x)

-- A text before a slash.
abbrev pub before : String → String → String
before a x = str_append a (str_append "/" x)

before-nil : (x : String) → before String.[] x ≡ String.◌∷◌ slash x
before-nil x = text_nil (str_append "/" x) ∙ sep x

before-cons : (c : Char) (a x : String) → before (String.◌∷◌ c a) x ≡ String.◌∷◌ c (before a x)
before-cons c a x = text_cons c a (str_append "/" x)

-- Texts without a slash can be read off a text that goes on with one.
split_unique :
    (a b x y : String) → NoSlash a → NoSlash b → before a x ≡ before b y → (a ≡ b) × (x ≡ y)
split_unique String.[] String.[] x y na nb e =
    (refl, (cons-eq-cons.0 (sym (before-nil x) ∙ e ∙ before-nil y)).1)
split_unique String.[] (String.◌∷◌ c b) x y na nb e =
    absurd (nb.0 (sym (cons-eq-cons.0 (sym (before-nil x) ∙ e ∙ before-cons c b y)).0))
split_unique (String.◌∷◌ c a) String.[] x y na nb e =
    absurd (na.0 (cons-eq-cons.0 (sym (before-cons c a x) ∙ e ∙ before-nil y)).0)
split_unique (String.◌∷◌ c a) (String.◌∷◌ c' b) x y na nb e =
    let (p, q) = cons-eq-cons.0 (sym (before-cons c a x) ∙ e ∙ before-cons c' b y) in
    let (r, t) = split_unique a b x y na.1 nb.1 q in (cons-eq-cons.1 (p, r), t)

-- Names without a slash give one key only to one domain, stream and consumer.
pub position_key_unique :
    (d s c d' s' c' : String)
    → NoSlash d
    → NoSlash s
    → NoSlash d'
    → NoSlash s'
    → position_key d s c ≡ position_key d' s' c'
    → (d ≡ d') × (s ≡ s') × (c ≡ c')
position_key_unique d s c d' s' c' nd ns nd' ns' e =
    let (p, rest) =
      split_unique d d' (str_append s (str_append "/" c)) (str_append s' (str_append "/" c')) nd nd'
        e in
    let (q, r) = split_unique s s' c c' ns ns' rest in (p, q, r)

-- Where no name of a domain or stream has a slash, SetPosition for one consumer leaves the position of
-- each other consumer, and of the same consumer in each other stream, as it was.
pub set_position-apart :
    (ctx : Context) (d s c : String) (id : ℤ) (m : Memory) (d' s' c' : String)
    → NoSlash d
    → NoSlash s
    → NoSlash d'
    → NoSlash s'
    → ¬ ((d ≡ d') × (s ≡ s') × (c ≡ c'))
    → stored_position (set_position ctx d s c id m).1 d' s' c' ≡ stored_position m d' s' c'
unfolding set_position set_position_command stored_position record_position
set_position-apart ctx d s c id m d' s' c' nd ns nd' ns' apart =
    rw state-simulate_network (elim (Bool-cases (goes_back (stored_position m d s c) id)) [
      | inl back ↦ rw back
      | inr fwd ↦ rw fwd (
          rw get_in-put_in (elim (Bool-cases (position_key d s c == position_key d' s' c')) [
            | inl e ↦
                absurd (apart (position_key_unique d s c d' s' c' nd ns nd' ns' ((eq_iff _ _).0 e)))
            | inr e ↦ rw e
          ]))
    ])

-- A defect. The streams "b/c" of the domain "a" and "c" of the domain "a/b" share their positions, for all
-- names: where SetPosition accepts a position in the one, GetPosition finds it in the other.
pub slashed_streams_share_positions :
    (a b c consumer : String) (id : ℤ) (m : Memory)
    → ((p : ℤ) → stored_position m (before a b) c consumer ≡ some p → p ≤ℤ id)
    → (get_position waits a
        (before b c)
        consumer
        (set_position waits (before a b) c consumer id m).1).0
      ≡ ok (some id)
unfolding get_position stored_position
slashed_streams_share_positions a b c consumer id m ahead =
    ap
      (λ key.
        ok (Map.get_in (set_position waits (before a b) c consumer id m).1.positions key consumer))
      same
    ∙ (set_position-get_position (before a b) c consumer id m ahead).1
  where
    same : position_key a (before b c) consumer ≡ position_key (before a b) c consumer
    same = simp text_assoc
