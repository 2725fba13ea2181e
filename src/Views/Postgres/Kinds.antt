-- ===== src/Views/Postgres/Kinds.antt =====
-- The kinds of entries (pkg/indexer/views/pgstore.go).
use pgcqrs.Base.{
  ℕ, suc, String, ◌==◌, false, Bool-cases, ◌≡◌, refl, sym, ap, ◌∙◌, ◌⊎◌, inl, inr, Option,
  Option-cases, none, some, List, eqb, arith, eq_iff,
}
use mathlib.Core.Path.{subst}
use pgcqrs.Base.Map
use pgcqrs.Base.Map.{get-put, get-put_self}
use pgcqrs.Base.Table.{named_key}
use pgcqrs.Wire.{Result, ok}
use pgcqrs.Storage.State.{Server}
use pgcqrs.Views.Postgres.Keyed.{IsValid, seen_at, seen}
use pgcqrs.Views.Postgres.{ViewsDb, single_key, composite_key, resolve_kind_name}

pub same_kind :
    (db : ViewsDb) (a b : String) (i j : ℕ)
    → IsValid db
    → Map.get db.kinds a ≡ some i
    → Map.get db.kinds b ≡ some j
    → eqb i j ≡ (a == b)
same_kind db a b i j valid e f = elim (Bool-cases (a == b)) [
  | inl t ↦ rw t (ground (arith, subst (λ x. Map.get db.kinds x ≡ some i) ((eq_iff a b).0 t) e, f))
  | inr t ↦ rw t (elim (Bool-cases (eqb i j)) [
    | inr u ↦ u
    | inl u ↦
        absurd (ground (arith, t, eq_iff a b, valid.kinds_apart a b i e (f ∙ ground (arith, u))))
  ])
]

moved-IsValid : (db : ViewsDb) → IsValid db → IsValid (record db { next_kind = suc db.next_kind })
moved-IsValid db valid = record {
  kinds_apart = valid.kinds_apart;
  kinds_old = λ a i e. omega (arith, valid.kinds_old a i e);
  kinds_fresh = λ p k parts l. valid.kinds_fresh p k parts (omega (arith, l));
  projections_old = valid.projections_old;
  projections_fresh = valid.projections_fresh;
  singles_keyed = valid.singles_keyed;
  composites_keyed = valid.composites_keyed;
}

abbrev with_kind : String → ViewsDb → ViewsDb
with_kind kind db = record db {
  next_kind = suc db.next_kind;
  kinds = Map.put db.kinds kind db.next_kind;
}

with_kind-get :
    (kind : String) (db : ViewsDb) (a : String) (i : ℕ)
    → Map.get (with_kind kind db).kinds a ≡ some i
    → ((kind ≡ a) × (i ≡ db.next_kind)) ⊎ (Map.get db.kinds a ≡ some i)
with_kind-get kind db a i e = elim (Bool-cases (kind == a)) [
  | inl t ↦ inl ((eq_iff kind a).0 t, ground (arith, (rw (get-put, t) at e)))
  | inr t ↦ inr (rw (get-put, t) at e)
]

with_kind-IsValid :
    (kind : String) (db : ViewsDb)
    → Map.get db.kinds kind ≡ none
    → IsValid db
    → IsValid (with_kind kind db)
with_kind-IsValid kind db new valid = record {
  kinds_apart = λ a b i e f. elim (with_kind-get kind db a i e) [
    | inl (s, n) ↦ elim (with_kind-get kind db b i f) [
      | inl (s', n') ↦ sym s ∙ s'
      | inr f' ↦ absurd (omega (arith, n, valid.kinds_old b i f'))
    ]
    | inr e' ↦ elim (with_kind-get kind db b i f) [
      | inl (s', n') ↦ absurd (omega (arith, n', valid.kinds_old a i e'))
      | inr f' ↦ valid.kinds_apart a b i e' f'
    ]
  ];
  kinds_old = λ a i e. elim (with_kind-get kind db a i e) [
    | inl (s, n) ↦ omega (arith, n)
    | inr e' ↦ omega (arith, valid.kinds_old a i e')
  ];
  kinds_fresh = λ p k parts l. valid.kinds_fresh p k parts (omega (arith, l));
  projections_old = valid.projections_old;
  projections_fresh = valid.projections_fresh;
  singles_keyed = valid.singles_keyed;
  composites_keyed = valid.composites_keyed;
}

with_kind-seen :
    (kind : String) (db : ViewsDb)
    → Map.get db.kinds kind ≡ none
    → IsValid db
    → (p : ℕ) (kind' : String) (parts : List String)
    → seen p kind' parts (with_kind kind db) ≡ seen p kind' parts db
with_kind-seen kind db new valid p kind' parts =
    ap (seen_at p parts (with_kind kind db)) (get-put db.kinds kind db.next_kind kind')
    ∙ elim (Bool-cases (kind == kind')) [
      | inl t ↦
          rw (t, subst (λ x. Map.get db.kinds x ≡ none) ((eq_iff kind kind').0 t) new)
            (valid.kinds_fresh p db.next_kind parts (omega arith))
      | inr t ↦ rw t refl
    ]

module _ (server : Server) (jsonb : String → Option String)
    (working : (op : String) → server.fails op ≡ false) where
  -- resolveKindName leaves what is seen.
  abbrev pub Resolved : String → ViewsDb → Result ℕ × ViewsDb → Type 0
  Resolved kind db r =
      (k : ℕ) × (db' : ViewsDb) × (r ≡ (ok k, db'))
      × IsValid db'
      × (Map.get db'.kinds kind ≡ some k)
      × (db'.next_projection ≡ db.next_projection)
      × ((p : ℕ) (kind' : String) (parts : List String)
          → seen p kind' parts db' ≡ seen p kind' parts db)

  pub resolve_kind_name-Resolved :
      (kind : String) (db : ViewsDb)
      → IsValid db
      → Resolved kind db (resolve_kind_name server jsonb kind db)
  unfolding resolve_kind_name
  resolve_kind_name-Resolved kind db valid = elim (Option-cases (Map.get db.kinds kind)) [
    | inr (k, e) ↦
        rw (working "insert kind", e, working "select kind")
          (
            k,
            record db { next_kind = suc db.next_kind },
            refl,
            moved-IsValid db valid,
            e,
            refl,
            λ p kind' parts. refl,
          )
    | inl e ↦
        rw (working "insert kind", e)
          (
            db.next_kind,
            with_kind kind db,
            refl,
            with_kind-IsValid kind db e valid,
            get-put_self db.kinds kind db.next_kind,
            refl,
            with_kind-seen kind db e valid,
          )
  ]
