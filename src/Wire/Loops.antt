-- ===== src/Wire/Loops.antt =====
-- What a loop over a list has put into the list that it fills.
use mathlib.Core.List.{Memᴰ}
use mathlib.Core.List.Memᴰ
use mathlib.Core.Path.{subst}
use pgcqrs.Base.{
  Bool-cases, ◌≡◌, ◌⊎◌, inl, inr, refl, sym, ap, ◌∙◌, ◌↔◌, List, [], ◌∷◌, ◌++◌, Bool, true,
  if◌then◌else◌, arith,
}
use pgcqrs.Wire.{Result, Result-cases, ok, err, for_each, ◌>>=◌}

pub ok_injective {ℓ} : {A : Type ℓ} (x y : A) → ok x ≡ ok y → x ≡ y
ok_injective x y e = cc

module _ {ℓ} {D : Type ℓ} where
  pub Mem-append_last :
      (d : D) (xs : List D) (x : D) → Memᴰ d (xs ++ x ∷ []) ↔ (Memᴰ d xs ⊎ (d ≡ x))
  Mem-append_last d xs x = (
    λ h. elim (Memᴰ.append_cases xs h) [ inl m ↦ inl m | inr m ↦ inr (Memᴰ.eq_of_singleton m) ],
    λ h. elim h [
      | inl m ↦ Memᴰ.append_left (x ∷ []) m
      | inr e ↦ Memᴰ.append_right xs (Memᴰ.head e)
    ],
  )

  module _ {κ} {A : Type κ} (f : A → List D → Result (List D)) where
    -- What one round adds to the list.
    abbrev pub Adds {μ} : (P : A → D → Type μ) → Type (ℓ ⊔ κ ⊔ μ)
    Adds P =
        (x : A) (out out' : List D)
        → f x out ≡ ok out'
        → (d : D) → Memᴰ d out' ↔ (Memᴰ d out ⊎ P x d)

    -- What the loop adds to the list: what the rounds add.
    pub for_each-Adds {μ} :
        (P : A → D → Type μ)
        → Adds P
        → (xs : List A) (out out' : List D) → for_each f xs out ≡ ok out'
        → (d : D) → Memᴰ d out' ↔ (Memᴰ d out ⊎ ((x : A) × Memᴰ x xs × P x d))
    for_each-Adds P adds [] out out' e d = (
      λ h. inl (rw (← ok_injective out out' e) at h),
      λ s. elim s [
        | inl h ↦ rw (← ok_injective out out' e) h
        | inr (x, n, p) ↦ absurd (Memᴰ.not-nil n)
      ],
    )
    for_each-Adds P adds (x ∷ xs) out out' e d = elim (Result-cases (f x out)) [
      | inr (failed, g) ↦ absurd (ground (arith, rw g at e))
      | inl (mid, g) ↦
          joined mid (adds x out mid g d) (for_each-Adds P adds xs mid out' (rw g at e) d)
    ]
      where
        joined :
            (mid : List D)
            → Memᴰ d mid ↔ (Memᴰ d out ⊎ P x d)
            → Memᴰ d out' ↔ (Memᴰ d mid ⊎ ((y : A) × Memᴰ y xs × P y d))
            → Memᴰ d out' ↔ (Memᴰ d out ⊎ ((y : A) × Memᴰ y (x ∷ xs) × P y d))
        joined mid first rest = (
          λ h. elim (rest.0 h) [
            | inl m ↦ elim (first.0 m) [ inl k ↦ inl k | inr p ↦ inr (x, Memᴰ.head refl, p) ]
            | inr (y, k, p) ↦ inr (y, Memᴰ.tail k, p)
          ],
          λ s. elim s [
            | inl k ↦ rest.1 (inl (first.1 (inl k)))
            | inr (y, k, p) ↦ elim (Memᴰ.cases_cons k) [
              | inl same ↦ rest.1 (inl (first.1 (inr (subst (λ z. P z d) same p))))
              | inr later ↦ rest.1 (inr (y, later, p))
            ]
          ],
        )

pub bind-ok {ℓ κ} :
    {A : Type ℓ} {B : Type κ} (r : Result A) (f : A → Result B) (b : B)
    → (r >>= f) ≡ ok b
    → (a : A) × (r ≡ ok a) × (f a ≡ ok b)
bind-ok (ok a) f b e = (a, refl, e)
bind-ok (err x) f b e = absurd (ground (arith, e))

module _ {ℓ κ} {D : Type ℓ} {A : Type κ} (r : Result A) (test : A → Bool) (g : A → D) where
  append-Adds :
      (a : A) (r-ok : r ≡ ok a) (out out' : List D)
      → ok (if test a then out ++ g a ∷ [] else out) ≡ ok out'
      → (d : D) → Memᴰ d out' ↔ (Memᴰ d out ⊎ ((b : A) × (r ≡ ok b) × (test b ≡ true) × (d ≡ g b)))
  append-Adds a r-ok out out' e d = elim (Bool-cases (test a)) [
    | inl t ↦
        rw (← ok_injective (if test a then out ++ g a ∷ [] else out) out' e, t)
          (
            λ h. elim ((Mem-append_last d out (g a)).0 h) [
              | inl m ↦ inl m
              | inr q ↦ inr (a, r-ok, t, q)
            ],
            λ h. (Mem-append_last d out (g a)).1 (elim h [
              | inl m ↦ inl m
              | inr (b, p, u, q) ↦ inr (q ∙ ap g (ok_injective b a (sym p ∙ r-ok)))
            ]),
          )
    | inr t ↦
        rw (← ok_injective (if test a then out ++ g a ∷ [] else out) out' e, t)
          (
            λ h. inl h,
            λ h. elim h [
              | inl m ↦ m
              | inr (b, p, u, q) ↦
                  absurd (ground (arith, t, u, ap test (ok_injective b a (sym p ∙ r-ok))))
            ],
          )
  ]

  -- A round that reads a value and appends what it makes of it, if it passes a test.
  pub read-Adds :
      (out out' : List D)
      → (r >>= λ a. ok (if test a then out ++ g a ∷ [] else out)) ≡ ok out'
      → (d : D) → Memᴰ d out' ↔ (Memᴰ d out ⊎ ((b : A) × (r ≡ ok b) × (test b ≡ true) × (d ≡ g b)))
  read-Adds out out' e d =
      let (a, p, q) = bind-ok r (λ a. ok (if test a then out ++ g a ∷ [] else out)) out' e in
      append-Adds a p out out' q d

-- Two loops one behind the other.
pub after_both {ℓ μ ν} :
    {X : Type ℓ} {Y : Type ℓ} {Z : Type ℓ} {P : Type μ} {Q : Type ν}
    → Y ↔ (X ⊎ P)
    → Z ↔ (Y ⊎ Q)
    → Z ↔ (X ⊎ (P ⊎ Q))
after_both first second = (
  λ z. elim (second.0 z) [
    | inl y ↦ elim (first.0 y) [ inl x ↦ inl x | inr p ↦ inr (inl p) ]
    | inr q ↦ inr (inr q)
  ],
  λ h. second.1 (elim h [
    | inl x ↦ inl (first.1 (inl x))
    | inr s ↦ elim s [ inl p ↦ inl (first.1 (inr p)) | inr q ↦ inr q ]
  ]),
)

-- A loop returns a result where each round does.
pub for_each-ok {ℓ κ} :
    {A : Type ℓ} {S : Type κ} (f : A → S → Result S) (xs : List A) (s : S)
    → ((x : A) (t : S) → Memᴰ x xs → (u : S) × (f x t ≡ ok u))
    → (u : S) × (for_each f xs s ≡ ok u)
for_each-ok f [] s rounds = (s, refl)
for_each-ok f (x ∷ xs) s rounds =
    let (t, e) = rounds x s (Memᴰ.head refl) in
    let (u, h) = for_each-ok f xs t (λ y v k. rounds y v (Memᴰ.tail k)) in (u, rw e h)
