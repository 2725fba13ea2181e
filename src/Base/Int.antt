-- ===== src/Base/Int.antt =====
-- Go's int64 values as signed integers over the native numbers. No operation of the modelled code
-- does arithmetic on them but counting, so no wrap-around occurs: they are only compared and stored.
use Prim.Native.Nat.{ℕ, suc, ◌+◌, ◌≤◌, ◌<◌}
use mathlib.Core.Path.{◌≡◌}
use mathlib.Core.Logic.{◌↔◌}
use native.Mathlib.Omega.{arith}
use pgcqrs.Base.Tests.{ltb, leb}
use mathlib.Core.Bool.{Bool, true, ◌&&◌}

-- `negsuc n` is -(n + 1).
pub data ℤ : Type 0 where
  pos : ℕ → ℤ
  negsuc : ℕ → ℤ

abbrev pub pos_part : ℤ → ℕ
pos_part (pos n) = n
pos_part (negsuc n) = 0

abbrev pub neg_part : ℤ → ℕ
neg_part (pos n) = 0
neg_part (negsuc n) = suc n

infix 50 ◌≤ℤ◌ ◌<ℤ◌
abbrev pub ◌≤ℤ◌ : ℤ → ℤ → Type 0
a ≤ℤ b = pos_part a + neg_part b ≤ pos_part b + neg_part a

abbrev pub ◌<ℤ◌ : ℤ → ℤ → Type 0
a <ℤ b = pos_part a + neg_part b < pos_part b + neg_part a

abbrev pub ltb_ℤ : ℤ → ℤ → Bool
ltb_ℤ a b = ltb (pos_part a + neg_part b) (pos_part b + neg_part a)

abbrev pub leb_ℤ : ℤ → ℤ → Bool
leb_ℤ a b = leb (pos_part a + neg_part b) (pos_part b + neg_part a)

abbrev pub eqb_ℤ : ℤ → ℤ → Bool
eqb_ℤ a b = leb_ℤ a b && leb_ℤ b a

pub eqb_ℤ_iff : (a b : ℤ) → (eqb_ℤ a b ≡ true) ↔ (a ≡ b)
eqb_ℤ_iff a b = ground arith

pub leb_ℤ_iff : (a b : ℤ) → (leb_ℤ a b ≡ true) ↔ (a ≤ℤ b)
leb_ℤ_iff a b = ground arith

pub ltb_ℤ_iff : (a b : ℤ) → (ltb_ℤ a b ≡ true) ↔ (a <ℤ b)
ltb_ℤ_iff a b = ground arith
