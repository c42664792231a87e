-- ===== src/Base/Int.antt =====
-- Signed 64-bit sequence numbers. The program only copies and compares them, so no wrap-around.
use Prim.Native.Nat.{ℕ, suc, ◌+◌, ◌≤◌, ◌<◌, compare, Ordering}
use mathlib.Core.Path.{◌≡◌}
use mathlib.Core.Logic.{◌↔◌}
use mathlib.Core.Bool.{Bool, true, false}
use native.Mathlib.Omega.{arith}

-- `negsuc n` is -(n + 1).
pub data ℤ : Type 0 where
  pos : ℕ → ℤ
  negsuc : ℕ → ℤ

abbrev pub pos_part : ℤ → ℕ
pos_part (pos n) = n
pos_part (negsuc n) = 0

abbrev pub neg_part : ℤ → ℕ
neg_part (pos n) = 0
neg_part (negsuc n) = suc n

infix 50 ◌≤ℤ◌ ◌<ℤ◌
abbrev pub ◌≤ℤ◌ : ℤ → ℤ → Type 0
a ≤ℤ b = pos_part a + neg_part b ≤ pos_part b + neg_part a

abbrev pub ◌<ℤ◌ : ℤ → ℤ → Type 0
a <ℤ b = pos_part a + neg_part b < pos_part b + neg_part a

abbrev pub ltb : ℕ → ℕ → Bool
ltb a b = elim (compare a b) [ Ordering.lt ↦ true | _ ↦ false ]

abbrev pub leb : ℕ → ℕ → Bool
leb a b = elim (compare a b) [ Ordering.gt ↦ false | _ ↦ true ]

abbrev pub ltb_ℤ : ℤ → ℤ → Bool
ltb_ℤ a b = ltb (pos_part a + neg_part b) (pos_part b + neg_part a)

abbrev pub leb_ℤ : ℤ → ℤ → Bool
leb_ℤ a b = leb (pos_part a + neg_part b) (pos_part b + neg_part a)

pub leb_ℤ_iff : (a b : ℤ) → (leb_ℤ a b ≡ true) ↔ (a ≤ℤ b)
leb_ℤ_iff a b = ground arith

pub ltb_ℤ_iff : (a b : ℤ) → (ltb_ℤ a b ≡ true) ↔ (a <ℤ b)
ltb_ℤ_iff a b = ground arith

pub ≤ℤ_trans : (a b c : ℤ) → a ≤ℤ b → b ≤ℤ c → a ≤ℤ c
≤ℤ_trans a b c h k = omega arith

pub ≤ℤ_refl : (a : ℤ) → a ≤ℤ a
≤ℤ_refl a = omega arith
