-- ===== src/Base/Integers.antt =====
-- Signed integers and their order.
use Prim.Native.Nat.{ℕ, ◌≤◌}
use mathlib.Core.Path.{◌≡◌}
use mathlib.Core.Bool.{Bool, true, false}
use native.Mathlib.Omega.{arith}
use delmos.Base.Tests.{leb}

-- `pos n` is n, and `negsuc n` is -(n + 1).
pub data ℤ : Type 0 where
  pos : ℕ → ℤ
  negsuc : ℕ → ℤ

abbrev pub leb_int : ℤ → ℤ → Bool
leb_int (pos a) (pos b) = leb a b
leb_int (pos a) (negsuc b) = false
leb_int (negsuc a) (pos b) = true
leb_int (negsuc a) (negsuc b) = leb b a

infix 50 ◌≤ℤ◌
abbrev pub ◌≤ℤ◌ : ℤ → ℤ → Type 0
pos a ≤ℤ pos b = a ≤ b
pos a ≤ℤ negsuc b = ⊥
negsuc a ≤ℤ pos b = Unit
negsuc a ≤ℤ negsuc b = b ≤ a

pub le_int_refl : (a : ℤ) → a ≤ℤ a
le_int_refl (pos a) = omega arith
le_int_refl (negsuc a) = omega arith

pub le_int_trans : (a b c : ℤ) → a ≤ℤ b → b ≤ℤ c → a ≤ℤ c
le_int_trans (pos a) (pos b) (pos c) h k = omega (arith, h, k)
le_int_trans (pos a) (pos b) (negsuc c) h k = absurd k
le_int_trans (pos a) (negsuc b) c h k = absurd h
le_int_trans (negsuc a) (pos b) (pos c) h k = tt
le_int_trans (negsuc a) (pos b) (negsuc c) h k = absurd k
le_int_trans (negsuc a) (negsuc b) (pos c) h k = tt
le_int_trans (negsuc a) (negsuc b) (negsuc c) h k = omega (arith, h, k)

pub leb_int-true : (a b : ℤ) → leb_int a b ≡ true → a ≤ℤ b
leb_int-true (pos a) (pos b) h = ground (arith, h)
leb_int-true (pos a) (negsuc b) h = absurd (cc)
leb_int-true (negsuc a) (pos b) h = tt
leb_int-true (negsuc a) (negsuc b) h = ground (arith, h)

pub leb_int-false : (a b : ℤ) → leb_int a b ≡ false → b ≤ℤ a
leb_int-false (pos a) (pos b) h = ground (arith, h)
leb_int-false (pos a) (negsuc b) h = tt
leb_int-false (negsuc a) (pos b) h = absurd (cc)
leb_int-false (negsuc a) (negsuc b) h = ground (arith, h)
