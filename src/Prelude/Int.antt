-- ===== src/Prelude/Int.antt =====
-- Signed integers over the native numbers, their comparisons, and the casts of machine integers.
use Prim.Native.Nat.{ℕ, suc, ◌+◌, ◌-◌, ◌%◌, ◌≤◌, ◌<◌}
use mathlib.Core.Path.{◌≡◌}
use mathlib.Core.Bool.{Bool}
use native.Mathlib.Omega.{arith}
use tmkms.Prelude.Tests.{ltb, ◌==◌, if◌then◌else◌}

-- `negsuc n` is -(n + 1).
pub data ℤ : Type 0 where
  pos : ℕ → ℤ
  negsuc : ℕ → ℤ

abbrev pub pos_part : ℤ → ℕ
pos_part (pos n) = n
pos_part (negsuc n) = 0

abbrev pub neg_part : ℤ → ℕ
neg_part (pos n) = 0
neg_part (negsuc n) = suc n

infix 50 ◌<ℤ◌ ◌≤ℤ◌
abbrev pub ◌<ℤ◌ : ℤ → ℤ → Type 0
a <ℤ b = pos_part a + neg_part b < pos_part b + neg_part a

abbrev pub ◌≤ℤ◌ : ℤ → ℤ → Type 0
a ≤ℤ b = pos_part a + neg_part b ≤ pos_part b + neg_part a

abbrev pub ltb_ℤ : ℤ → ℤ → Bool
ltb_ℤ a b = ltb (pos_part a + neg_part b) (pos_part b + neg_part a)

abbrev pub eq_ℤ : ℤ → ℤ → Bool
eq_ℤ a b = (pos_part a + neg_part b) == (pos_part b + neg_part a)

pub eq_of_parts : (a b : ℤ) → pos_part a + neg_part b ≡ pos_part b + neg_part a → a ≡ b
eq_of_parts a b h = ground arith

-- `x as uN` for a signed x: the value modulo 2 ^ N.
abbrev pub cast_unsigned : ℕ → ℤ → ℕ
cast_unsigned m (pos n) = n % m
cast_unsigned m (negsuc n) = m - 1 - n % m

-- `x as iN` for an unsigned x below 2 ^ N, with half = 2 ^ (N - 1).
abbrev pub cast_signed : ℕ → ℕ → ℤ
cast_signed half n = if ltb n half then pos n else negsuc (half + half - 1 - n)

-- `x as iN` for a signed x of any width.
abbrev pub cast_narrow : ℕ → ℤ → ℤ
cast_narrow half x = cast_signed half (cast_unsigned (half + half) x)
