-- ===== src/Common/Int64.antt =====
-- Go's `int64`: an integer, with the wrap-around of its operations written out.
use kubocd.Common.{ℕ, suc, ◌+◌, ◌-◌, ◌%◌, ◌^◌, ◌≤◌, ◌<◌, ◌≡◌, Bool, arith, ltb, leb}
use kubocd.Common.{if◌then◌else◌}

-- `negsuc n` is -(n + 1).
pub data ℤ : Type 0 where
  pos : ℕ → ℤ
  negsuc : ℕ → ℤ

abbrev pub pos_part : ℤ → ℕ
pos_part (pos n) = n
pos_part (negsuc n) = 0

abbrev pub neg_part : ℤ → ℕ
neg_part (pos n) = 0
neg_part (negsuc n) = suc n

-- a - b, as an integer.
abbrev pub sub_ℕ : ℕ → ℕ → ℤ
sub_ℕ a b = if leb b a then pos (a - b) else negsuc (b - a - 1)

abbrev pub modulus : ℕ
modulus = 2 ^ 64

abbrev pub half_modulus : ℕ
half_modulus = 2 ^ 63

-- The `int64` whose bit pattern is the number.
abbrev pub of_bits : ℕ → ℤ
of_bits m = if ltb m half_modulus then pos m else negsuc (modulus - m - 1)

-- The `int64` that an integer wraps to.
unfoldable pub wrap : ℤ → ℤ
wrap (pos n) = of_bits (n % modulus)
wrap (negsuc n) = of_bits (modulus - 1 - n % modulus)

unfoldable pub add64 : ℤ → ℤ → ℤ
add64 a b = wrap (sub_ℕ (pos_part a + pos_part b) (neg_part a + neg_part b))

unfoldable pub sub64 : ℤ → ℤ → ℤ
sub64 a b = wrap (sub_ℕ (pos_part a + neg_part b) (neg_part a + pos_part b))

infix 50 ◌<ℤ◌
-- The test `a < b`.
abbrev pub ◌<ℤ◌ : ℤ → ℤ → Bool
a <ℤ b = ltb (pos_part a + neg_part b) (pos_part b + neg_part a)

abbrev pub IsInt64 : ℤ → Type 0
IsInt64 (pos n) = n < half_modulus
IsInt64 (negsuc n) = n < half_modulus

pub wrap_in_range : (z : ℤ) → IsInt64 z → wrap z ≡ z
unfolding wrap
wrap_in_range (pos n) h = ground arith
wrap_in_range (negsuc n) h = ground arith

-- Two numbers below half of the range add up without wrapping.
pub add64-pos : (a b : ℕ) → a + b < half_modulus → add64 (pos a) (pos b) ≡ pos (a + b)
unfolding add64
add64-pos a b h = ground (arith, wrap_in_range (pos (a + b)))

pub sub64-pos : (a b : ℕ) → b ≤ a → a < half_modulus → sub64 (pos a) (pos b) ≡ pos (a - b)
unfolding sub64
sub64-pos a b h r = ground (arith, wrap_in_range (pos (a - b)))
