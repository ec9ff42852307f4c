-- ===== src/Common/Signed.antt =====
-- Integers over the native numbers, and Rust's i128 and i64 on them.
use Prim.Native.Nat.{ℕ, zero, suc, ◌+◌, ◌-◌, ◌*◌, ◌/◌, ◌%◌, ◌^◌, min}
use mathlib.Core.Bool.{Bool, true, false}
use mathlib.Core.Option.{Option, none, some}
use alpha_whales.Common.Tests.{ltb, leb, if◌then◌else◌}

pub data ℤ : Type 0 where
  pos : ℕ → ℤ
  negsuc : ℕ → ℤ

abbrev pub neg : ℕ → ℤ
neg zero = pos 0
neg (suc n) = negsuc n

infixl 30 ◌-ℤ◌
infixl 35 ◌*ℤ◌ ◌/ℤ◌
-- `a - b`
abbrev pub sub_nat : ℕ → ℕ → ℤ
sub_nat a b = if leb b a then pos (a - b) else negsuc (b - a - 1)

abbrev pub ◌-ℤ◌ : ℤ → ℤ → ℤ
pos a -ℤ pos b = sub_nat a b
pos a -ℤ negsuc b = pos (a + b + 1)
negsuc a -ℤ pos b = negsuc (a + b)
negsuc a -ℤ negsuc b = sub_nat b a

abbrev pub ◌*ℤ◌ : ℤ → ℤ → ℤ
pos a *ℤ pos b = pos (a * b)
pos a *ℤ negsuc b = neg (a * (b + 1))
negsuc a *ℤ pos b = neg ((a + 1) * b)
negsuc a *ℤ negsuc b = pos ((a + 1) * (b + 1))

-- Division that truncates; by zero it is not called.
abbrev pub ◌/ℤ◌ : ℤ → ℤ → ℤ
pos a /ℤ pos b = pos (a / b)
pos a /ℤ negsuc b = neg (a / (b + 1))
negsuc a /ℤ pos b = neg ((a + 1) / b)
negsuc a /ℤ negsuc b = pos ((a + 1) / (b + 1))

abbrev pub ltℤ : ℤ → ℤ → Bool
ltℤ (pos a) (pos b) = ltb a b
ltℤ (pos a) (negsuc b) = false
ltℤ (negsuc a) (pos b) = true
ltℤ (negsuc a) (negsuc b) = ltb b a

abbrev pub is_zero : ℤ → Bool
is_zero (pos zero) = true
is_zero _ = false

abbrev pub i128_half : ℕ
i128_half = 2 ^ 127

abbrev pub i64_half : ℕ
i64_half = 2 ^ 63

-- `n as i128` of a u128
abbrev pub as_i128 : ℕ → ℤ
as_i128 n = if ltb n i128_half then pos n else negsuc (2 ^ 128 - 1 - n)

abbrev pub fits_i128 : ℤ → Bool
fits_i128 (pos n) = ltb n i128_half
fits_i128 (negsuc n) = ltb n i128_half

abbrev pub checked_mul_i128 : ℤ → ℤ → Option ℤ
checked_mul_i128 a b = if fits_i128 (a *ℤ b) then some (a *ℤ b) else none

abbrev pub saturate : ℤ → ℤ
saturate (pos n) = pos (min n (i128_half - 1))
saturate (negsuc n) = negsuc (min n (i128_half - 1))

abbrev pub saturating_sub_i128 : ℤ → ℤ → ℤ
saturating_sub_i128 a b = saturate (a -ℤ b)

abbrev pub saturating_mul_i128 : ℤ → ℤ → ℤ
saturating_mul_i128 a b = saturate (a *ℤ b)

abbrev pub low_bits : ℕ → ℤ
low_bits m = if ltb m i64_half then pos m else negsuc (2 ^ 64 - 1 - m)

abbrev pub low_bits_negated : ℕ → ℤ
low_bits_negated m = if ltb m i64_half then negsuc m else pos (2 ^ 64 - 1 - m)

-- `z as i64`, which keeps the low 64 bits
abbrev pub as_i64 : ℤ → ℤ
as_i64 (pos n) = low_bits (n % 2 ^ 64)
as_i64 (negsuc n) = low_bits_negated (n % 2 ^ 64)
