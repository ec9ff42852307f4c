-- ===== src/Common/Words.antt =====
-- Rust's unsigned machine words: a value is a number below the modulus of its width.
use Prim.Native.Nat.{ℕ, ◌+◌, ◌-◌, ◌*◌, ◌^◌, ◌<◌, min}
use mathlib.Core.Option.{Option, none, some}
use mathlib.Core.Path.{◌≡◌}
use native.Mathlib.Omega.{arith}
use alpha_whales.Common.Tests.{ltb, leb, if◌then◌else◌}

abbrev pub u64_mod : ℕ
u64_mod = 2 ^ 64

abbrev pub u128_mod : ℕ
u128_mod = 2 ^ 128

abbrev pub IsU64 : ℕ → Type 0
IsU64 n = n < u64_mod

-- `checked_add` and `checked_mul` at the width of the given modulus.
abbrev pub checked : ℕ → ℕ → Option ℕ
checked modulus n = if ltb n modulus then some n else none

abbrev pub checked_add_u64 : ℕ → ℕ → Option ℕ
checked_add_u64 a b = checked u64_mod (a + b)

abbrev pub checked_mul_u128 : ℕ → ℕ → Option ℕ
checked_mul_u128 a b = checked u128_mod (a * b)

-- `checked_sub` on an unsigned word.
abbrev pub checked_sub : ℕ → ℕ → Option ℕ
checked_sub a b = if leb b a then some (a - b) else none

-- `saturating_mul` on u128.
abbrev pub saturating_mul_u128 : ℕ → ℕ → ℕ
saturating_mul_u128 a b = min (a * b) (u128_mod - 1)

-- `option.and_then`
abbrev pub and_then {ℓ κ} : {A : Type ℓ} {B : Type κ} → Option A → (A → Option B) → Option B
and_then none f = none
and_then (some a) f = f a

-- `option.unwrap_or`
abbrev pub unwrap_or {ℓ} : {A : Type ℓ} → Option A → A → A
unwrap_or none d = d
unwrap_or (some a) d = a

pub checked-eq_some : (modulus n m : ℕ) → checked modulus n ≡ some m → (n ≡ m) × (n < modulus)
checked-eq_some modulus n m h = ground arith
