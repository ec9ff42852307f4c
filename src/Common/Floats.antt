-- ===== src/Common/Floats.antt =====
-- What the source calls of f64, as an interface.
use Prim.Native.Nat.{ℕ}
use mathlib.Core.Bool.{Bool}

pub record F64 (F : Type 0) : Type 0 where
  -- `decimal digits places` is the literal of these digits, with the point before the last places.
  pub decimal : ℕ → ℕ → F
  -- `n as f64`
  pub of_nat : ℕ → F
  pub negate : F → F
  pub add : F → F → F
  pub sub : F → F → F
  pub mul : F → F → F
  pub div : F → F → F
  pub ln : F → F
  pub clamp : F → F → F → F
  pub is_finite : F → Bool
  pub lt : F → F → Bool
  pub le : F → F → Bool
  -- `x as u128`
  pub to_u128 : F → ℕ
