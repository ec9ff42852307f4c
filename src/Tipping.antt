-- ===== src/Tipping.antt =====
-- core/src/tipping.rs: the tip telemetry and the bounded, profit-aware Jito tip.
-- An `Instant` and a `Duration` are numbers of nanoseconds; `duration_since` stops at zero.
-- Amounts are lamports. The HTTP fetch, the JSON decoder and f64 are parameters.
pub mod Parse
pub mod Bounds
pub mod Monotone
mod Tests
use alpha_whales.Common.{
  ℕ, ◌+◌, ◌-◌, ◌*◌, ◌/◌, ◌%◌, Option, none, some, min, ltb, if◌then◌else◌, u64_mod, u128_mod,
  checked, checked_mul_u128, saturating_mul_u128, unwrap_or,
}

pub record TipTelemetry : Type 0 where
  pub p50_lamports : ℕ
  pub p75_lamports : ℕ
  pub p95_lamports : ℕ
  pub observed_at : ℕ

pub data TipSkipReason : Type 0 where
  telemetry_stale insufficient_edge tip_cap_hit : TipSkipReason

pub data TipDecision : Type 0 where
  bid : ℕ → ℕ → TipDecision
  skip : TipSkipReason → TipDecision

-- The fields of `TipConfig` that the decision reads.
pub record TipConfig : Type 0 where
  pub max_telemetry_age : ℕ
  pub max_profit_share_bps : ℕ
  pub minimum_net_profit_lamports : ℕ

pub record TipTelemetryEngine : Type 0 where
  pub telemetry : Option TipTelemetry
  pub config : TipConfig

abbrev pub basis_points_denom : ℕ
basis_points_denom = 10_000

-- `age.as_millis() as u64`
abbrev pub age_ms : ℕ → ℕ
age_ms age = age / 1_000_000 % u64_mod

-- `.and_then(|v| v.checked_div(d)).unwrap_or(otherwise)`, at a divisor that is not zero
abbrev pub divided_or : Option ℕ → ℕ → ℕ → ℕ
divided_or none d otherwise = otherwise
divided_or (some v) d otherwise = v / d

-- The three buckets: below three times p50, below ten times p50, and above.
unfoldable pub candidate : TipTelemetry → ℕ → ℕ
candidate t pre_tip =
    if ltb pre_tip (saturating_mul_u128 t.p50_lamports 3)
    then t.p50_lamports
    else if ltb pre_tip (saturating_mul_u128 t.p50_lamports 10)
    then t.p75_lamports
    else min t.p95_lamports (divided_or (checked_mul_u128 pre_tip 2500) 10_000 (u128_mod - 1))

unfoldable pub profit_share_cap : TipConfig → ℕ → ℕ
profit_share_cap c pre_tip =
    divided_or (checked_mul_u128 pre_tip c.max_profit_share_bps) basis_points_denom 0

-- The last part of `calculate_tip`, once the telemetry is known to be fresh.
unfoldable pub bid_or_cap : TipConfig → ℕ → ℕ → ℕ → TipDecision
bid_or_cap c pre_tip tip_lamports age =
    if ltb (pre_tip - tip_lamports) c.minimum_net_profit_lamports
    then skip tip_cap_hit
    else bid tip_lamports (age_ms age)

unfoldable pub calculate_fresh : TipConfig → TipTelemetry → ℕ → ℕ → TipDecision
unfolding candidate profit_share_cap bid_or_cap
calculate_fresh c t pre_tip age =
    if ltb c.max_telemetry_age age
    then skip telemetry_stale
    else if ltb pre_tip (saturating_mul_u128 t.p50_lamports 2)
    then skip insufficient_edge
    else bid_or_cap c pre_tip (min (candidate t pre_tip) (profit_share_cap c pre_tip) % u64_mod) age

-- `calculate_tip(pre_tip_expected_profit_lamports, now)`; the lock is held for the whole call.
unfoldable pub calculate_tip : TipTelemetryEngine → ℕ → ℕ → TipDecision
unfolding calculate_fresh
calculate_tip e pre_tip now = elim e.telemetry [
  | none ↦ skip telemetry_stale
  | some t ↦ calculate_fresh e.config t pre_tip (now - t.observed_at)
]
