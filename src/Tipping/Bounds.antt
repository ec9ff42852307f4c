-- ===== src/Tipping/Bounds.antt =====
-- What a bid promises: it is bounded by the configured share of the profit and by the telemetry,
-- and leaves the configured net profit.
use alpha_whales.Common.{
  ℕ, ◌-◌, ◌*◌, ◌/◌, ◌≤◌, ◌<◌, ◌≡◌, none, some, Option-cases, inl, inr, min, IsU64, u64_mod, arith,
  ltb, ◌^◌, if◌then◌else◌,
}
use alpha_whales.Tipping.{
  TipTelemetry, TipConfig, TipTelemetryEngine, TipDecision, bid, skip, telemetry_stale,
  insufficient_edge, tip_cap_hit, calculate_tip, calculate_fresh, candidate, profit_share_cap,
  age_ms,
}

pub mul-lt-mul : (a b m n : ℕ) → a < m → b < n → a * b < m * n
mul-lt-mul a b m n h k = grind arith

-- The widths of the fields: three u64 and a u16.
pub record Fits (c : TipConfig) (t : TipTelemetry) : Type 0 where
  pub p50_fits : t.p50_lamports < 2 ^ 64
  pub p75_fits : t.p75_lamports < 2 ^ 64
  pub p95_fits : t.p95_lamports < 2 ^ 64
  pub share_fits : c.max_profit_share_bps < 65_536

-- The tip in plain arithmetic.
abbrev pub bucket : TipTelemetry → ℕ → ℕ
bucket t pre_tip =
    if ltb pre_tip (t.p50_lamports * 3)
    then t.p50_lamports
    else if ltb pre_tip (t.p50_lamports * 10)
    then t.p75_lamports
    else min t.p95_lamports (pre_tip / 4)

abbrev pub reference_tip : TipConfig → TipTelemetry → ℕ → ℕ
reference_tip c t pre_tip = min (bucket t pre_tip) (pre_tip * c.max_profit_share_bps / 10_000)

abbrev pub reference_decision : TipConfig → TipTelemetry → ℕ → ℕ → TipDecision
reference_decision c t pre_tip age =
    if ltb c.max_telemetry_age age
    then skip telemetry_stale
    else if ltb pre_tip (t.p50_lamports * 2)
    then skip insufficient_edge
    else if ltb (pre_tip - reference_tip c t pre_tip) c.minimum_net_profit_lamports
    then skip tip_cap_hit
    else bid (reference_tip c t pre_tip) (age_ms age)

-- The share of the profit, rounded down, is the cap: no multiplication overflows.
cap_lem :
    (c : TipConfig) (t : TipTelemetry) (pre_tip : ℕ)
    → Fits c t
    → IsU64 pre_tip
    → profit_share_cap c pre_tip ≡ pre_tip * c.max_profit_share_bps / 10_000
unfolding profit_share_cap
cap_lem c t pre_tip f h =
    ground (arith, mul-lt-mul pre_tip c.max_profit_share_bps u64_mod 65_536 h f.share_fits)

candidate_lem :
    (c : TipConfig) (t : TipTelemetry) (pre_tip : ℕ)
    → Fits c t
    → IsU64 pre_tip
    → candidate t pre_tip ≡ bucket t pre_tip
unfolding candidate
candidate_lem c t pre_tip f h = ground arith

bucket-lt : (c : TipConfig) (t : TipTelemetry) (pre_tip : ℕ) → Fits c t → bucket t pre_tip < u64_mod
bucket-lt c t pre_tip f = ground arith

saturating_double :
    (c : TipConfig) (t : TipTelemetry)
    → Fits c t
    → min (t.p50_lamports * 2) (2 ^ 128 - 1) ≡ t.p50_lamports * 2
saturating_double c t f = omega arith

pub calculate_fresh-reference :
    (c : TipConfig) (t : TipTelemetry) (pre_tip age : ℕ)
    → Fits c t
    → IsU64 pre_tip
    → calculate_fresh c t pre_tip age ≡ reference_decision c t pre_tip age
unfolding calculate_fresh
calculate_fresh-reference c t pre_tip age f h =
    ground (arith, cap_lem c t pre_tip f h, candidate_lem c t pre_tip f h, bucket-lt c t pre_tip f)

-- On fields of their machine widths, `calculate_tip` with a snapshot is the plain arithmetic of
-- `reference_decision`: no saturation, no overflow and no truncation to u64 ever shows.
pub calculate_tip-reference :
    (e : TipTelemetryEngine) (t : TipTelemetry) (pre_tip now : ℕ)
    → e.telemetry ≡ some t
    → Fits e.config t
    → IsU64 pre_tip
    → calculate_tip e pre_tip now ≡ reference_decision e.config t pre_tip (now - t.observed_at)
unfolding calculate_tip
calculate_tip-reference e t pre_tip now present f h =
    ground (arith, calculate_fresh-reference e.config t pre_tip (now - t.observed_at) f h)

fresh_bounds :
    (e : TipTelemetryEngine) (t : TipTelemetry) (pre_tip now tip age : ℕ)
    → e.telemetry ≡ some t
    → t.p50_lamports ≤ t.p75_lamports
    → t.p75_lamports ≤ t.p95_lamports
    → Fits e.config t
    → IsU64 pre_tip
    → calculate_tip e pre_tip now ≡ bid tip age
    → (now - t.observed_at ≤ e.config.max_telemetry_age)
      × (t.p50_lamports * 2 ≤ pre_tip)
      × (tip * 10_000 ≤ pre_tip * e.config.max_profit_share_bps)
      × (tip ≤ t.p95_lamports)
      × (e.config.minimum_net_profit_lamports ≤ pre_tip - tip)
unfolding calculate_tip
fresh_bounds e t pre_tip now tip age present lo hi f h decided =
    ground (arith, calculate_fresh-reference e.config t pre_tip (now - t.observed_at) f h)

-- A snapshot, if the engine has one, is ordered, and its fields have their machine widths.
abbrev pub IsGoodSnapshot : TipTelemetryEngine → Type 0
IsGoodSnapshot e =
    (t : TipTelemetry)
    → e.telemetry ≡ some t
    → (t.p50_lamports ≤ t.p75_lamports) × (t.p75_lamports ≤ t.p95_lamports) × Fits e.config t

no_bid :
    (e : TipTelemetryEngine) (pre_tip now tip age : ℕ)
    → e.telemetry ≡ none
    → ¬ (calculate_tip e pre_tip now ≡ bid tip age)
unfolding calculate_tip
no_bid e pre_tip now tip age absent decided = ground (arith, absent, decided)

-- A bid is made only if there is a snapshot, which is not too old, and on a profit of at least twice
-- its p50; it is within the configured share of the profit and within p95, and leaves the configured
-- minimum. The snapshot, if there is one, is ordered and its fields have their machine widths.
pub bid_bounds :
    (e : TipTelemetryEngine) (pre_tip now tip age : ℕ)
    → IsGoodSnapshot e
    → IsU64 pre_tip
    → calculate_tip e pre_tip now ≡ bid tip age
    → (t : TipTelemetry) × (e.telemetry ≡ some t)
      × (now - t.observed_at ≤ e.config.max_telemetry_age)
      × (t.p50_lamports * 2 ≤ pre_tip)
      × (tip * 10_000 ≤ pre_tip * e.config.max_profit_share_bps)
      × (tip ≤ t.p95_lamports)
      × (e.config.minimum_net_profit_lamports ≤ pre_tip - tip)
bid_bounds e pre_tip now tip age good h decided = elim (Option-cases e.telemetry) [
  | inl absent ↦ absurd (no_bid e pre_tip now tip age absent decided)
  | inr (t, present) ↦
      let (lo, hi, f) = good t present in
      let (young, edge, share, top, net) =
        fresh_bounds e t pre_tip now tip age present lo hi f h decided in
      (t, present, young, edge, share, top, net)
]
