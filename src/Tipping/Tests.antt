-- ===== src/Tipping/Tests.antt =====
-- Runs from the source's unit tests, and the theorems at concrete inputs.
use alpha_whales.Common.{
  ℕ, subst, ◌≡◌, ◌≤◌, ◌*◌, ◌-◌, refl, Option, none, some, Bool, true, false, List, [], ◌∷◌, arith,
  nat_beq,
}
use alpha_whales.Tipping.{
  TipTelemetry, TipConfig, TipTelemetryEngine, bid, skip, telemetry_stale, insufficient_edge,
  calculate_tip,
}
use alpha_whales.Tipping.Parse.{TipFloorEntry}
use alpha_whales.Tipping.Bounds.{
  Fits, IsGoodSnapshot, reference_decision, bid_bounds, calculate_tip-reference,
}

abbrev sample : TipTelemetry
sample = record {
  p50_lamports = 10_000;
  p75_lamports = 36_000;
  p95_lamports = 1_400_000;
  observed_at = 5_000_000;
}

abbrev sample_config : TipConfig
sample_config = record {
  max_telemetry_age = 120_000_000_000;
  max_profit_share_bps = 5000;
  minimum_net_profit_lamports = 0;
}

abbrev engine : TipTelemetryEngine
engine = record { telemetry = some sample; config = sample_config }

low_bucket : calculate_tip engine 25_000 5_000_000 ≡ bid 10_000 0
unfolding calculate_tip
low_bucket = refl

mid_bucket : calculate_tip engine 80_000 5_000_000 ≡ bid 36_000 0
unfolding calculate_tip
mid_bucket = refl

high_bucket : calculate_tip engine 200_000 7_000_000 ≡ bid 50_000 2
unfolding calculate_tip
high_bucket = refl

too_little : calculate_tip engine 15_000 5_000_000 ≡ skip insufficient_edge
unfolding calculate_tip
too_little = refl

too_old : calculate_tip engine 1_000_000 200_000_000_000 ≡ skip telemetry_stale
unfolding calculate_tip
too_old = refl

-- With the wide spread of the sample, the bid falls where the third bucket begins.
wide_spread : calculate_tip engine 99_999 5_000_000 ≡ bid 36_000 0
unfolding calculate_tip
wide_spread = refl

wide_spread_next : calculate_tip engine 100_000 5_000_000 ≡ bid 25_000 0
unfolding calculate_tip
wide_spread_next = refl

sample-Fits : Fits sample_config sample
sample-Fits = omega arith

sample-IsGoodSnapshot : IsGoodSnapshot engine
sample-IsGoodSnapshot t e =
    subst
      (λ (t : TipTelemetry).
        (t.p50_lamports ≤ t.p75_lamports)
        × (t.p75_lamports ≤ t.p95_lamports)
        × Fits engine.config t)
      (some_inj e) (omega arith, omega arith, sample-Fits)
  where
    some_inj : {t : TipTelemetry} → Path (Option TipTelemetry) (some sample) (some t) → sample ≡ t
    some_inj e = ground arith

bid_bounds_example :
    (t : TipTelemetry) × (engine.telemetry ≡ some t)
    × (7_000_000 - t.observed_at ≤ 120_000_000_000)
    × (t.p50_lamports * 2 ≤ 200_000)
    × (50_000 * 10_000 ≤ 200_000 * 5000)
    × (50_000 ≤ t.p95_lamports)
    × (0 ≤ 200_000 - 50_000)
bid_bounds_example =
    bid_bounds engine 200_000 7_000_000 50_000 2 sample-IsGoodSnapshot (omega arith) high_bucket

calculate_tip-reference_example :
    calculate_tip engine 200_000 7_000_000
    ≡ reference_decision sample_config sample 200_000 2_000_000
calculate_tip-reference_example =
    calculate_tip-reference engine sample 200_000 7_000_000 refl sample-Fits (omega arith)

abbrev narrow : TipTelemetry
narrow = record {
  p50_lamports = 10_000;
  p75_lamports = 20_000;
  p95_lamports = 1_400_000;
  observed_at = 0;
}

abbrev narrow_engine : TipTelemetryEngine
narrow_engine = record { telemetry = some narrow; config = sample_config }

narrow_low : calculate_tip narrow_engine 25_000 0 ≡ bid 10_000 0
unfolding calculate_tip
narrow_low = refl

narrow_high : calculate_tip narrow_engine 200_000 0 ≡ bid 50_000 0
unfolding calculate_tip
narrow_high = refl

-- Numbers stand for f64 values; 9 stands for NaN, and the body is decoded already.
abbrev finite : ℕ → Bool
finite f = elim (nat_beq f 9) [ true ↦ false | false ↦ true ]

abbrev entry : ℕ → ℕ → ℕ → TipFloorEntry ℕ
entry a b c = record {
  landed_tips_50th_percentile = a;
  landed_tips_75th_percentile = b;
  landed_tips_95th_percentile = c;
}

abbrev rounds : List (Option (List (TipFloorEntry ℕ)) × ℕ)
rounds =
    (some (entry 8 8 8 ∷ entry 1 2 3 ∷ []), 10)
    ∷ (none, 20)
    ∷ (some (entry 3 2 1 ∷ []), 30)
    ∷ (some (entry 1 9 9 ∷ []), 40)
    ∷ (some [], 50)
    ∷ []
