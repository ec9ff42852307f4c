-- ===== src/Tipping/Monotone.antt =====
-- How the bid moves with the expected profit.
use alpha_whales.Common.{ℕ, ◌*◌, ◌/◌, ◌≤◌, ◌≡◌, some, IsU64, arith}
use alpha_whales.Tipping.{TipTelemetry, TipTelemetryEngine, bid, calculate_tip}
use alpha_whales.Tipping.Bounds.{Fits, bucket, calculate_tip-reference}

share_mono : (a b s : ℕ) → a ≤ b → a * s / 10_000 ≤ b * s / 10_000
share_mono a b s h = let m : a * s ≤ b * s = grind arith in omega arith

bucket_mono :
    (t : TipTelemetry) (a b : ℕ)
    → t.p50_lamports ≤ t.p75_lamports
    → t.p75_lamports ≤ t.p95_lamports
    → t.p75_lamports * 2 ≤ t.p50_lamports * 5
    → a ≤ b
    → bucket t a ≤ bucket t b
bucket_mono t a b lo hi narrow h = ground arith

-- Where p75 is at most two and a half times p50, a larger expected profit never lowers the bid.
pub bid_mono :
    (e : TipTelemetryEngine) (t : TipTelemetry) (a b now tip tip' age age' : ℕ)
    → e.telemetry ≡ some t
    → t.p50_lamports ≤ t.p75_lamports
    → t.p75_lamports ≤ t.p95_lamports
    → t.p75_lamports * 2 ≤ t.p50_lamports * 5
    → Fits e.config t
    → IsU64 b
    → a ≤ b
    → calculate_tip e a now ≡ bid tip age
    → calculate_tip e b now ≡ bid tip' age'
    → tip ≤ tip'
bid_mono e t a b now tip tip' age age' present lo hi narrow f hb h da db = ground (
  arith,
  calculate_tip-reference e t a now present f,
  calculate_tip-reference e t b now present f,
  bucket_mono t a b lo hi narrow h,
  share_mono a b e.config.max_profit_share_bps h,
)
