-- ===== src/Watcher/Price.antt =====
-- The integer comparisons of prices, where amounts are u64.
use native.Mathlib.Nat.{div-lt_iff_lt-mul, mul_comm}
use alpha_whales.Common.{
  zero, suc, ℕ, ◌*◌, ◌/◌, ◌≤◌, ◌<◌, ◌≡◌, refl, ◌↔◌, some, true, leb, ◌-◌, Bool-cases, inl, inr,
  if◌then◌else◌, checked_mul_u128, IsU64, u128_mod, arith,
}
use alpha_whales.Common.Signed.{
  ◌*ℤ◌, sub_nat, saturate, ℤ, pos, neg, i128_half, i64_half, ◌/ℤ◌, as_i64, saturating_sub_i128,
  saturating_mul_i128,
}
use alpha_whales.Watcher.{ActivePosition, compute_pnl_bps, is_snapback, reaches_profit_lock}

mul_fits : (a b : ℕ) → IsU64 a → IsU64 b → a * b < u128_mod
mul_fits a b ha hb = grind arith

checked_mul_fits : (a b : ℕ) → IsU64 a → IsU64 b → checked_mul_u128 a b ≡ some (a * b)
checked_mul_fits a b ha hb = ground (arith, mul_fits a b ha hb)

pub is_snapback_iff :
    (p : ActivePosition) (num den : ℕ)
    → IsU64 p.entry_price_wsol_num
    → IsU64 p.entry_price_wsol_den
    → IsU64 num
    → IsU64 den
    → (is_snapback p num den ≡ true) ↔ (p.entry_price_wsol_num * den ≤ num * p.entry_price_wsol_den)
unfolding is_snapback
is_snapback_iff p num den h1 h2 h3 h4 =
    rw
      (
        checked_mul_fits num p.entry_price_wsol_den h3 h2,
        checked_mul_fits p.entry_price_wsol_num den h1 h4,
      )
      (ground arith)

-- The profit lock is reached only at a price of at least the entry.
pub lock_is_snapback :
    (p : ActivePosition) (num den : ℕ)
    → IsU64 p.entry_price_wsol_num
    → IsU64 p.entry_price_wsol_den
    → IsU64 num
    → IsU64 den
    → reaches_profit_lock p num den ≡ true
    → is_snapback p num den ≡ true
unfolding is_snapback reaches_profit_lock
lock_is_snapback p num den h1 h2 h3 h4 h = ground (
  arith,
  checked_mul_fits num p.entry_price_wsol_den h3 h2,
  checked_mul_fits p.entry_price_wsol_num den h1 h4,
)

-- The basis points of a price against the entry: `gain` is the price's product, `base` the entry's.
unfoldable pub pnl_of : ℕ → ℕ → ℤ
pnl_of gain base =
    if leb base gain
    then pos ((gain - base) * 10_000 / base)
    else neg ((base - gain) * 10_000 / base)

mul-pos : (a b : ℕ) → 0 < a → 0 < b → 0 < a * b
mul-pos a b ha hb = grind arith

quotient_lt : (n b k : ℕ) → 0 < b → n < b * k → n / b < k
quotient_lt n b k hb h = (div-lt_iff_lt-mul hb).1 (rw (mul_comm b k) at h)

as_i64-pos : (q : ℕ) → q < i64_half → as_i64 (pos q) ≡ pos q
as_i64-pos q h = ground arith

as_i64-neg : (q : ℕ) → q < i64_half → as_i64 (neg q) ≡ neg q
as_i64-neg zero h = refl
as_i64-neg (suc q) h = ground arith

saturate-neg : (m : ℕ) → m < i128_half → saturate (neg m) ≡ neg m
saturate-neg zero h = ground arith
saturate-neg (suc m) h = ground arith

neg_mul : (m k : ℕ) → neg m *ℤ pos k ≡ neg (m * k)
neg_mul zero k = ground arith
neg_mul (suc m) k = ground arith

neg_div : (m b : ℕ) → 0 < b → neg m /ℤ pos b ≡ neg (m / b)
neg_div zero b hb = ground arith
neg_div (suc m) b hb = ground arith

sub_below : (g b : ℕ) → g < b → sub_nat g b ≡ neg (b - g)
sub_below g b h = ground arith

-- The steps from a difference to the basis points of it.
gain_scaled :
    (m b : ℕ)
    → 0 < b
    → m * 10_000 < i128_half
    → m * 10_000 < b * i64_half
    → as_i64 (saturating_mul_i128 (saturate (pos m)) (pos 10_000) /ℤ pos b) ≡ pos (m * 10_000 / b)
gain_scaled m b hb hm hl =
    ground (arith, quotient_lt (m * 10_000) b i64_half hb hl, as_i64-pos (m * 10_000 / b))

loss_scaled :
    (m b : ℕ)
    → 0 < b
    → m * 10_000 < i128_half
    → m * 10_000 < b * i64_half
    → as_i64 (saturating_mul_i128 (saturate (neg m)) (pos 10_000) /ℤ pos b) ≡ neg (m * 10_000 / b)
loss_scaled m b hb hm hl =
    rw
      (
        saturate-neg m (omega arith),
        neg_mul m 10_000,
        saturate-neg (m * 10_000) hm,
        neg_div (m * 10_000) b hb,
      )
      (as_i64-neg (m * 10_000 / b) (quotient_lt (m * 10_000) b i64_half hb hl))

scaled :
    (g b : ℕ)
    → 0 < b
    → g * 10_000 < i128_half
    → b * 10_000 < i128_half
    → g * 10_000 < b * i64_half
    → as_i64 (saturating_mul_i128 (saturating_sub_i128 (pos g) (pos b)) (pos 10_000) /ℤ pos b)
      ≡ pnl_of g b
unfolding pnl_of
scaled g b hb hg hk hl = elim (Bool-cases (leb b g)) [
  | inl e ↦ rw e (gain_scaled (g - b) b hb (omega arith) (omega arith))
  | inr e ↦
      rw (sub_below g b (ground arith), e) (loss_scaled (b - g) b hb (omega arith) (omega arith))
]

-- Where every product fits, the profit is the difference of the prices over the entry's, in basis
-- points, rounded towards zero.
pub compute_pnl_bps_lem :
    (cur_num cur_den entry_num entry_den : ℕ)
    → 0 < cur_den
    → 0 < entry_num
    → 0 < entry_den
    → cur_num < i128_half
    → cur_den < i128_half
    → entry_num < i128_half
    → entry_den < i128_half
    → cur_num * entry_den * 10_000 < i128_half
    → entry_num * cur_den * 10_000 < i128_half
    → cur_num * entry_den * 10_000 < entry_num * cur_den * i64_half
    → compute_pnl_bps cur_num cur_den entry_num entry_den
      ≡ pnl_of (cur_num * entry_den) (entry_num * cur_den)
unfolding compute_pnl_bps pnl_of
compute_pnl_bps_lem cur_num cur_den entry_num entry_den c e f a1 a2 a3 a4 h k l = ground (
  arith,
  scaled (cur_num * entry_den) (entry_num * cur_den) (mul-pos entry_num cur_den e c) h k l,
)
