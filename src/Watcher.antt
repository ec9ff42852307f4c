-- ===== src/Watcher.antt =====
-- alpha-whales/src/exits.rs: the watcher of an open position (`run_watcher`).
-- One turn of its loop is a function of its local variables and of what the price feed delivers.
-- The clock's reading and whether a partial sale lands are part of what is delivered. f64 is a
-- parameter. The printed lines are left out.
pub mod Loop
pub mod Sale
pub mod Price
pub mod Exits
pub mod Runs
pub mod Stale
pub mod Losses
pub mod Streak
mod Tests
use alpha_whales.Common.{
  ℕ, ◌+◌, ◌-◌, ◌*◌, ◌/◌, ◌%◌, ◌^◌, Option, none, some, Bool, true, false, not, ◌&&◌, ◌||◌, List, [],
  ◌∷◌, String, text_key, number_key, ◌==◌, ltb, leb, if◌then◌else◌, and_then, checked_mul_u128,
  u64_mod,
}
pub use alpha_whales.Types.{SwapEvent}
use alpha_whales.Common.Floats.{F64}
use alpha_whales.Common.Signed.{
  ℤ, pos, negsuc, ltℤ, ◌/ℤ◌, is_zero, as_i128, as_i64, checked_mul_i128, saturating_sub_i128,
  saturating_mul_i128,
}

abbrev pub max_tick_staleness_ms : ℕ
max_tick_staleness_ms = 30_000

abbrev pub max_consecutive_stale_ticks : ℕ
max_consecutive_stale_ticks = 20

-- The fields that the watcher itself reads.
pub record ActivePosition : Type 0 where
  pub mint : String
  pub source_pool_id : String
  pub entry_price_wsol_num : ℕ
  pub entry_price_wsol_den : ℕ
  pub acquired_amount : ℕ
  pub entry_timestamp_ms : ℕ

pub data SaleReason : Type 0 where
  panic_velocity vwap_snapback adaptive_scale_out_50pct : SaleReason
  profit_lock_floor hard_stop_20pct adaptive_trail : SaleReason

-- What `execute_sell_with_retry` is called with.
pub record SaleOrder : Type 0 where
  pub reason : SaleReason
  pub amount : ℕ
  pub is_final_exit : Bool
  pub cur_wsol_num : ℕ
  pub cur_wsol_den : ℕ

unfoldable pub compute_pnl_bps : ℕ → ℕ → ℕ → ℕ → ℤ
compute_pnl_bps cur_num cur_den entry_num entry_den =
    if leb cur_den 0 || leb entry_num 0 || leb entry_den 0
    then pos 0
    else elim (checked_mul_i128 (as_i128 cur_num) (as_i128 entry_den)) [
      | none ↦ pos 0
      | some l ↦ elim (checked_mul_i128 (as_i128 entry_num) (as_i128 cur_den)) [
        | none ↦ pos 0
        | some r ↦
            if is_zero r
            then pos 0
            else as_i64 (saturating_mul_i128 (saturating_sub_i128 l r) (pos 10_000) /ℤ r)
      ]
    ]

-- A comparison of two products, one of which may overflow.
abbrev pub both : Option ℕ → Option ℕ → (ℕ → ℕ → Bool) → Bool
both none r test = false
both (some l) none test = false
both (some l) (some r) test = test l r

unfoldable pub is_above : ℕ → ℕ → ℕ → ℕ → Bool
is_above cur_num cur_den hwm_num hwm_den =
    both (checked_mul_u128 cur_num hwm_den) (checked_mul_u128 hwm_num cur_den)
      (λ lhs rhs. ltb rhs lhs)

unfoldable pub is_snapback : ActivePosition → ℕ → ℕ → Bool
is_snapback p cur_num cur_den =
    both (checked_mul_u128 cur_num p.entry_price_wsol_den)
      (checked_mul_u128 p.entry_price_wsol_num cur_den) (λ lhs rhs. leb rhs lhs)

unfoldable pub reaches_profit_lock : ActivePosition → ℕ → ℕ → Bool
reaches_profit_lock p cur_num cur_den =
    both (checked_mul_u128 cur_num p.entry_price_wsol_den)
      (and_then
        (and_then (checked_mul_u128 p.entry_price_wsol_num cur_den) (λ v. checked_mul_u128 v 130))
        (λ v. some (v / 100)))
      (λ l r. leb r l)

unfoldable pub below_profit_lock_floor : ActivePosition → ℕ → ℕ → Bool
below_profit_lock_floor p cur_num cur_den =
    both (and_then (checked_mul_u128 cur_num p.entry_price_wsol_den) (λ v. checked_mul_u128 v 100))
      (and_then (checked_mul_u128 p.entry_price_wsol_num cur_den) (λ v. checked_mul_u128 v 110))
      (λ l r. ltb l r)

-- The trail in basis points against the high-water mark.
unfoldable pub below_trail_stop : ℕ → ℕ → ℕ → ℕ → ℕ → Bool
below_trail_stop cur_num cur_den hwm_num hwm_den trail_basis_points =
    both (and_then (checked_mul_u128 cur_num hwm_den) (λ v. checked_mul_u128 v 10_000))
      (and_then (checked_mul_u128 hwm_num cur_den) (λ v.
        if leb trail_basis_points 10_000
        then checked_mul_u128 v (10_000 - trail_basis_points)
        else none))
      (λ l r. ltb l r)

unfoldable pub is_stale : ℕ → SwapEvent → Bool
is_stale now_ms e = ltb 0 now_ms && ltb max_tick_staleness_ms (now_ms - e.timestamp_ms)

-- The local variables of the loop.
pub record Vbats (F : Type 0) : Type 0 where
  pub ema_velocity : F
  pub profit_lock_active : Bool
  pub partial_sold : Bool
  pub tick : ℕ
  pub consecutive_stale : ℕ
  pub hwm_wsol_num : ℕ
  pub hwm_wsol_den : ℕ
  pub prev_wsol_num : ℕ
  pub prev_wsol_den : ℕ
  pub acquired_amount : ℕ

-- What the feed gives within the timeout: a tick, with the clock's reading and whether a partial
-- sale made on it would land; the end of the channel; or nothing.
pub data Feed : Type 0 where
  event : SwapEvent → ℕ → Bool → Feed
  closed timed_out : Feed

pub data Turn (F : Type 0) : Type 0 where
  go_on : Vbats F → Turn F
  scale_out : SaleOrder → Vbats F → Turn F
  abort : Turn F
  exit : SaleOrder → Turn F

-- What a list of deliveries comes to: the sales in order, and where the loop is.
pub data End (F : Type 0) : Type 0 where
  waiting : Vbats F → End F
  aborted : End F
  sold : SaleOrder → End F

module _ {F : Type 0} where
  abbrev pub order : Vbats F → SaleReason → ℕ → ℕ → SaleOrder
  order s reason cur_num cur_den = record {
    reason = reason;
    amount = s.acquired_amount;
    is_final_exit = true;
    cur_wsol_num = cur_num;
    cur_wsol_den = cur_den;
  }

  abbrev pub half_order : Vbats F → ℕ → ℕ → SaleOrder
  half_order s cur_num cur_den = record {
    reason = adaptive_scale_out_50pct;
    amount = s.acquired_amount / 2;
    is_final_exit = false;
    cur_wsol_num = cur_num;
    cur_wsol_den = cur_den;
  }

  abbrev pub after_scale_out : Vbats F → Bool → Vbats F
  after_scale_out s landed =
      if landed
      then record s {
        acquired_amount = s.acquired_amount - s.acquired_amount / 2;
        partial_sold = true;
      }
      else s

  abbrev pub stop_or_go_on : Vbats F → ℕ → ℕ → Option SaleReason → Turn F
  stop_or_go_on s cur_num cur_den (some reason) = exit (order s reason cur_num cur_den)
  stop_or_go_on s cur_num cur_den none =
      go_on (record s { prev_wsol_num = cur_num; prev_wsol_den = cur_den })

  -- A tick or a timeout that counts towards the limit.
  unfoldable pub count_stale : Vbats F → Turn F
  count_stale s =
      let stale = (s.consecutive_stale + 1) % 2 ^ 32 in
      if leb max_consecutive_stale_ticks stale
      then abort
      else go_on (record s { consecutive_stale = stale })
