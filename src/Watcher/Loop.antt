-- ===== src/Watcher/Loop.antt =====
-- alpha-whales/src/exits.rs: the loop of `run_watcher`, one turn at a time, over f64 as a parameter.
use alpha_whales.Common.{
  ℕ, ◌+◌, ◌-◌, ◌/◌, ◌%◌, Option, none, some, Bool, false, not, ◌&&◌, ◌||◌, List, [], ◌∷◌, text_key,
  number_key, ◌==◌, leb, if◌then◌else◌, u64_mod,
}
use alpha_whales.Common.Floats.{F64}
use alpha_whales.Common.Signed.{ℤ, negsuc, ltℤ}
use alpha_whales.Watcher.{
  ActivePosition, SwapEvent, SaleOrder, SaleReason, panic_velocity, vwap_snapback,
  profit_lock_floor, hard_stop_20pct, adaptive_trail, Vbats, Feed, event, closed, timed_out, Turn,
  go_on, scale_out, abort, exit, End, waiting, aborted, sold, compute_pnl_bps, is_above,
  is_snapback, reaches_profit_lock, below_profit_lock_floor, below_trail_stop, is_stale, order,
  half_order, after_scale_out, stop_or_go_on, count_stale,
}

-- The sales of a turn and of what follows it.
abbrev pub after_turn :
    {F : Type 0} → Turn F → (Vbats F → List SaleOrder × End F) → List SaleOrder × End F
after_turn (go_on s) rest = rest s
after_turn (scale_out o s) rest = let (sales, end) = rest s in (o ∷ sales, end)
after_turn abort rest = ([], aborted)
after_turn (exit o) rest = ([], sold o)

module _ {F : Type 0} (f64 : F64 F) where
  open f64 use {decimal, of_nat, negate, add, sub, mul, div, ln, clamp, is_finite, lt, le, to_u128}

  abbrev pub finite_or_zero : F → F
  finite_or_zero v = if is_finite v then v else decimal 0 1

  abbrev pub velocity_of_ratio : F → F
  velocity_of_ratio ratio =
      if le ratio (decimal 0 1) then decimal 0 1 else finite_or_zero (ln ratio)

  abbrev pub velocity_of : F → F → F
  velocity_of numerator denominator =
      if not (is_finite numerator) || not (is_finite denominator) || le denominator (decimal 0 1)
      then decimal 0 1
      else velocity_of_ratio (div numerator denominator)

  unfoldable pub compute_log_velocity : ℕ → ℕ → ℕ → ℕ → F
  compute_log_velocity prev_num prev_den cur_num cur_den =
      if leb prev_num 0 || leb prev_den 0 || leb cur_num 0 || leb cur_den 0
      then decimal 0 1
      else velocity_of (mul (of_nat cur_num) (of_nat prev_den))
          (mul (of_nat cur_den) (of_nat prev_num))

  abbrev pub ema_alpha : F
  ema_alpha = div (decimal 20 1) (decimal 60 1)

  abbrev pub trail_max : F
  trail_max = decimal 20 2

  unfoldable pub next_ema : Vbats F → ℕ → F → F
  next_ema s tick log_velocity =
      if tick == 1
      then log_velocity
      else add (mul ema_alpha log_velocity) (mul (sub (decimal 10 1) ema_alpha) s.ema_velocity)

  unfoldable pub trail_pct : F → F
  trail_pct ema_velocity =
      clamp (sub (decimal 8 2) (mul ema_velocity (decimal 15 1))) (decimal 3 2) trail_max

  -- The variables after the valuation of a tick, before the exits are tried. `prev` is unchanged.
  unfoldable pub observe : ActivePosition → Vbats F → ℕ → ℕ → F → Vbats F
  unfolding next_ema is_above reaches_profit_lock
  observe p s cur_num cur_den log_velocity =
      let tick = (s.tick + 1) % u64_mod in
      let above = is_above cur_num cur_den s.hwm_wsol_num s.hwm_wsol_den in
      record s {
        consecutive_stale = 0;
        tick = tick;
        ema_velocity = next_ema s tick log_velocity;
        hwm_wsol_num = if above then cur_num else s.hwm_wsol_num;
        hwm_wsol_den = if above then cur_den else s.hwm_wsol_den;
        profit_lock_active = s.profit_lock_active || reaches_profit_lock p cur_num cur_den;
      }

  unfoldable pub is_panic : F → ℤ → Bool
  is_panic log_velocity pnl = lt log_velocity (negate (decimal 128 3)) && ltℤ (negsuc 1499) pnl

  -- `roi >= 1.0` with `roi = cur / entry - 1.0`
  unfoldable pub has_doubled : ActivePosition → ℕ → ℕ → Bool
  has_doubled p cur_num cur_den = le (decimal 10 1) (
      sub
        (div (mul (of_nat cur_num) (of_nat p.entry_price_wsol_den))
          (mul (of_nat cur_den) (of_nat p.entry_price_wsol_num)))
        (decimal 10 1))

  unfoldable pub stop_reason : Bool → F → SaleReason
  stop_reason below_floor trail =
      if below_floor
      then profit_lock_floor
      else if le (sub trail_max (decimal 1 3)) trail
      then hard_stop_20pct
      else adaptive_trail

  -- Exit condition B.
  unfoldable pub trailing_stop : ActivePosition → Vbats F → ℕ → ℕ → Option SaleReason
  unfolding below_trail_stop below_profit_lock_floor stop_reason trail_pct
  trailing_stop p s cur_num cur_den =
      let trail = trail_pct s.ema_velocity in
      let below_floor = below_profit_lock_floor p cur_num cur_den in
      let below_trail =
        below_trail_stop cur_num cur_den s.hwm_wsol_num s.hwm_wsol_den
          (to_u128 (mul trail (decimal 100_000 1))) in
      if s.profit_lock_active && (below_trail || below_floor)
      then some (stop_reason below_floor trail)
      else none

  -- The exits in their order, on the variables after `observe`.
  unfoldable pub decide : ActivePosition → Vbats F → ℕ → ℕ → F → ℕ → Bool → Turn F
  unfolding is_panic is_snapback has_doubled trailing_stop compute_pnl_bps
  decide p s cur_num cur_den log_velocity now_ms landed =
      let pnl = compute_pnl_bps cur_num cur_den p.entry_price_wsol_num p.entry_price_wsol_den in
      if is_panic log_velocity pnl
      then exit (order s panic_velocity cur_num cur_den)
      else if is_snapback p cur_num cur_den
      then exit (order s vwap_snapback cur_num cur_den)
      else if not s.partial_sold
          && has_doubled p cur_num cur_den
          && leb ((now_ms - p.entry_timestamp_ms) / 1000) 60
      then scale_out (half_order s cur_num cur_den) (after_scale_out s landed)
      else stop_or_go_on s cur_num cur_den (trailing_stop p s cur_num cur_den)

  unfoldable pub value_tick : ActivePosition → Vbats F → SwapEvent → ℕ → Bool → Turn F
  unfolding observe decide compute_log_velocity
  value_tick p s e now_ms landed =
      let log_velocity =
        compute_log_velocity s.prev_wsol_num s.prev_wsol_den e.quote_amount e.base_amount in
      decide p (observe p s e.quote_amount e.base_amount log_velocity) e.quote_amount e.base_amount
        log_velocity now_ms landed

  unfoldable pub turn : ActivePosition → Vbats F → Feed → Turn F
  unfolding count_stale is_stale value_tick
  turn p s closed = abort
  turn p s timed_out = count_stale s
  turn p s (event e now_ms landed) =
      if not (e.pool_id == p.source_pool_id)
      then go_on s
      else if leb e.base_amount 0 || leb e.quote_amount 0
      then go_on s
      else if is_stale now_ms e
      then count_stale s
      else value_tick p s e now_ms landed

  unfoldable pub start : ActivePosition → Vbats F
  start p = record {
    ema_velocity = decimal 0 1;
    profit_lock_active = false;
    partial_sold = false;
    tick = 0;
    consecutive_stale = 0;
    hwm_wsol_num = p.entry_price_wsol_num;
    hwm_wsol_den = p.entry_price_wsol_den;
    prev_wsol_num = p.entry_price_wsol_num;
    prev_wsol_den = p.entry_price_wsol_den;
    acquired_amount = p.acquired_amount;
  }

  unfoldable pub run : ActivePosition → Vbats F → List Feed → List SaleOrder × End F
  unfolding turn
  run p s [] = ([], waiting s)
  run p s (x ∷ xs) = after_turn (turn p s x) (λ s'. run p s' xs)
