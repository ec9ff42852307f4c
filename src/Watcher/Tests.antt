-- ===== src/Watcher/Tests.antt =====
-- Runs of the watcher over whole numbers in the place of f64, and the theorems at concrete inputs.
use native.Mathlib.Nat.{div-eq_of_lt}
use alpha_whales.Common.{
  ℕ, ◌+◌, ◌-◌, ◌*◌, ◌/◌, ◌%◌, ◌^◌, ◌≤◌, ◌≡◌, refl, inl, inr, none, true, false, List, [], ◌∷◌,
  text_key, ltb, leb, min, max, arith, if◌then◌else◌, u64_mod, Bool-cases,
}
use alpha_whales.Common.Floats.{F64}
use alpha_whales.State.{has_shadow_position, new_state}
use alpha_whales.State.Counting.{counting}
use alpha_whales.Watcher.{
  ActivePosition, SwapEvent, SaleOrder, vwap_snapback, Feed, event, timed_out, sold,
  compute_pnl_bps, count_stale, is_stale, is_snapback, is_above, reaches_profit_lock,
  below_profit_lock_floor, below_trail_stop,
}
use alpha_whales.Watcher.Loop.{
  compute_log_velocity, next_ema, trail_pct, observe, is_panic, has_doubled, stop_reason,
  trailing_stop, decide, value_tick, turn, start, run,
}
use alpha_whales.Watcher.Sale.{Books, confirmed, execute_sell_with_retry}
use alpha_whales.Watcher.Exits.{DoubleIsGain, turn-reference, reference_turn}
use alpha_whales.Watcher.Runs.{IsSoundRun, run-justified}
use alpha_whales.Watcher.Losses.{IsQuietRun, run_deep_loss}
use alpha_whales.Watcher.Stale.{run-dead, dead_end}
use alpha_whales.Watcher.Streak.{confirmed_sale, is_loss}

abbrev whole : F64 ℕ
whole = record {
  decimal = λ digits places. digits / 10 ^ places;
  of_nat = λ n. n;
  negate = λ n. 0;
  add = λ a b. a + b;
  sub = λ a b. a - b;
  mul = λ a b. a * b;
  div = λ a b. a / b;
  ln = λ n. n;
  clamp = λ x lo hi. min hi (max lo x);
  is_finite = λ x. true;
  lt = ltb;
  le = leb;
  to_u128 = λ x. x;
}

gain_of : (a b : ℕ) → leb 1 (a / b - 1) ≡ true → b ≤ a
gain_of a b h = elim (Bool-cases (ltb a b)) [
  | inl small ↦
      let none_left : a / b ≡ 0 = div-eq_of_lt (ground (arith, small)) in
      absurd (ground (arith, none_left, h))
  | inr large ↦ ground (arith, large)
]

whole-DoubleIsGain : DoubleIsGain whole
unfolding has_doubled
whole-DoubleIsGain p num den hp hn hd h =
    ground (arith, gain_of (num * p.entry_price_wsol_den) (den * p.entry_price_wsol_num) h)

abbrev position : ActivePosition
position = record {
  mint = "mintA";
  source_pool_id = "pool";
  entry_price_wsol_num = 1_000;
  entry_price_wsol_den = 10;
  acquired_amount = 10;
  entry_timestamp_ms = 0;
}

abbrev tick : ℕ → ℕ → SwapEvent
tick base quote = record {
  target_mint = "mintA";
  pool_id = "pool";
  base_amount = base;
  quote_amount = quote;
  timestamp_ms = 50_000;
  source_signature = "sig";
  source_slot = 5;
  outer_instruction_index = 0;
  inner_instruction_index = none;
  stream_epoch = 1;
}

abbrev feed : List Feed
feed = event (tick 10 900) 50_001 true ∷ timed_out ∷ event (tick 10 1_010) 50_002 true ∷ []

-- A dip, a timeout and a recovery.
feed_sells : run whole position (start whole position) feed ≡ (
  [],
  sold (record {
    reason = vwap_snapback;
    amount = 10;
    is_final_exit = true;
    cur_wsol_num = 1_010;
    cur_wsol_den = 10;
  }),
)
unfolding run start turn value_tick observe decide compute_log_velocity next_ema trail_pct is_panic
    has_doubled trailing_stop stop_reason compute_pnl_bps count_stale is_stale is_snapback is_above
    reaches_profit_lock below_profit_lock_floor below_trail_stop
feed_sells = refl

fresh_tick : is_stale 50_001 (tick 10 900) ≡ false
unfolding is_stale
fresh_tick = refl

turn-reference_example :
    turn whole position (start whole position) (event (tick 10 900) 50_001 true)
    ≡ reference_turn whole position (start whole position) (tick 10 900)
unfolding start
turn-reference_example =
    turn-reference whole position (start whole position) (tick 10 900) 50_001 true
      whole-DoubleIsGain (omega arith, omega arith) (omega arith, omega arith) (omega arith)
      (omega arith) refl fresh_tick refl

run-justified_example : IsSoundRun position (run whole position (start whole position) feed)
run-justified_example =
    run-justified whole position feed whole-DoubleIsGain (omega arith, omega arith)
      ((omega arith, omega arith), (tt, ((omega arith, omega arith), tt)))

abbrev falling : List Feed
falling = event (tick 10 800) 50_001 true ∷ event (tick 10 1) 50_002 true ∷ []

run_deep_loss_example : IsQuietRun (run whole position (start whole position) falling)
run_deep_loss_example =
    run_deep_loss whole position falling whole-DoubleIsGain
      ((omega arith, omega arith), (omega arith, omega arith))
      (
        (omega arith, omega arith, omega arith, omega arith),
        ((omega arith, omega arith, omega arith, omega arith), tt),
      )

old_tick : is_stale 90_000 (tick 10 900) ≡ true
unfolding is_stale
old_tick = refl

run-dead_example :
    run whole position (start whole position) (timed_out ∷ event (tick 10 900) 90_000 true ∷ [])
    ≡ ([], dead_end whole (start whole position) 2)
unfolding start
run-dead_example =
    run-dead whole position (start whole position)
      (timed_out ∷ event (tick 10 900) 90_000 true ∷ []) (omega arith)
      (tt, ((refl, omega arith, omega arith, old_tick), tt))

abbrev books : Books ℕ
books = record { bot = new_state counting; closed_positions = [] }

abbrev loss_order : SaleOrder
loss_order = record {
  reason = vwap_snapback;
  amount = 10;
  is_final_exit = true;
  cur_wsol_num = 900;
  cur_wsol_den = 10;
}

confirmed_sale_example :
    let after = (execute_sell_with_retry counting books position loss_order false confirmed).0 in
    (after.bot.consecutive_losses
      ≡ (if is_loss position loss_order then (books.bot.consecutive_losses + 1) % u64_mod else 0))
    × (has_shadow_position after.bot "mintA" ≡ false)
    × (after.closed_positions ≡ "mintA" ∷ [])
confirmed_sale_example =
    confirmed_sale counting books position loss_order
      ((omega arith, omega arith), (omega arith, omega arith)) (omega arith, omega arith)
      (omega arith, omega arith) (omega arith) refl
