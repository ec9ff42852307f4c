-- ===== src/State/Tests.antt =====
-- Runs of `BotState`, and the theorems at concrete inputs.
use alpha_whales.Common.{
  ℕ, ◌+◌, ◌*◌, ◌-◌, ◌≤◌, ◌<◌, ◌≡◌, refl, none, List, [], ◌∷◌, true, false, arith, text_key, String,
}
use alpha_whales.Common.Maps.{get, retain, insert}
use alpha_whales.State.{
  try_lock_mint, is_circuit_breaker_active, try_acquire_position, open_position_count,
  shadow_position_count, circuit_breaker_cooldown, new_state, retain_shadow_position,
}
use alpha_whales.State.Trace.{
  World, Call, acquire, retain_shadow, lock, unlock, poll_breaker, loss, step, run, start,
  record_loss,
}
use alpha_whales.State.Counting.{counting}
use alpha_whales.State.Permits.{run-permits}
use alpha_whales.State.Locks.{relock_refused}
use alpha_whales.State.Breaker.{pause_lasts}
use text.Mathlib.TextEquality.{eq_iff}

abbrev minute : ℕ
minute = 60 * 1_000_000_000

abbrev busy : List Call
busy =
    acquire
    ∷ lock "mintA" minute
    ∷ retain_shadow "mintA" 60_000
    ∷ acquire
    ∷ acquire
    ∷ acquire
    ∷ loss
    ∷ loss
    ∷ loss
    ∷ []

busy_held : (run counting (start counting) busy).held ≡ 2
unfolding run step start new_state try_acquire_position retain_shadow_position try_lock_mint get
    retain insert record_loss
busy_held = refl

run-permits_example :
    let w = run counting (start counting) busy in
    (w.bot.position_semaphore + w.held + shadow_position_count w.bot ≡ 3)
    × (open_position_count counting w.bot ≡ w.held + shadow_position_count w.bot)
    × (w.held + shadow_position_count w.bot ≤ 3)
run-permits_example = run-permits counting busy

abbrev later : List Call
later = lock "mintB" (2 * minute) ∷ unlock "mintB" ∷ lock "mintA" (3 * minute) ∷ []

first_lock : (try_lock_mint (start counting).bot "mintA" minute).1 ≡ true
unfolding try_lock_mint start get retain new_state
first_lock = refl

other_mint : ◌≡◌ {A = String} "mintB" "mintA" → ⊥
other_mint e = cc ((eq_iff "mintB" "mintA").1 e)

relock_refused_example :
    (try_lock_mint
      (run counting (step counting (start counting) (lock "mintA" minute)) later).bot
      "mintA"
      (200 * minute)).1
    ≡ false
relock_refused_example =
    relock_refused counting (start counting) "mintA" minute (200 * minute) later first_lock
      (omega arith, (other_mint, (omega arith, tt))) (omega arith)

abbrev lost : World ℕ
lost = record {
  bot = record {
    traded_mints = [];
    consecutive_losses = 3;
    position_semaphore = 3;
    shadow_positions = [];
    circuit_breaker_tripped_at = none;
  };
  held = 0;
}

pause_lasts_example :
    let (b, paused) =
      is_circuit_breaker_active
        (run counting
          (step counting lost (poll_breaker minute))
          (loss ∷ poll_breaker (2 * minute) ∷ [])).bot
        (32 * minute) in
    (32 * minute - minute < circuit_breaker_cooldown → paused ≡ true)
    × (circuit_breaker_cooldown ≤ 32 * minute - minute
        → (paused ≡ false) × (b.consecutive_losses ≡ 0) × (b.circuit_breaker_tripped_at ≡ none))
pause_lasts_example =
    pause_lasts counting lost minute (32 * minute) (loss ∷ poll_breaker (2 * minute) ∷ [])
      (omega arith) refl (omega arith) (tt, (omega arith, tt))
