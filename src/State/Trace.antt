-- ===== src/State/Trace.antt =====
-- Histories of `BotState`: the tasks' calls in any order, with the permits that the tasks own.
use alpha_whales.Common.{ℕ, zero, suc, ◌+◌, ◌%◌, Option, none, some, List, [], ◌∷◌, String, u64_mod}
use alpha_whales.State.{
  Semaphore, BotState, new_state, try_lock_mint, unlock_mint, is_circuit_breaker_active,
  try_acquire_position, drop_permit, retain_shadow_position, release_shadow_position,
  prune_expired_shadow_positions,
}

-- `held` counts the permits that running tasks own.
pub record World (S : Type 0) : Type 0 where
  pub bot : BotState S
  pub held : ℕ

pub data Call : Type 0 where
  acquire drop_held : Call
  retain_shadow : String → ℕ → Call
  release_shadow : String → Call
  prune_shadows : ℕ → Call
  lock : String → ℕ → Call
  unlock : String → Call
  poll_breaker : ℕ → Call
  win loss : Call

-- `consecutive_losses.fetch_add(1)`, which wraps, and `store(0)`: alpha-whales/src/exits.rs.
unfoldable pub record_loss : {S : Type 0} → BotState S → BotState S
record_loss b = record b { consecutive_losses = (b.consecutive_losses + 1) % u64_mod }

unfoldable pub record_win : {S : Type 0} → BotState S → BotState S
record_win b = record b { consecutive_losses = 0 }

module _ {S : Type 0} (sem : Semaphore S) where
  abbrev pub after_acquire : World S → Option (BotState S) → World S
  after_acquire w none = w
  after_acquire w (some b) = record { bot = b; held = suc w.held }

  -- A task that owns no permit makes no such call.
  abbrev pub give : ℕ → World S → (BotState S → BotState S) → World S
  give zero w f = w
  give (suc h) w f = record { bot = f w.bot; held = h }

  unfoldable pub step : World S → Call → World S
  step w acquire = after_acquire w (try_acquire_position sem w.bot)
  step w drop_held = give w.held w (drop_permit sem)
  step w (retain_shadow mint ms) = give w.held w (λ b. (retain_shadow_position sem b mint ms).0)
  step w (release_shadow mint) = record w { bot = (release_shadow_position sem w.bot mint).0 }
  step w (prune_shadows ms) = record w { bot = prune_expired_shadow_positions sem w.bot ms }
  step w (lock mint now) = record w { bot = (try_lock_mint w.bot mint now).0 }
  step w (unlock mint) = record w { bot = unlock_mint w.bot mint }
  step w (poll_breaker now) = record w { bot = (is_circuit_breaker_active w.bot now).0 }
  step w win = record w { bot = record_win w.bot }
  step w loss = record w { bot = record_loss w.bot }

  unfoldable pub run : World S → List Call → World S
  run w [] = w
  run w (c ∷ cs) = run (step w c) cs

  unfoldable pub start : World S
  start = record { bot = new_state sem; held = 0 }
