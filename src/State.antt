-- ===== src/State.antt =====
-- core/src/state.rs: `BotState`, shared by every task of the bot.
-- Each method is one step on the state. It holds its lock for the whole call, but for
-- `is_circuit_breaker_active`, which reads the counter of losses before it takes the lock: a loss or a
-- win between the two is not modelled. An `Instant`
-- is a number of nanoseconds and `elapsed` stops at zero; the clock's reading is an argument.
-- tokio's semaphore is a parameter, behind the laws of its documentation. An owned permit is
-- released when it is dropped, so whatever drops a permit calls `release`.
pub mod Trace
pub mod Permits
pub mod Locks
pub mod Breaker
pub mod Counting
mod Tests
use alpha_whales.Common.{
  ℕ, zero, suc, ◌+◌, ◌-◌, ◌*◌, ◌%◌, ◌≡◌, Option, none, some, Bool, true, false, List, [], String,
  ltb, leb, if◌then◌else◌, u64_mod, length, text_key,
}
use alpha_whales.Common.Maps.{Map, get, contains_key, insert, remove, retain}

-- `tokio::sync::Semaphore` with its owned permits.
pub record Semaphore (S : Type 0) : Type 0 where
  pub new : ℕ → S
  pub available_permits : S → ℕ
  pub try_acquire_owned : S → Option S
  pub release : S → S
  pub available-new : (n : ℕ) → available_permits (new n) ≡ n
  pub available-acquire :
      (s t : S) → try_acquire_owned s ≡ some t → available_permits s ≡ available_permits t + 1
  pub acquire_fails : (s : S) → try_acquire_owned s ≡ none → available_permits s ≡ 0
  pub available-release : (s : S) → available_permits (release s) ≡ available_permits s + 1

abbrev pub max_concurrent_positions : ℕ
max_concurrent_positions = 3

-- Four hours, in milliseconds.
abbrev pub shadow_position_ttl_ms : ℕ
shadow_position_ttl_ms = 4 * 60 * 60 * 1000

-- Four hours, in nanoseconds.
abbrev pub mint_ttl : ℕ
mint_ttl = 4 * 3600 * 1_000_000_000

-- Thirty minutes, in nanoseconds.
abbrev pub circuit_breaker_cooldown : ℕ
circuit_breaker_cooldown = 30 * 60 * 1_000_000_000

abbrev pub circuit_breaker_threshold : ℕ
circuit_breaker_threshold = 3

-- The permit that an entry owns is released when the entry is dropped.
pub record ShadowPosition : Type 0 where
  pub opened_at_ms : ℕ

pub record BotState (S : Type 0) : Type 0 where
  pub traded_mints : Map String ℕ
  pub consecutive_losses : ℕ
  pub position_semaphore : S
  pub shadow_positions : Map String ShadowPosition
  pub circuit_breaker_tripped_at : Option ℕ

abbrev pub is_younger : ℕ → ℕ → Bool
is_younger now inserted_at = ltb (now - inserted_at) mint_ttl

abbrev pub is_live : ℕ → ShadowPosition → Bool
is_live now_ms p = ltb (now_ms - p.opened_at_ms) shadow_position_ttl_ms

module _ {S : Type 0} where
  unfoldable pub try_lock_mint : BotState S → String → ℕ → BotState S × Bool
  unfolding contains_key
  try_lock_mint b mint now =
      let mints = retain (is_younger now) b.traded_mints in
      if contains_key mint mints
      then (record b { traded_mints = mints }, false)
      else (record b { traded_mints = insert mint now mints }, true)

  unfoldable pub unlock_mint : BotState S → String → BotState S
  unlock_mint b mint = record b { traded_mints = remove mint b.traded_mints }

  unfoldable pub has_traded_mint : BotState S → String → Bool
  unfolding contains_key
  has_traded_mint b mint = contains_key mint b.traded_mints

  unfoldable pub has_shadow_position : BotState S → String → Bool
  unfolding contains_key
  has_shadow_position b mint = contains_key mint b.shadow_positions

  unfoldable pub shadow_position_count : BotState S → ℕ
  shadow_position_count b = length b.shadow_positions

  -- The state after the poll, and whether trading is paused.
  unfoldable pub is_circuit_breaker_active : BotState S → ℕ → BotState S × Bool
  is_circuit_breaker_active b now =
      if ltb b.consecutive_losses circuit_breaker_threshold
      then (record b { circuit_breaker_tripped_at = none }, false)
      else elim b.circuit_breaker_tripped_at [
        | none ↦ (record b { circuit_breaker_tripped_at = some now }, true)
        | some tripped_at ↦
            if leb circuit_breaker_cooldown (now - tripped_at)
            then (record b { consecutive_losses = 0; circuit_breaker_tripped_at = none }, false)
            else (b, true)
      ]

module _ {S : Type 0} (sem : Semaphore S) where
  -- `BotState::new`
  unfoldable pub new_state : BotState S
  new_state = record {
    traded_mints = [];
    consecutive_losses = 0;
    position_semaphore = sem.new max_concurrent_positions;
    shadow_positions = [];
    circuit_breaker_tripped_at = none;
  }

  abbrev pub with_semaphore : BotState S → Option S → Option (BotState S)
  with_semaphore b none = none
  with_semaphore b (some s) = some (record b { position_semaphore = s })

  unfoldable pub try_acquire_position : BotState S → Option (BotState S)
  try_acquire_position b = with_semaphore b (sem.try_acquire_owned b.position_semaphore)

  -- The source subtracts on usize; `Permits` shows that the difference is never negative.
  unfoldable pub open_position_count : BotState S → ℕ
  open_position_count b = max_concurrent_positions - sem.available_permits b.position_semaphore

  unfoldable pub drop_permits : ℕ → S → S
  drop_permits zero s = s
  drop_permits (suc n) s = sem.release (drop_permits n s)

  -- A task drops the permit that it owns.
  unfoldable pub drop_permit : BotState S → BotState S
  drop_permit b = record b { position_semaphore = sem.release b.position_semaphore }

  -- The permit is moved in; on a refusal it is dropped on return.
  unfoldable pub retain_shadow_position : BotState S → String → ℕ → BotState S × Bool
  unfolding contains_key drop_permit
  retain_shadow_position b mint opened_at_ms =
      if contains_key mint b.shadow_positions then (drop_permit b, false) else (
        record b {
          shadow_positions =
              insert mint (record { opened_at_ms = opened_at_ms }) b.shadow_positions;
        },
        true,
      )

  -- The entries of `old` that `kept` lacks are dropped, with their permits.
  unfoldable pub keep_shadows : BotState S → Map String ShadowPosition → BotState S
  keep_shadows b kept = record b {
    position_semaphore =
        drop_permits (length b.shadow_positions - length kept) b.position_semaphore;
    shadow_positions = kept;
  }

  unfoldable pub release_shadow_position : BotState S → String → BotState S × Bool
  unfolding contains_key keep_shadows
  release_shadow_position b mint =
      (keep_shadows b (remove mint b.shadow_positions), contains_key mint b.shadow_positions)

  unfoldable pub prune_expired_shadow_positions : BotState S → ℕ → BotState S
  unfolding keep_shadows
  prune_expired_shadow_positions b now_ms =
      keep_shadows b (retain (is_live now_ms) b.shadow_positions)
