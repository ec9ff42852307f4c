-- ===== src/Consumer.antt =====
-- alpha-whales/src/execution.rs: the gates of `run_whale_execution_consumer`, from a signal to its
-- reservation. What the clocks, the RPC and HTTP calls and the disk give back is in `Answers`; a
-- resolved swap, or one of PumpPortal, with its signed bundle is `Signed`.
pub mod Gates
pub mod Handoff
pub mod Acquired
pub mod Opening
pub mod Resolve
pub mod Prepared
pub mod Building
mod ResolveTests
mod Tests
use alpha_whales.Common.{
  ℕ, ◌/◌, Option, none, some, Bool, true, false, String, KeyEq, text_key, if◌then◌else◌,
}
use alpha_whales.Common.Checked.{Checked, ok, err}
use alpha_whales.State.{
  Semaphore, BotState, is_circuit_breaker_active, try_acquire_position, try_lock_mint, unlock_mint,
  drop_permit,
}
use alpha_whales.Tipping.{TipTelemetryEngine, TipDecision, bid, skip, calculate_tip}
use alpha_whales.Dispatch.{
  BundleDispatcher, OpportunityKey, OpportunityDeduplicator, take_tip_account, try_acquire,
}
use alpha_whales.Execution.Config.{ensure_signal_fresh}
use alpha_whales.Journal.{Codec, Disk, ExecutionJournal, AppendOutcome, contains, Result}
use alpha_whales.Journal.Reserve.{Purchase, reserve}

-- `amount_in` is `(trade_size_sol * 1_000_000_000.0) as u64`.
pub record WhaleSignal : Type 0 where
  pub target_mint : String
  pub whale_wallet : String
  pub amount_in : ℕ
  pub timestamp_ms : ℕ

pub record Signed (K : Type 0) : Type 0 where
  pub target_mint : K
  pub transaction_fee_lamports : ℕ
  pub destination_ata_rent_lamports : ℕ
  pub transaction_signature : String
  pub recent_blockhash : String

-- How the swap is resolved, built and signed. The fallback is tried only for a pump token.
pub data Build (K : Type 0) : Type 0 where
  unresolved swap_without_blockhash swap_not_signed : Build K
  swap_signed : Signed K → Build K
  pump_failed pump_not_signed : Build K
  pump_signed : Signed K → Build K

pub record Answers (K Line : Type 0) : Type 0 where
  pub breaker_now : ℕ
  pub lock_now : ℕ
  pub tip_now : ℕ
  pub wall_now_ms : ℕ
  pub build : Build K
  pub written : Bool
  pub outcome : AppendOutcome Line

pub data Verdict : Type 0 where
  paused invalid_mint bought full locked tip_skipped build_failed no_tip_account : Verdict
  stale duplicate not_reserved reserved panicked : Verdict

-- What the consumer reads and writes.
pub record Shop (S K Line : Type 0) : Type 0 where
  pub bot : BotState S
  pub journal : ExecutionJournal K
  pub disk : Disk Line
  pub dispatcher : BundleDispatcher K

module _ {S K Line : Type 0} ⦃key : KeyEq K⦄ (sem : Semaphore S) (codec : Codec K Line)
    (engine : TipTelemetryEngine) (max_signal_age tip_lamports : ℕ) where
  -- The permit is dropped at the end of the turn.
  unfoldable pub leave : Shop S K Line → Verdict → Shop S K Line × Verdict
  unfolding drop_permit
  leave w v = (record w { bot = drop_permit sem w.bot }, v)

  unfoldable pub unlock_and_leave : Shop S K Line → WhaleSignal → Verdict → Shop S K Line × Verdict
  unfolding leave unlock_mint
  unlock_and_leave w s v = leave (record w { bot = unlock_mint w.bot s.target_mint }) v

  -- `reserve` takes the tip of the configuration.
  abbrev pub purchase : WhaleSignal → Signed K → Purchase K
  purchase s b = record {
    target_mint = b.target_mint;
    amount_in = s.amount_in;
    tip_lamports = tip_lamports;
    transaction_fee_lamports = b.transaction_fee_lamports;
    destination_ata_rent_lamports = b.destination_ata_rent_lamports;
    timestamp_ms = s.timestamp_ms;
    transaction_signature = b.transaction_signature;
    recent_blockhash = b.recent_blockhash;
  }

  abbrev pub opportunity : WhaleSignal → OpportunityKey
  opportunity s = record {
    mint = s.target_mint;
    pool = s.whale_wallet;
    signal_epoch_secs = s.timestamp_ms / 1000;
  }

  abbrev pub after_reserve :
      Shop S K Line
      → WhaleSignal
      → ExecutionJournal K × Disk Line × Result (Unit {0})
      → Shop S K Line × Verdict
  after_reserve w s (j, disk, ok done) = (record w { journal = j; disk = disk }, reserved)
  after_reserve w s (j, disk, err e) =
      unlock_and_leave (record w { journal = j; disk = disk }) s not_reserved

  -- The journal's gate, behind the deduplicator's.
  unfoldable pub reserve_gate :
      Shop S K Line
      → WhaleSignal
      → Answers K Line
      → Signed K
      → OpportunityDeduplicator × Bool
      → Shop S K Line × Verdict
  unfolding unlock_and_leave reserve
  reserve_gate w s a b (d, false) = unlock_and_leave w s duplicate
  reserve_gate w s a b (d, true) =
      after_reserve (record w { dispatcher = record w.dispatcher { deduplicator = d } }) s
        (reserve codec w.journal w.disk (purchase s b) a.written a.outcome)

  unfoldable pub signed_gate :
      Shop S K Line → WhaleSignal → Answers K Line → Signed K → Shop S K Line × Verdict
  unfolding leave reserve_gate try_acquire ensure_signal_fresh
  signed_gate w s a b = elim (ensure_signal_fresh s.timestamp_ms a.wall_now_ms max_signal_age) [
    | err e ↦ leave w stale
    | ok fresh ↦ reserve_gate w s a b (try_acquire w.dispatcher.deduplicator (opportunity s))
  ]

  -- A swap takes a tip account before its blockhash; without an account it is rejected.
  unfoldable pub swap_gate :
      Shop S K Line
      → WhaleSignal
      → Answers K Line
      → Option (Signed K)
      → BundleDispatcher K × Option K
      → Shop S K Line × Verdict
  unfolding signed_gate unlock_and_leave
  swap_gate w s a b (d, none) = unlock_and_leave (record w { dispatcher = d }) s no_tip_account
  swap_gate w s a none (d, some account) =
      unlock_and_leave (record w { dispatcher = d }) s build_failed
  swap_gate w s a (some b) (d, some account) = signed_gate (record w { dispatcher = d }) s a b

  -- PumpPortal's transaction takes its account by `unwrap`.
  unfoldable pub pump_gate :
      Shop S K Line
      → WhaleSignal
      → Answers K Line
      → Option (Signed K)
      → BundleDispatcher K × Option K
      → Shop S K Line × Verdict
  unfolding signed_gate unlock_and_leave leave
  pump_gate w s a b (d, none) = leave (record w { dispatcher = d }) panicked
  pump_gate w s a none (d, some account) =
      unlock_and_leave (record w { dispatcher = d }) s build_failed
  pump_gate w s a (some b) (d, some account) = signed_gate (record w { dispatcher = d }) s a b

  unfoldable pub build_gate :
      Shop S K Line → WhaleSignal → Answers K Line → Build K → Shop S K Line × Verdict
  unfolding swap_gate pump_gate unlock_and_leave take_tip_account
  build_gate w s a unresolved = unlock_and_leave w s build_failed
  build_gate w s a swap_without_blockhash = swap_gate w s a none (take_tip_account w.dispatcher)
  build_gate w s a swap_not_signed = swap_gate w s a none (take_tip_account w.dispatcher)
  build_gate w s a (swap_signed b) = swap_gate w s a (some b) (take_tip_account w.dispatcher)
  build_gate w s a pump_failed = unlock_and_leave w s build_failed
  build_gate w s a pump_not_signed = pump_gate w s a none (take_tip_account w.dispatcher)
  build_gate w s a (pump_signed b) = pump_gate w s a (some b) (take_tip_account w.dispatcher)

  abbrev pub tip_gate :
      Shop S K Line → WhaleSignal → Answers K Line → TipDecision → Shop S K Line × Verdict
  tip_gate w s a (skip reason) = unlock_and_leave w s tip_skipped
  tip_gate w s a (bid lamports age) = build_gate w s a a.build

  abbrev pub lock_gate :
      Shop S K Line → WhaleSignal → Answers K Line → BotState S × Bool → Shop S K Line × Verdict
  lock_gate w s a (b, false) = leave (record w { bot = b }) locked
  lock_gate w s a (b, true) =
      tip_gate (record w { bot = b }) s a (calculate_tip engine (s.amount_in / 100) a.tip_now)

  abbrev pub position_gate :
      Shop S K Line → WhaleSignal → Answers K Line → Option (BotState S) → Shop S K Line × Verdict
  position_gate w s a none = (w, full)
  position_gate w s a (some b) = lock_gate w s a (try_lock_mint b s.target_mint a.lock_now)

  abbrev pub mint_gate :
      Shop S K Line → WhaleSignal → Answers K Line → Option K → Shop S K Line × Verdict
  mint_gate w s a none = (w, invalid_mint)
  mint_gate w s a (some mint) =
      if contains mint w.journal.reserved_mints
      then (w, bought)
      else position_gate w s a (try_acquire_position sem w.bot)

  abbrev pub breaker_gate :
      Shop S K Line → WhaleSignal → Answers K Line → BotState S × Bool → Shop S K Line × Verdict
  breaker_gate w s a (b, true) = (record w { bot = b }, paused)
  breaker_gate w s a (b, false) =
      mint_gate (record w { bot = b }) s a (codec.from_str s.target_mint)

  -- One signal, up to its reservation.
  unfoldable pub consider : Shop S K Line → WhaleSignal → Answers K Line → Shop S K Line × Verdict
  unfolding is_circuit_breaker_active contains try_acquire_position try_lock_mint calculate_tip
      build_gate leave unlock_and_leave
  consider w s a = breaker_gate w s a (is_circuit_breaker_active w.bot a.breaker_now)
