-- ===== src/Consumer/Tests.antt =====
-- Runs of the gates, and the theorem at a concrete signal.
use alpha_whales.Common.{
  ℕ, ◌≡◌, refl, Option, none, some, true, false, List, [], ◌∷◌, String, text_key, number_key,
}
use alpha_whales.Common.Maps.{get, insert, retain, contains_key}
use alpha_whales.State.{
  has_traded_mint, is_circuit_breaker_active, try_acquire_position, try_lock_mint, drop_permit,
}
use alpha_whales.State.Counting.{counting}
use alpha_whales.Tipping.{
  TipTelemetryEngine, calculate_tip, calculate_fresh, candidate, profit_share_cap, bid_or_cap,
}
use alpha_whales.Dispatch.{take_tip_account, try_regions, take_region_tip}
use alpha_whales.Execution.Config.{ensure_signal_fresh}
use alpha_whales.Journal.{synced, contains}
use alpha_whales.Journal.Plain.{Line, codec}
use alpha_whales.Consumer.{
  WhaleSignal, Answers, Verdict, Shop, swap_signed, stale, leave, signed_gate, swap_gate,
  build_gate, consider,
}
use alpha_whales.Common.Checked.{ok}
use alpha_whales.Common.Keys.{Keys}
use alpha_whales.Consumer.Handoff.{
  TokenState, Bought, Terms, Desk, answered, rpc_error, confirm_and_handoff,
}
use alpha_whales.Consumer.Opening.{IsHandedOver, confirm_and_handoff_lem}
use alpha_whales.Consumer.Gates.{consider-IsDone, IsDone, available}

abbrev engine : TipTelemetryEngine
engine = record {
  config = record {
    max_telemetry_age = 120_000_000_000;
    max_profit_share_bps = 5_000;
    minimum_net_profit_lamports = 0;
  };
  telemetry = some (record {
    p50_lamports = 1_000;
    p75_lamports = 2_000;
    p95_lamports = 3_000;
    observed_at = 0;
  });
}

abbrev shop : Shop ℕ String Line
shop = record {
  bot = record {
    traded_mints = [];
    consecutive_losses = 0;
    position_semaphore = 3;
    shadow_positions = [];
    circuit_breaker_tripped_at = none;
  };
  journal = record {
    writer_lock_acquired = false;
    reserved_mints = [];
    reserved_capital_lamports = 0;
    max_pending_capital_lamports = 10_000_000;
  };
  disk = record {
    file = record { lines = []; torn = none; byte_length = 0; is_utf8 = true };
    lock_exists = false;
  };
  dispatcher = record {
    regions = record { label = "ams"; tip_accounts = "tip" ∷ []; next_tip_account = 0 } ∷ [];
    next_region_for_tip = 0;
    deduplicator = record { seen = []; ttl_secs = 60 };
  };
}

abbrev signal : WhaleSignal
signal = record {
  target_mint = "mintA";
  whale_wallet = "whale";
  amount_in = 1_000_000;
  timestamp_ms = 1_000;
}

abbrev answers : Answers String Line
answers = record {
  breaker_now = 0;
  lock_now = 0;
  tip_now = 0;
  wall_now_ms = 9_000;
  build = swap_signed (record {
    target_mint = "mintA";
    transaction_fee_lamports = 5_000;
    destination_ata_rent_lamports = 2_039_280;
    transaction_signature = "sig";
    recent_blockhash = "hash";
  });
  written = true;
  outcome = synced;
}

-- A signal whose age runs out while its swap is built: the permit is back, the mint stays locked.
abbrev after_stale : Shop ℕ String Line × Verdict
after_stale = consider counting codec engine 5_000_000_000 1_000 shop signal answers

stale_verdict : after_stale.1 ≡ stale
unfolding consider is_circuit_breaker_active contains try_acquire_position try_lock_mint
    calculate_tip calculate_fresh candidate profit_share_cap bid_or_cap build_gate swap_gate
    signed_gate ensure_signal_fresh leave take_tip_account try_regions take_region_tip get insert
    retain contains_key
stale_verdict = refl

stale_locked : has_traded_mint after_stale.0.bot "mintA" ≡ true
unfolding consider is_circuit_breaker_active contains try_acquire_position try_lock_mint
    calculate_tip calculate_fresh candidate profit_share_cap bid_or_cap build_gate swap_gate
    signed_gate ensure_signal_fresh leave take_tip_account try_regions take_region_tip get insert
    retain contains_key has_traded_mint drop_permit
stale_locked = refl

consider-IsDone_example :
    IsDone counting codec engine 5_000_000_000 1_000 signal
      (available counting codec engine 5_000_000_000 1_000 shop)
      after_stale
consider-IsDone_example =
    consider-IsDone counting codec engine 5_000_000_000 1_000 signal shop answers

abbrev keys : Keys String
keys = record {
  to_string = λ k. k;
  default = "none";
  token_program = "token";
  raydium_liquidity_pool_v4_program_id = "raydium";
  wsol_mint = "wsol";
}

abbrev unpack : List ℕ → Option (TokenState String)
unpack bytes = some (record { is_initialized = true; mint = "mintA"; owner = "me"; amount = 500 })

abbrev bought : Bought String
bought = record {
  signal = signal;
  signature = "sig";
  signature_is_valid = true;
  target_mint = "mintA";
  user_owner = "me";
  pool_id = "pool";
  pool_keys = none;
  confirmations = rpc_error ∷ answered false ∷ answered true ∷ [];
  balance_account = some (ok (some (record { owner = "token"; data_bytes = [] })));
  landing = record { bundle_slot = none; bundle_region = none; recorded = [] };
}

abbrev terms : Terms String
terms = record { tip_lamports = 1_000; jito_dont_front_pubkey = "front"; max_slippage_bps = 100 }

abbrev desk : Desk ℕ String
desk = record { bot = shop.bot; rows = []; watchers = [] }

opened_there : (confirm_and_handoff keys unpack counting terms desk bought).1 ≡ ok tt
unfolding confirm_and_handoff
opened_there = refl

confirm_and_handoff_lem_example :
    let (d', r) = confirm_and_handoff keys unpack counting terms desk bought in
    IsHandedOver keys unpack counting terms desk bought d' r
confirm_and_handoff_lem_example = confirm_and_handoff_lem keys unpack counting terms desk bought
