-- ===== src/Execution/Tests.antt =====
-- Runs of the checks over texts as keys, and the theorems at concrete inputs.
use alpha_whales.Common.{
  ℕ, ◌+◌, ◌-◌, ◌*◌, ◌≤◌, ◌<◌, ◌≡◌, refl, Option, none, some, true, false, [], ◌∷◌, ◌++◌, String,
  text_key, number_key, ◌==◌, arith, length, if◌then◌else◌,
}
use alpha_whales.Execution.{Keys, Instruction, readonly, ok, err, not_at_leading_index}
use alpha_whales.Execution.Shield.{
  is_valid_dont_front_pubkey, apply_jitodontfront_protection, validate_bundle_protection,
  protect_validates,
}
use alpha_whales.Execution.Swap.{
  construct_raydium_swap_instruction, swap_accounts, swap_data, decode_swap, signers, swap_sound,
}
use alpha_whales.Pool.{RaydiumPoolKeys, validate}
use alpha_whales.Execution.Quote.{
  QuoteData, validate_quote, validate_route, calculate_local_minimum_amount_out, quote_bounds,
}
use alpha_whales.Execution.Config.{JitoExecutorConfig, new_config}

abbrev keys : Keys String
keys = record {
  to_string = λ k. k;
  default = "none";
  token_program = "token";
  raydium_liquidity_pool_v4_program_id = "raydium";
  wsol_mint = "wsol";
}

abbrev pool : RaydiumPoolKeys String
pool = record {
  amm_id = "amm";
  authority = "authority";
  open_orders = "orders";
  target_orders = "targets";
  base_vault = "base";
  quote_vault = "quote";
  base_mint = "mintA";
  quote_mint = "wsol";
  market_program_id = "market";
  market_id = "id";
  market_bids = "bids";
  market_asks = "asks";
  market_event_queue = "queue";
  market_base_vault = "mbase";
  market_quote_vault = "mquote";
  market_vault_signer = "vsigner";
}

abbrev source : String
source = "mysol"

abbrev destination : String
destination = "mytoken"

abbrev index : ℕ
index = 1

abbrev swap : Instruction String
swap = record {
  program_id = "raydium";
  accounts = swap_accounts keys pool "me" "mysol" "mytoken";
  data_bytes = swap_data 500 300;
}

swap_built : construct_raydium_swap_instruction keys pool "me" "mysol" "mytoken" 500 300 ≡ ok swap
unfolding construct_raydium_swap_instruction validate
swap_built = refl

swap_sound_example :
    (0 < 500)
    × (0 < 300)
    × (decode_swap swap.data_bytes ≡ (9, 500, 300))
    × (length swap.data_bytes ≡ 17)
    × (length swap.accounts ≡ 17)
    × (signers swap.accounts ≡ "me" ∷ [])
    × ((source == destination) ≡ false)
    × ((source == pool.base_vault) ≡ false)
    × ((source == pool.quote_vault) ≡ false)
    × ((destination == pool.base_vault) ≡ false)
    × ((destination == pool.quote_vault) ≡ false)
swap_sound_example =
    swap_sound keys pool "me" "mysol" "mytoken" 500 300 swap (omega arith) (omega arith) swap_built

abbrev sentinel : String
sentinel = "jitodontfront1111"

sentinel_valid : is_valid_dont_front_pubkey keys sentinel ≡ true
unfolding is_valid_dont_front_pubkey
sentinel_valid = refl

abbrev small : Instruction String
small = record { program_id = "raydium"; accounts = readonly "token" ∷ []; data_bytes = [] }

protect_validates_example :
    let (i', r) = apply_jitodontfront_protection keys small sentinel in
    (r ≡ ok tt)
    × (i'.accounts ≡ small.accounts ++ readonly sentinel ∷ [])
    × (validate_bundle_protection ([] ++ i' ∷ []) sentinel index
        ≡ (if index == 0 then ok tt else err (not_at_leading_index index)))
protect_validates_example =
    protect_validates keys small sentinel [] [] index sentinel_valid refl refl

abbrev parse : String → Option ℕ
parse s = if s == "1000" then some 1_000 else if s == "990" then some 990 else none

abbrev quote : QuoteData
quote = record {
  swap_type = "BaseIn";
  input_mint = "wsol";
  input_amount = "1000";
  output_mint = "mintA";
  output_amount = "1000";
  other_amount_threshold = "990";
  slippage_bps = 100;
  route_plan = record { pool_id = "amm"; input_mint = "wsol"; output_mint = "mintA" } ∷ [];
}

quote_accepted : validate_quote keys parse quote "amm" "mintA" 100 1_000 ≡ ok 990
unfolding validate_quote validate_route calculate_local_minimum_amount_out
quote_accepted = refl

quote_bounds_example :
    (output : ℕ) × (parse "1000" ≡ some output)
    × (parse "1000" ≡ some 1_000)
    × (0 < 990)
    × (990 ≤ output)
    × (100 ≤ 10_000)
    × (output * (10_000 - 100) < (990 + 1) * 10_000)
quote_bounds_example = quote_bounds keys parse quote "amm" "mintA" 100 1_000 990 quote_accepted

abbrev config : JitoExecutorConfig String
config = record {
  block_engine_url = "https://ams";
  tip_lamports = 5_000;
  request_timeout = 10;
  reconnect_delay = 10;
  max_slippage_bps = 100;
  max_signal_age = 10;
  max_pending_capital_lamports = 1_000;
  execution_journal_path = "/journal";
  jito_dont_front_pubkey = sentinel;
  pumpportal_api_key = none;
  alt_address = none;
}

config_accepted : new_config keys config true ≡ ok config
unfolding new_config is_valid_dont_front_pubkey
config_accepted = refl
