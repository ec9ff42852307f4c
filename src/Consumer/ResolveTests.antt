-- ===== src/Consumer/ResolveTests.antt =====
-- A swap that is resolved for a user who holds WSOL and nothing of the target.
use alpha_whales.Common.{
  ℕ, ◌≡◌, refl, Option, none, some, true, List, [], ◌∷◌, ◌++◌, String, text_key, number_key, ◌==◌,
  if◌then◌else◌,
}
use alpha_whales.Common.Checked.{ok}
use alpha_whales.Common.Bytes.{slice}
use alpha_whales.Consumer.{WhaleSignal}
use alpha_whales.Consumer.Resolve.{
  Wallet, UserToken, Fetched, PreparedSwap, body, user_account_rpc,
  resolve_swap_instructions_for_signal,
}
use alpha_whales.Consumer.Prepared.{IsPrepared}
use alpha_whales.Common.{length, false}
use alpha_whales.Common.Checked.{err}
use alpha_whales.Consumer.{Signed, swap_signed}
use alpha_whales.Consumer.Resolve.{quote_request}
use alpha_whales.Consumer.Building.{build_bundle, IsSignedSwap, build_bundle_lem}
use alpha_whales.Dispatch.{transaction_to_proto_packet}
use alpha_whales.Dispatch.Bundle.{Sdk}
use alpha_whales.Execution.{Instruction, readonly}
use alpha_whales.Execution.Config.{JitoExecutorConfig}
use alpha_whales.Execution.Quote.{QuoteData}
use alpha_whales.Execution.Swap.{swap_accounts, swap_data}
use alpha_whales.Pool.{Account}
use alpha_whales.Pool.Resolved.{AnswersFrom}
use alpha_whales.Common.{map, sym, arith}
use alpha_whales.Pool.Tests.{keys, chain, pool, fetch, api_keys, liquidity, pools}

abbrev user_token : List ℕ → Option (UserToken String)
user_token [] = none
user_token (b ∷ bytes) =
    some
      (record { is_initialized = true; mint = "wsol"; owner = "me"; amount = b; is_native = true })

abbrev number : String → Option ℕ
number text =
    if text == "100"
    then some 100
    else if text == "1000"
    then some 1_000
    else if text == "960"
    then some 960
    else none

abbrev creation : Instruction String
creation = record { program_id = "ata"; accounts = []; data_bytes = [] }

abbrev wallet : Wallet String
wallet = record {
  get_associated_token_address = λ owner mint. if mint == "wsol" then "mysol" else "mycoin";
  create_associated_token_account_idempotent = λ funder owner mint. creation;
  unpack_token_account = user_token;
  parse_u64 = number;
}

abbrev config : JitoExecutorConfig String
config = record {
  block_engine_url = "https://engine";
  tip_lamports = 1_000;
  request_timeout = 1;
  reconnect_delay = 1;
  max_slippage_bps = 500;
  max_signal_age = 1_000_000_000;
  max_pending_capital_lamports = 1_000_000;
  execution_journal_path = "/journal";
  jito_dont_front_pubkey = "jitodontfront1";
  pumpportal_api_key = none;
  alt_address = none;
}

abbrev quote : QuoteData
quote = record {
  swap_type = "BaseIn";
  input_mint = "wsol";
  input_amount = "100";
  output_mint = "coin";
  output_amount = "1000";
  other_amount_threshold = "960";
  slippage_bps = 500;
  route_plan = record { pool_id = "amm"; input_mint = "wsol"; output_mint = "coin" } ∷ [];
}

abbrev signal : WhaleSignal
signal = record {
  target_mint = "coin";
  whale_wallet = "whale";
  amount_in = 100;
  timestamp_ms = 1_000;
}

abbrev funds : Account String
funds = record { owner = "token"; data_bytes = 250 ∷ [] }

abbrev user_ledger : String → Option (Account String)
user_ledger address = if address == "mysol" then some funds else none

user-AnswersFrom : AnswersFrom user_ledger (λ addresses. some (map user_ledger addresses))
user-AnswersFrom addresses accounts h = sym (some_inj h)
  where
    some_inj :
        {a b : List (Option (Account String))}
        → Path (Option (List (Option (Account String)))) (some a) (some b)
        → a ≡ b
    some_inj e = ground arith

abbrev fetched : Fetched String ℕ ℕ
fetched = record {
  now_ms = 1_500;
  pool_list = ok pools;
  key_records = λ id. ok (api_keys ∷ []);
  pool_accounts = fetch;
  quote_response = body 900 (some (record { success = true; quote = some quote }));
  user_accounts = λ addresses. some (map user_ledger addresses);
  owned_target_accounts = some [];
  destination_account_rent = some 2_039_280;
  fetch_alt = λ k. none;
  first_failure = user_account_rpc;
}

abbrev prepared : PreparedSwap String ℕ
prepared = record {
  target_mint = "coin";
  pool_id = "amm";
  instructions =
      creation
      ∷ record {
        program_id = "raydium";
        accounts = swap_accounts keys pool "me" "mysol" "mycoin" ++ readonly "jitodontfront1" ∷ [];
        data_bytes = swap_data 100 960;
      }
      ∷ [];
  destination_ata_rent_lamports = 2_039_280;
  alt = none;
  pool_keys = pool;
}

-- Bundles of one transaction, which is the length of its message.
abbrev sdk : Sdk String (Instruction String) ℕ ℕ ℕ ℕ
sdk = record {
  transfer = λ account lamports. creation;
  try_compile = λ instructions tables blockhash. ok (length instructions);
  try_new = λ message. ok message;
  first_signature = λ transaction. some "sig";
  serialize = λ transaction. some (transaction ∷ []);
  message_of = λ transaction. transaction;
  recent_blockhash = λ message. "hash";
}

abbrev signed : Signed String
signed = record {
  target_mint = "coin";
  transaction_fee_lamports = 0;
  destination_ata_rent_lamports = 2_039_280;
  transaction_signature = "sig";
  recent_blockhash = "hash";
}

built :
    build_bundle sdk 1_000 false
      (resolve_swap_instructions_for_signal keys wallet config chain liquidity signal "me" fetched)
      (err quote_request)
      "coin"
      "tip"
      (some "hash")
    ≡ swap_signed signed
unfolding build_bundle resolve_swap_instructions_for_signal slice swap_accounts swap_data
    transaction_to_proto_packet
built = refl

build_bundle_lem_example :
    (p : PreparedSwap String ℕ) × IsPrepared keys wallet config chain liquidity signal "me"
      user_ledger fetched p
    × IsSignedSwap sdk 1_000 p "tip" (some "hash") signed
build_bundle_lem_example =
    build_bundle_lem sdk 1_000 keys wallet config chain liquidity false signal "me" user_ledger
      fetched (err quote_request) "coin" "tip" (some "hash") user-AnswersFrom built
