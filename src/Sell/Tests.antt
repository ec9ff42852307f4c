-- ===== src/Sell/Tests.antt =====
-- A sale of two attempts over whole numbers in the place of f64, and the theorems at it.
use alpha_whales.Common.{
  ℕ, zero, suc, ◌+◌, ◌-◌, ◌*◌, ◌/◌, ◌^◌, ◌≤◌, ◌≡◌, refl, Option, some, true, List, [], ◌∷◌, String,
  text_key, ltb, leb, min, max, length,
}
use alpha_whales.Common.Floats.{F64}
use alpha_whales.Common.Checked.{ok, err}
use alpha_whales.Dispatch.{timed_out, uuid}
use alpha_whales.Dispatch.Bundle.{Sdk}
use alpha_whales.Execution.{Keys, Instruction, writable}
use alpha_whales.Execution.Swap.{construct_raydium_swap_instruction}
use alpha_whales.Pool.{RaydiumPoolKeys}
use alpha_whales.Sell.{SellTerms, Round, sell_failed}
use alpha_whales.Sell.Attempts.{Sale, attempt_sell_bundle}
use alpha_whales.Sell.Ends.{AllRetried, attempt_sell_bundle-length, attempt_sell_bundle_failed}
use alpha_whales.Watcher.{hard_stop_20pct}

abbrev whole : F64 ℕ
whole = record {
  decimal = λ digits places. digits / 10 ^ places;
  of_nat = λ n. n;
  negate = λ n. 0;
  add = λ a b. a + b;
  sub = λ a b. a - b;
  mul = λ a b. a * b;
  div = λ a b. a / b;
  ln = λ n. n;
  clamp = λ x lo hi. min hi (max lo x);
  is_finite = λ x. true;
  lt = ltb;
  le = leb;
  to_u128 = λ x. x;
}

abbrev keys : Keys String
keys = record {
  to_string = λ k. k;
  default = "none";
  token_program = "token";
  raydium_liquidity_pool_v4_program_id = "raydium";
  wsol_mint = "wsol";
}

abbrev pool : RaydiumPoolKeys String
pool = record {
  amm_id = "amm";
  authority = "authority";
  open_orders = "orders";
  target_orders = "targets";
  base_vault = "base";
  quote_vault = "quote";
  base_mint = "mintA";
  quote_mint = "wsol";
  market_program_id = "market";
  market_id = "id";
  market_bids = "bids";
  market_asks = "asks";
  market_event_queue = "queue";
  market_base_vault = "mbase";
  market_quote_vault = "mquote";
  market_vault_signer = "vsigner";
}

abbrev sdk :
    Sdk String (Instruction String) (List (Instruction String)) (List (Instruction String)) ℕ ℕ
sdk = record {
  transfer = λ account lamports. record {
    program_id = "system";
    accounts = writable account ∷ [];
    data_bytes = lamports ∷ [];
  };
  try_compile = λ instructions alts blockhash. ok instructions;
  try_new = λ message. ok message;
  first_signature = λ transaction. some "sig";
  serialize = λ transaction. some (1 ∷ 2 ∷ []);
  message_of = λ transaction. transaction;
  recent_blockhash = λ message. "hash";
}

abbrev terms : SellTerms String
terms = record {
  acquired_amount = 1_000;
  jito_tip_lamports = 2_000;
  max_slippage_bps = 100;
  jito_dont_front_pubkey = "jitodontfront1";
}

abbrev sale : Sale String
sale = record {
  terms = terms;
  pool_keys = some pool;
  user_owner = "me";
  user_source_token_account = "mytoken";
  user_destination_wsol_account = "mysol";
  reason = hard_stop_20pct;
  cur_wsol_num = 5;
  cur_wsol_den = 1;
}

abbrev tip_texts : List String
tip_texts = "tip1" ∷ "tip2" ∷ []

-- The first attempt is not answered, the second one is.
abbrev rounds : ℕ → Round (List (Instruction String))
rounds zero = record {
  connected = err "no";
  latest_blockhash = err "no";
  pump_transaction = λ s t. err "no";
  send_bundle = timed_out;
}
rounds (suc zero) = record {
  connected = ok (ok tip_texts);
  latest_blockhash = ok "hash";
  pump_transaction = λ s t. err "no";
  send_bundle = timed_out;
}
rounds (suc (suc n)) = record {
  connected = ok (ok tip_texts);
  latest_blockhash = ok "hash";
  pump_transaction = λ s t. err "no";
  send_bundle = uuid "bundle";
}

abbrev from_str : String → Option String
from_str text = some text

sold_at_second :
    (attempt_sell_bundle keys sdk from_str whole (λ n. 2 ^ n) sale rounds).1 ≡ ok ("bundle", "sig")
unfolding attempt_sell_bundle construct_raydium_swap_instruction
sold_at_second = refl

attempt_sell_bundle-length_example :
    length (attempt_sell_bundle keys sdk from_str whole (λ n. 2 ^ n) sale rounds).0 ≤ 5
attempt_sell_bundle-length_example =
    attempt_sell_bundle-length keys sdk from_str whole (λ n. 2 ^ n) sale rounds

-- No answer at all.
abbrev silent : ℕ → Round (List (Instruction String))
silent n = record {
  connected = ok (ok tip_texts);
  latest_blockhash = ok "hash";
  pump_transaction = λ s t. err "no";
  send_bundle = timed_out;
}

silence :
    (attempt_sell_bundle keys sdk from_str whole (λ n. 2 ^ n) sale silent).1
    ≡ err (sell_failed 5 "gRPC send_bundle timed out")
unfolding attempt_sell_bundle construct_raydium_swap_instruction
silence = refl

abbrev attempts : ℕ
attempts = 5

attempt_sell_bundle_failed_example :
    (attempts ≡ 5) × AllRetried keys sdk from_str whole (λ n. 2 ^ n) sale silent 1 5
attempt_sell_bundle_failed_example =
    attempt_sell_bundle_failed keys sdk from_str whole (λ n. 2 ^ n) sale silent silence
