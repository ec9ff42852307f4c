-- ===== src/Ingest/Tests.antt =====
-- Runs of the ingestion on a transaction with one swap, and the theorems at it.
use alpha_whales.Common.{
  ℕ, ◌≡◌, refl, ◌++◌, Option, none, some, true, false, List, [], ◌∷◌, String, text_key, ◌==◌, ltb,
  if◌then◌else◌, arith,
}
use alpha_whales.Common.Keys.{Keys}
use alpha_whales.Common.Checked.{ok}
use alpha_whales.Config.{AppConfig}
use alpha_whales.Ingest.{
  Decoders, parsed, address, by_address, by_index, as_str, RawInstruction, RawMessage,
  RawTokenBalance, TransactionNotification, DecodedSwap,
}
use alpha_whales.Ingest.Stream.{
  Sending, sent, full, Stream, enqueue_all, process_notification_payload,
}
use alpha_whales.Ingest.Listener.{
  AckResponse, text_frame, ping, message, connected, refused, run_listener, Session,
}
use alpha_whales.Ingest.Accounts.{IsAccounted, unplaced_at, run_listener-IsAccounted}
use alpha_whales.Ingest.Geyser.{
  GeyserMessage, global_create, IsPlusFree, run_geyser_stream, run_geyser_stream_silent,
}
use alpha_whales.Ingest.Epochs.{events_of, same_epoch_complete}

abbrev keys : Keys String
keys = record {
  to_string = λ k. k;
  default = "1111";
  token_program = "token";
  raydium_liquidity_pool_v4_program_id = "raydium";
  wsol_mint = "wsol";
}

abbrev amount_of : String → Option ℕ
amount_of text =
    if text == "900"
    then some 900
    else if text == "700"
    then some 700
    else if text == "50"
    then some 50
    else if text == "60"
    then some 60
    else none

abbrev decoders : Decoders String
decoders = record {
  pubkey_from_str = λ text. some text;
  base58_onto = λ text. if text == "A" then some (9 ∷ []) else none;
  parse_u64 = amount_of;
  signature_from_str = λ text. some text;
}

abbrev swap_instruction : RawInstruction
swap_instruction = record {
  program_id = some "raydium";
  program_id_index = none;
  accounts =
      by_address "token"
      ∷ by_index 0
      ∷ by_address "c"
      ∷ by_address "d"
      ∷ by_index 1
      ∷ by_index 2
      ∷ by_address "g"
      ∷ by_address "h"
      ∷ by_address "i"
      ∷ by_address "j"
      ∷ by_address "k"
      ∷ by_address "l"
      ∷ by_address "m"
      ∷ by_address "n"
      ∷ by_address "o"
      ∷ by_address "p"
      ∷ by_address "q"
      ∷ [];
  raw_data = some "A";
}

abbrev swap_message : RawMessage
swap_message = record {
  account_keys = parsed "pool" ∷ address "base" ∷ address "quote" ∷ [];
  instructions = swap_instruction ∷ [];
}

abbrev balance : ℕ → String → String → RawTokenBalance
balance index mint amount = record { account_index = index; mint = mint; amount = amount }

abbrev notification : TransactionNotification
notification = record {
  method = "transactionNotification";
  subscription = 7;
  result = record {
    slot = 42;
    signature = none;
    signatures = "sig" ∷ [];
    message = swap_message;
    meta = record {
      failed = false;
      inner_instructions = none;
      pre_token_balances = some (balance 1 "coin" "900" ∷ balance 2 "wsol" "50" ∷ []);
      post_token_balances = some (balance 1 "coin" "700" ∷ balance 2 "wsol" "60" ∷ []);
    };
  };
}

abbrev swap : DecodedSwap String
swap = record {
  signature = "sig";
  pool_id = "pool";
  target_mint = "coin";
  base_amount = 200;
  quote_amount = 10;
  observed_at_ms = 1_000;
  source_slot = 42;
  outer_instruction_index = 0;
  inner_instruction_index = none;
}

abbrev config : AppConfig
config = record {
  rpc_url = "https://";
  raydium_ws_url = "wss://";
  target_mints = some [];
  min_swap_lamports = 5;
  telegram_bot_token = none;
  telegram_chat_id = none;
  pumpportal_api_key = none;
  startup_policy = record { position_recovery_allowed = false; capital_execution_allowed = false };
}

abbrev start : Stream
start = record {
  stream_epoch = 3;
  notifications_received = 0;
  swaps_decoded = 0;
  decode_failures = 0;
  filter_drops = 0;
  ws_queue_full_drops = 0;
  sends = 0;
  queued = [];
}

-- The channel has room for one event.
abbrev one_place : ℕ → Sending
one_place n = if ltb n 1 then sent else full

run_ok : (enqueue_all keys decoders one_place config start (swap ∷ [])).1 ≡ ok tt
unfolding enqueue_all
run_ok = refl

run_epoch : (enqueue_all keys decoders one_place config start (swap ∷ [])).0.stream_epoch ≡ 3
unfolding enqueue_all
run_epoch = refl

same_epoch_complete_example :
    (enqueue_all keys decoders one_place config start (swap ∷ [])).0.queued
    ≡ [] ++ events_of keys decoders one_place config 3 (swap ∷ [])
same_epoch_complete_example =
    same_epoch_complete keys decoders one_place config start (swap ∷ []) (omega arith) (omega arith)
      run_ok run_epoch

abbrev read_ack : String → Option AckResponse
read_ack payload = some (record { has_error = false; id = some 1; subscription = some 7 })

abbrev read_notification : String → Option TransactionNotification
read_notification payload = some notification

-- Two notifications over one connection: the second event finds the queue full.
abbrev sessions : List Session
sessions =
    refused
    ∷ connected (ping true ∷ text_frame "ack" ∷ []) 0
        (message (text_frame "a") (some 1_000) 1 ∷ message (text_frame "b") (some 1_000) 2 ∷ [])
    ∷ []

run_listener-IsAccounted_example :
    let (s', c) =
      run_listener keys decoders one_place config read_notification read_ack start sessions in
    IsAccounted (unplaced_at c) s'
run_listener-IsAccounted_example =
    run_listener-IsAccounted keys decoders one_place config read_notification read_ack start
      sessions (omega arith)

ran :
    (run_listener keys decoders one_place config read_notification read_ack start
      sessions).0.stream_epoch
    ≡ 5
unfolding run_listener process_notification_payload as_str
ran = refl

abbrev plain_text : List ℕ → String
plain_text bytes = "mint"

abbrev create : GeyserMessage
create = record {
  account_keys = (1 ∷ []) ∷ (2 ∷ []) ∷ [];
  instructions =
      record { program_id_index = 0; accounts = 1 ∷ []; data_bytes = global_create } ∷ [];
}

plain-IsPlusFree : (bytes : List ℕ) → IsPlusFree (plain_text bytes)
plain-IsPlusFree bytes = ground arith

run_geyser_stream_silent_example : run_geyser_stream plain_text (create ∷ []) ≡ []
run_geyser_stream_silent_example =
    run_geyser_stream_silent plain_text plain-IsPlusFree (create ∷ [])
