-- ===== src/Ingest.antt =====
-- core/src/websocket.rs: what a transaction notification holds, and the errors of its decoding.
-- A notification is what serde makes of its JSON text; an index of u64 is one of usize. `Decoders`
-- stands for the parsing of keys, base58 and signatures. An error's text is its constructor.
pub mod Instructions
pub mod Balances
pub mod Candidates
pub mod Selection
pub mod Notification
pub mod Stream
pub mod Listener
pub mod Geyser
pub mod Trades
pub mod Reports
pub mod Accounts
pub mod Epochs
mod Tests
use alpha_whales.Common.{ℕ, Option, none, some, Bool, List, String}
use alpha_whales.Common.Checked.{Checked}

pub record Decoders (K : Type 0) : Type 0 where
  pub pubkey_from_str : String → Option K
  -- `bs58::decode(data).onto(&mut [0_u8; 64])`: the bytes that are written
  pub base58_onto : String → Option (List ℕ)
  pub parse_u64 : String → Option ℕ
  -- a signature as its text
  pub signature_from_str : String → Option String

pub data RawAccountKey : Type 0 where
  parsed address : String → RawAccountKey

unfoldable pub as_str : RawAccountKey → String
as_str (parsed pubkey) = pubkey
as_str (address text) = text

pub data RawAccountReference : Type 0 where
  by_address : String → RawAccountReference
  by_index : ℕ → RawAccountReference

-- `data` of the source is `raw_data`.
pub record RawInstruction : Type 0 where
  pub program_id : Option String
  pub program_id_index : Option ℕ
  pub accounts : List RawAccountReference
  pub raw_data : Option String

pub record RawMessage : Type 0 where
  pub account_keys : List RawAccountKey
  pub instructions : List RawInstruction

pub record RawInnerInstructions : Type 0 where
  pub index : ℕ
  pub instructions : List RawInstruction

-- `amount` is the text of `ui_token_amount`.
pub record RawTokenBalance : Type 0 where
  pub account_index : ℕ
  pub mint : String
  pub amount : String

-- `failed` tells whether `err` is there.
pub record RawMeta : Type 0 where
  pub failed : Bool
  pub inner_instructions : Option (List RawInnerInstructions)
  pub pre_token_balances : Option (List RawTokenBalance)
  pub post_token_balances : Option (List RawTokenBalance)

pub record NotificationResult : Type 0 where
  pub slot : ℕ
  pub signature : Option String
  pub signatures : List String
  pub message : RawMessage
  pub meta : RawMeta

-- The method, and `params` with its result.
pub record TransactionNotification : Type 0 where
  pub method : String
  pub subscription : ℕ
  pub result : NotificationResult

pub record SwapInstruction (K : Type 0) : Type 0 where
  pub pool_id : K
  pub base_vault : K
  pub quote_vault : K
  pub outer_instruction_index : ℕ
  pub inner_instruction_index : Option ℕ

pub record DecodedSwap (K : Type 0) : Type 0 where
  pub signature : String
  pub pool_id : K
  pub target_mint : K
  pub base_amount : ℕ
  pub quote_amount : ℕ
  pub observed_at_ms : ℕ
  pub source_slot : ℕ
  pub outer_instruction_index : ℕ
  pub inner_instruction_index : Option ℕ

pub data BalanceDirection : Type 0 where
  increase decrease : BalanceDirection

pub data DecodeError : Type 0 where
  invalid_account_pubkey invalid_program_id two_program_ids no_raw_data not_base58 : DecodeError
  account_index_missing : ℕ → DecodeError
  wrong_account_count : ℕ → DecodeError
  wrong_token_program ambiguous_accounts outer_index_range inner_index_range : DecodeError
  invalid_account_key repeated_account_key vault_absent : DecodeError
  duplicate_balance invalid_mint invalid_amount balance_missing : DecodeError
  underflowed balance_unchanged : DecodeError
  no_signature signature_differs invalid_signature : DecodeError
  transaction_failed ambiguous_swaps no_pre_balances no_post_balances : DecodeError
  outer_index_absent : ℕ → DecodeError
  mint_changed same_signs not_one_wsol : DecodeError
  -- an index beyond the end of a slice, which would panic
  out_of_bounds : DecodeError

abbrev pub Result {ℓ} : Type ℓ → Type ℓ
Result A = Checked DecodeError A
