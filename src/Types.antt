-- ===== src/Types.antt =====
-- core/src/types.rs: the event that the ingestion sends to the watchers.
use alpha_whales.Common.{ℕ, Option, String}

-- A signature is its text.
pub record SwapEvent : Type 0 where
  pub target_mint : String
  pub pool_id : String
  pub base_amount : ℕ
  pub quote_amount : ℕ
  pub timestamp_ms : ℕ
  pub source_signature : String
  pub source_slot : ℕ
  pub outer_instruction_index : ℕ
  pub inner_instruction_index : Option ℕ
  pub stream_epoch : ℕ
