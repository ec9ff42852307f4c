-- ===== src/Execution.antt =====
-- alpha-whales/src/execution.rs: sandwich protection, the swap instruction and the quote.
-- `Keys` stands for the public keys of solana_sdk, with the base58 text of a key. A signal or a
-- configuration is the fields that are read. An error's text is left out where it is fixed.
pub mod Shield
pub mod Swap
pub mod Quote
pub mod Config
mod Tests
pub use alpha_whales.Common.Keys.{Keys}
pub use alpha_whales.Common.Checked.{Checked, ok, err, ◌>>=◌, ◌>>◌, fail_if, ok_or}
use alpha_whales.Common.{
  ℕ, zero, suc, ◌+◌, ◌-◌, ◌*◌, ◌/◌, ◌%◌, ◌^◌, ◌≡◌, refl, ◌⊎◌, inl, inr, Option, none, some, Bool,
  true, false, not, ◌&&◌, ◌||◌, List, [], ◌∷◌, ◌++◌, String, KeyEq, text_key, number_key, ◌==◌, ltb,
  leb, if◌then◌else◌, any, max, min, u64_mod, IsU64,
}
use text.Mathlib.Text.{starts_with}

pub record AccountMeta (K : Type 0) : Type 0 where
  pub pubkey : K
  pub is_signer : Bool
  pub is_writable : Bool

-- `data` of the source, a list of bytes, is `data_bytes`.
pub record Instruction (K : Type 0) : Type 0 where
  pub program_id : K
  pub accounts : List (AccountMeta K)
  pub data_bytes : List ℕ

pub data ExecutionError : Type 0 where
  invalid_sentinel_prefix unsafe_trailing_account sentinel_missing : ExecutionError
  not_at_leading_index : ℕ → ExecutionError
  invalid_configuration invalid_pool_keys invalid_swap_amount invalid_swap_account : ExecutionError
  invalid_quote quote_arithmetic_overflow : ExecutionError
  invalid_user_token_account invalid_signal_timestamp stale_signal : ExecutionError

abbrev pub Result {ℓ} : Type ℓ → Type ℓ
Result A = Checked ExecutionError A

abbrev pub readonly : {K : Type 0} → K → AccountMeta K
readonly k = record { pubkey = k; is_signer = false; is_writable = false }

abbrev pub writable : {K : Type 0} → K → AccountMeta K
writable k = record { pubkey = k; is_signer = false; is_writable = true }

abbrev pub signer : {K : Type 0} → K → AccountMeta K
signer k = record { pubkey = k; is_signer = true; is_writable = false }
