-- ===== src/Pool.antt =====
-- core/src/pool_cache.rs: the keys of a Raydium pool, from the API's records, and their verification
-- against the chain. HTTP and RPC results are arguments, serde_json's reading is done, and an error's
-- text is left out where it comes from a library. `Chain` stands for what solana_sdk and spl_token
-- make of bytes.
pub mod Api
pub mod OnChain
pub mod Bytes
pub mod Verified
pub mod Resolved
pub mod Choice
pub mod Tests
use alpha_whales.Common.{ℕ, Option, Bool, List, [], ◌∷◌, String, KeyEq, ◌==◌, if◌then◌else◌}
use alpha_whales.Common.Keys.{Keys}
use alpha_whales.Common.Checked.{Checked, ok, err}

pub record RaydiumPoolKeys (K : Type 0) : Type 0 where
  pub amm_id : K
  pub authority : K
  pub open_orders : K
  pub target_orders : K
  pub base_vault : K
  pub quote_vault : K
  pub base_mint : K
  pub quote_mint : K
  pub market_program_id : K
  pub market_id : K
  pub market_bids : K
  pub market_asks : K
  pub market_event_queue : K
  pub market_base_vault : K
  pub market_quote_vault : K
  pub market_vault_signer : K

-- The keys with the names of their fields, in the order of the source.
abbrev pub named_keys : {K : Type 0} → RaydiumPoolKeys K → List (String × K)
named_keys p =
    ("amm_id", p.amm_id)
    ∷ ("authority", p.authority)
    ∷ ("open_orders", p.open_orders)
    ∷ ("target_orders", p.target_orders)
    ∷ ("base_vault", p.base_vault)
    ∷ ("quote_vault", p.quote_vault)
    ∷ ("base_mint", p.base_mint)
    ∷ ("quote_mint", p.quote_mint)
    ∷ ("market_program_id", p.market_program_id)
    ∷ ("market_id", p.market_id)
    ∷ ("market_bids", p.market_bids)
    ∷ ("market_asks", p.market_asks)
    ∷ ("market_event_queue", p.market_event_queue)
    ∷ ("market_base_vault", p.market_base_vault)
    ∷ ("market_quote_vault", p.market_quote_vault)
    ∷ ("market_vault_signer", p.market_vault_signer)
    ∷ []

module _ {K : Type 0} ⦃key : KeyEq K⦄ (keys : Keys K) where
  -- `Err(DefaultPubkey(name))` at the first default key
  abbrev pub reject_default : List (String × K) → Checked String (Unit {0})
  reject_default [] = ok tt
  reject_default ((name, k) ∷ rest) = if k == keys.default then err name else reject_default rest

  unfoldable pub validate : RaydiumPoolKeys K → Checked String (Unit {0})
  validate p = reject_default (named_keys p)

pub data PoolResolutionError : Type 0 where
  target_is_wsol pool_not_found ambiguous_pool invalid_response rpc_failed : PoolResolutionError
  invalid_target_mint : PoolResolutionError
  invalid_pubkey api_account_mismatch missing_account invalid_account_owner :
      String → PoolResolutionError
  invalid_amm_state amm_state_mismatch invalid_token_account invalid_mint :
      String → PoolResolutionError
  invalid_pool_keys : String → PoolResolutionError

abbrev pub Result {ℓ} : Type ℓ → Type ℓ
Result A = Checked PoolResolutionError A

pub record ApiMint : Type 0 where
  pub address : String
  pub program_id : String

pub record PoolSummary (F : Type 0) : Type 0 where
  pub id : String
  pub program_id : String
  pub mint_a : ApiMint
  pub mint_b : ApiMint
  pub tvl : F

pub record ApiVaults : Type 0 where
  pub base : String
  pub quote : String

pub record ApiPoolKeys : Type 0 where
  pub id : String
  pub program_id : String
  pub authority : String
  pub open_orders : String
  pub target_orders : String
  pub mint_a : ApiMint
  pub mint_b : ApiMint
  pub vault : ApiVaults
  pub market_program_id : String
  pub market_id : String
  pub market_authority : String
  pub market_base_vault : String
  pub market_quote_vault : String
  pub market_bids : String
  pub market_asks : String
  pub market_event_queue : String

-- `data` of the source, a list of bytes, is `data_bytes`.
pub record Account (K : Type 0) : Type 0 where
  pub owner : K
  pub data_bytes : List ℕ

-- `TokenAccount`, with whether its state is `Initialized`.
pub record TokenAccount (K : Type 0) : Type 0 where
  pub is_initialized : Bool
  pub mint : K
  pub owner : K

pub record Chain (K : Type 0) : Type 0 where
  pub pubkey_from_str : String → Option K
  pub new_from_array : List ℕ → K
  pub create_program_address : List (List ℕ) → K → Option K
  pub openbook_program_id : K
  -- `Mint::unpack`, for `is_initialized`
  pub unpack_mint : List ℕ → Option Bool
  pub unpack_token_account : List ℕ → Option (TokenAccount K)
