-- ===== src/Pool/OnChain.antt =====
-- core/src/pool_cache.rs: the verification of a pool's keys against its accounts, and the whole of
-- `resolve_pool_keys`. A byte is a number below 256.
use alpha_whales.Common.{
  ℕ, Option, not, ◌||◌, List, [], ◌∷◌, String, KeyEq, text_key, number_key, ◌==◌, ltb,
  if◌then◌else◌, get_elem?, length,
}
use alpha_whales.Common.Bytes.{from_le_bytes, slice}
use alpha_whales.Common.Keys.{Keys}
use alpha_whales.Common.Words.{and_then}
use alpha_whales.Common.Checked.{ok, err, ◌>>=◌, ◌>>◌, fail_if, ok_or, map_err}
use alpha_whales.Pool.{
  RaydiumPoolKeys, validate, Result, PoolSummary, ApiPoolKeys, Account, Chain, target_is_wsol,
  invalid_target_mint, invalid_response, rpc_failed, missing_account, invalid_account_owner,
  invalid_amm_state, amm_state_mismatch, invalid_token_account, invalid_mint, invalid_pool_keys,
}
use alpha_whales.Pool.Api.{Liquidity, select_pool, parse_api_pool_keys}

abbrev pub amm_info_len : ℕ
amm_info_len = 752

-- The bytes of "amm authority"
abbrev pub amm_authority_seed : List ℕ
amm_authority_seed = 97 ∷ 109 ∷ 109 ∷ 32 ∷ 97 ∷ 117 ∷ 116 ∷ 104 ∷ 111 ∷ 114 ∷ 105 ∷ 116 ∷ 121 ∷ []

unfoldable pub read_u64 : List ℕ → ℕ → Result ℕ
read_u64 bytes offset =
    ok_or (slice offset 8 bytes) (invalid_amm_state "truncated u64 field") >>= λ word.
    ok (from_le_bytes word)

abbrev pub nonce_u8 : ℕ → Result ℕ
nonce_u8 n = if ltb n 256 then ok n else err (invalid_amm_state "authority nonce exceeds u8")

abbrev pub only_record : List ApiPoolKeys → Result ApiPoolKeys
only_record [] = err invalid_response
only_record (r ∷ []) = ok r
only_record (r ∷ s ∷ rest) = err invalid_response

module _ {K : Type 0} (chain : Chain K) where
  unfoldable pub read_pubkey : List ℕ → ℕ → Result K
  read_pubkey bytes offset =
      ok_or (slice offset 32 bytes) (invalid_amm_state "truncated pubkey field") >>= λ word.
      ok (chain.new_from_array word)

  unfoldable pub required_account : List (Option (Account K)) → ℕ → String → Result (Account K)
  required_account accounts index name =
      ok_or (and_then (get_elem? accounts index) (λ a. a)) (missing_account name)

-- The addresses whose accounts are fetched.
unfoldable pub pool_addresses : {K : Type 0} → RaydiumPoolKeys K → List K
pool_addresses p =
    p.amm_id ∷ p.open_orders ∷ p.target_orders ∷ p.base_vault ∷ p.quote_vault ∷ p.market_id
    ∷ p.market_bids ∷ p.market_asks ∷ p.market_event_queue ∷ p.market_base_vault
    ∷ p.market_quote_vault ∷ p.base_mint ∷ p.quote_mint ∷ []

-- The fields of the AMM's state with their offsets and what they have to be.
abbrev pub amm_fields : {K : Type 0} → RaydiumPoolKeys K → List (String × ℕ × K)
amm_fields p =
    ("base_vault", 336, p.base_vault)
    ∷ ("quote_vault", 368, p.quote_vault)
    ∷ ("base_mint", 400, p.base_mint)
    ∷ ("quote_mint", 432, p.quote_mint)
    ∷ ("open_orders", 496, p.open_orders)
    ∷ ("market_id", 528, p.market_id)
    ∷ ("market_program_id", 560, p.market_program_id)
    ∷ ("target_orders", 592, p.target_orders)
    ∷ []

module _ {K : Type 0} ⦃key : KeyEq K⦄ where
  unfoldable pub require_owner : String → Account K → K → Result (Unit {0})
  require_owner name account expected =
      fail_if (not (account.owner == expected)) (invalid_account_owner name)

module _ {K : Type 0} ⦃key : KeyEq K⦄ (keys : Keys K) (chain : Chain K) where
  unfoldable pub verify_mint : Account K → String → Result (Unit {0})
  unfolding require_owner
  verify_mint account name = do
    require_owner name account keys.token_program
    is_initialized ← ok_or (chain.unpack_mint account.data_bytes) (invalid_mint name)
    fail_if (not is_initialized) (invalid_mint name)

  unfoldable pub verify_token_account : Account K → String → K → K → Result (Unit {0})
  unfolding require_owner
  verify_token_account account name expected_mint expected_owner = do
    require_owner name account keys.token_program
    token ← ok_or (chain.unpack_token_account account.data_bytes) (invalid_token_account name)
    fail_if
        (not token.is_initialized
          || not (token.mint == expected_mint)
          || not (token.owner == expected_owner))
        (invalid_token_account name)

  unfoldable pub check_fields : List ℕ → List (String × ℕ × K) → Result (Unit {0})
  unfolding read_pubkey
  check_fields bytes [] = ok tt
  check_fields bytes ((name, offset, expected) ∷ fields) = do
    found ← read_pubkey chain bytes offset
    fail_if (not (found == expected)) (amm_state_mismatch name)
    check_fields bytes fields

  unfoldable pub verify_amm_state : List ℕ → RaydiumPoolKeys K → Result (Unit {0})
  unfolding read_u64 check_fields
  verify_amm_state bytes p = do
    fail_if (not (length bytes == amm_info_len)) (invalid_amm_state "unexpected AMM account length")
    status ← read_u64 bytes 0
    fail_if (not (status == 1 || status == 6))
        (invalid_amm_state "pool status does not permit swaps")
    word ← read_u64 bytes 8
    nonce ← nonce_u8 word
    authority ←
        ok_or
          (chain.create_program_address (amm_authority_seed ∷ (nonce ∷ []) ∷ [])
            keys.raydium_liquidity_pool_v4_program_id)
          (invalid_amm_state "invalid authority PDA nonce")
    fail_if (not (authority == p.authority)) (amm_state_mismatch "authority")
    check_fields bytes (amm_fields p)

  abbrev pub require_at : List (Option (Account K)) → ℕ → String → K → Result (Unit {0})
  require_at accounts index name expected =
      required_account chain accounts index name >>= λ account. require_owner name account expected

  abbrev pub mint_at : List (Option (Account K)) → ℕ → String → Result (Unit {0})
  mint_at accounts index name =
      required_account chain accounts index name >>= λ account. verify_mint account name

  abbrev pub token_at : List (Option (Account K)) → ℕ → String → K → K → Result (Unit {0})
  token_at accounts index name mint owner =
      required_account chain accounts index name >>= λ account.
      verify_token_account account name mint owner

  -- The checks of the accounts at the thirteen addresses.
  unfoldable pub verify_accounts : List (Option (Account K)) → RaydiumPoolKeys K → Result (Unit {0})
  unfolding required_account require_owner verify_amm_state verify_mint verify_token_account
  verify_accounts accounts p = do
    amm ← required_account chain accounts 0 "amm_id"
    require_owner "amm_id" amm keys.raydium_liquidity_pool_v4_program_id
    verify_amm_state amm.data_bytes p
    require_at accounts 1 "open_orders" p.market_program_id
    require_at accounts 2 "target_orders" keys.raydium_liquidity_pool_v4_program_id
    require_at accounts 5 "market_id" p.market_program_id
    require_at accounts 6 "market_bids" p.market_program_id
    require_at accounts 7 "market_asks" p.market_program_id
    require_at accounts 8 "market_event_queue" p.market_program_id
    mint_at accounts 11 "base_mint"
    mint_at accounts 12 "quote_mint"
    token_at accounts 3 "base_vault" p.base_mint p.authority
    token_at accounts 4 "quote_vault" p.quote_mint p.authority
    token_at accounts 9 "market_base_vault" p.base_mint p.market_vault_signer
    token_at accounts 10 "market_quote_vault" p.quote_mint p.market_vault_signer

  -- `fetch` is `get_multiple_accounts`, whose answer may be an error.
  unfoldable pub verify_pool_keys_on_chain :
      (List K → Option (List (Option (Account K)))) → RaydiumPoolKeys K → Result (Unit {0})
  unfolding pool_addresses verify_accounts
  verify_pool_keys_on_chain fetch p = do
    accounts ← ok_or (fetch (pool_addresses p)) rpc_failed
    verify_accounts accounts p

  -- The lists of pools and of keys are what the API gives, if it does.
  unfoldable pub resolve_pool_keys :
      {F : Type 0}
      → Liquidity F
      → Result (List (PoolSummary F))
      → (String → Result (List ApiPoolKeys))
      → (List K → Option (List (Option (Account K))))
      → String
      → Result (RaydiumPoolKeys K)
  unfolding select_pool parse_api_pool_keys validate verify_pool_keys_on_chain
  resolve_pool_keys f64 pool_list key_records fetch target_text = do
    target_mint ← ok_or (chain.pubkey_from_str target_text) invalid_target_mint
    fail_if (target_mint == keys.wsol_mint) target_is_wsol
    pools ← pool_list
    selected ← select_pool keys f64 pools target_mint
    records ← key_records selected.id
    r ← only_record records
    pool_keys ← parse_api_pool_keys keys chain r selected.id target_mint
    map_err invalid_pool_keys (validate keys pool_keys)
    verify_pool_keys_on_chain fetch pool_keys
    ok pool_keys
