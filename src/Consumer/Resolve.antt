-- ===== src/Consumer/Resolve.antt =====
-- alpha-whales/src/execution.rs: how the swap of a signal is resolved. What RPC and HTTP give back is
-- in `Fetched`. `try_join!` gives the error of the call that fails first, which is one of them.
use alpha_whales.Common.{
  ℕ, Option, none, some, Bool, true, false, not, ◌&&◌, ◌||◌, List, [], ◌∷◌, ◌++◌, String, KeyEq,
  text_key, number_key, ◌==◌, ltb, any, get_elem?, length, and_then,
}
use alpha_whales.Common.Keys.{Keys}
use alpha_whales.Common.Checked.{Checked, ok, err, ◌>>=◌, ◌>>◌, fail_if, ok_or, map_err}
use alpha_whales.Consumer.{WhaleSignal}
use alpha_whales.Execution.{ExecutionError, Instruction}
use alpha_whales.Execution.Config.{JitoExecutorConfig, ensure_signal_fresh}
use alpha_whales.Execution.Quote.{QuoteData, validate_quote}
use alpha_whales.Execution.Shield.{apply_jitodontfront_protection}
use alpha_whales.Execution.Swap.{construct_raydium_swap_instruction}
use alpha_whales.Pool.{
  RaydiumPoolKeys, PoolResolutionError, PoolSummary, ApiPoolKeys, Account, Chain,
}
use alpha_whales.Pool.Api.{Liquidity}
use alpha_whales.Pool.OnChain.{resolve_pool_keys}

-- The errors beside those of the checks.
pub data SwapError : Type 0 where
  check_failed : ExecutionError → SwapError
  quote_request invalid_quote_response : SwapError
  invalid_target_mint user_account_rpc rent_exemption : SwapError
  pool_resolution : PoolResolutionError → SwapError
  missing_source_token_account existing_target_position : SwapError
  invalid_user_account : String → SwapError

abbrev pub Result {ℓ} : Type ℓ → Type ℓ
Result A = Checked SwapError A

pub record QuoteEnvelope : Type 0 where
  pub success : Bool
  -- `data` of the source
  pub quote : Option QuoteData

-- The answer to the quote's request: a status that is no success, or the body's length, with its
-- envelope if it is one.
pub data QuoteResponse : Type 0 where
  not_sent unread : QuoteResponse
  status : ℕ → QuoteResponse
  body : ℕ → Option QuoteEnvelope → QuoteResponse

abbrev pub max_quote_response_bytes : ℕ
max_quote_response_bytes = 65_536

unfoldable pub fetch_raydium_quote : QuoteResponse → Result QuoteData
fetch_raydium_quote not_sent = err quote_request
fetch_raydium_quote (status code) = err invalid_quote_response
fetch_raydium_quote unread = err quote_request
fetch_raydium_quote (body size answer) = do
  fail_if (ltb max_quote_response_bytes size) invalid_quote_response
  envelope ← ok_or answer invalid_quote_response
  fail_if (not envelope.success) invalid_quote_response
  ok_or envelope.quote invalid_quote_response

-- The fields of an SPL token account that are read.
pub record UserToken (K : Type 0) : Type 0 where
  pub is_initialized : Bool
  pub mint : K
  pub owner : K
  pub amount : ℕ
  pub is_native : Bool

-- Associated token accounts, SPL's reading of an account, and `str::parse::<u64>`.
pub record Wallet (K : Type 0) : Type 0 where
  pub get_associated_token_address : K → K → K
  pub create_associated_token_account_idempotent : K → K → K → Instruction K
  pub unpack_token_account : List ℕ → Option (UserToken K)
  pub parse_u64 : String → Option ℕ

pub record Fetched (K Alt : Type 0) (F : Type 0) : Type 0 where
  pub now_ms : ℕ
  pub pool_list : Checked PoolResolutionError (List (PoolSummary F))
  pub key_records : String → Checked PoolResolutionError (List ApiPoolKeys)
  pub pool_accounts : List K → Option (List (Option (Account K)))
  pub quote_response : QuoteResponse
  pub user_accounts : List K → Option (List (Option (Account K)))
  -- the addresses' texts
  pub owned_target_accounts : Option (List String)
  pub destination_account_rent : Option ℕ
  pub fetch_alt : K → Option Alt
  pub first_failure : SwapError

pub record PreparedSwap (K Alt : Type 0) : Type 0 where
  pub target_mint : K
  pub pool_id : String
  pub instructions : List (Instruction K)
  pub destination_ata_rent_lamports : ℕ
  pub alt : Option Alt
  pub pool_keys : RaydiumPoolKeys K

-- `.get(index).and_then(Option::as_ref)`
abbrev pub account_of : {K : Type 0} → List (Option (Account K)) → ℕ → Option (Account K)
account_of accounts index = and_then (get_elem? accounts index) (λ a. a)

-- One account is owned, and it is the destination.
abbrev pub is_only : List String → String → Bool
is_only [] destination = false
is_only (owned ∷ []) destination = owned == destination
is_only (owned ∷ other ∷ more) destination = false

abbrev pub alt_of : {K Alt : Type 0} → Option K → (K → Option Alt) → Option Alt
alt_of none fetch_alt = none
alt_of (some alt_address) fetch_alt = fetch_alt alt_address

module _ {K : Type 0} ⦃key : KeyEq K⦄ (keys : Keys K) (wallet : Wallet K) where
  open wallet use {
    get_associated_token_address, create_associated_token_account_idempotent, unpack_token_account,
    parse_u64,
  }

  -- The source and the destination.
  abbrev pub user_account_addresses : K → K → List K
  user_account_addresses user_owner target_mint =
      get_associated_token_address user_owner keys.wsol_mint
      ∷ get_associated_token_address user_owner target_mint
      ∷ []

  unfoldable pub validate_user_token_account :
      Account K → String → K → K → ℕ → Bool → Result (UserToken K)
  validate_user_token_account account name expected_mint expected_owner minimum_balance
        require_native =
      do
        fail_if (not (account.owner == keys.token_program)) (invalid_user_account name)
        token ← ok_or (unpack_token_account account.data_bytes) (invalid_user_account name)
        fail_if
            (not token.is_initialized
              || not (token.mint == expected_mint)
              || not (token.owner == expected_owner)
              || ltb token.amount minimum_balance
              || (require_native && not token.is_native))
            (invalid_user_account name)
        ok token

  -- The instruction that creates the destination, if it does not exist, and its rent.
  unfoldable pub destination_setup :
      Option (Account K) → List String → K → K → ℕ → Result (List (Instruction K) × ℕ)
  unfolding validate_user_token_account
  destination_setup none owned user_owner target_mint rent = do
    fail_if (not (length owned == 0)) existing_target_position
    ok (create_associated_token_account_idempotent user_owner user_owner target_mint ∷ [], rent)
  destination_setup (some account) owned user_owner target_mint rent = do
    token ← validate_user_token_account account "target destination" target_mint user_owner 0 false
    fail_if
        (not (token.amount == 0)
          || not (
              is_only owned (keys.to_string (get_associated_token_address user_owner target_mint))))
        existing_target_position
    ok ([], 0)

  module _ (config : JitoExecutorConfig K) where
    -- The swap through the pool, with the sentinel.
    unfoldable pub protected_swap :
        WhaleSignal → RaydiumPoolKeys K → QuoteData → K → K → Result (Instruction K)
    unfolding validate_quote construct_raydium_swap_instruction apply_jitodontfront_protection
    protected_swap s pool_keys quote user_owner target_mint = do
      minimum_amount_out ← map_err check_failed (
          validate_quote keys parse_u64 quote pool_keys.amm_id s.target_mint config.max_slippage_bps
            s.amount_in)
      swap ← map_err check_failed (
          construct_raydium_swap_instruction keys pool_keys user_owner
            (get_associated_token_address user_owner keys.wsol_mint)
            (get_associated_token_address user_owner target_mint) s.amount_in minimum_amount_out)
      let protected = apply_jitodontfront_protection keys swap config.jito_dont_front_pubkey
      map_err check_failed protected.1
      ok protected.0

    -- From the answers of the user's accounts on.
    unfoldable pub with_quote :
        {Alt F : Type 0}
        → WhaleSignal
        → K
        → Fetched K Alt F
        → K
        → RaydiumPoolKeys K
        → QuoteData
        → Result (PreparedSwap K Alt)
    unfolding validate_user_token_account destination_setup protected_swap
    with_quote s user_owner f target_mint pool_keys quote = do
      user_accounts ←
          ok_or (f.user_accounts (user_account_addresses user_owner target_mint)) f.first_failure
      owned ← ok_or f.owned_target_accounts f.first_failure
      rent ← ok_or f.destination_account_rent f.first_failure
      source_account ← ok_or (account_of user_accounts 0) missing_source_token_account
      source ←
          validate_user_token_account source_account "WSOL source" keys.wsol_mint user_owner
            s.amount_in true
      fail_if
          (any
            (λ address.
              not (address == keys.to_string (get_associated_token_address user_owner target_mint)))
            owned)
          existing_target_position
      (creation, ata_rent) ←
          destination_setup (account_of user_accounts 1) owned user_owner target_mint rent
      swap ← protected_swap s pool_keys quote user_owner target_mint
      ok (record {
        target_mint = target_mint;
        pool_id = keys.to_string pool_keys.amm_id;
        instructions = creation ++ swap ∷ [];
        destination_ata_rent_lamports = ata_rent;
        alt = alt_of config.alt_address f.fetch_alt;
        pool_keys = pool_keys;
      })

    module _ {Alt F : Type 0} (chain : Chain K) (f64 : Liquidity F) where
      unfoldable pub resolve_swap_instructions_for_signal :
          WhaleSignal → K → Fetched K Alt F → Result (PreparedSwap K Alt)
      unfolding ensure_signal_fresh resolve_pool_keys fetch_raydium_quote with_quote
      resolve_swap_instructions_for_signal s user_owner f = do
        map_err check_failed (ensure_signal_fresh s.timestamp_ms f.now_ms config.max_signal_age)
        target_mint ← ok_or (chain.pubkey_from_str s.target_mint) invalid_target_mint
        fail_if (target_mint == keys.wsol_mint) invalid_target_mint
        pool_keys ←
            map_err (λ why. f.first_failure)
              (resolve_pool_keys keys chain f64 f.pool_list f.key_records f.pool_accounts
                s.target_mint)
        quote ← map_err (λ why. f.first_failure) (fetch_raydium_quote f.quote_response)
        with_quote s user_owner f target_mint pool_keys quote
