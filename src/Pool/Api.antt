-- ===== src/Pool/Api.antt =====
-- core/src/pool_cache.rs: the choice of a pool from the API's list (`resolve_pool_keys`) and its keys
-- from the API's record (`parse_api_pool_keys`).
use Prim.Native.Nat.{Ordering}
use Prim.Native.String.{compare}
use alpha_whales.Common.{
  Bool, true, false, not, ◌&&◌, ◌||◌, List, [], ◌∷◌, String, text_key, ◌==◌, if◌then◌else◌, filter,
}
use alpha_whales.Common.Keys.{Keys}
use alpha_whales.Common.Checked.{ok, err, ◌>>=◌, ◌>>◌, fail_if, ok_or}
use alpha_whales.Pool.{
  RaydiumPoolKeys, Result, PoolSummary, ApiPoolKeys, Chain, pool_not_found, ambiguous_pool,
  invalid_pubkey, api_account_mismatch,
}

-- What is called of f64: `total_cmp`, `==`, `is_finite` and `> 0.0`.
pub record Liquidity (F : Type 0) : Type 0 where
  pub total_cmp : F → F → Ordering
  pub same : F → F → Bool
  pub is_finite : F → Bool
  pub is_positive : F → Bool

abbrev pub then_with : Ordering → Ordering → Ordering
then_with Ordering.lt next = Ordering.lt
then_with Ordering.eq next = next
then_with Ordering.gt next = Ordering.gt

abbrev pub is_not_greater : Ordering → Bool
is_not_greater Ordering.lt = true
is_not_greater Ordering.eq = true
is_not_greater Ordering.gt = false

-- `sort_by`, stable as it is.
module _ {A : Type 0} (comes_first : A → A → Bool) where
  unfoldable pub insert_sorted : A → List A → List A
  insert_sorted x [] = x ∷ []
  insert_sorted x (y ∷ ys) = if comes_first x y then x ∷ y ∷ ys else y ∷ insert_sorted x ys

  unfoldable pub sort_by : List A → List A
  unfolding insert_sorted
  sort_by [] = []
  sort_by (x ∷ xs) = insert_sorted x (sort_by xs)

module _ {F : Type 0} (f64 : Liquidity F) where
  open f64 use {total_cmp, same, is_finite, is_positive}

  -- The larger value first, and of equals the smaller id.
  unfoldable pub ranks_first : PoolSummary F → PoolSummary F → Bool
  ranks_first left right =
      is_not_greater (then_with (total_cmp right.tvl left.tvl) (compare left.id right.id))

  abbrev pub ties : PoolSummary F → List (PoolSummary F) → Bool
  ties selected [] = false
  ties selected (candidate ∷ rest) = same candidate.tvl selected.tvl

  abbrev pub choose : List (PoolSummary F) → Result (PoolSummary F)
  choose [] = err pool_not_found
  choose (selected ∷ rest) = fail_if (ties selected rest) ambiguous_pool >> ok selected

module _ {K : Type 0} (keys : Keys K) where
  unfoldable pub mint_pair_matches : String → String → K → Bool
  mint_pair_matches base quote target_mint =
      (base == keys.to_string keys.wsol_mint && quote == keys.to_string target_mint)
      || (quote == keys.to_string keys.wsol_mint && base == keys.to_string target_mint)

  module _ {F : Type 0} (f64 : Liquidity F) where
    unfoldable pub is_candidate : K → PoolSummary F → Bool
    unfolding mint_pair_matches
    is_candidate target_mint pool =
        pool.program_id == keys.to_string keys.raydium_liquidity_pool_v4_program_id
        && f64.is_finite pool.tvl
        && f64.is_positive pool.tvl
        && mint_pair_matches pool.mint_a.address pool.mint_b.address target_mint

    -- The choice in `resolve_pool_keys`.
    unfoldable pub select_pool : List (PoolSummary F) → K → Result (PoolSummary F)
    unfolding is_candidate ranks_first sort_by
    select_pool pools target_mint =
        choose f64 (sort_by (ranks_first f64) (filter (is_candidate target_mint) pools))

  module _ (chain : Chain K) where
    unfoldable pub parse_pubkey : String → String → Result K
    parse_pubkey field value = ok_or (chain.pubkey_from_str value) (invalid_pubkey field)

    unfoldable pub parse_api_pool_keys : ApiPoolKeys → String → K → Result (RaydiumPoolKeys K)
    unfolding mint_pair_matches parse_pubkey
    parse_api_pool_keys r selected_id target_mint = do
      fail_if (not (r.id == selected_id)) (api_account_mismatch "pool id")
      fail_if (not (r.program_id == keys.to_string keys.raydium_liquidity_pool_v4_program_id))
          (api_account_mismatch "Raydium V4 program id")
      fail_if (not (r.market_program_id == keys.to_string chain.openbook_program_id))
          (api_account_mismatch "OpenBook program id")
      fail_if (not (mint_pair_matches r.mint_a.address r.mint_b.address target_mint))
          (api_account_mismatch "mint pair")
      fail_if
          (not (r.mint_a.program_id == keys.to_string keys.token_program)
            || not (r.mint_b.program_id == keys.to_string keys.token_program))
          (api_account_mismatch "legacy SPL Token program")
      amm_id ← parse_pubkey "id" r.id
      authority ← parse_pubkey "authority" r.authority
      open_orders ← parse_pubkey "openOrders" r.open_orders
      target_orders ← parse_pubkey "targetOrders" r.target_orders
      base_vault ← parse_pubkey "vault.A" r.vault.base
      quote_vault ← parse_pubkey "vault.B" r.vault.quote
      base_mint ← parse_pubkey "mintA.address" r.mint_a.address
      quote_mint ← parse_pubkey "mintB.address" r.mint_b.address
      market_program_id ← parse_pubkey "marketProgramId" r.market_program_id
      market_id ← parse_pubkey "marketId" r.market_id
      market_bids ← parse_pubkey "marketBids" r.market_bids
      market_asks ← parse_pubkey "marketAsks" r.market_asks
      market_event_queue ← parse_pubkey "marketEventQueue" r.market_event_queue
      market_base_vault ← parse_pubkey "marketBaseVault" r.market_base_vault
      market_quote_vault ← parse_pubkey "marketQuoteVault" r.market_quote_vault
      market_vault_signer ← parse_pubkey "marketAuthority" r.market_authority
      ok (record {
        amm_id = amm_id;
        authority = authority;
        open_orders = open_orders;
        target_orders = target_orders;
        base_vault = base_vault;
        quote_vault = quote_vault;
        base_mint = base_mint;
        quote_mint = quote_mint;
        market_program_id = market_program_id;
        market_id = market_id;
        market_bids = market_bids;
        market_asks = market_asks;
        market_event_queue = market_event_queue;
        market_base_vault = market_base_vault;
        market_quote_vault = market_quote_vault;
        market_vault_signer = market_vault_signer;
      })
