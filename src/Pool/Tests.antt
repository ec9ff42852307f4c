-- ===== src/Pool/Tests.antt =====
-- A pool that is resolved against the accounts of a chain, and the theorems at it.
use Prim.Native.Nat.{compare}
use alpha_whales.Common.{
  ℕ, zero, suc, ◌≡◌, refl, Option, none, some, true, List, [], ◌∷◌, map, ◌++◌, ◌||◌, String,
  text_key, number_key, ◌==◌, ltb, if◌then◌else◌, arith,
}
use alpha_whales.Common.Bytes.{to_le_bytes, slice}
use alpha_whales.Common.Keys.{Keys}
use alpha_whales.Common.Checked.{ok}
use alpha_whales.Pool.{
  RaydiumPoolKeys, ApiMint, PoolSummary, ApiPoolKeys, Account, TokenAccount, Chain,
}
use alpha_whales.Pool.Api.{Liquidity, select_pool}
use alpha_whales.Pool.OnChain.{verify_amm_state}
use alpha_whales.Pool.Choice.{IsTotal, IsBest, select_pool_lem}

abbrev pub keys : Keys String
keys = record {
  to_string = λ k. k;
  default = "1111";
  token_program = "token";
  raydium_liquidity_pool_v4_program_id = "raydium";
  wsol_mint = "wsol";
}

abbrev key_of_byte : ℕ → String
key_of_byte n =
    if n == 1
    then "base_vault"
    else if n == 2
    then "quote_vault"
    else if n == 3
    then "coin"
    else if n == 4
    then "wsol"
    else if n == 5
    then "open_orders"
    else if n == 6
    then "market"
    else if n == 7
    then "openbook"
    else if n == 8
    then "target_orders"
    else "other"

-- A key's array is told by its first byte.
abbrev key_of : List ℕ → String
key_of [] = "other"
key_of (b ∷ bytes) = key_of_byte b

abbrev token_of : List ℕ → Option (TokenAccount String)
token_of [] = none
token_of (b ∷ bytes) = some (record {
  is_initialized = true;
  mint = if ltb b 20 then "coin" else "wsol";
  owner = if b == 10 || b == 20 then "authority" else "signer";
})

abbrev pub chain : Chain String
chain = record {
  pubkey_from_str = λ text. some text;
  new_from_array = key_of;
  create_program_address = λ seeds program. some "authority";
  openbook_program_id = "openbook";
  unpack_mint = λ bytes. some true;
  unpack_token_account = token_of;
}

abbrev zeros : ℕ → List ℕ
zeros zero = []
zeros (suc n) = 0 ∷ zeros n

abbrev array : ℕ → List ℕ
array b = b ∷ zeros 31

abbrev amm_bytes : List ℕ
amm_bytes =
    to_le_bytes 8 6
    ++ (to_le_bytes 8 254
        ++ (zeros 320
            ++ (array 1
                ++ (array 2
                    ++ (array 3
                        ++ (array 4
                            ++ (zeros 32
                                ++ (array 5
                                    ++ (array 6 ++ (array 7 ++ (array 8 ++ zeros 128)))))))))))

abbrev pub pool : RaydiumPoolKeys String
pool = record {
  amm_id = "amm";
  authority = "authority";
  open_orders = "open_orders";
  target_orders = "target_orders";
  base_vault = "base_vault";
  quote_vault = "quote_vault";
  base_mint = "coin";
  quote_mint = "wsol";
  market_program_id = "openbook";
  market_id = "market";
  market_bids = "bids";
  market_asks = "asks";
  market_event_queue = "queue";
  market_base_vault = "market_base";
  market_quote_vault = "market_quote";
  market_vault_signer = "signer";
}

verified : verify_amm_state keys chain amm_bytes pool ≡ ok tt
unfolding verify_amm_state slice
verified = refl

abbrev account : String → List ℕ → Option (Account String)
account owner bytes = some (record { owner = owner; data_bytes = bytes })

-- The accounts by their addresses, which are the pool's.
abbrev pub ledger : String → Option (Account String)
ledger address =
    if address == "amm"
    then account "raydium" amm_bytes
    else if address == "target_orders"
    then account "raydium" []
    else if address == "base_vault"
    then account "token" (10 ∷ [])
    else if address == "quote_vault"
    then account "token" (20 ∷ [])
    else if address == "market_base"
    then account "token" (11 ∷ [])
    else if address == "market_quote"
    then account "token" (21 ∷ [])
    else if address == "coin" || address == "wsol"
    then account "token" []
    else account "openbook" []

abbrev pub fetch : List String → Option (List (Option (Account String)))
fetch addresses = some (map ledger addresses)

abbrev mint : String → ApiMint
mint text = record { address = text; program_id = "token" }

abbrev summary : String → ℕ → PoolSummary ℕ
summary id tvl = record {
  id = id;
  program_id = "raydium";
  mint_a = mint "coin";
  mint_b = mint "wsol";
  tvl = tvl;
}

abbrev pub api_keys : ApiPoolKeys
api_keys = record {
  id = "amm";
  program_id = "raydium";
  authority = "authority";
  open_orders = "open_orders";
  target_orders = "target_orders";
  mint_a = mint "coin";
  mint_b = mint "wsol";
  vault = record { base = "base_vault"; quote = "quote_vault" };
  market_program_id = "openbook";
  market_id = "market";
  market_authority = "signer";
  market_base_vault = "market_base";
  market_quote_vault = "market_quote";
  market_bids = "bids";
  market_asks = "asks";
  market_event_queue = "queue";
}

abbrev pub liquidity : Liquidity ℕ
liquidity = record {
  total_cmp = compare;
  same = λ a b. a == b;
  is_finite = λ a. true;
  is_positive = λ a. ltb 0 a;
}

liquidity-IsTotal : IsTotal liquidity (λ a. a)
liquidity-IsTotal = record { by_rank = λ a b. refl; same_rank = λ a b _ _ _ _ e. ground arith }

abbrev pub pools : List (PoolSummary ℕ)
pools = summary "small" 5 ∷ summary "amm" 90 ∷ summary "empty" 0 ∷ []

selected : select_pool keys liquidity pools "coin" ≡ ok (summary "amm" 90)
unfolding select_pool
selected = refl

select_pool_lem_example :
    IsBest keys liquidity (λ a. a) liquidity-IsTotal pools "coin" (summary "amm" 90)
select_pool_lem_example =
    select_pool_lem keys liquidity (λ a. a) liquidity-IsTotal pools "coin" selected
