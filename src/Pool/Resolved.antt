-- ===== src/Pool/Resolved.antt =====
-- The pool keys that `resolve_pool_keys` gives: what has been verified of them.
use alpha_whales.Common.{
  ◌≡◌, ◌⊎◌, Option, some, true, false, List, [], ◌∷◌, map, String, KeyEq, ◌==◌,
}
use alpha_whales.Common.Keys.{Keys}
use alpha_whales.Pool.{RaydiumPoolKeys, named_keys, Account, TokenAccount, Chain}
use alpha_whales.Pool.Verified.{IsAmmState}

-- What `get_multiple_accounts` promises: the accounts of a ledger at the addresses, in their order.
abbrev pub AnswersFrom :
    {K : Type 0} → (K → Option (Account K)) → (List K → Option (List (Option (Account K)))) → Type 0
AnswersFrom {K = K} ledger fetch =
    (addresses : List K) (accounts : List (Option (Account K)))
    → fetch addresses ≡ some accounts
    → accounts ≡ map ledger addresses

module _ {K : Type 0} ⦃key : KeyEq K⦄ (keys : Keys K) (chain : Chain K) where
  -- The account at the address is an initialised token account of this mint and this owner.
  pub record HasToken (ledger : K → Option (Account K)) (address mint owner : K) : Type 0 where
    pub account : Account K
    pub token : TokenAccount K
    pub at_address : ledger address ≡ some account
    pub of_program : account.owner ≡ keys.token_program
    pub unpacked : chain.unpack_token_account account.data_bytes ≡ some token
    pub is_initialized : token.is_initialized ≡ true
    pub has_mint : token.mint ≡ mint
    pub has_owner : token.owner ≡ owner

  -- The accounts of the pool are what its keys say.
  pub record IsOnChain (ledger : K → Option (Account K)) (p : RaydiumPoolKeys K) : Type 0 where
    pub amm : Account K
    pub amm_at : ledger p.amm_id ≡ some amm
    pub amm_owner : amm.owner ≡ keys.raydium_liquidity_pool_v4_program_id
    pub amm_state : IsAmmState keys chain amm.data_bytes p
    pub base_vault : HasToken ledger p.base_vault p.base_mint p.authority
    pub quote_vault : HasToken ledger p.quote_vault p.quote_mint p.authority
    pub market_base_vault : HasToken ledger p.market_base_vault p.base_mint p.market_vault_signer
    pub market_quote_vault : HasToken ledger p.market_quote_vault p.quote_mint p.market_vault_signer

  -- No key is the default one.
  abbrev pub NoDefault : List (String × K) → Type 0
  NoDefault [] = Unit {0}
  NoDefault ((name, k) ∷ rest) = ((k == keys.default) ≡ false) × NoDefault rest

  -- The keys' texts are read back as the keys.
  abbrev pub TextsParse : Type 0
  TextsParse = (k : K) → chain.pubkey_from_str (keys.to_string k) ≡ some k

  -- The pool trades the mint against WSOL.
  abbrev pub IsPair : RaydiumPoolKeys K → K → Type 0
  IsPair p target =
      ((p.base_mint ≡ keys.wsol_mint) × (p.quote_mint ≡ target))
      ⊎ ((p.base_mint ≡ target) × (p.quote_mint ≡ keys.wsol_mint))

  -- What a resolution by the target's text ends with.
  pub record IsResolved (target_text : String) (ledger : K → Option (Account K))
      (p : RaydiumPoolKeys K) : Type 0 where
    pub target : K
    pub target_parsed : chain.pubkey_from_str target_text ≡ some target
    pub target_is_other : (target == keys.wsol_mint) ≡ false
    pub pair : IsPair p target
    pub no_default : NoDefault (named_keys p)
    pub on_chain : IsOnChain ledger p
