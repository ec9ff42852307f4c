-- ===== src/Ingest/Reports.antt =====
-- A notification that is decoded: one trade for each Raydium swap of the transaction.
use alpha_whales.Common.{◌≡◌, some, false, List, [], ◌∷◌, KeyEq, ◌==◌, All}
use alpha_whales.Common.Keys.{Keys}
use alpha_whales.Ingest.{
  Decoders, RawMessage, RawTokenBalance, TransactionNotification, SwapInstruction, DecodedSwap,
}
use alpha_whales.Ingest.Candidates.{AreSwapsOf}
use alpha_whales.Ingest.Trades.{IsTradeOf}

-- The two lists are of one length, and related place by place.
abbrev pub Pairwise {ℓ κ} : {A : Type ℓ} {B : Type κ} → (A → B → Type 0) → List A → List B → Type 0
Pairwise R [] [] = Unit {0}
Pairwise R [] (y ∷ ys) = ⊥
Pairwise R (x ∷ xs) [] = ⊥
Pairwise R (x ∷ xs) (y ∷ ys) = R x y × Pairwise R xs ys

module _ {K : Type 0} ⦃key : KeyEq K⦄ where
  -- No two swaps are of one pool.
  abbrev pub DistinctPools : List (DecodedSwap K) → Type 0
  DistinctPools [] = Unit {0}
  DistinctPools (s ∷ swaps) =
      All (λ (other : DecodedSwap K). (s.pool_id == other.pool_id) ≡ false) swaps
      × DistinctPools swaps

  abbrev SamePool : SwapInstruction K → DecodedSwap K → Type 0
  SamePool c s = s.pool_id ≡ c.pool_id

module _ {K : Type 0} ⦃key : KeyEq K⦄ (keys : Keys K) (parse : Decoders K) where
  -- The report of a transaction: each candidate is one trade at its vaults, in its pool.
  abbrev pub IsTradeAt :
      RawMessage
      → List RawTokenBalance
      → List RawTokenBalance
      → SwapInstruction K
      → DecodedSwap K
      → Type 0
  IsTradeAt message pre post c s =
      IsTradeOf keys parse message pre post c.base_vault c.quote_vault s.target_mint s.base_amount
        s.quote_amount
      × SamePool c s

  pub record IsReport (n : TransactionNotification) (swaps : List (DecodedSwap K)) : Type 0 where
    pub candidates : List (SwapInstruction K)
    pub pre_balances : List RawTokenBalance
    pub post_balances : List RawTokenBalance
    pub found : AreSwapsOf keys parse n.result candidates
    pub before : n.result.meta.pre_token_balances ≡ some pre_balances
    pub after : n.result.meta.post_token_balances ≡ some post_balances
    pub trades : Pairwise (IsTradeAt n.result.message pre_balances post_balances) candidates swaps
