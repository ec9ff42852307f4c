-- ===== src/Ingest/Notification.antt =====
-- core/src/websocket.rs: from a notification to the swaps that it reports (`decode_notification`).
use alpha_whales.Common.{
  ℕ, Option, none, some, Bool, false, not, ◌&&◌, ◌||◌, List, [], ◌∷◌, String, KeyEq, text_key,
  number_key, ◌==◌, if◌then◌else◌, any,
}
use alpha_whales.Common.Words.{unwrap_or}
use alpha_whales.Common.Keys.{Keys}
use alpha_whales.Common.Checked.{ok, err, ◌>>=◌, ◌>>◌, fail_if, ok_or}
use alpha_whales.Ingest.{
  Decoders, RawMessage, RawTokenBalance, NotificationResult, TransactionNotification,
  SwapInstruction, DecodedSwap, Result, no_signature, signature_differs, invalid_signature,
  transaction_failed, ambiguous_swaps, no_pre_balances, no_post_balances, mint_changed, same_signs,
  not_one_wsol,
}
use alpha_whales.Ingest.Instructions.{candidates_of}
use alpha_whales.Ingest.Balances.{
  balance_delta, same_direction, account_index_for_pubkey, unique_token_balance,
}

abbrev pub first : List String → Option String
first [] = none
first (x ∷ xs) = some x

abbrev pub signature_is_other : Option String → String → Bool
signature_is_other none nested = false
signature_is_other (some signature) nested = not (signature == nested)

module _ {K : Type 0} ⦃key : KeyEq K⦄ where
  abbrev pub shares_accounts : SwapInstruction K → SwapInstruction K → Bool
  shares_accounts candidate other =
      candidate.pool_id == other.pool_id
      || candidate.base_vault == other.base_vault
      || candidate.base_vault == other.quote_vault
      || candidate.quote_vault == other.base_vault
      || candidate.quote_vault == other.quote_vault

  unfoldable pub any_shared : List (SwapInstruction K) → Bool
  any_shared [] = false
  any_shared (candidate ∷ others) = any (shares_accounts candidate) others || any_shared others

unfoldable pub resolve_source_signature :
    {K : Type 0} → Decoders K → NotificationResult → Result String
resolve_source_signature parse result = do
  nested ← ok_or (first result.signatures) no_signature
  fail_if (signature_is_other result.signature nested) signature_differs
  ok_or (parse.signature_from_str (unwrap_or result.signature nested)) invalid_signature

unfoldable pub decode_candidates :
    {K : Type 0}
    → (SwapInstruction K → Result (DecodedSwap K))
    → List (SwapInstruction K)
    → Result (List (DecodedSwap K))
decode_candidates decode [] = ok []
decode_candidates decode (candidate ∷ candidates) = do
  decoded ← decode candidate
  swaps ← decode_candidates decode candidates
  ok (decoded ∷ swaps)

module _ {K : Type 0} ⦃key : KeyEq K⦄ (keys : Keys K) where
  -- The target mint with the amounts of the target and of WSOL.
  unfoldable pub target_of : K → ℕ → K → ℕ → Result (K × ℕ × ℕ)
  target_of base_mint base_delta quote_mint quote_delta =
      if base_mint == keys.wsol_mint && not (quote_mint == keys.wsol_mint)
      then ok (quote_mint, quote_delta, base_delta)
      else if quote_mint == keys.wsol_mint && not (base_mint == keys.wsol_mint)
      then ok (base_mint, base_delta, quote_delta)
      else err not_one_wsol

module _ {K : Type 0} ⦃key : KeyEq K⦄ (keys : Keys K) (parse : Decoders K) where
  unfoldable pub decode_candidate :
      RawMessage
      → List RawTokenBalance
      → List RawTokenBalance
      → String
      → ℕ
      → ℕ
      → SwapInstruction K
      → Result (DecodedSwap K)
  unfolding account_index_for_pubkey unique_token_balance balance_delta target_of
  decode_candidate message pre_balances post_balances signature observed_at_ms slot candidate = do
    base_index ← account_index_for_pubkey parse message candidate.base_vault
    quote_index ← account_index_for_pubkey parse message candidate.quote_vault
    (pre_base_mint, pre_base_amount) ← unique_token_balance parse pre_balances base_index
    (post_base_mint, post_base_amount) ← unique_token_balance parse post_balances base_index
    (pre_quote_mint, pre_quote_amount) ← unique_token_balance parse pre_balances quote_index
    (post_quote_mint, post_quote_amount) ← unique_token_balance parse post_balances quote_index
    fail_if (not (pre_base_mint == post_base_mint) || not (pre_quote_mint == post_quote_mint))
        mint_changed
    (base_direction, base_delta) ← balance_delta pre_base_amount post_base_amount
    (quote_direction, quote_delta) ← balance_delta pre_quote_amount post_quote_amount
    fail_if (same_direction base_direction quote_direction) same_signs
    (target_mint, base_amount, quote_amount) ←
        target_of keys pre_base_mint base_delta pre_quote_mint quote_delta
    ok (record {
      signature = signature;
      pool_id = candidate.pool_id;
      target_mint = target_mint;
      base_amount = base_amount;
      quote_amount = quote_amount;
      observed_at_ms = observed_at_ms;
      source_slot = slot;
      outer_instruction_index = candidate.outer_instruction_index;
      inner_instruction_index = candidate.inner_instruction_index;
    })

  unfoldable pub decode_notification : TransactionNotification → ℕ → Result (List (DecodedSwap K))
  unfolding resolve_source_signature candidates_of any_shared decode_candidate decode_candidates
  decode_notification notification observed_at_ms = do
    let result = notification.result
    fail_if result.meta.failed transaction_failed
    signature ← resolve_source_signature parse result
    candidates ← candidates_of keys parse result
    fail_if (any_shared candidates) ambiguous_swaps
    pre_balances ← ok_or result.meta.pre_token_balances no_pre_balances
    post_balances ← ok_or result.meta.post_token_balances no_post_balances
    decode_candidates
        (decode_candidate result.message pre_balances post_balances signature observed_at_ms
          result.slot)
        candidates
