-- ===== src/Ingest/Balances.antt =====
-- core/src/websocket.rs: the token balances of the vaults before and after a transaction.
use alpha_whales.Common.{
  ℕ, ◌+◌, Option, none, some, Bool, true, false, List, [], ◌∷◌, KeyEq, text_key, number_key, ◌==◌,
  ltb, if◌then◌else◌, is_some,
}
use alpha_whales.Common.Words.{checked_sub}
use alpha_whales.Common.Checked.{ok, err, ◌>>=◌, ◌>>◌, fail_if, ok_or}
use alpha_whales.Ingest.{
  Decoders, RawAccountKey, as_str, RawMessage, RawTokenBalance, BalanceDirection, increase,
  decrease, Result, invalid_account_key, repeated_account_key, vault_absent, duplicate_balance,
  invalid_mint, invalid_amount, balance_missing, underflowed, balance_unchanged,
}

abbrev pub with_direction : BalanceDirection → Option ℕ → Result (BalanceDirection × ℕ)
with_direction direction none = err underflowed
with_direction direction (some delta) = ok (direction, delta)

unfoldable pub balance_delta : ℕ → ℕ → Result (BalanceDirection × ℕ)
balance_delta pre_amount post_amount =
    if ltb pre_amount post_amount
    then with_direction increase (checked_sub post_amount pre_amount)
    else if ltb post_amount pre_amount
    then with_direction decrease (checked_sub pre_amount post_amount)
    else err balance_unchanged

abbrev pub same_direction : BalanceDirection → BalanceDirection → Bool
same_direction increase increase = true
same_direction decrease decrease = true
same_direction increase decrease = false
same_direction decrease increase = false

module _ {K : Type 0} ⦃key : KeyEq K⦄ (parse : Decoders K) where
  open parse use {pubkey_from_str, base58_onto, parse_u64, signature_from_str}

  -- `found` after one more account key, the one at `index`.
  abbrev pub next_index : K → ℕ → Option ℕ → K → Result (Option ℕ)
  next_index expected index found account_key =
      if account_key == expected
      then (if is_some found then err repeated_account_key else ok (some index))
      else ok found

  unfoldable pub index_from : List RawAccountKey → K → ℕ → Option ℕ → Result ℕ
  index_from [] expected index found = ok_or found vault_absent
  index_from (k ∷ account_keys) expected index found = do
    account_key ← ok_or (pubkey_from_str (as_str k)) invalid_account_key
    found' ← next_index expected index found account_key
    index_from account_keys expected (index + 1) found'

  unfoldable pub account_index_for_pubkey : RawMessage → K → Result ℕ
  unfolding index_from
  account_index_for_pubkey message expected = index_from message.account_keys expected 0 none

  abbrev pub read_balance : RawTokenBalance → Option (K × ℕ) → Result (Option (K × ℕ))
  read_balance balance found = do
    fail_if (is_some found) duplicate_balance
    mint ← ok_or (pubkey_from_str balance.mint) invalid_mint
    amount ← ok_or (parse_u64 balance.amount) invalid_amount
    ok (some (mint, amount))

  unfoldable pub balance_from : List RawTokenBalance → ℕ → Option (K × ℕ) → Result (K × ℕ)
  balance_from [] account_index found = ok_or found balance_missing
  balance_from (balance ∷ balances) account_index found = do
    found' ← if balance.account_index == account_index then read_balance balance found else ok found
    balance_from balances account_index found'

  unfoldable pub unique_token_balance : List RawTokenBalance → ℕ → Result (K × ℕ)
  unfolding balance_from
  unique_token_balance balances account_index = balance_from balances account_index none
