-- ===== src/Execution/Swap.antt =====
-- alpha-whales/src/execution.rs: `construct_raydium_swap_instruction`, over the pool keys of
-- core/src/pool_cache.rs.
use alpha_whales.Common.{
  ℕ, zero, suc, ◌<◌, ◌≡◌, refl, false, ◌||◌, List, [], ◌∷◌, ◌++◌, KeyEq, number_key, ◌==◌,
  if◌then◌else◌, length, IsU64, arith,
}
use alpha_whales.Common.Bytes.{to_le_bytes, from_le_bytes, le_round_trip}
use alpha_whales.Common.Checked.{map_err}
use alpha_whales.Pool.{RaydiumPoolKeys, validate}
use alpha_whales.Execution.{
  Keys, AccountMeta, Instruction, invalid_pool_keys, invalid_swap_amount, invalid_swap_account,
  Result, ok, ◌>>◌, fail_if, readonly, writable, signer,
}

abbrev pub raydium_swap_base_in_discriminator : ℕ
raydium_swap_base_in_discriminator = 9

unfoldable pub swap_data : ℕ → ℕ → List ℕ
swap_data amount_in minimum_amount_out =
    raydium_swap_base_in_discriminator ∷ to_le_bytes 8 amount_in ++ to_le_bytes 8 minimum_amount_out

module _ {K : Type 0} ⦃key : KeyEq K⦄ (keys : Keys K) where
  unfoldable pub swap_accounts : RaydiumPoolKeys K → K → K → K → List (AccountMeta K)
  swap_accounts p owner source destination =
      readonly keys.token_program
      ∷ writable p.amm_id
      ∷ readonly p.authority
      ∷ writable p.open_orders
      ∷ writable p.base_vault
      ∷ writable p.quote_vault
      ∷ readonly p.market_program_id
      ∷ writable p.market_id
      ∷ writable p.market_bids
      ∷ writable p.market_asks
      ∷ writable p.market_event_queue
      ∷ writable p.market_base_vault
      ∷ writable p.market_quote_vault
      ∷ readonly p.market_vault_signer
      ∷ writable source
      ∷ writable destination
      ∷ signer owner
      ∷ []

  unfoldable pub construct_raydium_swap_instruction :
      RaydiumPoolKeys K → K → K → K → ℕ → ℕ → Result (Instruction K)
  unfolding validate swap_accounts swap_data
  construct_raydium_swap_instruction p owner source destination amount_in minimum_amount_out = do
    map_err (λ name. invalid_pool_keys) (validate keys p)
    fail_if (amount_in == 0) invalid_swap_amount
    fail_if (minimum_amount_out == 0) invalid_swap_amount
    fail_if (owner == keys.default) invalid_swap_account
    fail_if (source == keys.default) invalid_swap_account
    fail_if (destination == keys.default) invalid_swap_account
    fail_if (source == destination) invalid_swap_account
    fail_if (owner == source || owner == destination) invalid_swap_account
    fail_if
        (source == p.base_vault
          || source == p.quote_vault
          || destination == p.base_vault
          || destination == p.quote_vault)
        invalid_swap_account
    ok (record {
      program_id = keys.raydium_liquidity_pool_v4_program_id;
      accounts = swap_accounts p owner source destination;
      data_bytes = swap_data amount_in minimum_amount_out;
    })

-- How the program reads the data: nothing but a discriminator and two words of eight bytes.
abbrev pub read_words : List ℕ → ℕ → List ℕ × List ℕ
read_words bytes zero = ([], bytes)
read_words [] (suc n) = ([], [])
read_words (b ∷ bytes) (suc n) = let (front, back) = read_words bytes n in (b ∷ front, back)

abbrev pub decode_swap : List ℕ → ℕ × ℕ × ℕ
decode_swap [] = (0, 0, 0)
decode_swap (tag ∷ bytes) =
    let (front, back) = read_words bytes 8 in (tag, from_le_bytes front, from_le_bytes back)

word_round_trip : (n : ℕ) → IsU64 n → from_le_bytes (to_le_bytes 8 n) ≡ n
word_round_trip n h = le_round_trip 8 n h

swap_data_decodes :
    (a m : ℕ)
    → IsU64 a
    → IsU64 m
    → (decode_swap (swap_data a m) ≡ (9, a, m)) × (length (swap_data a m) ≡ 17)
unfolding swap_data
swap_data_decodes a m ha hm = ((λ i. (9, word_round_trip a ha i, word_round_trip m hm i)), refl)

-- The accounts that have to sign.
abbrev pub signers : {K : Type 0} → List (AccountMeta K) → List K
signers [] = []
signers (m ∷ ms) = if m.is_signer then m.pubkey ∷ signers ms else signers ms

module _ {K : Type 0} ⦃key : KeyEq K⦄ (keys : Keys K) where
  -- A swap instruction that is built has amounts above zero, seventeen bytes that decode to the
  -- tag and the two amounts, and seventeen accounts of which only the owner signs; its accounts of
  -- the user differ from each other and from the pool's vaults.
  pub swap_sound :
      (p : RaydiumPoolKeys K) (owner source destination : K) (a m : ℕ) (i : Instruction K)
      → IsU64 a
      → IsU64 m
      → construct_raydium_swap_instruction keys p owner source destination a m ≡ ok i
      → (0 < a)
        × (0 < m)
        × (decode_swap i.data_bytes ≡ (9, a, m))
        × (length i.data_bytes ≡ 17)
        × (length i.accounts ≡ 17)
        × (signers i.accounts ≡ owner ∷ [])
        × ((source == destination) ≡ false)
        × ((source == p.base_vault) ≡ false)
        × ((source == p.quote_vault) ≡ false)
        × ((destination == p.base_vault) ≡ false)
        × ((destination == p.quote_vault) ≡ false)
  unfolding construct_raydium_swap_instruction
  swap_sound p owner source destination a m i ha hm h = ground (arith, swap_data_decodes a m ha hm)
