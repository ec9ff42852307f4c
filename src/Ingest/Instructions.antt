-- ===== src/Ingest/Instructions.antt =====
-- core/src/websocket.rs: `decode_swap_instruction`, and the candidates of a whole notification.
-- A loop over a list with a counter is recursion on the list; the first error ends it.
use alpha_whales.Common.{
  ℕ, ◌+◌, Option, none, some, Bool, false, not, ◌||◌, List, [], ◌∷◌, ◌++◌, String, KeyEq, text_key,
  number_key, ◌==◌, ltb, leb, if◌then◌else◌, get_elem?, length,
}
use alpha_whales.Common.Words.{unwrap_or}
use alpha_whales.Common.Keys.{Keys}
use alpha_whales.Common.Checked.{Checked, ok, err, ◌>>=◌, ◌>>◌, fail_if, ok_or}
use alpha_whales.Ingest.{
  Decoders, as_str, RawAccountReference, by_address, by_index, RawInstruction, RawMessage,
  RawInnerInstructions, NotificationResult, SwapInstruction, Result, invalid_account_pubkey,
  invalid_program_id, two_program_ids, no_raw_data, not_base58, account_index_missing,
  wrong_account_count, wrong_token_program, ambiguous_accounts, outer_index_range,
  inner_index_range, outer_index_absent, out_of_bounds,
}

abbrev pub raydium_swap_base_in : ℕ
raydium_swap_base_in = 9

abbrev pub raydium_swap_base_out : ℕ
raydium_swap_base_out = 11

abbrev pub current_swap_account_count : ℕ
current_swap_account_count = 17

abbrev pub legacy_swap_account_count : ℕ
legacy_swap_account_count = 18

-- Whether the instruction's data starts with a swap's tag.
abbrev pub is_swap_tag : List ℕ → Bool
is_swap_tag [] = false
is_swap_tag (tag ∷ bytes) = tag == raydium_swap_base_in || tag == raydium_swap_base_out

-- Where the vaults stand among the accounts.
abbrev pub vault_indexes : ℕ → Result (ℕ × ℕ)
vault_indexes count =
    if count == current_swap_account_count
    then ok (4, 5)
    else if count == legacy_swap_account_count
    then ok (5, 6)
    else err (wrong_account_count count)

abbrev pub u8_or : {E : Type 0} → ℕ → E → Checked E ℕ
u8_or index why = if ltb index 256 then ok index else err why

abbrev pub inner_u8 : Option ℕ → Result (Option ℕ)
inner_u8 none = ok none
inner_u8 (some index) = u8_or index inner_index_range >>= λ i. ok (some i)

abbrev pub push_some : {A : Type 0} → Option A → List A → List A
push_some none xs = xs
push_some (some x) xs = x ∷ xs

module _ {K : Type 0} ⦃key : KeyEq K⦄ (keys : Keys K) (parse : Decoders K) where
  open parse use {pubkey_from_str, base58_onto, parse_u64, signature_from_str}

  abbrev pub reference_text : RawMessage → RawAccountReference → Result String
  reference_text message (by_address text) = ok text
  reference_text message (by_index index) =
      ok_or (get_elem? message.account_keys index) (account_index_missing index) >>= λ account.
      ok (as_str account)

  unfoldable pub resolve_message_key : RawMessage → RawAccountReference → Result K
  resolve_message_key message reference = do
    text ← reference_text message reference
    ok_or (pubkey_from_str text) invalid_account_pubkey

  unfoldable pub resolve_program_id : RawMessage → RawInstruction → Result (Option K)
  unfolding resolve_message_key
  resolve_program_id message instruction =
      program_of message instruction.program_id instruction.program_id_index
    where
      program_of : RawMessage → Option String → Option ℕ → Result (Option K)
      program_of message (some text) none =
          ok_or (pubkey_from_str text) invalid_program_id >>= λ k. ok (some k)
      program_of message none (some index) =
          resolve_message_key message (by_index index) >>= λ k. ok (some k)
      program_of message none none = ok none
      program_of message (some text) (some index) = err two_program_ids

  abbrev pub account_at : RawMessage → List RawAccountReference → ℕ → Result K
  account_at message accounts index =
      ok_or (get_elem? accounts index) out_of_bounds >>= resolve_message_key message

  unfoldable pub is_ambiguous : K → K → K → Bool
  is_ambiguous pool_id base_vault quote_vault =
      pool_id == keys.default
      || base_vault == keys.default
      || quote_vault == keys.default
      || pool_id == base_vault
      || pool_id == quote_vault
      || base_vault == quote_vault

  -- The part of `decode_swap_instruction` behind the test of the tag.
  unfoldable pub swap_of : RawMessage → RawInstruction → ℕ → Option ℕ → Result (SwapInstruction K)
  unfolding is_ambiguous
  swap_of message instruction outer inner = do
    (base_index, quote_index) ← vault_indexes (length instruction.accounts)
    token_program ← account_at message instruction.accounts 0
    fail_if (not (token_program == keys.token_program)) wrong_token_program
    pool_id ← account_at message instruction.accounts 1
    base_vault ← account_at message instruction.accounts base_index
    quote_vault ← account_at message instruction.accounts quote_index
    fail_if (is_ambiguous pool_id base_vault quote_vault) ambiguous_accounts
    outer_u8 ← u8_or outer outer_index_range
    inner_index ← inner_u8 inner
    ok (record {
      pool_id = pool_id;
      base_vault = base_vault;
      quote_vault = quote_vault;
      outer_instruction_index = outer_u8;
      inner_instruction_index = inner_index;
    })

  unfoldable pub raydium_swap :
      RawMessage → RawInstruction → ℕ → Option ℕ → Result (Option (SwapInstruction K))
  unfolding swap_of
  raydium_swap message instruction outer inner = do
    text ← ok_or instruction.raw_data no_raw_data
    decoded ← ok_or (base58_onto text) not_base58
    if is_swap_tag decoded
        then (swap_of message instruction outer inner >>= λ swap. ok (some swap))
        else ok none

  abbrev pub is_raydium : Option K → Bool
  is_raydium none = false
  is_raydium (some program) = program == keys.raydium_liquidity_pool_v4_program_id

  unfoldable pub decode_swap_instruction :
      RawMessage → RawInstruction → ℕ → Option ℕ → Result (Option (SwapInstruction K))
  unfolding resolve_program_id raydium_swap
  decode_swap_instruction message instruction outer inner = do
    program ← resolve_program_id message instruction
    if is_raydium program then raydium_swap message instruction outer inner else ok none

  -- The instructions of a list with the places that `place` gives them.
  unfoldable pub collect_instructions :
      RawMessage → (ℕ → ℕ × Option ℕ) → ℕ → List RawInstruction → Result (List (SwapInstruction K))
  unfolding decode_swap_instruction
  collect_instructions message place index [] = ok []
  collect_instructions message place index (instruction ∷ rest) = do
    let (outer, inner) = place index
    candidate ← decode_swap_instruction message instruction outer inner
    candidates ← collect_instructions message place (index + 1) rest
    ok (push_some candidate candidates)

  unfoldable pub collect_groups :
      RawMessage → List RawInnerInstructions → Result (List (SwapInstruction K))
  unfolding collect_instructions
  collect_groups message [] = ok []
  collect_groups message (group ∷ groups) = do
    fail_if (leb (length message.instructions) group.index) (outer_index_absent group.index)
    candidates ←
        collect_instructions message (λ inner. (group.index, some inner)) 0 group.instructions
    more ← collect_groups message groups
    ok (candidates ++ more)

  unfoldable pub candidates_of : NotificationResult → Result (List (SwapInstruction K))
  unfolding collect_instructions collect_groups
  candidates_of result = do
    outer ←
        collect_instructions result.message (λ index. (index, none)) 0 result.message.instructions
    inner ← collect_groups result.message (unwrap_or result.meta.inner_instructions [])
    ok (outer ++ inner)
