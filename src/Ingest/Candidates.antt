-- ===== src/Ingest/Candidates.antt =====
-- What `decode_notification` in core/src/websocket.rs takes out of a transaction's instructions,
-- said without the decoder: which of them are Raydium swaps, and which accounts those name.
use alpha_whales.Common.{
  ℕ, ◌+◌, ◌<◌, ◌≡◌, ◌≢◌, Option, none, some, List, [], ◌∷◌, ◌++◌, KeyEq, number_key, length, String,
}
use alpha_whales.Common.Words.{unwrap_or}
use alpha_whales.Common.Keys.{Keys}
use alpha_whales.Common.Checked.{ok}
use alpha_whales.Ingest.{
  Decoders, RawInstruction, RawMessage, RawInnerInstructions, NotificationResult, SwapInstruction,
}
use alpha_whales.Ingest.Instructions.{resolve_program_id, account_at}

-- Data that starts with 9 or 11.
pub data HasSwapTag : List ℕ → Type 0 where
  base_in : (bytes : List ℕ) → HasSwapTag (9 ∷ bytes)
  base_out : (bytes : List ℕ) → HasSwapTag (11 ∷ bytes)

-- Where the two vaults stand among 17 or 18 accounts.
pub data HasVaultsAt : ℕ → ℕ → ℕ → Type 0 where
  current : HasVaultsAt 17 4 5
  legacy : HasVaultsAt 18 5 6

module _ {K : Type 0} ⦃key : KeyEq K⦄ (keys : Keys K) (parse : Decoders K) where
  open parse use {base58_onto}

  -- The pool and the vaults that the instruction's accounts name, and the instruction's place.
  pub record NamesAccounts (message : RawMessage) (instruction : RawInstruction) (outer : ℕ)
      (inner : Option ℕ) (c : SwapInstruction K) : Type 0 where
    pub base_index : ℕ
    pub quote_index : ℕ
    pub has_vaults : HasVaultsAt (length instruction.accounts) base_index quote_index
    pub has_pool : account_at keys parse message instruction.accounts 1 ≡ ok c.pool_id
    pub has_base : account_at keys parse message instruction.accounts base_index ≡ ok c.base_vault
    pub has_quote :
        account_at keys parse message instruction.accounts quote_index ≡ ok c.quote_vault
    pub has_outer : c.outer_instruction_index ≡ outer
    pub has_inner : c.inner_instruction_index ≡ inner

  -- The instruction calls the Raydium program to swap, and `c` is its pool and its vaults.
  pub record IsSwapAt (message : RawMessage) (instruction : RawInstruction) (outer : ℕ)
      (inner : Option ℕ) (c : SwapInstruction K) : Type 0 where
    pub text : String
    pub bytes : List ℕ
    pub calls_raydium :
        resolve_program_id keys parse message instruction
        ≡ ok (some keys.raydium_liquidity_pool_v4_program_id)
    pub has_data : instruction.raw_data ≡ some text
    pub is_base58 : base58_onto text ≡ some bytes
    pub is_tagged : HasSwapTag bytes
    pub names : NamesAccounts message instruction outer inner c

  -- The instruction is of another program, or no swap of Raydium's.
  pub data IsNoSwap (message : RawMessage) (instruction : RawInstruction) : Type 0 where
    other_program :
        (program : Option K)
        → resolve_program_id keys parse message instruction ≡ ok program
        → program ≢ some keys.raydium_liquidity_pool_v4_program_id
        → IsNoSwap message instruction
    other_instruction :
        (text : String) (bytes : List ℕ)
        → instruction.raw_data ≡ some text
        → base58_onto text ≡ some bytes
        → ¬ HasSwapTag bytes
        → IsNoSwap message instruction

  -- The swaps among the instructions from a place on, in their order.
  pub data Selects (message : RawMessage) (place : ℕ → ℕ × Option ℕ)
      : ℕ → List RawInstruction → List (SwapInstruction K) → Type 0 where
    none_left : (index : ℕ) → Selects message place index [] []
    passed :
        {index : ℕ} {instruction : RawInstruction} {rest : List RawInstruction}
        {cs : List (SwapInstruction K)}
        → IsNoSwap message instruction
        → Selects message place (index + 1) rest cs
        → Selects message place index (instruction ∷ rest) cs
    taken :
        {index : ℕ} {instruction : RawInstruction} {rest : List RawInstruction}
        {c : SwapInstruction K} {cs : List (SwapInstruction K)}
        → IsSwapAt message instruction (place index).0 (place index).1 c
        → Selects message place (index + 1) rest cs
        → Selects message place index (instruction ∷ rest) (c ∷ cs)

  -- The swaps among the inner instructions, group by group. Each group names its outer instruction.
  pub data SelectsInner (message : RawMessage)
      : List RawInnerInstructions → List (SwapInstruction K) → Type 0 where
    no_groups : SelectsInner message [] []
    grouped :
        {group : RawInnerInstructions} {groups : List RawInnerInstructions}
        {own more : List (SwapInstruction K)}
        → group.index < length message.instructions
        → Selects message (λ inner. (group.index, some inner)) 0 group.instructions own
        → SelectsInner message groups more
        → SelectsInner message (group ∷ groups) (own ++ more)

  -- The swaps of a transaction: those of its instructions, then those of the inner ones.
  pub record AreSwapsOf (result : NotificationResult) (cs : List (SwapInstruction K)) : Type 0 where
    pub outer : List (SwapInstruction K)
    pub inner : List (SwapInstruction K)
    pub at_top : Selects result.message (λ index. (index, none)) 0 result.message.instructions outer
    pub within : SelectsInner result.message (unwrap_or result.meta.inner_instructions []) inner
    pub are_all : cs ≡ outer ++ inner
