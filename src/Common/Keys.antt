-- ===== src/Common/Keys.antt =====
-- Public keys of solana_sdk, a type of their own, with their base58 text and the program's constants.
use Prim.Native.String.{String}

pub record Keys (K : Type 0) : Type 0 where
  pub to_string : K → String
  -- `Pubkey::default()`
  pub default : K
  pub token_program : K
  pub raydium_liquidity_pool_v4_program_id : K
  pub wsol_mint : K
