-- ===== src/Sell/Bounds.antt =====
-- What each bundle of a sale pays and asks for, and how many there are.
use alpha_whales.Common.{
  ℕ, ◌+◌, ◌-◌, ◌*◌, ◌≤◌, ◌<◌, ◌≡◌, Option, List, ◌∷◌, String, KeyEq, number_key, if◌then◌else◌,
  u64_mod,
}
use alpha_whales.Common.Floats.{F64}
use alpha_whales.Common.Checked.{Checked, ok}
use alpha_whales.Dispatch.Bundle.{Sdk}
use alpha_whales.Execution.{Keys, Instruction}
use alpha_whales.Sell.{JitoSellClient, Round, Submission, is_emergency, expected_wsol, connect_jito}
use alpha_whales.Sell.Attempts.{Sale}
use alpha_whales.Sell.Packets.{IsSaleOf}
use alpha_whales.Watcher.{SaleReason}

-- The largest slippage of a sale.
abbrev pub slippage_limit : SaleReason → ℕ
slippage_limit reason = if is_emergency reason then 5_000 else 1_000

-- A connection as it is when it is new.
abbrev pub fresh_client : {K : Type 0} → K → List K → JitoSellClient K
fresh_client account others = record { tip_accounts = account ∷ others; next_tip_index = 0 }

module _ {K M T Alt D F : Type 0} ⦃key : KeyEq K⦄ (keys : Keys K)
    (sdk : Sdk K (Instruction K) M T Alt D) (pubkey_from_str : String → Option K) (f64 : F64 F)
    (tip_scale : ℕ → F) (sale : Sale K) where
  -- A bundle that is sent: in one of the five attempts; with the first tip account of that attempt's
  -- connection; within the limit of slippage; for at least the expected output less the slippage.
  pub record IsFair (rounds : ℕ → Round T) (s : Submission K D) : Type 0 where
    pub in_attempts : (1 ≤ s.attempt) × (s.attempt ≤ 5)
    pub others : List K
    pub first_tip_account :
        connect_jito pubkey_from_str (rounds s.attempt).connected
        ≡ ok (fresh_client s.tip_account others)
    pub is_sale :
        IsSaleOf keys sdk pubkey_from_str f64 tip_scale sale (rounds s.attempt) sale.pool_keys s
    pub slippage_limited : s.slippage_bps ≤ slippage_limit sale.reason
    pub keeps :
        let expected =
          expected_wsol sale.terms.acquired_amount sale.cur_wsol_num sale.cur_wsol_den in
        expected < u64_mod
        → expected * (10_000 - s.slippage_bps) < (s.minimum_amount_out + 1) * 10_000
