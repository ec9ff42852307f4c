-- ===== src/Sell.antt =====
-- alpha-whales/src/exits.rs: the sell bundle (`attempt_sell_bundle`, `connect_jito`), its retries and
-- the polls for its confirmation. What the calls over HTTP, RPC and gRPC give in one attempt, and what
-- solana_sdk makes of instructions, is a `Round`; an error of theirs is its text.
pub mod Attempts
pub mod Packets
pub mod Bounds
pub mod Ends
mod Tests
use alpha_whales.Common.{
  ℕ, zero, suc, ◌+◌, ◌-◌, ◌*◌, ◌/◌, ◌%◌, ◌^◌, Option, none, some, Bool, true, false, ◌&&◌, List, [],
  ◌∷◌, String, KeyEq, number_key, ◌==◌, ltb, if◌then◌else◌, min, max, u64_mod, checked_mul_u128,
  get_elem?, length,
}
use alpha_whales.Common.Floats.{F64}
use alpha_whales.Common.Words.{unwrap_or}
use alpha_whales.Common.Checked.{Checked, ok, err, ◌>>=◌, ok_or, map_err}
use alpha_whales.Dispatch.{Reply, ProtoPacket}
use alpha_whales.Execution.Config.{minimum_jito_tip_lamports}
use alpha_whales.Execution.Quote.{calculate_local_minimum_amount_out}
use alpha_whales.Watcher.Sale.{Attempt, sell_failed as failed_sale, unconfirmed, confirmed}
use alpha_whales.Watcher.{SaleReason, panic_velocity, hard_stop_20pct, vwap_snapback}

abbrev pub max_sell_attempts : ℕ
max_sell_attempts = 5

pub data ExitError : Type 0 where
  tx_build jito_connect jito_tip_account : String → ExitError
  sell_failed : ℕ → String → ExitError
  -- an index out of range
  panicked : ExitError

-- The fields of `ActivePosition` that a sale reads.
pub record SellTerms (K : Type 0) : Type 0 where
  pub acquired_amount : ℕ
  pub jito_tip_lamports : ℕ
  pub max_slippage_bps : ℕ
  pub jito_dont_front_pubkey : K

pub record JitoSellClient (K : Type 0) : Type 0 where
  pub tip_accounts : List K
  pub next_tip_index : ℕ

-- What the calls of one attempt give: the channel with the texts of the tip accounts that it gives, the blockhash, PumpPortal's
-- transaction for a slippage and a tip, and the answer to `send_bundle`.
pub record Round (T : Type 0) : Type 0 where
  pub connected : Checked String (Checked String (List String))
  pub latest_blockhash : Checked String String
  pub pump_transaction : ℕ → ℕ → Checked String T
  pub send_bundle : Reply

-- What is handed to `send_bundle`, and in which attempt.
pub record Submission (K D : Type 0) : Type 0 where
  pub attempt : ℕ
  pub slippage_bps : ℕ
  pub minimum_amount_out : ℕ
  pub tip_account : K
  pub tip_lamports : ℕ
  pub packets : List (ProtoPacket D)

unfoldable pub is_emergency : SaleReason → Bool
is_emergency panic_velocity = true
is_emergency hard_stop_20pct = true
is_emergency other = false

abbrev pub emergency_slippage : ℕ → ℕ
emergency_slippage attempt = if attempt == 1 then 3_000 else if attempt == 2 then 4_000 else 5_000

-- `saturating_mul` on u16
unfoldable pub effective_slippage_bps : SaleReason → ℕ → ℕ → ℕ
unfolding is_emergency
effective_slippage_bps reason max_slippage_bps attempt =
    if is_emergency reason
    then emergency_slippage attempt
    else min (min (max_slippage_bps * attempt) (2 ^ 16 - 1)) 1_000

unfoldable pub expected_wsol : ℕ → ℕ → ℕ → ℕ
expected_wsol acquired_amount cur_wsol_num cur_wsol_den =
    unwrap_or (checked_mul_u128 acquired_amount cur_wsol_num) 0 / max cur_wsol_den 1

abbrev pub or_one : {E : Type 0} → Checked E ℕ → ℕ
or_one (err why) = 1
or_one (ok minimum) = minimum

unfoldable pub sell_minimum : ℕ → ℕ → ℕ
unfolding calculate_local_minimum_amount_out
sell_minimum expected slippage_bps =
    or_one (calculate_local_minimum_amount_out (expected % u64_mod) slippage_bps)

-- `tip_scale n` is `1.5_f64.powi(n)`.
unfoldable pub sell_tip : {F : Type 0} → F64 F → (ℕ → F) → ℕ → ℕ → ℕ
sell_tip f64 tip_scale jito_tip_lamports attempt =
    let scaled = f64.mul (f64.of_nat jito_tip_lamports) (tip_scale (attempt - 1)) in
    if f64.is_finite scaled && f64.le (f64.of_nat minimum_jito_tip_lamports) scaled
    then min (f64.to_u128 scaled) (u64_mod - 1)
    else minimum_jito_tip_lamports

module _ {K : Type 0} (pubkey_from_str : String → Option K) where
  unfoldable pub parse_tip_accounts : List String → Checked ExitError (List K)
  parse_tip_accounts [] = ok []
  parse_tip_accounts (raw ∷ texts) = do
    account ← ok_or (pubkey_from_str raw) (jito_tip_account raw)
    accounts ← parse_tip_accounts texts
    ok (account ∷ accounts)

  abbrev pub new_client : List K → Checked ExitError (JitoSellClient K)
  new_client [] = err (jito_tip_account "no tip accounts returned")
  new_client (account ∷ accounts) =
      ok (record { tip_accounts = account ∷ accounts; next_tip_index = 0 })

  unfoldable pub connect_jito :
      Checked String (Checked String (List String)) → Checked ExitError (JitoSellClient K)
  unfolding parse_tip_accounts
  connect_jito connected = do
    channel ← map_err jito_connect connected
    texts ← map_err jito_tip_account channel
    accounts ← parse_tip_accounts texts
    new_client accounts

-- The next tip account; a read out of range, which would panic, is `none`.
unfoldable pub take_sell_tip : {K : Type 0} → JitoSellClient K → Option (K × JitoSellClient K)
take_sell_tip jito = elim (get_elem? jito.tip_accounts jito.next_tip_index) [
  | none ↦ none
  | some account ↦ some (
    account,
    record jito { next_tip_index = (jito.next_tip_index + 1) % length jito.tip_accounts },
  )
]

-- The polls of a signature's status: an answer that is confirmed comes with whether it has no error.
unfoldable pub is_confirmed_in : ℕ → List (Option Bool) → Bool
is_confirmed_in zero answers = false
is_confirmed_in (suc polls) [] = false
is_confirmed_in (suc polls) (none ∷ answers) = is_confirmed_in polls answers
is_confirmed_in (suc polls) (some succeeded ∷ answers) = succeeded

abbrev pub confirmation_polls : ℕ
confirmation_polls = 15

-- What `execute_sell_with_retry` goes on with.
unfoldable pub sale_outcome : Checked ExitError (String × String) → List (Option Bool) → Attempt
unfolding is_confirmed_in
sale_outcome (err why) answers = failed_sale
sale_outcome (ok (bundle_id, signature)) answers =
    if is_confirmed_in confirmation_polls answers then confirmed else unconfirmed
