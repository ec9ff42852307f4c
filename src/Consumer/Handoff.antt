-- ===== src/Consumer/Handoff.antt =====
-- alpha-whales/src/execution.rs: from a bundle that was accepted to the watcher of the position
-- (`confirm_and_handoff`, `poll_transaction_confirmation`, `read_token_account_balance`). The answers
-- of the RPC calls are arguments; a list of answers that ends is the timeout.
use alpha_whales.Common.{
  ℕ, zero, suc, Option, Bool, true, false, not, List, [], ◌∷◌, String, KeyEq, number_key, text_key,
  ◌==◌, filter,
}
use alpha_whales.Common.Checked.{Checked, ok, err, ◌>>=◌, ◌>>◌, fail_if, ok_or, map_err}
use alpha_whales.Common.Keys.{Keys}
use alpha_whales.Common.Words.{unwrap_or}
use alpha_whales.Consumer.{WhaleSignal}
use alpha_whales.Pool.{Account, RaydiumPoolKeys}
use alpha_whales.Sell.{SellTerms}
use alpha_whales.State.{Semaphore, BotState, drop_permit}
use alpha_whales.Tracker.Consumer.{Handoff}
use alpha_whales.Types.{SwapEvent}
use alpha_whales.Watcher.{ActivePosition}

abbrev pub confirmation_max_polls : ℕ
confirmation_max_polls = 40

pub data HandoffError : Type 0 where
  invalid_signature unconfirmed timed_out : HandoffError
  token_account_readback : String → HandoffError

-- What one poll gives: whether the transaction is confirmed, or an RPC error.
pub data Poll : Type 0 where
  answered : Bool → Poll
  rpc_error : Poll

unfoldable pub poll_transaction_confirmation : ℕ → List Poll → Checked HandoffError (Unit {0})
poll_transaction_confirmation zero answers = err unconfirmed
poll_transaction_confirmation (suc polls) [] = err timed_out
poll_transaction_confirmation (suc polls) (answered true ∷ answers) = ok tt
poll_transaction_confirmation (suc polls) (answered false ∷ answers) =
    poll_transaction_confirmation polls answers
poll_transaction_confirmation (suc polls) (rpc_error ∷ answers) =
    poll_transaction_confirmation polls answers

-- spl_token's account with its amount
pub record TokenState (K : Type 0) : Type 0 where
  pub is_initialized : Bool
  pub mint : K
  pub owner : K
  pub amount : ℕ

module _ {K : Type 0} ⦃key : KeyEq K⦄ (keys : Keys K)
    (unpack : List ℕ → Option (TokenState K)) where
  unfoldable pub read_token_account_balance :
      Checked String (Option (Account K)) → K → K → Checked HandoffError ℕ
  read_token_account_balance fetched expected_mint expected_owner = do
    found ← map_err token_account_readback fetched
    account ← ok_or found (token_account_readback "does not exist")
    fail_if (not (account.owner == keys.token_program)) (token_account_readback "program owner")
    token ← ok_or (unpack account.data_bytes) (token_account_readback "unpack failed")
    fail_if (not token.is_initialized) (token_account_readback "not initialized")
    fail_if (not (token.mint == expected_mint)) (token_account_readback "mint mismatch")
    fail_if (not (token.owner == expected_owner)) (token_account_readback "owner mismatch")
    ok token.amount

-- `ActivePosition`, with the fields of a sale and the pool.
pub record Position (K : Type 0) : Type 0 where
  pub watched : ActivePosition
  pub terms : SellTerms K
  pub pool_keys : Option (RaydiumPoolKeys K)

-- A call of `db::record_position`.
pub record PositionRow : Type 0 where
  pub mint : String
  pub region : String
  pub slot : ℕ
  pub transaction_signature : String
  pub amount_in : ℕ
  pub acquired_amount : ℕ

-- The fields of the configuration that go into the position.
pub record Terms (K : Type 0) : Type 0 where
  pub tip_lamports : ℕ
  pub jito_dont_front_pubkey : K
  pub max_slippage_bps : ℕ

-- What is known of the purchase: the answers, and whether the signature's text is one.
pub record Bought (K : Type 0) : Type 0 where
  pub signal : WhaleSignal
  pub signature : String
  pub signature_is_valid : Bool
  pub target_mint : K
  pub user_owner : K
  pub pool_id : String
  pub pool_keys : Option (RaydiumPoolKeys K)
  pub confirmations : List Poll
  -- `none` where the readback times out
  pub balance_account : Option (Checked String (Option (Account K)))
  pub landing : Handoff

-- The state of the bot, the rows that are written and the watchers that are started, newest first.
pub record Desk (S K : Type 0) : Type 0 where
  pub bot : BotState S
  pub rows : List PositionRow
  pub watchers : List (Position K)

unfoldable pub position_of : {K : Type 0} → Terms K → Bought K → ℕ → Position K
position_of t b amount = record {
  watched = record {
    mint = b.signal.target_mint;
    source_pool_id = b.pool_id;
    entry_price_wsol_num = b.signal.amount_in;
    entry_price_wsol_den = amount;
    acquired_amount = amount;
    entry_timestamp_ms = b.signal.timestamp_ms;
  };
  terms = record {
    acquired_amount = amount;
    jito_tip_lamports = t.tip_lamports;
    max_slippage_bps = t.max_slippage_bps;
    jito_dont_front_pubkey = t.jito_dont_front_pubkey;
  };
  pool_keys = b.pool_keys;
}

unfoldable pub row_of : {K : Type 0} → Bought K → ℕ → PositionRow
row_of b amount = record {
  mint = b.signal.target_mint;
  region = unwrap_or b.landing.bundle_region "unknown";
  slot = unwrap_or b.landing.bundle_slot 0;
  transaction_signature = b.signature;
  amount_in = b.signal.amount_in;
  acquired_amount = amount;
}

module _ {K : Type 0} ⦃key : KeyEq K⦄ (keys : Keys K)
    (unpack : List ℕ → Option (TokenState K)) where
  -- Up to the position: the amount that was acquired.
  unfoldable pub acquired : Bought K → Checked HandoffError ℕ
  unfolding poll_transaction_confirmation read_token_account_balance
  acquired b = do
    fail_if (not b.signature_is_valid) invalid_signature
    poll_transaction_confirmation confirmation_max_polls b.confirmations
    fetched ← ok_or b.balance_account (token_account_readback "timeout")
    amount ← read_token_account_balance keys unpack fetched b.target_mint b.user_owner
    fail_if (amount == 0) (token_account_readback "zero balance")
    ok amount

  module _ {S : Type 0} (sem : Semaphore S) (t : Terms K) where
    abbrev pub hand_over :
        Desk S K → Bought K → Checked HandoffError ℕ → Desk S K × Checked HandoffError (Unit {0})
    hand_over d b (err why) = (record d { bot = drop_permit sem d.bot }, err why)
    hand_over d b (ok amount) = (
      record d { rows = row_of b amount ∷ d.rows; watchers = position_of t b amount ∷ d.watchers },
      ok tt,
    )

    -- The permit is dropped on an error, and goes to the watcher otherwise.
    unfoldable pub confirm_and_handoff :
        Desk S K → Bought K → Desk S K × Checked HandoffError (Unit {0})
    unfolding acquired position_of row_of drop_permit
    confirm_and_handoff d b = hand_over d b (acquired b)

-- What the adapter forwards to a watcher: the events of its pool. A lag is passed over.
unfoldable pub forward : String → List SwapEvent → List SwapEvent
forward pool_id events = filter (λ e. e.pool_id == pool_id) events
