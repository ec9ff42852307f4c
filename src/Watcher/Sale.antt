-- ===== src/Watcher/Sale.antt =====
-- alpha-whales/src/exits.rs: `execute_sell_with_retry`, what a sale does to the bot's state.
use alpha_whales.Common.{Bool, true, false, List, ◌∷◌, String, if◌then◌else◌}
use alpha_whales.Common.Signed.{ℤ, pos, ltℤ}
use alpha_whales.State.{Semaphore, BotState, release_shadow_position}
use alpha_whales.State.Trace.{record_win, record_loss}
use alpha_whales.Watcher.{ActivePosition, SaleOrder, compute_pnl_bps}

-- Result of `attempt_sell_bundle` and of the polls of the signature's status after it.
pub data Attempt : Type 0 where
  sell_failed unconfirmed confirmed : Attempt

-- The bot's state, and the mints that `db::close_position` is called with, the newest first.
pub record Books (S : Type 0) : Type 0 where
  pub bot : BotState S
  pub closed_positions : List String

module _ {S : Type 0} (sem : Semaphore S) where
  unfoldable pub account_streak : BotState S → Bool → ℤ → BotState S
  unfolding record_win record_loss
  account_streak b is_final_exit pnl_bps =
      if is_final_exit then (if ltℤ pnl_bps (pos 0) then record_loss b else record_win b) else b

  unfoldable pub close : Books S → String → Bool → Books S
  close w mint is_final_exit =
      if is_final_exit
      then record {
        bot = (release_shadow_position sem w.bot mint).0;
        closed_positions = mint ∷ w.closed_positions;
      }
      else w

  unfoldable pub execute_sell_with_retry :
      Books S → ActivePosition → SaleOrder → Bool → Attempt → Books S × Bool
  unfolding close account_streak compute_pnl_bps
  execute_sell_with_retry w p order dry_run attempt =
      if dry_run
      then (
        if order.is_final_exit
            then record w { bot = (release_shadow_position sem w.bot p.mint).0 }
            else w,
        true,
      )
      else elim attempt [
        | sell_failed ↦ (w, false)
        | unconfirmed ↦ (w, false)
        | confirmed ↦
            let closed = close w p.mint order.is_final_exit in
            let pnl =
              compute_pnl_bps order.cur_wsol_num order.cur_wsol_den p.entry_price_wsol_num
                p.entry_price_wsol_den in
            (record closed { bot = account_streak closed.bot order.is_final_exit pnl }, true)
      ]
