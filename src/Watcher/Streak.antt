-- ===== src/Watcher/Streak.antt =====
-- What a sale counts as: the streak of losses, by the realised price.
use native.Mathlib.Nat.{le-div_iff_mul-le}
use alpha_whales.Common.{
  ℕ, ◌+◌, ◌-◌, ◌*◌, ◌%◌, ◌<◌, ◌≡◌, Bool, true, false, ◌∷◌, text_key, same_refl, leb, if◌then◌else◌,
  u64_mod, arith,
}
use alpha_whales.Common.Maps.{get-remove}
use alpha_whales.Common.Signed.{pos, ltℤ, i64_half}
use alpha_whales.State.{Semaphore, release_shadow_position, has_shadow_position, keep_shadows}
use alpha_whales.State.Trace.{record_win, record_loss}
use alpha_whales.Watcher.{ActivePosition, SaleOrder}
use alpha_whales.Watcher.Price.{compute_pnl_bps_lem, pnl_of}
use alpha_whales.Watcher.Losses.{IsModest, IsModestPosition, product, product_pos}
use alpha_whales.Watcher.Sale.{confirmed, Books, account_streak, close, execute_sell_with_retry}

-- At least one basis point of the entry price is lost.
abbrev pub is_loss : ActivePosition → SaleOrder → Bool
is_loss p o =
    leb (o.cur_wsol_num * p.entry_price_wsol_den * 10_000 + p.entry_price_wsol_num * o.cur_wsol_den)
      (p.entry_price_wsol_num * o.cur_wsol_den * 10_000)

pnl_sign :
    (gain base : ℕ)
    → 0 < base
    → ltℤ (pnl_of gain base) (pos 0) ≡ leb (gain * 10_000 + base) (base * 10_000)
unfolding pnl_of
pnl_sign gain base hb = ground (arith, le-div_iff_mul-le {x = 1} {y = (base - gain) * 10_000} hb)

module _ {S : Type 0} (sem : Semaphore S) where
  -- A final sale that is confirmed outside a dry run adds one to the streak of losses, wrapping, if
  -- at least a basis point of the entry price is lost, and clears the streak otherwise; the mint
  -- has no shadow position afterwards, and is the newest of the positions closed. Amounts are above
  -- zero and below 2^56, and the price does not pass the entry's by the factor 2^63 / 10000.
  pub confirmed_sale :
      (w : Books S) (p : ActivePosition) (o : SaleOrder)
      → IsModestPosition p
      → IsModest o.cur_wsol_num
      → IsModest o.cur_wsol_den
      → o.cur_wsol_num * p.entry_price_wsol_den * 10_000
        < p.entry_price_wsol_num * o.cur_wsol_den * i64_half
      → o.is_final_exit ≡ true
      → let after = (execute_sell_with_retry sem w p o false confirmed).0 in
        (after.bot.consecutive_losses
          ≡ (if is_loss p o then (w.bot.consecutive_losses + 1) % u64_mod else 0))
        × (has_shadow_position after.bot p.mint ≡ false)
        × (after.closed_positions ≡ p.mint ∷ w.closed_positions)
  unfolding execute_sell_with_retry close account_streak record_win record_loss
      release_shadow_position has_shadow_position keep_shadows
  confirmed_sale w p o hp hn hd bound final =
      let gain = product o.cur_wsol_num p.entry_price_wsol_den hn.1 hp.1.1 in
      let base = product p.entry_price_wsol_num o.cur_wsol_den hp.0.1 hd.1 in
      let above = product_pos p.entry_price_wsol_num o.cur_wsol_den hp.0.0 hd.0 in
      ground (
        arith,
        compute_pnl_bps_lem o.cur_wsol_num o.cur_wsol_den p.entry_price_wsol_num
            p.entry_price_wsol_den hd.0 hp.0.0 hp.1.0 (omega arith) (omega arith) (omega arith)
            (omega arith) (omega arith) (omega arith) bound,
        pnl_sign (o.cur_wsol_num * p.entry_price_wsol_den) (p.entry_price_wsol_num * o.cur_wsol_den)
            above,
        get-remove p.mint p.mint w.bot.shadow_positions,
        same_refl p.mint,
        final,
      )
