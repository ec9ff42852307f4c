-- ===== src/Consumer/Opening.antt =====
-- What a handover leaves: a watcher on what was really acquired, or the permit given back.
use alpha_whales.Common.{ℕ, ◌+◌, ◌≡◌, refl, inl, inr, Option, true, List, ◌∷◌, KeyEq, number_key}
use alpha_whales.Common.Checked.{Checked, ok, err, Checked-cases}
use alpha_whales.Common.Keys.{Keys}
use alpha_whales.Consumer.Handoff.{
  HandoffError, TokenState, Bought, Terms, Desk, acquired, Position, PositionRow, position_of,
  row_of, confirm_and_handoff,
}
use alpha_whales.State.{Semaphore, drop_permit}
use alpha_whales.Consumer.Acquired.{IsAcquired, acquired_lem, nothing_acquired}

-- The watcher's position: what was bought, at the price that was paid, and how it is sold.
pub record IsPositionOf {K : Type 0} (t : Terms K) (b : Bought K) (amount : ℕ) (p : Position K)
    : Type 0 where
  pub has_mint : p.watched.mint ≡ b.signal.target_mint
  pub has_pool : p.watched.source_pool_id ≡ b.pool_id
  pub has_amount : p.watched.acquired_amount ≡ amount
  pub sells_amount : p.terms.acquired_amount ≡ amount
  pub paid : p.watched.entry_price_wsol_num ≡ b.signal.amount_in
  pub received : p.watched.entry_price_wsol_den ≡ amount
  pub entered : p.watched.entry_timestamp_ms ≡ b.signal.timestamp_ms
  pub has_tip : p.terms.jito_tip_lamports ≡ t.tip_lamports
  pub has_slippage : p.terms.max_slippage_bps ≡ t.max_slippage_bps
  pub has_sentinel : p.terms.jito_dont_front_pubkey ≡ t.jito_dont_front_pubkey
  pub has_keys : p.pool_keys ≡ b.pool_keys

pub record IsRowOf {K : Type 0} (b : Bought K) (amount : ℕ) (row : PositionRow) : Type 0 where
  pub has_mint : row.mint ≡ b.signal.target_mint
  pub has_signature : row.transaction_signature ≡ b.signature
  pub paid : row.amount_in ≡ b.signal.amount_in
  pub has_amount : row.acquired_amount ≡ amount

position_of-IsPositionOf :
    {K : Type 0} (t : Terms K) (b : Bought K) (amount : ℕ)
    → IsPositionOf t b amount (position_of t b amount)
unfolding position_of
position_of-IsPositionOf t b amount = record {
  has_mint = refl;
  has_pool = refl;
  has_amount = refl;
  sells_amount = refl;
  paid = refl;
  received = refl;
  entered = refl;
  has_tip = refl;
  has_slippage = refl;
  has_sentinel = refl;
  has_keys = refl;
}

row_of-IsRowOf : {K : Type 0} (b : Bought K) (amount : ℕ) → IsRowOf b amount (row_of b amount)
unfolding row_of
row_of-IsRowOf b amount = record {
  has_mint = refl;
  has_signature = refl;
  paid = refl;
  has_amount = refl;
}

module _ {K : Type 0} ⦃key : KeyEq K⦄ (keys : Keys K)
    (unpack : List ℕ → Option (TokenState K)) where
  module _ {S : Type 0} (sem : Semaphore S) (t : Terms K) where
    abbrev permits : Desk S K → ℕ
    permits d = sem.available_permits d.bot.position_semaphore

    -- How a handover ends.
    pub data IsHandedOver (d : Desk S K) (b : Bought K) (d' : Desk S K)
        : Checked HandoffError (Unit {0}) → Type 0 where
      failed :
          (why : HandoffError)
          → ((amount : ℕ) → b.signature_is_valid ≡ true → ¬ IsAcquired keys unpack b amount)
          → permits d' ≡ permits d + 1
          → d'.rows ≡ d.rows
          → d'.watchers ≡ d.watchers
          → IsHandedOver d b d' (err why)
      opened :
          (amount : ℕ) (row : PositionRow) (position : Position K)
          → IsAcquired keys unpack b amount
          → IsRowOf b amount row
          → IsPositionOf t b amount position
          → d'.bot ≡ d.bot
          → d'.rows ≡ row ∷ d.rows
          → d'.watchers ≡ position ∷ d.watchers
          → IsHandedOver d b d' (ok tt)

    -- A handover fails only if the signature's text is none, or the tokens were not confirmed and read
    -- back as below; it gives the permit back, writes no row and starts no watcher. One that succeeds
    -- keeps the permit, writes one row and starts one watcher, on the mint and the pool that were bought,
    -- at the price of the signal's amount over the amount acquired, with the configured tip, slippage
    -- and sentinel for its sale. Row, watcher and sale have the amount that an initialised token account
    -- of the mint and the user really holds, which is above zero, after the transaction was confirmed in
    -- one of forty polls.
    pub confirm_and_handoff_lem :
        (d : Desk S K) (b : Bought K)
        → let (d', r) = confirm_and_handoff keys unpack sem t d b in IsHandedOver d b d' r
    unfolding confirm_and_handoff drop_permit
    confirm_and_handoff_lem d b = elim (Checked-cases (acquired keys unpack b)) [
      | inl (amount, e) ↦ rw e (
          opened amount (row_of b amount) (position_of t b amount) (acquired_lem keys unpack b e)
            (row_of-IsRowOf b amount) (position_of-IsPositionOf t b amount) refl refl refl)
      | inr (why, e) ↦ rw e (
          failed why (nothing_acquired keys unpack b e)
            (sem.available-release d.bot.position_semaphore) refl refl)
    ]
