-- ===== src/Webhook.antt =====
-- alpha-whales/src/webhook.rs: the signals that a webhook's payload gives (`handle_webhook`). The
-- payload is what serde makes of it; `try_send n` tells whether the n-th call of the channel's
-- `try_send` has room. A trade's size is in lamports, of which the source takes the billionth.
mod Bought
mod Tests
pub use Bought.{HeliusTokenTransfer, wrapped_sol, first_output, received_mint, or_received}
use Bought.{IsBought, or_received_lem}
use alpha_whales.Common.{
  ℕ, ◌+◌, ◌*◌, ◌≤◌, ◌<◌, ◌≡◌, ◌≢◌, refl, ◌⊎◌, inl, inr, subst, Option, none, some, Bool, true,
  false, not, ◌&&◌, List, [], ◌∷◌, ◌++◌, String, text_key, ◌==◌, ltb, if◌then◌else◌, length, All,
  All-append, u64_mod, arith, Bool-cases, Option-cases,
}
use alpha_whales.Common.Checked.{Checked, ok, err}
use alpha_whales.Common.Maps.{Map, get}
use alpha_whales.Common.Words.{checked, unwrap_or, checked-eq_some}
use text.Mathlib.TextEquality.{eq_iff}
use alpha_whales.Config.Reload.{
  WhaleLane, conservative, swing, degen, sniper, unknown, WhaleProfile,
}

-- `token_outputs` are the mints of the outputs of the swap's event, if it has one.
pub record HeliusWebhookPayload : Type 0 where
  pub event_type : String
  pub fee_payer : String
  pub timestamp : ℕ
  pub token_outputs : Option (List String)
  pub token_transfers : Option (List HeliusTokenTransfer)

-- `WhaleSignal` of core/src/types.rs
pub record SentSignal : Type 0 where
  pub target_mint : String
  pub whale_wallet : String
  pub trade_size_lamports : ℕ
  pub timestamp_ms : ℕ
  pub lane : WhaleLane

unfoldable pub webhook_timestamp_ms : ℕ → Option ℕ
webhook_timestamp_ms timestamp_seconds = checked u64_mod (timestamp_seconds * 1_000)

unfoldable pub bought_mint : HeliusWebhookPayload → Option String
unfolding received_mint
bought_mint trade =
    or_received (first_output trade.token_outputs) trade.fee_payer trade.token_transfers

bought_mint_lem :
    (trade : HeliusWebhookPayload) (mint : String)
    → bought_mint trade ≡ some mint
    → IsBought trade.token_outputs trade.fee_payer trade.token_transfers mint
unfolding bought_mint
bought_mint_lem trade mint h =
    or_received_lem trade.token_outputs trade.fee_payer trade.token_transfers mint h

unfoldable pub lane_size : WhaleLane → ℕ
lane_size conservative = 30_000_000
lane_size swing = 20_000_000
lane_size degen = 10_000_000
lane_size sniper = 50_000_000
lane_size unknown = 10_000_000

module _ {F : Type 0} (watchlist : Map String (WhaleProfile F)) where
  abbrev pub lane_in : Option (WhaleProfile F) → WhaleLane
  lane_in none = unknown
  lane_in (some profile) = profile.lane

  abbrev pub size_in : Option (WhaleProfile F) → ℕ
  size_in none = 10_000_000
  size_in (some profile) = lane_size profile.lane

  abbrev pub timed : HeliusWebhookPayload → String → Option ℕ → Option SentSignal
  timed trade mint none = none
  timed trade mint (some timestamp_ms) =
      let profile = get trade.fee_payer watchlist in
      some (record {
        target_mint = mint;
        whale_wallet = trade.fee_payer;
        trade_size_lamports = size_in profile;
        timestamp_ms = timestamp_ms;
        lane = lane_in profile;
      })

  abbrev pub of_mint : HeliusWebhookPayload → Option String → Option SentSignal
  of_mint trade none = none
  of_mint trade (some mint) = timed trade mint (webhook_timestamp_ms trade.timestamp)

  -- The signal of one transaction, if it gives one.
  unfoldable pub signal_of : HeliusWebhookPayload → Option SentSignal
  unfolding bought_mint webhook_timestamp_ms lane_size
  signal_of trade =
      if not (trade.event_type == "SWAP") then none else of_mint trade (bought_mint trade)

  abbrev pub queue_after : (ℕ → Bool) → Option SentSignal → ℕ → List SentSignal × ℕ
  queue_after try_send none sends = ([], sends)
  queue_after try_send (some signal) sends = (if try_send sends then signal ∷ [] else [], sends + 1)

  -- The signals that are put into the channel, and the calls of `try_send`.
  unfoldable pub send_signals : (ℕ → Bool) → List HeliusWebhookPayload → ℕ → List SentSignal × ℕ
  unfolding signal_of
  send_signals try_send [] sends = ([], sends)
  send_signals try_send (trade ∷ trades) sends =
      let (now, sends') = queue_after try_send (signal_of trade) sends in
      let (later, sends'') = send_signals try_send trades sends' in (now ++ later, sends'')

  pub data StatusCode : Type 0 where
    unauthorized ok_status : StatusCode

  -- The header is what it holds as a text, if it is there and is one.
  unfoldable pub handle_webhook :
      (ℕ → Bool) → String → Option String → List HeliusWebhookPayload → List SentSignal × StatusCode
  unfolding send_signals
  handle_webhook try_send api_key authorization payload =
      if not (unwrap_or authorization "" == api_key)
      then ([], unauthorized)
      else ((send_signals try_send payload 0).0, ok_status)

  -- The signal is that of one of the transactions.
  abbrev pub ComesFrom : List HeliusWebhookPayload → SentSignal → Type 0
  ComesFrom [] signal = ⊥
  ComesFrom (trade ∷ trades) signal = (signal_of trade ≡ some signal) ⊎ ComesFrom trades signal

  weaken :
      (trade : HeliusWebhookPayload) (trades : List HeliusWebhookPayload)
      (signals : List SentSignal)
      → All (ComesFrom trades) signals
      → All (ComesFrom (trade ∷ trades)) signals
  weaken trade trades [] h = tt
  weaken trade trades (s ∷ signals) h = (inr h.0, weaken trade trades signals h.1)

  now_from :
      (try_send : ℕ → Bool) (trade : HeliusWebhookPayload) (trades : List HeliusWebhookPayload)
      (sends : ℕ) (o : Option SentSignal)
      → signal_of trade ≡ o
      → All (ComesFrom (trade ∷ trades)) (queue_after try_send o sends).0
  now_from try_send trade trades sends none e = tt
  now_from try_send trade trades sends (some signal) e = elim (Bool-cases (try_send sends)) [
    | inl room ↦ rw room (inl e, tt)
    | inr full ↦ rw full tt
  ]

  send_signals_from :
      (try_send : ℕ → Bool) (trades : List HeliusWebhookPayload) (sends : ℕ)
      → All (ComesFrom trades) (send_signals try_send trades sends).0
  unfolding send_signals
  send_signals_from try_send [] sends = tt
  send_signals_from try_send (trade ∷ trades) sends =
      All-append (ComesFrom (trade ∷ trades)) (queue_after try_send (signal_of trade) sends).0 _
        (now_from try_send trade trades sends (signal_of trade) refl)
        (weaken trade trades _
          (send_signals_from try_send trades (queue_after try_send (signal_of trade) sends).1))

  -- A signal that is queued is for a swap of the named wallet, of one to five hundredths of a SOL,
  -- with the time of the transaction in milliseconds.
  abbrev pub IsSwapSignal : HeliusWebhookPayload → SentSignal → Type 0
  IsSwapSignal trade signal =
      (trade.event_type ≡ "SWAP")
      × IsBought trade.token_outputs trade.fee_payer trade.token_transfers signal.target_mint
      × (signal.whale_wallet ≡ trade.fee_payer)
      × (signal.timestamp_ms ≡ trade.timestamp * 1_000)
      × (signal.timestamp_ms < u64_mod)
      × (10_000_000 ≤ signal.trade_size_lamports)
      × (signal.trade_size_lamports ≤ 50_000_000)

  abbrev pub IsSignalOf : List HeliusWebhookPayload → SentSignal → Type 0
  IsSignalOf [] signal = ⊥
  IsSignalOf (trade ∷ trades) signal = IsSwapSignal trade signal ⊎ IsSignalOf trades signal

  size_bounds : (o : Option (WhaleProfile F)) → (10_000_000 ≤ size_in o) × (size_in o ≤ 50_000_000)
  unfolding lane_size
  size_bounds none = omega arith
  size_bounds (some profile) = ground arith

  timed_lem :
      (trade : HeliusWebhookPayload) (mint : String) (o : Option ℕ) {signal : SentSignal}
      → trade.event_type ≡ "SWAP"
      → bought_mint trade ≡ some mint
      → webhook_timestamp_ms trade.timestamp ≡ o
      → timed trade mint o ≡ some signal
      → IsSwapSignal trade signal
  unfolding webhook_timestamp_ms
  timed_lem trade mint none swap bought when_ h = absurd (ground arith)
  timed_lem trade mint (some t) swap bought when_ h =
      let (low, high) = size_bounds (get trade.fee_payer watchlist) in
      let (same, small) = checked-eq_some u64_mod (trade.timestamp * 1_000) t when_ in
      subst (IsSwapSignal trade) (some_inj h) (
        swap,
        bought_mint_lem trade mint bought,
        refl,
        omega (arith, same),
        omega (arith, same, small),
        low,
        high,
      )
    where
      some_inj : {a b : SentSignal} → Path (Option SentSignal) (some a) (some b) → a ≡ b
      some_inj e = ground arith

  signal_of_lem :
      (trade : HeliusWebhookPayload) {signal : SentSignal}
      → signal_of trade ≡ some signal
      → IsSwapSignal trade signal
  unfolding signal_of
  signal_of_lem trade {signal} h = elim (Option-cases (bought_mint trade)) [
    | inl bought ↦ absurd (unfold signal_of in ground (arith, bought, h))
    | inr (mint, bought) ↦
        let swap : (trade.event_type == "SWAP") ≡ true = (ground (arith, bought, h)) in
        let made : timed trade mint (webhook_timestamp_ms trade.timestamp) ≡ some signal =
          (ground (arith, bought, swap, h)) in
        timed_lem trade mint (webhook_timestamp_ms trade.timestamp)
          ((eq_iff trade.event_type "SWAP").0 swap) bought refl made
  ]

  comes_lem :
      (trades : List HeliusWebhookPayload) (signal : SentSignal)
      → ComesFrom trades signal
      → IsSignalOf trades signal
  comes_lem [] signal h = h
  comes_lem (trade ∷ trades) signal (inl e) = inl (signal_of_lem trade e)
  comes_lem (trade ∷ trades) signal (inr later) = inr (comes_lem trades signal later)

  each_comes :
      (trades : List HeliusWebhookPayload) (signals : List SentSignal)
      → All (ComesFrom trades) signals
      → All (IsSignalOf trades) signals
  each_comes trades [] h = tt
  each_comes trades (s ∷ signals) h = (comes_lem trades s h.0, each_comes trades signals h.1)

  -- Without the right key a webhook puts nothing into the channel and is answered as unauthorized. With
  -- it, whatever room the channel has, every signal that it puts there is of a transaction in the
  -- payload that is a swap, by its payer, between one and five hundredths of a SOL, at the
  -- transaction's time in milliseconds, which is a machine word. Its mint is the first of the swap's
  -- outputs, or, if there is none, that of the first transfer to the payer that is not of wrapped SOL.
  pub handle_webhook_lem :
      (try_send : ℕ → Bool) (api_key : String) (authorization : Option String)
      (payload : List HeliusWebhookPayload)
      → let (signals, status) = handle_webhook try_send api_key authorization payload in
        (unwrap_or authorization "" ≢ api_key → (signals ≡ []) × (status ≡ unauthorized))
        × All (IsSignalOf payload) signals
  unfolding handle_webhook
  handle_webhook_lem try_send api_key authorization payload =
      elim (Bool-cases (unwrap_or authorization "" == api_key)) [
        | inl e ↦ rw e (
          λ wrong. absurd (wrong ((eq_iff (unwrap_or authorization "") api_key).0 e)),
          each_comes payload _ (send_signals_from try_send payload 0),
        )
        | inr e ↦ rw e (λ wrong. (refl, refl), tt)
      ]
