-- ===== src/Ingest/Stream.antt =====
-- core/src/websocket.rs: the counters, the filter and the channel to the watchers
-- (`enqueue_decoded_swap`, `process_notification_payload`), and what the listener does with what the
-- socket delivers (`run_listener`). `try_send n` is what the n-th call of the channel's `try_send`
-- comes to. An atomic counter wraps.
use alpha_whales.Common.{
  ℕ, ◌+◌, ◌%◌, Option, none, some, Bool, true, false, not, ◌&&◌, ◌||◌, List, [], ◌∷◌, ◌++◌, String,
  KeyEq, text_key, number_key, ◌==◌, ltb, if◌then◌else◌, any, u64_mod,
}
use alpha_whales.Common.Keys.{Keys}
use alpha_whales.Common.Checked.{Checked, ok, err}
use alpha_whales.Config.{AppConfig}
use alpha_whales.Types.{SwapEvent}
use alpha_whales.Ingest.{Decoders, TransactionNotification, DecodedSwap}
use alpha_whales.Ingest.Notification.{decode_notification}

pub data Sending : Type 0 where
  sent full disconnected : Sending

-- The statics of the module, and the channel: the calls of `try_send` and what they put in.
pub record Stream : Type 0 where
  pub stream_epoch : ℕ
  pub notifications_received : ℕ
  pub swaps_decoded : ℕ
  pub decode_failures : ℕ
  pub filter_drops : ℕ
  pub ws_queue_full_drops : ℕ
  pub sends : ℕ
  pub queued : List SwapEvent

-- `fetch_add(1)`
abbrev pub increment : ℕ → ℕ
increment n = (n + 1) % u64_mod

pub data NotificationError : Type 0 where
  protocol channel_closed : NotificationError

abbrev pub is_key : {K : Type 0} ⦃key : KeyEq K⦄ → K → Option K → Bool
is_key target none = false
is_key target (some mint) = mint == target

abbrev pub count_decoded : Stream → Stream
count_decoded s = record s { swaps_decoded = increment s.swaps_decoded }

module _ {K : Type 0} ⦃key : KeyEq K⦄ (parse : Decoders K) where
  open parse use {pubkey_from_str}

  abbrev pub matches_list : List String → K → Bool
  matches_list [] target_mint = true
  matches_list (text ∷ texts) target_mint =
      any (λ configured. is_key target_mint (pubkey_from_str configured)) (text ∷ texts)

  unfoldable pub configured_target_matches : AppConfig → K → Bool
  configured_target_matches config target_mint = elim config.target_mints [
    | none ↦ true
    | some target_mints ↦ matches_list target_mints target_mint
  ]

  -- Whether the filter lets a swap through.
  unfoldable pub passes_filter : AppConfig → DecodedSwap K → Bool
  unfolding configured_target_matches
  passes_filter config decoded = not (
      not (configured_target_matches config decoded.target_mint)
      || (ltb 0 config.min_swap_lamports && ltb decoded.quote_amount config.min_swap_lamports))

module _ {K : Type 0} (keys : Keys K) where
  unfoldable pub into_swap_event : DecodedSwap K → ℕ → SwapEvent
  into_swap_event decoded stream_epoch = record {
    target_mint = keys.to_string decoded.target_mint;
    pool_id = keys.to_string decoded.pool_id;
    base_amount = decoded.base_amount;
    quote_amount = decoded.quote_amount;
    timestamp_ms = decoded.observed_at_ms;
    source_signature = decoded.signature;
    source_slot = decoded.source_slot;
    outer_instruction_index = decoded.outer_instruction_index;
    inner_instruction_index = decoded.inner_instruction_index;
    stream_epoch = stream_epoch;
  }

  abbrev pub after_send :
      Stream → DecodedSwap K → Sending → Stream × Checked NotificationError (Unit {0})
  after_send s decoded sent = (
    record s {
      sends = s.sends + 1;
      queued = s.queued ++ (into_swap_event decoded s.stream_epoch ∷ []);
    },
    ok tt,
  )
  after_send s decoded full = (
    record s {
      sends = s.sends + 1;
      ws_queue_full_drops = increment s.ws_queue_full_drops;
      stream_epoch = increment s.stream_epoch;
    },
    ok tt,
  )
  after_send s decoded disconnected = (record s { sends = s.sends + 1 }, err channel_closed)

module _ {K : Type 0} ⦃key : KeyEq K⦄ (keys : Keys K) (parse : Decoders K) (try_send : ℕ → Sending)
    (config : AppConfig) where
  unfoldable pub enqueue_decoded_swap :
      Stream → DecodedSwap K → Stream × Checked NotificationError (Unit {0})
  unfolding passes_filter into_swap_event
  enqueue_decoded_swap s decoded =
      if not (passes_filter parse config decoded)
      then (record (count_decoded s) { filter_drops = increment s.filter_drops }, ok tt)
      else after_send keys (count_decoded s) decoded (try_send s.sends)

  -- The loop over the decoded swaps, which an error ends.
  unfoldable pub enqueue_all :
      Stream → List (DecodedSwap K) → Stream × Checked NotificationError (Unit {0})
  unfolding enqueue_decoded_swap
  enqueue_all s [] = (s, ok tt)
  enqueue_all s (decoded ∷ rest) =
      let (s', result) = enqueue_decoded_swap s decoded in
      elim result [ ok _ ↦ enqueue_all s' rest | err why ↦ (s', err why) ]

  abbrev pub after_decoding :
      {E : Type 0}
      → Stream
      → Checked E (List (DecodedSwap K))
      → Stream × Checked NotificationError (Unit {0})
  after_decoding s (err why) = (record s { decode_failures = increment s.decode_failures }, ok tt)
  after_decoding s (ok swaps) = enqueue_all s swaps

  -- The payload is what serde makes of it.
  unfoldable pub process_notification_payload :
      Stream
      → Option TransactionNotification
      → ℕ
      → ℕ
      → Stream × Checked NotificationError (Unit {0})
  unfolding decode_notification enqueue_all
  process_notification_payload s none expected_subscription observed_at_ms = (s, err protocol)
  process_notification_payload s (some notification) expected_subscription observed_at_ms =
      if not (notification.method == "transactionNotification")
      then (s, err protocol)
      else let s' = record s { notifications_received = increment s.notifications_received } in
        if not (notification.subscription == expected_subscription)
        then (s', err protocol)
        else after_decoding s' (decode_notification keys parse notification observed_at_ms)
