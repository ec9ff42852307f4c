-- ===== src/Ingest/Listener.antt =====
-- core/src/websocket.rs: the watchlist, the subscription and the loops of `run_listener`, over lists
-- of what the socket delivers and of what `select!` chooses. serde's reading of a text is a parameter.
use alpha_whales.Common.{
  ℕ, ◌+◌, Option, none, some, Bool, true, false, not, List, [], ◌∷◌, String, KeyEq, text_key,
  number_key, ◌==◌, filter, is_some,
}
use alpha_whales.Common.Keys.{Keys}
use alpha_whales.Common.Checked.{Checked, ok, err, ◌>>=◌, ◌>>◌, fail_if, ok_or}
use alpha_whales.Config.{AppConfig}
use alpha_whales.Ingest.{Decoders, TransactionNotification}
use alpha_whales.Ingest.Stream.{
  Sending, Stream, increment, NotificationError, protocol, channel_closed,
  process_notification_payload,
}
use text.Mathlib.Text.{starts_with}

abbrev pub ws_receive_timeout : ℕ
ws_receive_timeout = 86_400

-- The lines of approved_watchlist.csv but the first, each as its first field, trimmed.
unfoldable pub watchlist_wallets : List String → List String
watchlist_wallets [] = []
watchlist_wallets (heading ∷ lines) = filter (λ wallet. not (wallet == "")) lines

pub data ListenerError : Type 0 where
  not_wss no_watchlist empty_watchlist disconnected_channel : ListenerError
  invalid_wallet : String → ListenerError

-- What `validate_subscription_ack` reads of the response.
pub record AckResponse : Type 0 where
  pub has_error : Bool
  pub id : Option ℕ
  pub subscription : Option ℕ

pub data AckError : Type 0 where
  not_json rejected id_not_numeric result_not_numeric : AckError
  id_mismatch : ℕ → AckError
  timed_out closed read_failed not_utf8 pong_failed : AckError

unfoldable pub validate_subscription_ack : Option AckResponse → Checked AckError ℕ
validate_subscription_ack response = do
  ack ← ok_or response not_json
  fail_if ack.has_error rejected
  id ← ok_or ack.id id_not_numeric
  fail_if (not (id == 1)) (id_mismatch id)
  ok_or ack.subscription result_not_numeric

-- What `read.next()` gives; a binary frame that is no UTF-8 is `none`, and a ping comes with whether
-- it can be answered.
pub data Delivery : Type 0 where
  at_end failed : Delivery
  text_frame : String → Delivery
  binary : Option String → Delivery
  ping : Bool → Delivery
  pong frame close : Delivery

-- What `select!` chooses: the deadline; the ping that is due, and whether it is sent; or a delivery,
-- with the receipt time, if the clock gives one, and the instant.
pub data Event : Type 0 where
  deadline : Event
  ping_due : Bool → Event
  message : Delivery → Option ℕ → ℕ → Event

-- How a connection stands.
pub data Connection : Type 0 where
  open_until : ℕ → Connection
  broken : Connection
  returned : ListenerError → Connection

-- One round of the listener's outer loop.
pub data Session : Type 0 where
  refused : Session
  -- what is delivered up to the acknowledgment, the instant of it, and what follows
  connected : List Delivery → ℕ → List Event → Session

module _ {K : Type 0} ⦃key : KeyEq K⦄ (keys : Keys K) (parse : Decoders K) where
  open parse use {pubkey_from_str}

  -- `build_subscription_request`: the wallets that go into the request.
  unfoldable pub build_subscription_request : List String → Checked ListenerError (List String)
  build_subscription_request [] = ok []
  build_subscription_request (wallet ∷ wallets) = do
    fail_if (not (is_some (pubkey_from_str wallet))) (invalid_wallet wallet)
    rest ← build_subscription_request wallets
    ok (wallet ∷ rest)

  -- Up to the loop.
  unfoldable pub prepare : String → Option (List String) → Checked ListenerError (List String)
  unfolding watchlist_wallets build_subscription_request
  prepare url content = do
    fail_if (not (starts_with url "wss://")) not_wss
    lines ← ok_or content no_watchlist
    let wallets = watchlist_wallets lines
    fail_if (is_empty wallets) empty_watchlist
    build_subscription_request wallets
    where
      is_empty : List String → Bool
      is_empty [] = true
      is_empty (wallet ∷ wallets) = false

-- What follows a turn that leaves the connection open, and a session whose connection is broken.
abbrev pub while_open :
    Stream × Connection → (Stream → ℕ → Stream × Connection) → Stream × Connection
while_open (s, open_until until) rest = rest s until
while_open (s, broken) rest = (s, broken)
while_open (s, returned why) rest = (s, returned why)

abbrev pub when_broken : Stream × Connection → (Stream → Stream × Connection) → Stream × Connection
when_broken (s, open_until until) rest = (s, open_until until)
when_broken (s, broken) rest = rest s
when_broken (s, returned why) rest = (s, returned why)

module _ (ack_of : String → Option AckResponse) where
  -- The loop of `subscribe_and_wait_for_ack`. Deliveries that end are the timeout.
  unfoldable pub wait_for_ack : List Delivery → Checked AckError ℕ
  unfolding validate_subscription_ack
  wait_for_ack [] = err timed_out
  wait_for_ack (at_end ∷ rest) = err closed
  wait_for_ack (failed ∷ rest) = err read_failed
  wait_for_ack (text_frame payload ∷ rest) = validate_subscription_ack (ack_of payload)
  wait_for_ack (binary none ∷ rest) = err not_utf8
  wait_for_ack (binary (some payload) ∷ rest) = validate_subscription_ack (ack_of payload)
  wait_for_ack (ping true ∷ rest) = wait_for_ack rest
  wait_for_ack (ping false ∷ rest) = err pong_failed
  wait_for_ack (pong ∷ rest) = wait_for_ack rest
  wait_for_ack (frame ∷ rest) = wait_for_ack rest
  wait_for_ack (close ∷ rest) = err closed

module _ {K : Type 0} ⦃key : KeyEq K⦄ (keys : Keys K) (parse : Decoders K) (try_send : ℕ → Sending)
    (config : AppConfig) (notification_of : String → Option TransactionNotification)
    (ack_of : String → Option AckResponse) where
  abbrev pub after_payload : ℕ → Stream × Checked NotificationError (Unit {0}) → Stream × Connection
  after_payload now (s, ok _) = (s, open_until (now + ws_receive_timeout))
  after_payload now (s, err protocol) = (s, broken)
  after_payload now (s, err channel_closed) = (s, returned disconnected_channel)

  abbrev pub on_payload : Stream → ℕ → ℕ → String → Option ℕ → ℕ → Stream × Connection
  on_payload s until id payload none now =
      (record s { decode_failures = increment s.decode_failures }, open_until until)
  on_payload s until id payload (some observed_at_ms) now = after_payload now (
      process_notification_payload keys parse try_send config s (notification_of payload) id
        observed_at_ms)

  -- One turn of the loop 'connection, up to its end.
  unfoldable pub on_event : Stream → ℕ → ℕ → Event → Stream × Connection
  on_event s until id deadline = (s, broken)
  on_event s until id (ping_due true) = (s, open_until until)
  on_event s until id (ping_due false) = (s, broken)
  on_event s until id (message at_end receipt now) = (s, broken)
  on_event s until id (message failed receipt now) = (s, broken)
  on_event s until id (message (text_frame payload) receipt now) =
      on_payload s until id payload receipt now
  on_event s until id (message (binary (some payload)) receipt now) =
      on_payload s until id payload receipt now
  on_event s until id (message (binary none) receipt now) = (s, broken)
  on_event s until id (message (ping true) receipt now) = (s, open_until until)
  on_event s until id (message (ping false) receipt now) = (s, broken)
  on_event s until id (message pong receipt now) = (s, open_until until)
  on_event s until id (message frame receipt now) = (s, open_until until)
  on_event s until id (message close receipt now) = (s, broken)

  unfoldable pub run_connection : Stream → ℕ → ℕ → List Event → Stream × Connection
  unfolding on_event
  run_connection s until id [] = (s, open_until until)
  run_connection s until id (e ∷ events) =
      while_open (on_event s until id e) (λ s' until'. run_connection s' until' id events)

  abbrev pub start_session : Stream → Checked AckError ℕ → ℕ → List Event → Stream × Connection
  start_session s (err why) now events = (s, broken)
  start_session s (ok id) now events =
      run_connection (record s { stream_epoch = increment s.stream_epoch })
        (now + ws_receive_timeout) id events

  unfoldable pub run_session : Stream → Session → Stream × Connection
  unfolding run_connection wait_for_ack
  run_session s refused = (s, broken)
  run_session s (connected deliveries now events) =
      start_session s (wait_for_ack ack_of deliveries) now events

  -- The outer loop: it goes on to the next session when one is broken.
  unfoldable pub run_listener : Stream → List Session → Stream × Connection
  unfolding run_session
  run_listener s [] = (s, broken)
  run_listener s (session ∷ sessions) =
      when_broken (run_session s session) (λ s'. run_listener s' sessions)
