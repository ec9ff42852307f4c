-- ===== src/Ingest/Accounts.antt =====
-- Where the decoded swaps go: into the queue, or into one of the counters of drops.
use alpha_whales.Common.{
  ℕ, ◌+◌, ◌%◌, ◌≡◌, subst, inl, inr, Option, none, some, true, false, List, [], ◌∷◌, String, KeyEq,
  ◌==◌, text_key, number_key, length, length-append, u64_mod, arith, Bool-cases,
}
use alpha_whales.Common.Keys.{Keys}
use alpha_whales.Common.Checked.{Checked, ok, err, Checked-cases}
use alpha_whales.Config.{AppConfig}
use alpha_whales.Ingest.{Decoders, TransactionNotification, DecodedSwap, DecodeError}
use alpha_whales.Ingest.Notification.{decode_notification}
use alpha_whales.Ingest.Stream.{
  Sending, sent, full, disconnected, Stream, increment, NotificationError, protocol, channel_closed,
  passes_filter, after_send, count_decoded, enqueue_decoded_swap, enqueue_all, after_decoding,
  process_notification_payload,
}
use alpha_whales.Ingest.Listener.{
  AckResponse, at_end, failed, text_frame, binary, ping, pong, frame, close, Event, deadline,
  ping_due, message, Connection, open_until, broken, returned, Session, refused, connected,
  while_open, when_broken, AckError, after_payload, on_payload, on_event, run_connection,
  start_session, wait_for_ack, run_session, run_listener,
}

-- The decoded swaps, `extra` of which reached no counter and no queue.
abbrev pub IsAccounted : ℕ → Stream → Type 0
IsAccounted extra s =
    s.swaps_decoded ≡ (s.filter_drops + s.ws_queue_full_drops + length s.queued + extra) % u64_mod

abbrev pub unplaced : Checked NotificationError (Unit {0}) → ℕ
unplaced (ok _) = 0
unplaced (err protocol) = 0
unplaced (err channel_closed) = 1

abbrev pub unplaced_at : Connection → ℕ
unplaced_at (open_until until) = 0
unplaced_at broken = 0
unplaced_at (returned why) = 1

module _ {K : Type 0} ⦃key : KeyEq K⦄ (keys : Keys K) (parse : Decoders K) (try_send : ℕ → Sending)
    (config : AppConfig) where
  after_send-IsAccounted :
      (s : Stream) (d : DecodedSwap K) (answer : Sending)
      → IsAccounted 0 s
      → let (s', r) = after_send keys (count_decoded s) d answer in IsAccounted (unplaced r) s'
  after_send-IsAccounted s d sent h = rw (length-append s.queued) (omega (arith, h))
  after_send-IsAccounted s d full h = omega (arith, h)
  after_send-IsAccounted s d disconnected h = omega (arith, h)

  enqueue-IsAccounted :
      (s : Stream) (d : DecodedSwap K)
      → IsAccounted 0 s
      → let (s', r) = enqueue_decoded_swap keys parse try_send config s d in
        IsAccounted (unplaced r) s'
  unfolding enqueue_decoded_swap
  enqueue-IsAccounted s d h = elim (Bool-cases (passes_filter parse config d)) [
    | inl e ↦ rw e (after_send-IsAccounted s d (try_send s.sends) h)
    | inr e ↦ rw e (omega (arith, h))
  ]

  enqueue_all-IsAccounted :
      (s : Stream) (ds : List (DecodedSwap K))
      → IsAccounted 0 s
      → let (s', r) = enqueue_all keys parse try_send config s ds in IsAccounted (unplaced r) s'
  unfolding enqueue_all
  enqueue_all-IsAccounted s [] h = h
  enqueue_all-IsAccounted s (d ∷ ds) h =
      elim (Checked-cases (enqueue_decoded_swap keys parse try_send config s d).1) [
        | inl (u, e) ↦
            rw (enqueue_all, e) (enqueue_all-IsAccounted (next s d) ds (at_result s d h e))
        | inr (why, e) ↦ rw (enqueue_all, e) (at_result s d h e)
      ]
    where
      next : Stream → DecodedSwap K → Stream
      next s d = (enqueue_decoded_swap keys parse try_send config s d).0

      at_result :
          (s : Stream) (d : DecodedSwap K) {r : Checked NotificationError (Unit {0})}
          → IsAccounted 0 s
          → (enqueue_decoded_swap keys parse try_send config s d).1 ≡ r
          → IsAccounted (unplaced r) (next s d)
      at_result s d h e =
          subst (λ r. IsAccounted (unplaced r) (next s d)) e (enqueue-IsAccounted s d h)

  after_decoding-IsAccounted :
      (s : Stream) (r : Checked DecodeError (List (DecodedSwap K)))
      → IsAccounted 0 s
      → let (s', result) = after_decoding keys parse try_send config s r in
        IsAccounted (unplaced result) s'
  after_decoding-IsAccounted s (err why) h = h
  after_decoding-IsAccounted s (ok ds) h = enqueue_all-IsAccounted s ds h

  payload-IsAccounted :
      (s : Stream) (n : Option TransactionNotification) (id at : ℕ)
      → IsAccounted 0 s
      → let (s', r) = process_notification_payload keys parse try_send config s n id at in
        IsAccounted (unplaced r) s'
  unfolding process_notification_payload
  payload-IsAccounted s none id at h = h
  payload-IsAccounted s (some n) id at h =
      elim (Bool-cases (n.method == "transactionNotification")) [
        | inr e ↦ rw e h
        | inl e ↦ rw e (elim (Bool-cases (n.subscription == id)) [
          | inr e' ↦ rw e' h
          | inl e' ↦ rw e' (
              after_decoding-IsAccounted
                (record s { notifications_received = increment s.notifications_received })
                (decode_notification keys parse n at) h)
        ])
      ]

abbrev Accounts : Stream × Connection → Type 0
Accounts (s, c) = IsAccounted (unplaced_at c) s

while_open-Accounts :
    (r : Stream × Connection) (rest : Stream → ℕ → Stream × Connection)
    → Accounts r
    → ((s : Stream) (until : ℕ) → IsAccounted 0 s → Accounts (rest s until))
    → Accounts (while_open r rest)
while_open-Accounts (s, open_until until) rest h keep = keep s until h
while_open-Accounts (s, broken) rest h keep = h
while_open-Accounts (s, returned why) rest h keep = h

when_broken-Accounts :
    (r : Stream × Connection) (rest : Stream → Stream × Connection)
    → Accounts r
    → ((s : Stream) → IsAccounted 0 s → Accounts (rest s))
    → Accounts (when_broken r rest)
when_broken-Accounts (s, open_until until) rest h keep = h
when_broken-Accounts (s, broken) rest h keep = keep s h
when_broken-Accounts (s, returned why) rest h keep = h

module _ {K : Type 0} ⦃key : KeyEq K⦄ (keys : Keys K) (parse : Decoders K) (try_send : ℕ → Sending)
    (config : AppConfig) (notification_of : String → Option TransactionNotification)
    (ack_of : String → Option AckResponse) where
  on_payload-IsAccounted :
      (s : Stream) (until id : ℕ) (payload : String) (receipt : Option ℕ) (now : ℕ)
      → IsAccounted 0 s
      → Accounts (
          on_payload keys parse try_send config notification_of ack_of s until id payload receipt
            now)
  on_payload-IsAccounted s until id payload none now h = h
  on_payload-IsAccounted s until id payload (some at) now h =
      settled
        (process_notification_payload keys parse try_send config s (notification_of payload) id at)
        (payload-IsAccounted keys parse try_send config s (notification_of payload) id at h)
    where
      settled :
          (r : Stream × Checked NotificationError (Unit {0}))
          → IsAccounted (unplaced r.1) r.0
          → Accounts (after_payload keys parse try_send config notification_of ack_of now r)
      settled (s', ok _) h' = h'
      settled (s', err protocol) h' = h'
      settled (s', err channel_closed) h' = h'

  on_event-IsAccounted :
      (s : Stream) (until id : ℕ) (e : Event)
      → IsAccounted 0 s
      → Accounts (on_event keys parse try_send config notification_of ack_of s until id e)
  unfolding on_event
  on_event-IsAccounted s until id deadline h = h
  on_event-IsAccounted s until id (ping_due true) h = h
  on_event-IsAccounted s until id (ping_due false) h = h
  on_event-IsAccounted s until id (message at_end receipt now) h = h
  on_event-IsAccounted s until id (message failed receipt now) h = h
  on_event-IsAccounted s until id (message (text_frame payload) receipt now) h =
      on_payload-IsAccounted s until id payload receipt now h
  on_event-IsAccounted s until id (message (binary (some payload)) receipt now) h =
      on_payload-IsAccounted s until id payload receipt now h
  on_event-IsAccounted s until id (message (binary none) receipt now) h = h
  on_event-IsAccounted s until id (message (ping true) receipt now) h = h
  on_event-IsAccounted s until id (message (ping false) receipt now) h = h
  on_event-IsAccounted s until id (message pong receipt now) h = h
  on_event-IsAccounted s until id (message frame receipt now) h = h
  on_event-IsAccounted s until id (message close receipt now) h = h

  run_connection-IsAccounted :
      (s : Stream) (until id : ℕ) (events : List Event)
      → IsAccounted 0 s
      → Accounts
          (run_connection keys parse try_send config notification_of ack_of s until id events)
  unfolding run_connection
  run_connection-IsAccounted s until id [] h = h
  run_connection-IsAccounted s until id (e ∷ events) h =
      while_open-Accounts (on_event keys parse try_send config notification_of ack_of s until id e)
        _ (on_event-IsAccounted s until id e h)
        (λ s' until' h'. run_connection-IsAccounted s' until' id events h')

  run_session-IsAccounted :
      (s : Stream) (session : Session)
      → IsAccounted 0 s
      → Accounts (run_session keys parse try_send config notification_of ack_of s session)
  unfolding run_session
  run_session-IsAccounted s refused h = h
  run_session-IsAccounted s (connected deliveries now events) h =
      started (wait_for_ack ack_of deliveries)
    where
      started :
          (r : Checked AckError ℕ)
          → Accounts
              (start_session keys parse try_send config notification_of ack_of s r now events)
      started (err why) = h
      started (ok id) =
          run_connection-IsAccounted (record s { stream_epoch = increment s.stream_epoch }) _ id
            events h

  -- Whatever is delivered over any number of connections, each decoded swap is counted as filtered or
  -- as dropped at a full queue, or is in the queue, up to the wrap of the counters: but for the last
  -- one where the listener returns, as its channel is disconnected.
  pub run_listener-IsAccounted :
      (s : Stream) (sessions : List Session)
      → IsAccounted 0 s
      → let (s', c) = run_listener keys parse try_send config notification_of ack_of s sessions in
        IsAccounted (unplaced_at c) s'
  unfolding run_listener
  run_listener-IsAccounted s [] h = h
  run_listener-IsAccounted s (session ∷ sessions) h =
      when_broken-Accounts (run_session keys parse try_send config notification_of ack_of s session)
        _ (run_session-IsAccounted s session h) (λ s' h'. run_listener-IsAccounted s' sessions h')
