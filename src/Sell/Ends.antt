-- ===== src/Sell/Ends.antt =====
-- That a sale ends, after how many bundles, and what a failure means.
use alpha_whales.Common.{
  ℕ, zero, suc, ◌+◌, ◌≤◌, ◌≡◌, ◌≢◌, refl, ◌∙◌, ap, inl, inr, Option, none, some, List, [], ◌∷◌,
  String, KeyEq, number_key, ◌==◌, length, length-append, arith, Bool-cases,
}
use alpha_whales.Common.Floats.{F64}
use alpha_whales.Common.Checked.{Checked, ok, err, ◌>>=◌, Checked-cases, err_inj}
use alpha_whales.Dispatch.{ProtoPacket}
use alpha_whales.Dispatch.Bundle.{Sdk}
use alpha_whales.Execution.{Keys, Instruction}
use alpha_whales.Pool.{RaydiumPoolKeys}
use alpha_whales.Sell.{
  take_sell_tip, ExitError, sell_failed, JitoSellClient, Round, Submission, connect_jito,
  parse_tip_accounts, new_client,
}
use alpha_whales.Sell.Attempts.{
  Ending, again, stop, accepted, Sale, send, sell_once, on_connection, after_ending, retry_from,
  first_attempt, attempt_sell_bundle, pool_packets, pump_packets, packets_for, retry,
  after_send_bundle,
}

module _ {K M T Alt D F : Type 0} ⦃key : KeyEq K⦄ (keys : Keys K)
    (sdk : Sdk K (Instruction K) M T Alt D) (pubkey_from_str : String → Option K) (f64 : F64 F)
    (tip_scale : ℕ → F) (sale : Sale K) where
  -- One attempt of the sale, the connection included.
  abbrev pub attempt : (ℕ → Round T) → ℕ → List (Submission K D) × Ending
  attempt rounds n =
      on_connection keys sdk pubkey_from_str f64 tip_scale sale (rounds n) n
        (connect_jito pubkey_from_str (rounds n).connected)

  send-length :
      (round : Round T) (n : ℕ) (r : Checked Ending (K × List (ProtoPacket D) × String))
      → length (send keys sdk pubkey_from_str f64 tip_scale sale round n r).0 ≤ 1
  send-length round n (err ending) = omega arith
  send-length round n (ok (t, packets, signature)) = omega arith

  on_connection-length :
      (round : Round T) (n : ℕ) (c : Checked ExitError (JitoSellClient K))
      → length (on_connection keys sdk pubkey_from_str f64 tip_scale sale round n c).0 ≤ 1
  unfolding sell_once
  on_connection-length round n (err why) = omega arith
  on_connection-length round n (ok jito) = send-length round n _

  ending-length :
      (once : List (Submission K D) × Ending)
      (rest : String → List (Submission K D) × Checked ExitError (String × String)) (n : ℕ)
      → length once.0 ≤ 1
      → ((why : String) → length (rest why).0 ≤ n)
      → length (after_ending once rest).0 ≤ n + 1
  ending-length (sent, again why) rest n h more =
      omega (arith, length-append sent (rest why).0, h, more why)
  ending-length (sent, stop why) rest n h more = omega (arith, h)
  ending-length (sent, accepted bundle_id signature) rest n h more = omega (arith, h)

  retry_from-length :
      (rounds : ℕ → Round T) (left n : ℕ) (last_error : String)
      → length (retry_from keys sdk pubkey_from_str f64 tip_scale sale rounds left n last_error).0
        ≤ left
  unfolding retry_from
  retry_from-length rounds zero n last_error = omega arith
  retry_from-length rounds (suc left) n last_error = omega (
    arith,
    ending-length (attempt rounds n)
        (λ why. retry_from keys sdk pubkey_from_str f64 tip_scale sale rounds left (n + 1) why) left
        (on_connection-length (rounds n) n (connect_jito pubkey_from_str (rounds n).connected))
        (λ why. retry_from-length rounds left (n + 1) why),
  )

  first-length :
      (rounds : ℕ → Round T) (c : Checked ExitError (JitoSellClient K))
      → length (first_attempt keys sdk pubkey_from_str f64 tip_scale sale rounds c).0 ≤ 5
  first-length rounds (err why) = omega arith
  first-length rounds (ok jito) = omega (
    arith,
    ending-length (sell_once keys sdk pubkey_from_str f64 tip_scale sale (rounds 1) 1 jito)
        (λ why. retry_from keys sdk pubkey_from_str f64 tip_scale sale rounds 4 2 why) 4
        (on_connection-length (rounds 1) 1 (ok jito)) (λ why. retry_from-length rounds 4 2 why),
  )

  -- A sale sends at most five bundles, whatever the calls give.
  pub attempt_sell_bundle-length :
      (rounds : ℕ → Round T)
      → length (attempt_sell_bundle keys sdk pubkey_from_str f64 tip_scale sale rounds).0 ≤ 5
  unfolding attempt_sell_bundle
  attempt_sell_bundle-length rounds = elim (Bool-cases (sale.terms.acquired_amount == 0)) [
    | inl e ↦ rw e (omega arith)
    | inr e ↦ rw e (first-length rounds (connect_jito pubkey_from_str (rounds 1).connected))
  ]

  -- The attempt asks for another one.
  abbrev pub IsRetried : (ℕ → Round T) → ℕ → Type 0
  IsRetried rounds n = (why : String) × ((attempt rounds n).1 ≡ again why)

  ending_retried :
      (once : List (Submission K D) × Ending)
      (rest : String → List (Submission K D) × Checked ExitError (String × String)) {tried : ℕ}
      {last : String}
      → ((why : ExitError) → once.1 ≡ stop why → why ≢ sell_failed tried last)
      → (after_ending once rest).1 ≡ err (sell_failed tried last)
      → (why : String) × (once.1 ≡ again why) × ((rest why).1 ≡ err (sell_failed tried last))
  ending_retried (sent, again why) rest stops h = (why, refl, h)
  ending_retried (sent, stop why) rest stops h = absurd (stops why refl (ground arith))
  ending_retried (sent, accepted bundle_id signature) rest stops h = absurd (ground arith)

  pool_stops :
      (pool : RaydiumPoolKeys K) (n : ℕ) (jito : JitoSellClient K) (blockhash : String) {tried : ℕ}
      {last : String}
      → pool_packets keys sdk pubkey_from_str f64 tip_scale sale pool n jito blockhash
        ≢ err (stop (sell_failed tried last))
  unfolding pool_packets take_sell_tip
  pool_stops pool n jito blockhash h = absurd (ground arith)

  pump_stops :
      (round : Round T) (n : ℕ) (jito : JitoSellClient K) {tried : ℕ} {last : String}
      → pump_packets keys sdk pubkey_from_str f64 tip_scale sale round n jito
        ≢ err (stop (sell_failed tried last))
  unfolding pump_packets take_sell_tip
  pump_stops round n jito h = absurd (ground arith)

  packets_stop :
      (pool : Option (RaydiumPoolKeys K)) (round : Round T) (n : ℕ) (jito : JitoSellClient K)
      (b : Checked String String) {tried : ℕ} {last : String}
      → (retry b >>= λ blockhash.
          packets_for keys sdk pubkey_from_str f64 tip_scale sale pool round n jito blockhash)
        ≢ err (stop (sell_failed tried last))
  packets_stop pool round n jito (err why) h = absurd (ground arith)
  packets_stop (some pool) round n jito (ok blockhash) h = pool_stops pool n jito blockhash h
  packets_stop none round n jito (ok blockhash) h = pump_stops round n jito h

  send_stops :
      (round : Round T) (n : ℕ) (r : Checked Ending (K × List (ProtoPacket D) × String))
      {why : ExitError}
      → (send keys sdk pubkey_from_str f64 tip_scale sale round n r).1 ≡ stop why
      → r ≡ err (stop why)
  unfolding after_send_bundle
  send_stops round n (err ending) h = ap (λ e. err e) h
  send_stops round n (ok (t, packets, signature)) h = absurd (ground arith)

  connection_stops :
      (round : Round T) (n : ℕ) (c : Checked ExitError (JitoSellClient K)) {tried : ℕ}
      {last : String}
      → (on_connection keys sdk pubkey_from_str f64 tip_scale sale round n c).1
        ≢ stop (sell_failed tried last)
  unfolding sell_once
  connection_stops round n (err why) h = absurd (ground arith)
  connection_stops round n (ok jito) h =
      packets_stop sale.pool_keys round n jito round.latest_blockhash (send_stops round n _ h)

  not_stopped :
      (rounds : ℕ → Round T) (n : ℕ) {tried : ℕ} {last : String} (why : ExitError)
      → (attempt rounds n).1 ≡ stop why
      → why ≢ sell_failed tried last
  not_stopped rounds n why e same =
      connection_stops (rounds n) n (connect_jito pubkey_from_str (rounds n).connected)
        (e ∙ ap (λ w. stop w) same)

  -- Every attempt from `n` on, of those that are left, asks for another one.
  abbrev pub AllRetried : (ℕ → Round T) → ℕ → ℕ → Type 0
  AllRetried rounds n zero = Unit {0}
  AllRetried rounds n (suc left) = IsRetried rounds n × AllRetried rounds (n + 1) left

  retry_from_failed :
      (rounds : ℕ → Round T) (left n : ℕ) (last_error : String) {tried : ℕ} {last : String}
      → (retry_from keys sdk pubkey_from_str f64 tip_scale sale rounds left n last_error).1
        ≡ err (sell_failed tried last)
      → (tried ≡ 5) × AllRetried rounds n left
  unfolding retry_from
  retry_from_failed rounds zero n last_error h = (ground arith, tt)
  retry_from_failed rounds (suc left) n last_error h =
      let (why, e, rest) =
        ending_retried (attempt rounds n)
          (λ why. retry_from keys sdk pubkey_from_str f64 tip_scale sale rounds left (n + 1) why)
          (not_stopped rounds n) h in
      let (five, more) = retry_from_failed rounds left (n + 1) why rest in (five, ((why, e), more))

  parse_fails :
      (texts : List String) (tried : ℕ) (last : String)
      → (parse_tip_accounts pubkey_from_str texts >>= new_client pubkey_from_str)
        ≢ err (sell_failed tried last)
  unfolding parse_tip_accounts
  parse_fails [] tried last h = absurd (ground arith)
  parse_fails (raw ∷ texts) tried last h =
      elim (Checked-cases (parse_tip_accounts pubkey_from_str texts)) [
        | inl (accounts, e) ↦ absurd (ground arith)
        | inr (why, e) ↦ parse_fails texts tried last (ground arith)
      ]

  connect_fails :
      (connected : Checked String (Checked String (List String))) {tried : ℕ} {last : String}
      → connect_jito pubkey_from_str connected ≢ err (sell_failed tried last)
  unfolding connect_jito
  connect_fails (err why) h = absurd (ground arith)
  connect_fails (ok (err why)) h = absurd (ground arith)
  connect_fails (ok (ok texts)) h = parse_fails texts _ _ h

  first_failed :
      (rounds : ℕ → Round T) (c : Checked ExitError (JitoSellClient K)) {tried : ℕ} {last : String}
      → connect_jito pubkey_from_str (rounds 1).connected ≡ c
      → (first_attempt keys sdk pubkey_from_str f64 tip_scale sale rounds c).1
        ≡ err (sell_failed tried last)
      → (tried ≡ 5) × AllRetried rounds 1 5
  first_failed rounds (err why) e h =
      absurd (connect_fails (rounds 1).connected (e ∙ ap (λ w. err w) (err_inj h)))
  first_failed rounds (ok jito) e h =
      let (why, e', rest) =
        ending_retried (sell_once keys sdk pubkey_from_str f64 tip_scale sale (rounds 1) 1 jito)
          (λ why. retry_from keys sdk pubkey_from_str f64 tip_scale sale rounds 4 2 why)
          (λ why stopped same.
            connection_stops (rounds 1) 1 (ok jito) (stopped ∙ ap (λ w. stop w) same))
          h in
      let (five, more) = retry_from_failed rounds 4 2 why rest in (five, ((why, rw e e'), more))

  -- A sale that reports that its attempts failed has made five of them, each of which asked for another
  -- one.
  pub attempt_sell_bundle_failed :
      (rounds : ℕ → Round T) {tried : ℕ} {last : String}
      → (attempt_sell_bundle keys sdk pubkey_from_str f64 tip_scale sale rounds).1
        ≡ err (sell_failed tried last)
      → (tried ≡ 5) × AllRetried rounds 1 5
  unfolding attempt_sell_bundle
  attempt_sell_bundle_failed rounds {tried = tried} {last = last} h =
      first_failed rounds (connect_jito pubkey_from_str (rounds 1).connected) {tried = tried}
        {last = last} refl (ground arith)
