-- ===== src/Sell/Attempts.antt =====
-- alpha-whales/src/exits.rs: the attempts of `attempt_sell_bundle`.
use alpha_whales.Common.{
  ℕ, zero, suc, ◌+◌, Option, none, some, List, [], ◌∷◌, ◌++◌, String, KeyEq, text_key, number_key,
  ◌==◌, ltb, if◌then◌else◌, length,
}
use alpha_whales.Common.Floats.{F64}
use alpha_whales.Common.Checked.{Checked, ok, err, ◌>>=◌, ok_or, map_err}
use alpha_whales.Dispatch.{
  Reply, timed_out, failed, uuid, ProtoPacket, BundleError, packet_data_size,
}
use alpha_whales.Dispatch.Bundle.{Sdk, build_and_sign_pump_bundle}
use alpha_whales.Execution.{Keys, Instruction}
use alpha_whales.Execution.Shield.{apply_jitodontfront_protection}
use alpha_whales.Execution.Swap.{construct_raydium_swap_instruction}
use alpha_whales.Pool.{RaydiumPoolKeys}
use alpha_whales.Sell.{
  max_sell_attempts, ExitError, tx_build, sell_failed, panicked, SellTerms, JitoSellClient, Round,
  Submission, effective_slippage_bps, expected_wsol, sell_minimum, sell_tip, connect_jito,
  take_sell_tip,
}
use alpha_whales.Watcher.{SaleReason}

-- How one attempt ends.
pub data Ending : Type 0 where
  again : String → Ending
  stop : ExitError → Ending
  accepted : String → String → Ending

-- `transaction_to_proto_packet` of exits.rs
unfoldable pub sell_packet : {D : Type 0} → Option (List D) → Checked ExitError (ProtoPacket D)
sell_packet none = err (tx_build "bincode serialize")
sell_packet (some bytes) =
    if ltb packet_data_size (length bytes)
    then err (tx_build "too large")
    else ok (record { data_bytes = bytes; meta_size = length bytes })

-- What a reply to `send_bundle` comes to.
unfoldable pub after_send_bundle : Reply → String → Ending
after_send_bundle (uuid bundle_id) signature =
    if bundle_id == "" then again "Jito returned empty bundle_id" else accepted bundle_id signature
after_send_bundle (failed status) signature = again status
after_send_bundle timed_out signature = again "gRPC send_bundle timed out"

-- The sale: who owns what, the pool, the reason and the price.
pub record Sale (K : Type 0) : Type 0 where
  pub terms : SellTerms K
  pub pool_keys : Option (RaydiumPoolKeys K)
  pub user_owner : K
  pub user_source_token_account : K
  pub user_destination_wsol_account : K
  pub reason : SaleReason
  pub cur_wsol_num : ℕ
  pub cur_wsol_den : ℕ

unfoldable pub slippage_at : {K : Type 0} → Sale K → ℕ → ℕ
unfolding effective_slippage_bps
slippage_at sale attempt = effective_slippage_bps sale.reason sale.terms.max_slippage_bps attempt

unfoldable pub minimum_at : {K : Type 0} → Sale K → ℕ → ℕ
unfolding slippage_at expected_wsol sell_minimum
minimum_at sale attempt =
    sell_minimum (expected_wsol sale.terms.acquired_amount sale.cur_wsol_num sale.cur_wsol_den)
      (slippage_at sale attempt)

abbrev pub tip_of : {K : Type 0} → JitoSellClient K → Checked Ending K
tip_of jito = elim (take_sell_tip jito) [
  | none ↦ err (stop panicked)
  | some (account, jito') ↦ ok account
]

abbrev pub retry {ℓ} : {A : Type ℓ} → Checked String A → Checked Ending A
retry r = map_err again r

abbrev pub describe_exit : ExitError → Ending
describe_exit why = again "serialization"

abbrev pub describe_bundle : BundleError → Ending
describe_bundle why = again "build_and_sign_pump_bundle"

abbrev pub after_ending :
    {K D : Type 0}
    → List (Submission K D) × Ending
    → (String → List (Submission K D) × Checked ExitError (String × String))
    → List (Submission K D) × Checked ExitError (String × String)
after_ending (sent, again why) rest = let (more, r) = rest why in (sent ++ more, r)
after_ending (sent, stop why) rest = (sent, err why)
after_ending (sent, accepted bundle_id signature) rest = (sent, ok (bundle_id, signature))

module _ {K F : Type 0} (f64 : F64 F) (tip_scale : ℕ → F) (sale : Sale K) where
  abbrev pub tip_at : ℕ → ℕ
  tip_at attempt = sell_tip f64 tip_scale sale.terms.jito_tip_lamports attempt

  abbrev pub submission : {D : Type 0} → ℕ → K → List (ProtoPacket D) → Submission K D
  submission attempt tip_account packets = record {
    attempt = attempt;
    slippage_bps = slippage_at sale attempt;
    minimum_amount_out = minimum_at sale attempt;
    tip_account = tip_account;
    tip_lamports = tip_at attempt;
    packets = packets;
  }

module _ {K M T Alt D F : Type 0} ⦃key : KeyEq K⦄ (keys : Keys K)
    (sdk : Sdk K (Instruction K) M T Alt D) (pubkey_from_str : String → Option K) (f64 : F64 F)
    (tip_scale : ℕ → F) (sale : Sale K) where
  open sdk use {transfer, try_compile, try_new, first_signature, serialize}

  -- The sale through the pool. Whether the sentinel could be added is only reported.
  unfoldable pub pool_packets :
      RaydiumPoolKeys K
      → ℕ
      → JitoSellClient K
      → String
      → Checked Ending (K × List (ProtoPacket D) × String)
  unfolding sell_packet minimum_at sell_tip take_sell_tip
  pool_packets pool attempt jito blockhash = do
    swap_ix ←
        map_err (λ why. stop (tx_build "construct_raydium_swap_instruction"))
          (construct_raydium_swap_instruction keys pool sale.user_owner
            sale.user_source_token_account sale.user_destination_wsol_account
            sale.terms.acquired_amount (minimum_at sale attempt))
    let protected =
        (apply_jitodontfront_protection keys swap_ix sale.terms.jito_dont_front_pubkey).0
    tip_account ← tip_of jito
    let tip_ix = transfer tip_account (tip_at f64 tip_scale sale attempt)
    message ← retry (try_compile (protected ∷ tip_ix ∷ []) [] blockhash)
    transaction ← retry (try_new message)
    packet ← map_err describe_exit (sell_packet (serialize transaction))
    signature ← ok_or (first_signature transaction) (stop panicked)
    ok (tip_account, packet ∷ [], signature)

  -- PumpPortal's transaction, where the position has no pool.
  unfoldable pub pump_packets :
      Round T → ℕ → JitoSellClient K → Checked Ending (K × List (ProtoPacket D) × String)
  unfolding slippage_at sell_tip take_sell_tip build_and_sign_pump_bundle
  pump_packets round attempt jito = do
    pump_tx ←
        retry
          (round.pump_transaction (slippage_at sale attempt) (tip_at f64 tip_scale sale attempt))
    tip_account ← tip_of jito
    signed ←
        map_err describe_bundle
          (build_and_sign_pump_bundle sdk pump_tx tip_account (tip_at f64 tip_scale sale attempt))
    ok (tip_account, signed.packets, signed.transaction_signature)

  abbrev pub packets_for :
      Option (RaydiumPoolKeys K)
      → Round T
      → ℕ
      → JitoSellClient K
      → String
      → Checked Ending (K × List (ProtoPacket D) × String)
  packets_for (some pool) round attempt jito blockhash = pool_packets pool attempt jito blockhash
  packets_for none round attempt jito blockhash = pump_packets round attempt jito

  abbrev pub send :
      Round T
      → ℕ
      → Checked Ending (K × List (ProtoPacket D) × String)
      → List (Submission K D) × Ending
  send round attempt (err ending) = ([], ending)
  send round attempt (ok (tip_account, packets, signature)) = (
    submission f64 tip_scale sale attempt tip_account packets ∷ [],
    after_send_bundle round.send_bundle signature,
  )

  -- One round of the loop on a connection, with what is sent.
  unfoldable pub sell_once : Round T → ℕ → JitoSellClient K → List (Submission K D) × Ending
  unfolding pool_packets pump_packets after_send_bundle
  sell_once round attempt jito = send round attempt (
      retry round.latest_blockhash >>= λ blockhash.
      packets_for sale.pool_keys round attempt jito blockhash)

  -- One round: a retry connects again.
  abbrev pub on_connection :
      Round T → ℕ → Checked ExitError (JitoSellClient K) → List (Submission K D) × Ending
  on_connection round attempt (err why) = ([], again "reconnect")
  on_connection round attempt (ok jito) = sell_once round attempt jito

  -- The loop from the second attempt on, over the attempts that are left.
  unfoldable pub retry_from :
      (ℕ → Round T) → ℕ → ℕ → String → List (Submission K D) × Checked ExitError (String × String)
  unfolding sell_once connect_jito
  retry_from rounds zero attempt last_error = ([], err (sell_failed max_sell_attempts last_error))
  retry_from rounds (suc left) attempt last_error =
      after_ending
        (on_connection (rounds attempt) attempt
          (connect_jito pubkey_from_str (rounds attempt).connected))
        (λ why. retry_from rounds left (attempt + 1) why)

  abbrev pub first_attempt :
      (ℕ → Round T)
      → Checked ExitError (JitoSellClient K)
      → List (Submission K D) × Checked ExitError (String × String)
  first_attempt rounds (err why) = ([], err why)
  first_attempt rounds (ok jito) =
      after_ending (sell_once (rounds 1) 1 jito) (λ why. retry_from rounds 4 2 why)

  -- The bundles that are sent, and the result.
  unfoldable pub attempt_sell_bundle :
      (ℕ → Round T) → List (Submission K D) × Checked ExitError (String × String)
  unfolding retry_from connect_jito sell_once
  attempt_sell_bundle rounds =
      if sale.terms.acquired_amount == 0
      then ([], err (tx_build "acquired_amount is zero"))
      else first_attempt rounds (connect_jito pubkey_from_str (rounds 1).connected)
