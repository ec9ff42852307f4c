-- ===== src/Sell/Packets.antt =====
-- alpha-whales/src/exits.rs: what is in the bundle of a sale.
use alpha_whales.Common.{
  ℕ, ◌≡◌, refl, subst, Option, none, some, List, [], ◌∷◌, String, KeyEq, arith,
}
use alpha_whales.Common.Floats.{F64}
use alpha_whales.Common.Checked.{ok, map_err, bind-elim, ok_inj, map_err-ok, ok_or}
use alpha_whales.Dispatch.{ProtoPacket}
use alpha_whales.Dispatch.Bundle.{Sdk, SignedBundle, build_and_sign_pump_bundle}
use alpha_whales.Execution.{Keys, Instruction}
use alpha_whales.Execution.Shield.{apply_jitodontfront_protection}
use alpha_whales.Execution.Swap.{construct_raydium_swap_instruction}
use alpha_whales.Pool.{RaydiumPoolKeys}
use alpha_whales.Sell.{JitoSellClient, Round, Submission, tx_build}
use alpha_whales.Sell.Attempts.{
  again, stop, Sale, retry, sell_packet, describe_exit, describe_bundle, tip_of, minimum_at,
  slippage_at, tip_at, submission, pool_packets, pump_packets, packets_for,
}

packet_bytes :
    {D : Type 0} (o : Option (List D)) {packet : ProtoPacket D}
    → sell_packet o ≡ ok packet
    → o ≡ some packet.data_bytes
unfolding sell_packet
packet_bytes none h = absurd (ground arith)
packet_bytes (some bytes) h = ground arith

module _ {K M T Alt D F : Type 0} ⦃key : KeyEq K⦄ (keys : Keys K)
    (sdk : Sdk K (Instruction K) M T Alt D) (pubkey_from_str : String → Option K) (f64 : F64 F)
    (tip_scale : ℕ → F) (sale : Sale K) where
  open sdk use {transfer, try_compile, try_new, first_signature, serialize}

  -- One packet: the transaction, under the blockhash, of the swap of what was acquired for the
  -- minimum, and of the tip to the tip account.
  pub record IsPoolSale (pool : RaydiumPoolKeys K) (blockhash : String) (s : Submission K D)
      : Type 0 where
    pub swap : Instruction K
    pub built :
        construct_raydium_swap_instruction keys pool sale.user_owner sale.user_source_token_account
          sale.user_destination_wsol_account sale.terms.acquired_amount s.minimum_amount_out
        ≡ ok swap
    pub message : M
    pub compiled :
        try_compile
          ((apply_jitodontfront_protection keys swap sale.terms.jito_dont_front_pubkey).0
            ∷ transfer s.tip_account s.tip_lamports
            ∷ [])
          []
          blockhash
        ≡ ok message
    pub transaction : T
    pub signed : try_new message ≡ ok transaction
    pub packet : ProtoPacket D
    pub only : s.packets ≡ packet ∷ []
    pub serialized : serialize transaction ≡ some packet.data_bytes

  -- PumpPortal's transaction for the slippage, with the tip to the tip account.
  pub record IsPumpSale (round : Round T) (s : Submission K D) : Type 0 where
    pub pump_tx : T
    pub asked : round.pump_transaction s.slippage_bps s.tip_lamports ≡ ok pump_tx
    pub bundle : SignedBundle D
    pub signed : build_and_sign_pump_bundle sdk pump_tx s.tip_account s.tip_lamports ≡ ok bundle
    pub all_packets : s.packets ≡ bundle.packets

  abbrev pub IsSaleOf : Round T → Option (RaydiumPoolKeys K) → Submission K D → Type 0
  IsSaleOf round none s = IsPumpSale round s
  IsSaleOf round (some pool) s =
      (blockhash : String) × (round.latest_blockhash ≡ ok blockhash) × IsPoolSale pool blockhash s

  pool_packets_lem :
      (pool : RaydiumPoolKeys K) (attempt : ℕ) (jito : JitoSellClient K) (blockhash : String)
      {r : K × List (ProtoPacket D) × String}
      → pool_packets keys sdk pubkey_from_str f64 tip_scale sale pool attempt jito blockhash ≡ ok r
      → IsPoolSale pool blockhash (submission f64 tip_scale sale attempt r.0 r.1)
  unfolding pool_packets
  pool_packets_lem pool attempt jito blockhash h =
      bind-elim
        (map_err (λ why. stop (tx_build "construct_raydium_swap_instruction"))
          (construct_raydium_swap_instruction keys pool sale.user_owner
            sale.user_source_token_account sale.user_destination_wsol_account
            sale.terms.acquired_amount (minimum_at sale attempt)))
        _ h
        λ swap e1 h1. bind-elim (tip_of jito) _ h1 λ tip_account e2 h2.
          bind-elim
            (retry (
              try_compile
                ((apply_jitodontfront_protection keys swap sale.terms.jito_dont_front_pubkey).0
                  ∷ transfer tip_account (tip_at f64 tip_scale sale attempt)
                  ∷ [])
                [] blockhash))
            _ h2
            λ message e3 h3. bind-elim (retry (try_new message)) _ h3 λ transaction e4 h4.
              bind-elim (map_err describe_exit (sell_packet (serialize transaction))) _ h4
                λ packet e5 h5.
                  bind-elim (ok_or (first_signature transaction) _) _ h5 λ signature e6 h6.
                    subst
                      (λ (r : K × List (ProtoPacket D) × String).
                        IsPoolSale pool blockhash (submission f64 tip_scale sale attempt r.0 r.1))
                      (ok_inj h6)
                      (record {
                        swap = swap;
                        built = map_err-ok _ _ e1;
                        message = message;
                        compiled = map_err-ok again _ e3;
                        transaction = transaction;
                        signed = map_err-ok again _ e4;
                        packet = packet;
                        only = refl;
                        serialized =
                            packet_bytes (serialize transaction) (map_err-ok describe_exit _ e5);
                      })

  pump_packets_lem :
      (round : Round T) (attempt : ℕ) (jito : JitoSellClient K)
      {r : K × List (ProtoPacket D) × String}
      → pump_packets keys sdk pubkey_from_str f64 tip_scale sale round attempt jito ≡ ok r
      → IsPumpSale round (submission f64 tip_scale sale attempt r.0 r.1)
  unfolding pump_packets
  pump_packets_lem round attempt jito h =
      bind-elim
        (retry
          (round.pump_transaction (slippage_at sale attempt) (tip_at f64 tip_scale sale attempt)))
        _ h
        λ pump_tx e1 h1. bind-elim (tip_of jito) _ h1 λ tip_account e2 h2.
          bind-elim
            (map_err describe_bundle (
              build_and_sign_pump_bundle sdk pump_tx tip_account
                (tip_at f64 tip_scale sale attempt)))
            _ h2
            λ bundle e3 h3.
              subst
                (λ (r : K × List (ProtoPacket D) × String).
                  IsPumpSale round (submission f64 tip_scale sale attempt r.0 r.1))
                (ok_inj h3)
                (record {
                  pump_tx = pump_tx;
                  asked = map_err-ok again _ e1;
                  bundle = bundle;
                  signed = map_err-ok describe_bundle _ e3;
                  all_packets = refl;
                })

  pub packets-IsSaleOf :
      (pool : Option (RaydiumPoolKeys K)) (round : Round T) (attempt : ℕ) (jito : JitoSellClient K)
      (blockhash : String) {r : K × List (ProtoPacket D) × String}
      → round.latest_blockhash ≡ ok blockhash
      → packets_for keys sdk pubkey_from_str f64 tip_scale sale pool round attempt jito blockhash
        ≡ ok r
      → IsSaleOf round pool (submission f64 tip_scale sale attempt r.0 r.1)
  packets-IsSaleOf none round attempt jito blockhash e h = pump_packets_lem round attempt jito h
  packets-IsSaleOf (some pool) round attempt jito blockhash e h =
      (blockhash, e, pool_packets_lem pool attempt jito blockhash h)
