-- ===== src/Dispatch/Bundle.antt =====
-- core/src/dispatcher.rs: building and signing a bundle. `Sdk` is what solana_sdk gives for the payer:
-- a transfer from it, a compiled message, a signed transaction, and bincode's bytes.
use alpha_whales.Common.{
  ℕ, ◌≤◌, ◌≡◌, refl, subst, Option, none, some, List, [], ◌∷◌, ◌++◌, String, length, arith,
}
use alpha_whales.Common.Checked.{
  Checked, ok, ◌>>=◌, ok_or, map_err, bind-elim, ok_inj, map_err-ok, ok_or-ok,
}
use alpha_whales.Dispatch.{
  BundleError, transaction_signing, message_compilation, ProtoPacket, packet_data_size,
  transaction_to_proto_packet,
}

pub record Sdk (K I M T Alt D : Type 0) : Type 0 where
  pub transfer : K → ℕ → I
  pub try_compile : List I → List Alt → String → Checked String M
  pub try_new : M → Checked String T
  pub first_signature : T → Option String
  pub serialize : T → Option (List D)
  pub message_of : T → M
  pub recent_blockhash : M → String

pub record SignedBundle (D : Type 0) : Type 0 where
  pub packets : List (ProtoPacket D)
  pub transaction_signature : String
  pub recent_blockhash : String
  pub transaction_fee_lamports : ℕ

module _ {K I M T Alt D : Type 0} (sdk : Sdk K I M T Alt D) where
  open sdk use {transfer, try_compile, try_new, first_signature, serialize, message_of}

  unfoldable pub build_and_sign_bundle_with_alt :
      List I → K → ℕ → String → List Alt → Checked BundleError (SignedBundle D)
  build_and_sign_bundle_with_alt instructions tip_account tip_lamports blockhash alt_accounts = do
    let all_instructions = instructions ++ (transfer tip_account tip_lamports ∷ [])
    message ← map_err message_compilation (try_compile all_instructions alt_accounts blockhash)
    transaction ← map_err transaction_signing (try_new message)
    signature ← ok_or (first_signature transaction) (transaction_signing "no signature")
    packet ← transaction_to_proto_packet (serialize transaction)
    ok (record {
      packets = packet ∷ [];
      transaction_signature = signature;
      recent_blockhash = blockhash;
      transaction_fee_lamports = 0;
    })

  unfoldable pub build_and_sign_bundle :
      List I → K → ℕ → String → Checked BundleError (SignedBundle D)
  unfolding build_and_sign_bundle_with_alt
  build_and_sign_bundle instructions tip_account tip_lamports blockhash =
      build_and_sign_bundle_with_alt instructions tip_account tip_lamports blockhash []

  unfoldable pub build_and_sign_pump_bundle : T → K → ℕ → Checked BundleError (SignedBundle D)
  build_and_sign_pump_bundle pump_tx tip_account tip_lamports = do
    let message = message_of pump_tx
    let blockhash = sdk.recent_blockhash message
    signed_pump_tx ← map_err transaction_signing (try_new message)
    pump_signature ← ok_or (first_signature signed_pump_tx) (transaction_signing "no signature")
    pump_packet ← transaction_to_proto_packet (serialize signed_pump_tx)
    tip_message ←
        map_err message_compilation
          (try_compile (transfer tip_account tip_lamports ∷ []) [] blockhash)
    tip_tx ← map_err transaction_signing (try_new tip_message)
    tip_packet ← transaction_to_proto_packet (serialize tip_tx)
    ok (record {
      packets = pump_packet ∷ tip_packet ∷ [];
      transaction_signature = pump_signature;
      recent_blockhash = blockhash;
      transaction_fee_lamports = 100_000;
    })

  -- The packet is the bytes of the transaction, which fit into a packet.
  abbrev pub IsPacketOf : T → ProtoPacket D → Type 0
  IsPacketOf t packet =
      (serialize t ≡ some packet.data_bytes)
      × (packet.meta_size ≡ length packet.data_bytes)
      × (length packet.data_bytes ≤ packet_data_size)

  packet_lem :
      (t : T) {packet : ProtoPacket D}
      → transaction_to_proto_packet (serialize t) ≡ ok packet
      → IsPacketOf t packet
  unfolding transaction_to_proto_packet
  packet_lem t {packet} h = of_bytes (serialize t) h
    where
      of_bytes :
          (o : Option (List D))
          → transaction_to_proto_packet o ≡ ok packet
          → (o ≡ some packet.data_bytes)
            × (packet.meta_size ≡ length packet.data_bytes)
            × (length packet.data_bytes ≤ packet_data_size)
      of_bytes none h = absurd (ground arith)
      of_bytes (some bytes) h = ground arith

  -- A bundle is one transaction: the instructions in their order and then the tip.
  pub record IsTipped (instructions : List I) (tip_account : K) (tip_lamports : ℕ)
      (blockhash : String) (alt_accounts : List Alt) (b : SignedBundle D) : Type 0 where
    pub message : M
    pub transaction : T
    pub packet : ProtoPacket D
    pub compiled :
        try_compile
          (instructions ++ (transfer tip_account tip_lamports ∷ []))
          alt_accounts
          blockhash
        ≡ ok message
    pub signed : try_new message ≡ ok transaction
    pub only : b.packets ≡ packet ∷ []
    pub packed : IsPacketOf transaction packet
    pub names_it : first_signature transaction ≡ some b.transaction_signature

  -- A bundle that is built is a single transaction of the instructions followed by the tip, under the
  -- given blockhash, named by its first signature, in a packet of at most 1232 bytes: the tip is paid
  -- only if the instructions are carried out.
  pub build_and_sign_lem :
      (instructions : List I) (tip_account : K) (tip_lamports : ℕ) (blockhash : String)
      (alt_accounts : List Alt) {b : SignedBundle D}
      → build_and_sign_bundle_with_alt instructions tip_account tip_lamports blockhash alt_accounts
        ≡ ok b
      → IsTipped instructions tip_account tip_lamports blockhash alt_accounts b
  unfolding build_and_sign_bundle_with_alt
  build_and_sign_lem instructions tip_account tip_lamports blockhash alt_accounts h =
      bind-elim
        (map_err message_compilation (
          try_compile (instructions ++ (transfer tip_account tip_lamports ∷ [])) alt_accounts
            blockhash))
        _ h
        λ message e1 h1.
          bind-elim (map_err transaction_signing (try_new message)) _ h1 λ transaction e2 h2.
            bind-elim (ok_or (first_signature transaction) (transaction_signing "no signature")) _
              h2
              λ signature e3 h3.
                bind-elim (transaction_to_proto_packet (serialize transaction)) _ h3 λ packet e4 h4.
                  subst (IsTipped instructions tip_account tip_lamports blockhash alt_accounts)
                    (ok_inj h4)
                    (record {
                      message = message;
                      transaction = transaction;
                      packet = packet;
                      compiled = map_err-ok message_compilation _ e1;
                      signed = map_err-ok transaction_signing _ e2;
                      only = refl;
                      packed = packet_lem transaction e4;
                      names_it = ok_or-ok _ _ e3;
                    })
