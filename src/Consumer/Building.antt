-- ===== src/Consumer/Building.antt =====
-- alpha-whales/src/execution.rs: the bundle of a purchase, from the resolved swap or from PumpPortal.
-- It is what the gates take as an answer.
use alpha_whales.Common.{
  ℕ, ◌≡◌, refl, ap, sym, subst, Option, none, some, Bool, true, false, List, [], ◌∷◌, String, KeyEq,
  if◌then◌else◌, inl, inr, arith,
}
use alpha_whales.Common.Keys.{Keys}
use alpha_whales.Common.Checked.{
  Checked, ok, err, ◌>>=◌, ◌>>◌, ok_or, map_err, bind-elim, ok_or-ok, ok_inj, map_err-ok,
  Checked-cases,
}
use alpha_whales.Consumer.{
  WhaleSignal, Signed, Build, unresolved, swap_without_blockhash, swap_not_signed, swap_signed,
  pump_failed, pump_not_signed, pump_signed,
}
use alpha_whales.Consumer.Resolve.{
  Wallet, Fetched, PreparedSwap, Result, check_failed, quote_request, invalid_quote_response,
  resolve_swap_instructions_for_signal,
}
use alpha_whales.Consumer.Prepared.{IsPrepared, resolve_swap_lem}
use alpha_whales.Dispatch.Bundle.{
  Sdk, SignedBundle, build_and_sign_bundle_with_alt, build_and_sign_pump_bundle, IsTipped,
  build_and_sign_lem,
}
use alpha_whales.Execution.{Instruction}
use alpha_whales.Execution.Config.{JitoExecutorConfig, ensure_signal_fresh}
use alpha_whales.Pool.{Account, Chain}
use alpha_whales.Pool.Resolved.{AnswersFrom}
use alpha_whales.Pool.Api.{Liquidity}

-- PumpPortal's answer: a status that is no success, or a body, with its transaction if it is one.
pub data PumpResponse (T : Type 0) : Type 0 where
  not_sent unread : PumpResponse T
  status : ℕ → PumpResponse T
  body : Option T → PumpResponse T

abbrev pub transaction_in : {T : Type 0} → PumpResponse T → Result T
transaction_in not_sent = err quote_request
transaction_in unread = err quote_request
transaction_in (status code) = err invalid_quote_response
transaction_in (body transaction) = ok_or transaction invalid_quote_response

unfoldable pub resolve_pumpportal_swap :
    {T : Type 0} → WhaleSignal → ℕ → ℕ → PumpResponse T → Result T
unfolding ensure_signal_fresh
resolve_pumpportal_swap s now_ms max_signal_age response = do
  map_err check_failed (ensure_signal_fresh s.timestamp_ms now_ms max_signal_age)
  transaction_in response

-- The rent of a destination, where no swap was prepared.
abbrev pub default_ata_rent_lamports : ℕ
default_ata_rent_lamports = 2_039_280

abbrev pub alts : {Alt : Type 0} → Option Alt → List Alt
alts none = []
alts (some table) = table ∷ []

abbrev pub signed_of : {K D : Type 0} → K → ℕ → SignedBundle D → Signed K
signed_of target_mint rent b = record {
  target_mint = target_mint;
  transaction_fee_lamports = b.transaction_fee_lamports;
  destination_ata_rent_lamports = rent;
  transaction_signature = b.transaction_signature;
  recent_blockhash = b.recent_blockhash;
}

-- What the gates are answered.
abbrev pub answer_of :
    {K D : Type 0} → (Signed K → Build K) → Checked (Build K) (Signed K × SignedBundle D) → Build K
answer_of signed (err failure) = failure
answer_of signed (ok (b, bundle)) = signed b

swap_signed_inj : {K : Type 0} {a b : Signed K} → swap_signed a ≡ swap_signed b → a ≡ b
swap_signed_inj h = ground arith

module _ {K M T Alt D : Type 0} (sdk : Sdk K (Instruction K) M T Alt D) (tip_lamports : ℕ) where
  unfoldable pub sign_swap :
      PreparedSwap K Alt → K → Option String → Checked (Build K) (Signed K × SignedBundle D)
  unfolding build_and_sign_bundle_with_alt
  sign_swap prepared tip_account blockhash = do
    recent_blockhash ← ok_or blockhash swap_without_blockhash
    bundle ←
        map_err (λ why. swap_not_signed)
          (build_and_sign_bundle_with_alt sdk prepared.instructions tip_account tip_lamports
            recent_blockhash (alts prepared.alt))
    ok (signed_of prepared.target_mint prepared.destination_ata_rent_lamports bundle, bundle)

  -- `target_mint` is the key, or the default one for a text that is none.
  unfoldable pub sign_pump : Result T → K → K → Checked (Build K) (Signed K × SignedBundle D)
  unfolding build_and_sign_pump_bundle
  sign_pump pump_tx target_mint tip_account = do
    transaction ← map_err (λ why. pump_failed) pump_tx
    bundle ←
        map_err (λ why. pump_not_signed)
          (build_and_sign_pump_bundle sdk transaction tip_account tip_lamports)
    ok (signed_of target_mint default_ata_rent_lamports bundle, bundle)

  -- The fallback is tried for a pump token.
  unfoldable pub build_bundle :
      Bool → Result (PreparedSwap K Alt) → Result T → K → K → Option String → Build K
  unfolding sign_swap sign_pump
  build_bundle is_pump (ok prepared) pump_tx target_mint tip_account blockhash =
      answer_of swap_signed (sign_swap prepared tip_account blockhash)
  build_bundle is_pump (err why) pump_tx target_mint tip_account blockhash =
      if is_pump
      then answer_of pump_signed (sign_pump pump_tx target_mint tip_account)
      else unresolved

  -- The signed bundle of a prepared swap.
  pub record IsSignedSwap (p : PreparedSwap K Alt) (tip_account : K) (fetched : Option String)
      (signed : Signed K) : Type 0 where
    pub bundle : SignedBundle D
    pub blockhash : String
    pub is_fetched : fetched ≡ some blockhash
    pub is_tipped :
        IsTipped sdk p.instructions tip_account tip_lamports blockhash (alts p.alt) bundle
    pub is_of : signed ≡ signed_of p.target_mint p.destination_ata_rent_lamports bundle

  sign_swap_lem :
      (p : PreparedSwap K Alt) (tip_account : K) (blockhash : Option String)
      {r : Signed K × SignedBundle D}
      → sign_swap p tip_account blockhash ≡ ok r
      → IsSignedSwap p tip_account blockhash r.0
  unfolding sign_swap
  sign_swap_lem p tip_account blockhash h =
      bind-elim (ok_or blockhash swap_without_blockhash) _ h λ recent e1 h1.
        bind-elim
          (map_err (λ why. swap_not_signed)
            (build_and_sign_bundle_with_alt sdk p.instructions tip_account tip_lamports recent
              (alts p.alt)))
          _ h1
          λ bundle e2 h2. record {
            bundle = bundle;
            blockhash = recent;
            is_fetched = ok_or-ok _ _ e1;
            is_tipped =
                build_and_sign_lem sdk p.instructions tip_account tip_lamports recent (alts p.alt)
                  (map_err-ok (λ why. swap_not_signed) _ e2);
            is_of = sym (ap (λ r. r.0) (ok_inj h2));
          }

  no_pump :
      (pump_tx : Result T) (target_mint tip_account : K) {b : Signed K}
      → ¬ (answer_of pump_signed (sign_pump pump_tx target_mint tip_account) ≡ swap_signed b)
  unfolding sign_pump
  no_pump (err why) target_mint tip_account h = ground arith
  no_pump (ok t) target_mint tip_account h =
      elim (Checked-cases (build_and_sign_pump_bundle sdk t tip_account tip_lamports)) [
        | inl (bundle, e) ↦ ground (arith, e, h)
        | inr (why, e) ↦ ground (arith, e, h)
      ]

  not_swap :
      (is_pump : Bool) (pump_tx : Result T) (target_mint tip_account : K) {b : Signed K}
      → ¬ (
          (if is_pump
            then answer_of pump_signed (sign_pump pump_tx target_mint tip_account)
            else unresolved)
          ≡ swap_signed b)
  not_swap true pump_tx target_mint tip_account h = no_pump pump_tx target_mint tip_account h
  not_swap false pump_tx target_mint tip_account h = ground arith

  swap_lem :
      (p : PreparedSwap K Alt) (tip_account : K) (blockhash : Option String)
      (r : Checked (Build K) (Signed K × SignedBundle D)) {b : Signed K}
      → sign_swap p tip_account blockhash ≡ r
      → answer_of swap_signed r ≡ swap_signed b
      → IsSignedSwap p tip_account blockhash b
  unfolding sign_swap
  swap_lem p tip_account blockhash (ok (signed, bundle)) e h =
      subst (IsSignedSwap p tip_account blockhash) (swap_signed_inj h)
        (sign_swap_lem p tip_account blockhash e)
  swap_lem p tip_account none (err why) e h = absurd (ground arith)
  swap_lem p tip_account (some recent) (err why) e h =
      elim (Checked-cases (
        build_and_sign_bundle_with_alt sdk p.instructions tip_account tip_lamports recent
          (alts p.alt))) [
            | inl (bundle, made) ↦ absurd (ground (arith, made, e))
            | inr (error, failed) ↦ absurd (ground (arith, failed, e, h))
          ]

  bundle_lem :
      (is_pump : Bool) (resolved : Result (PreparedSwap K Alt)) (pump_tx : Result T)
      (target_mint tip_account : K) (blockhash : Option String) {b : Signed K}
      → build_bundle is_pump resolved pump_tx target_mint tip_account blockhash ≡ swap_signed b
      → (p : PreparedSwap K Alt) × (resolved ≡ ok p) × IsSignedSwap p tip_account blockhash b
  unfolding build_bundle
  bundle_lem is_pump (ok p) pump_tx target_mint tip_account blockhash h =
      (p, refl, swap_lem p tip_account blockhash (sign_swap p tip_account blockhash) refl h)
  bundle_lem is_pump (err why) pump_tx target_mint tip_account blockhash h =
      absurd (not_swap is_pump pump_tx target_mint tip_account h)

  module _ ⦃key : KeyEq K⦄ {F : Type 0} (keys : Keys K) (wallet : Wallet K)
      (config : JitoExecutorConfig K) (chain : Chain K) (f64 : Liquidity F) where
    -- The gates are answered with a signed swap only if the swap was prepared for a user who has the
    -- funds and holds nothing of the target. Its one transaction is signed under the blockhash that was
    -- fetched and fits into a packet: it carries the prepared instructions, which the swap with the
    -- sentinel ends, and then the tip. The accounts are answered in the order of their addresses.
    pub build_bundle_lem :
        (is_pump : Bool) (s : WhaleSignal) (owner : K) (ledger : K → Option (Account K))
        (f : Fetched K Alt F) (pump_tx : Result T) (target_mint tip_account : K)
        (blockhash : Option String) {b : Signed K}
        → AnswersFrom ledger f.user_accounts
        → build_bundle is_pump
            (resolve_swap_instructions_for_signal keys wallet config chain f64 s owner f)
            pump_tx
            target_mint
            tip_account
            blockhash
          ≡ swap_signed b
        → (p : PreparedSwap K Alt) × IsPrepared keys wallet config chain f64 s owner ledger f p
          × IsSignedSwap p tip_account blockhash b
    build_bundle_lem is_pump s owner ledger f pump_tx target_mint tip_account blockhash answers h =
        let (p, e, signed) =
          bundle_lem is_pump
            (resolve_swap_instructions_for_signal keys wallet config chain f64 s owner f) pump_tx
            target_mint tip_account blockhash h in
        (p, resolve_swap_lem keys wallet config chain f64 s owner ledger f answers e, signed)
