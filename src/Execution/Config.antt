-- ===== src/Execution/Config.antt =====
-- alpha-whales/src/execution.rs: the executor's configuration and the age of a signal. Durations are
-- in nanoseconds, time stamps in milliseconds.
use native.Mathlib.Nat.{mul-le-mul_left}
use alpha_whales.Common.{
  ℕ, ◌+◌, ◌-◌, ◌*◌, ◌≤◌, ◌<◌, ◌≡◌, ◌↔◌, ap, Option, none, some, Bool, true, not, ◌&&◌, String,
  text_key, number_key, ◌==◌, ltb, leb, if◌then◌else◌, arith,
}
use alpha_whales.Execution.{
  Keys, invalid_configuration, invalid_signal_timestamp, stale_signal, Result, ok, err, ◌>>◌,
  fail_if,
}
use alpha_whales.Execution.Shield.{is_valid_dont_front_pubkey}
use alpha_whales.Execution.Quote.{QuoteData, validate_quote, quote_bounds}
use text.Mathlib.Text.{starts_with}

abbrev pub minimum_jito_tip_lamports : ℕ
minimum_jito_tip_lamports = 1_000

abbrev pub maximum_slippage_bps : ℕ
maximum_slippage_bps = 500

-- The path is its text, with whether it is absolute.
pub record JitoExecutorConfig (K : Type 0) : Type 0 where
  pub block_engine_url : String
  pub tip_lamports : ℕ
  pub request_timeout : ℕ
  pub reconnect_delay : ℕ
  pub max_slippage_bps : ℕ
  pub max_signal_age : ℕ
  pub max_pending_capital_lamports : ℕ
  pub execution_journal_path : String
  pub jito_dont_front_pubkey : K
  pub pumpportal_api_key : Option String
  pub alt_address : Option K

-- `JitoExecutorConfig::new` on the fields of a configuration; `absolute` says whether the journal's
-- path is absolute.
unfoldable pub new_config :
    {K : Type 0} → Keys K → JitoExecutorConfig K → Bool → Result (JitoExecutorConfig K)
unfolding is_valid_dont_front_pubkey
new_config keys c absolute = do
  fail_if (not (starts_with c.block_engine_url "https://")) invalid_configuration
  fail_if (ltb c.tip_lamports minimum_jito_tip_lamports) invalid_configuration
  fail_if (c.request_timeout == 0) invalid_configuration
  fail_if (c.reconnect_delay == 0) invalid_configuration
  fail_if (not (leb 1 c.max_slippage_bps && leb c.max_slippage_bps maximum_slippage_bps))
      invalid_configuration
  fail_if (c.max_signal_age == 0) invalid_configuration
  fail_if (not absolute) invalid_configuration
  fail_if (not (is_valid_dont_front_pubkey keys c.jito_dont_front_pubkey)) invalid_configuration
  ok (record c { alt_address = none })

unfoldable pub ensure_signal_fresh : ℕ → ℕ → ℕ → Result (Unit {0})
ensure_signal_fresh timestamp_ms now_ms max_signal_age =
    if timestamp_ms == 0
    then err invalid_signal_timestamp
    else if ltb max_signal_age ((now_ms - timestamp_ms) * 1_000_000)
    then err stale_signal
    else ok tt

-- A signal is fresh exactly if it has a time stamp, and the clock is past it by at most the
-- maximal age. A time stamp in the future is fresh.
pub fresh_iff :
    (timestamp_ms now_ms max_age : ℕ)
    → (ensure_signal_fresh timestamp_ms now_ms max_age ≡ ok tt)
      ↔ ((0 < timestamp_ms) × (now_ms * 1_000_000 ≤ timestamp_ms * 1_000_000 + max_age))
unfolding ensure_signal_fresh
fresh_iff timestamp_ms now_ms max_age = ground arith

module _ {K : Type 0} (keys : Keys K) where
  config_checked :
      (c c' : JitoExecutorConfig K) (absolute : Bool)
      → new_config keys c absolute ≡ ok c'
      → (c' ≡ record c { alt_address = none })
        × (minimum_jito_tip_lamports ≤ c.tip_lamports)
        × (1 ≤ c.max_slippage_bps)
        × (c.max_slippage_bps ≤ maximum_slippage_bps)
        × (is_valid_dont_front_pubkey keys c.jito_dont_front_pubkey ≡ true)
  unfolding new_config
  config_checked c c' absolute h = ground arith

  -- Under a configuration that is accepted, the minimum that an accepted quote gives keeps at least
  -- 95 percent of the quoted output, rounded down, and is above zero.
  pub quote_keeps_most :
      (parse : String → Option ℕ) (c c' : JitoExecutorConfig K) (absolute : Bool) (q : QuoteData)
      (amm_id : K) (target_mint : String) (amount minimum : ℕ)
      → new_config keys c absolute ≡ ok c'
      → validate_quote keys parse q amm_id target_mint c'.max_slippage_bps amount ≡ ok minimum
      → (output : ℕ) × (parse q.output_amount ≡ some output)
        × (0 < minimum)
        × (output * 9_500 < (minimum + 1) * 10_000)
  quote_keeps_most parse c c' absolute q amm_id target_mint amount minimum hc hq =
      let (same, tip, low, high, prefix) = config_checked c c' absolute hc in
      let slippage : c'.max_slippage_bps ≡ c.max_slippage_bps =
        ap (λ (x : JitoExecutorConfig K). x.max_slippage_bps) same in
      let (output, o, i, above, below, small, keeps) =
        quote_bounds keys parse q amm_id target_mint c'.max_slippage_bps amount minimum hq in
      let most : output * 9_500 ≤ output * (10_000 - c'.max_slippage_bps) =
        mul-le-mul_left output (omega (arith, slippage, high)) in
      (output, o, above, omega (arith, most, keeps))
