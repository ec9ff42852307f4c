-- ===== src/Execution/Quote.antt =====
-- alpha-whales/src/execution.rs: the check of a quote. `parse` stands for `str::parse::<u64>`.
use alpha_whales.Common.{
  ℕ, ◌+◌, ◌-◌, ◌*◌, ◌/◌, ◌≤◌, ◌<◌, ◌≡◌, inl, inr, Option-cases, Option, none, some, not, ◌||◌, List,
  [], ◌∷◌, String, text_key, number_key, ◌==◌, ltb, if◌then◌else◌, max, u64_mod, checked_mul_u128,
  arith,
}
use alpha_whales.Common.Checked.{Checked-cases}
use alpha_whales.Execution.{
  Keys, invalid_quote, quote_arithmetic_overflow, Result, ok, err, ◌>>=◌, ◌>>◌, fail_if, ok_or,
}

abbrev pub basis_points_denominator : ℕ
basis_points_denominator = 10_000

-- `u64::try_from` of a u128
abbrev pub to_u64 : ℕ → Option ℕ
to_u64 n = if ltb n u64_mod then some n else none

unfoldable pub calculate_local_minimum_amount_out : ℕ → ℕ → Result ℕ
calculate_local_minimum_amount_out quoted_output max_slippage_bps = do
  fail_if (ltb basis_points_denominator max_slippage_bps) quote_arithmetic_overflow
  product ←
      ok_or (checked_mul_u128 quoted_output (basis_points_denominator - max_slippage_bps))
        quote_arithmetic_overflow
  ok_or (to_u64 (product / basis_points_denominator)) quote_arithmetic_overflow

-- The plain arithmetic of the minimum, where it fits.
local_minimum_ok :
    (quoted slippage minimum : ℕ)
    → calculate_local_minimum_amount_out quoted slippage ≡ ok minimum
    → (slippage ≤ 10_000) × (minimum ≡ quoted * (10_000 - slippage) / 10_000)
unfolding calculate_local_minimum_amount_out
local_minimum_ok quoted slippage minimum h = ground arith

-- The minimum keeps what slippage permits: the loss is rounded by less than one unit.
local_minimum_keeps :
    (quoted slippage minimum : ℕ)
    → calculate_local_minimum_amount_out quoted slippage ≡ ok minimum
    → (slippage ≤ 10_000) × (quoted * (10_000 - slippage) < (minimum + 1) * 10_000)
local_minimum_keeps quoted slippage minimum h =
    let (small, same) = local_minimum_ok quoted slippage minimum h in (small, omega (arith, same))

pub record QuoteRouteHop : Type 0 where
  pub pool_id : String
  pub input_mint : String
  pub output_mint : String

pub record QuoteData : Type 0 where
  pub swap_type : String
  pub input_mint : String
  pub input_amount : String
  pub output_mint : String
  pub output_amount : String
  pub other_amount_threshold : String
  pub slippage_bps : ℕ
  pub route_plan : List QuoteRouteHop

module _ {K : Type 0} (keys : Keys K) (parse : String → Option ℕ) where
  -- The pattern `[hop]` and the hop's checks.
  unfoldable pub validate_route : List QuoteRouteHop → String → String → Result (Unit {0})
  validate_route [] pool target_mint = err invalid_quote
  validate_route (hop ∷ other ∷ hops) pool target_mint = err invalid_quote
  validate_route (hop ∷ []) pool target_mint =
      fail_if
        (not (hop.pool_id == pool)
          || not (hop.input_mint == keys.to_string keys.wsol_mint)
          || not (hop.output_mint == target_mint))
        invalid_quote

  unfoldable pub validate_quote : QuoteData → K → String → ℕ → ℕ → Result ℕ
  unfolding validate_route calculate_local_minimum_amount_out
  validate_quote quote amm_id target_mint max_slippage_bps dynamic_amount_in = do
    fail_if
        (not (quote.swap_type == "BaseIn")
          || not (quote.input_mint == keys.to_string keys.wsol_mint)
          || not (quote.output_mint == target_mint)
          || not (quote.slippage_bps == max_slippage_bps))
        invalid_quote
    quoted_input ← ok_or (parse quote.input_amount) invalid_quote
    quoted_output ← ok_or (parse quote.output_amount) invalid_quote
    api_minimum ← ok_or (parse quote.other_amount_threshold) invalid_quote
    local_minimum ← calculate_local_minimum_amount_out quoted_output max_slippage_bps
    fail_if
        (not (quoted_input == dynamic_amount_in)
          || quoted_output == 0
          || api_minimum == 0
          || local_minimum == 0
          || ltb quoted_output api_minimum
          || ltb api_minimum local_minimum)
        invalid_quote
    validate_route quote.route_plan (keys.to_string amm_id) target_mint
    ok (max api_minimum local_minimum)

  -- What the checks of the amounts come to, once they are parsed.
  abbrev pub IsGoodMinimum : ℕ → ℕ → ℕ → Type 0
  IsGoodMinimum output slippage minimum =
      (0 < minimum)
      × (minimum ≤ output)
      × (slippage ≤ 10_000)
      × (output * (10_000 - slippage) < (minimum + 1) * 10_000)

  quoted :
      (q : QuoteData) (amm_id : K) (target_mint : String) (slippage amount minimum : ℕ)
      (input output api : ℕ)
      → parse q.input_amount ≡ some input
      → parse q.output_amount ≡ some output
      → parse q.other_amount_threshold ≡ some api
      → validate_quote q amm_id target_mint slippage amount ≡ ok minimum
      → (input ≡ amount)
        × (local : ℕ) × (calculate_local_minimum_amount_out output slippage ≡ ok local)
        × (minimum ≡ max api local)
        × (0 < api)
        × (api ≤ output)
        × (local ≤ api)
  quoted q amm_id target_mint slippage amount minimum input output api i o a h =
      elim (Checked-cases (calculate_local_minimum_amount_out output slippage)) [
        | inr (e, bad) ↦ absurd (unfold validate_quote in ground (arith, i, o, a, bad, h))
        | inl (local, fine) ↦
            let facts : (input ≡ amount)
                × (minimum ≡ max api local)
                × (0 < api)
                × (api ≤ output)
                × (local ≤ api) =
              (unfold validate_quote in ground (arith, i, o, a, fine, h)) in
            (facts.0, local, fine, facts.1, facts.2, facts.3, facts.4)
      ]

  -- A quote that is accepted is for the amount of the purchase, and the minimum that it gives is
  -- above zero, at most the quoted output, and at least that output less the permitted slippage,
  -- rounded down.
  pub quote_bounds :
      (q : QuoteData) (amm_id : K) (target_mint : String) (slippage amount minimum : ℕ)
      → validate_quote q amm_id target_mint slippage amount ≡ ok minimum
      → (output : ℕ) × (parse q.output_amount ≡ some output)
        × (parse q.input_amount ≡ some amount)
        × (0 < minimum)
        × (minimum ≤ output)
        × (slippage ≤ 10_000)
        × (output * (10_000 - slippage) < (minimum + 1) * 10_000)
  quote_bounds q amm_id target_mint slippage amount minimum h =
      elim (Option-cases (parse q.input_amount)) [
        | inl bad ↦ absurd (unfold validate_quote in ground (arith, bad, h))
        | inr (input, i) ↦ elim (Option-cases (parse q.output_amount)) [
          | inl bad ↦ absurd (unfold validate_quote in ground (arith, bad, i, h))
          | inr (output, o) ↦ elim (Option-cases (parse q.other_amount_threshold)) [
            | inl bad ↦ absurd (unfold validate_quote in ground (arith, bad, i, o, h))
            | inr (api, a) ↦
                let (same, local, fine, m, pos, below, above) =
                  quoted q amm_id target_mint slippage amount minimum input output api i o a h in
                let (small, keeps) = local_minimum_keeps output slippage local fine in
                (
                  output,
                  o,
                  cc (i, same),
                  omega (arith, m, pos),
                  omega (arith, m, below, above),
                  small,
                  omega (arith, keeps, m, above),
                )
          ]
        ]
      ]
