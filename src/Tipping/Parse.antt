-- ===== src/Tipping/Parse.antt =====
-- core/src/tipping.rs: `parse_tip_floor_response` and `sol_to_lamports`, and the refresh of the
-- snapshot. The JSON decoder and the f64 operations are arguments.
use alpha_whales.Common.{
  ℕ, ◌≤◌, ◌≡◌, refl, Option, none, some, Bool, not, ◌||◌, List, [], ◌∷◌, ltb, if◌then◌else◌, arith,
}
use alpha_whales.Tipping.{TipConfig, TipTelemetry, TipTelemetryEngine}

pub record TipFloorEntry (F : Type 0) : Type 0 where
  pub landed_tips_50th_percentile : F
  pub landed_tips_75th_percentile : F
  pub landed_tips_95th_percentile : F

pub data TipError : Type 0 where
  json_parse empty_array invalid_sol out_of_order : TipError

pub data Parsed (A : Type 0) : Type 0 where
  ok : A → Parsed A
  err : TipError → Parsed A

infixl 5 ◌>>=◌
abbrev pub ◌>>=◌ : {A B : Type 0} → Parsed A → (A → Parsed B) → Parsed B
ok a >>= f = f a
err e >>= f = err e

-- `into_iter().next_back()`
unfoldable pub last? : {A : Type 0} → List A → Option A
last? [] = none
last? (x ∷ []) = some x
last? (x ∷ y ∷ ys) = last? (y ∷ ys)

abbrev pub ok_or : {A : Type 0} → Option A → TipError → Parsed A
ok_or none e = err e
ok_or (some a) e = ok a

-- The percentiles of the snapshot, if there is one, are in order.
abbrev pub IsOrdered : TipTelemetryEngine → Type 0
IsOrdered e = elim e.telemetry [
  | none ↦ Unit
  | some t ↦ (t.p50_lamports ≤ t.p75_lamports) × (t.p75_lamports ≤ t.p95_lamports)
]

-- `TipTelemetryEngine::new`
unfoldable pub new_engine : TipConfig → TipTelemetryEngine
new_engine c = record { telemetry = none; config = c }

-- `Ok(telemetry) => *lock = Some(telemetry)`, `Err(error) => log`
unfoldable pub keep_or_store : TipTelemetryEngine → Parsed TipTelemetry → TipTelemetryEngine
keep_or_store e (ok t) = record e { telemetry = some t }
keep_or_store e (err x) = e

keep_or_store-IsOrdered :
    (e : TipTelemetryEngine) (p : Parsed TipTelemetry)
    → ((t : TipTelemetry)
        → p ≡ ok t
        → (t.p50_lamports ≤ t.p75_lamports) × (t.p75_lamports ≤ t.p95_lamports))
    → IsOrdered e
    → IsOrdered (keep_or_store e p)
unfolding keep_or_store
keep_or_store-IsOrdered e (ok t) k h = k t refl
keep_or_store-IsOrdered e (err x) k h = h

module _ {F Body : Type 0} (is_finite : F → Bool) (is_negative : F → Bool)
    (rounded_lamports : F → ℕ) (from_str : Body → Option (List (TipFloorEntry F))) where
  -- `rounded_lamports sol` is `(sol * 1e9).round() as u64`.
  unfoldable pub sol_to_lamports : F → Parsed ℕ
  sol_to_lamports sol =
      if not (is_finite sol) || is_negative sol then err invalid_sol else ok (rounded_lamports sol)

  unfoldable pub parse_tip_floor_response : Body → ℕ → Parsed TipTelemetry
  unfolding sol_to_lamports last?
  parse_tip_floor_response body now = do
    entries ← ok_or (from_str body) json_parse
    latest ← ok_or (last? entries) empty_array
    p50 ← sol_to_lamports latest.landed_tips_50th_percentile
    p75 ← sol_to_lamports latest.landed_tips_75th_percentile
    p95 ← sol_to_lamports latest.landed_tips_95th_percentile
    if ltb p75 p50 || ltb p95 p75
        then err out_of_order
        else ok (record {
          p50_lamports = p50;
          p75_lamports = p75;
          p95_lamports = p95;
          observed_at = now;
        })

  -- One round of `refresh_loop_inner`: a failed fetch or a failed parse keeps the old snapshot.
  unfoldable pub refresh : TipTelemetryEngine → Option Body → ℕ → TipTelemetryEngine
  unfolding keep_or_store
  refresh e none now = e
  refresh e (some body) now = keep_or_store e (parse_tip_floor_response body now)

  -- A parsed snapshot has its percentiles in order.
  pub parse_ordered :
      (body : Body) (now : ℕ) (t : TipTelemetry)
      → parse_tip_floor_response body now ≡ ok t
      → (t.p50_lamports ≤ t.p75_lamports) × (t.p75_lamports ≤ t.p95_lamports)
  unfolding parse_tip_floor_response
  parse_ordered body now t h = ground arith

  -- The snapshot after any number of refreshes from a fresh engine.
  unfoldable pub refresh_all : TipTelemetryEngine → List (Option Body × ℕ) → TipTelemetryEngine
  refresh_all e [] = e
  refresh_all e ((body, now) ∷ rest) = refresh_all (refresh e body now) rest

  refresh-IsOrdered :
      (e : TipTelemetryEngine) (body : Option Body) (now : ℕ)
      → IsOrdered e
      → IsOrdered (refresh e body now)
  unfolding refresh
  refresh-IsOrdered e none now h = h
  refresh-IsOrdered e (some body) now h =
      keep_or_store-IsOrdered e (parse_tip_floor_response body now) (parse_ordered body now) h

  -- After any number of refresh rounds on an engine whose snapshot is ordered (a new engine has
  -- none), whatever each fetch and each parse gave, the snapshot is absent or ordered.
  pub refresh_all-IsOrdered :
      (e : TipTelemetryEngine) (rounds : List (Option Body × ℕ))
      → IsOrdered e
      → IsOrdered (refresh_all e rounds)
  unfolding refresh_all
  refresh_all-IsOrdered e [] h = h
  refresh_all-IsOrdered e ((body, now) ∷ rest) h =
      refresh_all-IsOrdered (refresh e body now) rest (refresh-IsOrdered e body now h)
