-- ===== src/Watcher/Losses.antt =====
-- Prices far below the entry: no exit of the watcher is taken.
use native.Mathlib.Nat.{le-div_iff_mul-le}
use alpha_whales.Common.{
  ℕ, ◌-◌, ◌*◌, ◌^◌, ◌≤◌, ◌<◌, ◌≡◌, refl, sym, subst, Bool, false, List, [], ◌∷◌, text_key, IsU64,
  arith, All,
}
use alpha_whales.Common.Floats.{F64}
use alpha_whales.Common.Signed.{negsuc, ltℤ}
use alpha_whales.Watcher.{
  ActivePosition, SwapEvent, SaleOrder, Vbats, Feed, event, closed, timed_out, Turn, go_on,
  scale_out, abort, exit, compute_pnl_bps, count_stale, End, waiting, aborted, sold,
}
use alpha_whales.Watcher.Loop.{observe, is_panic, turn, start, run, after_turn, value_tick}
use alpha_whales.Watcher.Price.{compute_pnl_bps_lem, pnl_of}
use alpha_whales.Watcher.Exits.{
  DoubleIsGain, IsPriced, IsTick, IsHeld, panics, is_recovered, value_tick_lem, not_locked,
}

-- Amounts below 2^56, above zero.
abbrev pub IsModest : ℕ → Type 0
IsModest n = (0 < n) × (n < 2 ^ 56)

abbrev pub IsModestPosition : ActivePosition → Type 0
IsModestPosition p = IsModest p.entry_price_wsol_num × IsModest p.entry_price_wsol_den

-- The tick's price is at least fifteen percent below the entry's.
abbrev pub IsDeepLoss : ActivePosition → SwapEvent → Type 0
IsDeepLoss p e =
    (0 < e.base_amount)
    × (e.base_amount < 2 ^ 56)
    × (e.quote_amount < 2 ^ 56)
    × (e.quote_amount * p.entry_price_wsol_den * 10_000
        ≤ p.entry_price_wsol_num * e.base_amount * 8_500)

abbrev pub IsDeepFeed : ActivePosition → Feed → Type 0
IsDeepFeed p (event e now_ms landed) = IsDeepLoss p e
IsDeepFeed p closed = Unit {0}
IsDeepFeed p timed_out = Unit {0}

abbrev pub IsUnsold : {F : Type 0} → End F → Type 0
IsUnsold (waiting s) = Unit {0}
IsUnsold aborted = Unit {0}
IsUnsold (sold o) = ⊥

pub product : (a b : ℕ) → a < 2 ^ 56 → b < 2 ^ 56 → a * b < 2 ^ 112
product a b ha hb = grind arith

pub product_pos : (a b : ℕ) → 0 < a → 0 < b → 0 < a * b
product_pos a b ha hb = grind arith

deep_pnl :
    (gain base : ℕ)
    → 0 < base
    → gain * 10_000 ≤ base * 8_500
    → ltℤ (negsuc 1499) (pnl_of gain base) ≡ false
unfolding pnl_of
deep_pnl gain base hb h =
    ground (arith, (le-div_iff_mul-le {x = 1_500} {y = (base - gain) * 10_000} hb).1 (omega arith))

deep_tick :
    (p : ActivePosition) (e : SwapEvent)
    → IsModestPosition p
    → IsDeepLoss p e
    → ltℤ
        (negsuc 1499)
        (compute_pnl_bps e.quote_amount e.base_amount p.entry_price_wsol_num p.entry_price_wsol_den)
      ≡ false
deep_tick p e hp he =
    let gain = product e.quote_amount p.entry_price_wsol_den he.2 hp.1.1 in
    let base = product p.entry_price_wsol_num e.base_amount hp.0.1 he.1 in
    let above = product_pos p.entry_price_wsol_num e.base_amount hp.0.0 he.0 in
    rw
      (compute_pnl_bps_lem e.quote_amount e.base_amount p.entry_price_wsol_num
        p.entry_price_wsol_den he.0 hp.0.0 hp.1.0 (omega arith) (omega arith) (omega arith)
        (omega arith) (omega arith) (omega arith) (omega arith))
      (deep_pnl (e.quote_amount * p.entry_price_wsol_den) (p.entry_price_wsol_num * e.base_amount)
        above he.3)

below :
    (p : ActivePosition) (e : SwapEvent)
    → IsModestPosition p
    → IsDeepLoss p e
    → is_recovered p e ≡ false
below p e hp he = ground (arith, he.3, product_pos p.entry_price_wsol_num e.base_amount hp.0.0 he.0)

words : (n : ℕ) → n < 2 ^ 56 → IsU64 n
words n h = omega arith

module _ {F : Type 0} where
  -- A turn that sells nothing, and leaves the variables as they have to be.
  abbrev pub IsQuietTurn : ActivePosition → Turn F → Type 0
  IsQuietTurn p (go_on s) = IsHeld p s
  IsQuietTurn p (scale_out o s) = ⊥
  IsQuietTurn p abort = Unit {0}
  IsQuietTurn p (exit o) = ⊥

  abbrev pub IsQuietRun : List SaleOrder × End F → Type 0
  IsQuietRun r = (r.0 ≡ []) × IsUnsold r.1

  after_turn-IsQuietRun :
      (p : ActivePosition) (t : Turn F) (rest : Vbats F → List SaleOrder × End F)
      → IsQuietTurn p t
      → ((s : Vbats F) → IsHeld p s → IsQuietRun (rest s))
      → IsQuietRun (after_turn t rest)
  after_turn-IsQuietRun p (go_on s) rest h k = k s h
  after_turn-IsQuietRun p (scale_out o s) rest h k = absurd h
  after_turn-IsQuietRun p abort rest h k = (refl, tt)
  after_turn-IsQuietRun p (exit o) rest h k = absurd h

  count_stale-IsQuietTurn :
      (p : ActivePosition) (s : Vbats F) → IsHeld p s → IsQuietTurn p (count_stale s)
  unfolding count_stale
  count_stale-IsQuietTurn p s held = ground (arith, held)

module _ {F : Type 0} (f64 : F64 F) where
  calm :
      (p : ActivePosition) (s : Vbats F) (e : SwapEvent)
      → IsModestPosition p
      → IsDeepLoss p e
      → panics f64 p s e ≡ false
  unfolding is_panic
  calm p s e hp he = ground (arith, deep_tick p e hp he)

  value_tick-IsQuietTurn :
      (p : ActivePosition) (s : Vbats F) (e : SwapEvent) (now_ms : ℕ) (landed : Bool)
      → DoubleIsGain f64
      → IsModestPosition p
      → IsDeepLoss p e
      → IsHeld p s
      → IsQuietTurn p (value_tick f64 p s e now_ms landed)
  unfolding observe
  value_tick-IsQuietTurn p s e now_ms landed law hp he held =
      let priced : IsPriced p =
        (words p.entry_price_wsol_num hp.0.1, words p.entry_price_wsol_den hp.1.1) in
      let tick : IsTick e = (words e.base_amount he.1, words e.quote_amount he.2) in
      let miss = below p e hp he in
      subst (IsQuietTurn p) (sym (value_tick_lem f64 p s e now_ms landed law priced tick held.0)) (
        rw (calm p s e hp he, miss)
          (ground (arith, held.0, not_locked f64 p e priced tick miss), held.1))

  turn-IsQuietTurn :
      (p : ActivePosition) (s : Vbats F) (x : Feed)
      → DoubleIsGain f64
      → IsModestPosition p
      → IsDeepFeed p x
      → IsHeld p s
      → IsQuietTurn p (turn f64 p s x)
  unfolding turn
  turn-IsQuietTurn p s closed law hp he held = tt
  turn-IsQuietTurn p s timed_out law hp he held = count_stale-IsQuietTurn p s held
  turn-IsQuietTurn p s (event e now_ms landed) law hp he held =
      let valued = value_tick-IsQuietTurn p s e now_ms landed law hp he held in
      ground (arith, held, valued, count_stale-IsQuietTurn p s held)

  runs_quiet :
      (p : ActivePosition) (s : Vbats F) (xs : List Feed)
      → DoubleIsGain f64
      → IsModestPosition p
      → All (IsDeepFeed p) xs
      → IsHeld p s
      → IsQuietRun (run f64 p s xs)
  unfolding run
  runs_quiet p s [] law hp hs held = (refl, tt)
  runs_quiet p s (x ∷ xs) law hp hs held =
      after_turn-IsQuietRun p (turn f64 p s x) (λ s'. run f64 p s' xs)
        (turn-IsQuietTurn p s x law hp hs.0 held) (λ s' h. runs_quiet p s' xs law hp hs.1 h)

  -- While every tick is at least fifteen percent below the entry price the watcher sells nothing,
  -- however far the price falls and whatever f64 makes of the velocity: on amounts below 2^56 there
  -- is no stop loss.
  pub run_deep_loss :
      (p : ActivePosition) (xs : List Feed)
      → DoubleIsGain f64
      → IsModestPosition p
      → All (IsDeepFeed p) xs
      → IsQuietRun (run f64 p (start f64 p) xs)
  unfolding start
  run_deep_loss p xs law hp hs = runs_quiet p (start f64 p) xs law hp hs (refl, refl)
