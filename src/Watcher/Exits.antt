-- ===== src/Watcher/Exits.antt =====
-- Which exits of the watcher can be taken.
use alpha_whales.Common.{
  ℕ, ◌*◌, ◌≤◌, ◌<◌, ◌≡◌, refl, ◌⊎◌, inl, inr, Bool, true, false, text_key, ◌==◌, leb, if◌then◌else◌,
  IsU64, arith, Bool-cases, subst, sym,
}
use alpha_whales.Common.Floats.{F64}
use alpha_whales.Watcher.{
  ActivePosition, SwapEvent, SaleOrder, SaleReason, panic_velocity, vwap_snapback, Vbats, Feed,
  event, closed, timed_out, Turn, go_on, scale_out, abort, exit, order, compute_pnl_bps,
  is_snapback, reaches_profit_lock, count_stale, is_stale,
}
use alpha_whales.Watcher.Loop.{
  compute_log_velocity, observe, is_panic, has_doubled, trailing_stop, decide, value_tick, turn,
}
use alpha_whales.Watcher.Price.{is_snapback_iff, lock_is_snapback}

-- A position whose price is made of machine words.
abbrev pub IsPriced : ActivePosition → Type 0
IsPriced p = IsU64 p.entry_price_wsol_num × IsU64 p.entry_price_wsol_den

abbrev pub IsTick : SwapEvent → Type 0
IsTick e = IsU64 e.base_amount × IsU64 e.quote_amount

-- The price of the tick is at least the entry price, as fractions.
abbrev pub is_recovered : ActivePosition → SwapEvent → Bool
is_recovered p e =
    leb (p.entry_price_wsol_num * e.base_amount) (e.quote_amount * p.entry_price_wsol_den)

-- What the feed may give: ticks of machine words.
abbrev pub IsFeed : Feed → Type 0
IsFeed (event e now_ms landed) = IsTick e
IsFeed closed = Unit {0}
IsFeed timed_out = Unit {0}

abbrev pub IsJustified : ActivePosition → SaleOrder → Type 0
IsJustified p o =
    (o.amount ≡ p.acquired_amount)
    × (o.is_final_exit ≡ true)
    × ((o.reason ≡ panic_velocity)
        ⊎ ((o.reason ≡ vwap_snapback)
            × (p.entry_price_wsol_num * o.cur_wsol_den ≤ o.cur_wsol_num * p.entry_price_wsol_den)))

module _ {F : Type 0} where
  -- What holds of the variables on every turn that goes on.
  abbrev pub IsHeld : ActivePosition → Vbats F → Type 0
  IsHeld p s = (s.profit_lock_active ≡ false) × (s.acquired_amount ≡ p.acquired_amount)

  abbrev pub IsSoundTurn : ActivePosition → Turn F → Type 0
  IsSoundTurn p (go_on s) = IsHeld p s
  IsSoundTurn p (scale_out o s) = ⊥
  IsSoundTurn p abort = Unit {0}
  IsSoundTurn p (exit o) = IsJustified p o

module _ {F : Type 0} (f64 : F64 F) where
  -- A quotient of products of words that is, less one, at least one in f64 is at least one.
  abbrev pub DoubleIsGain : Type 0
  DoubleIsGain =
      (p : ActivePosition) (num den : ℕ)
      → IsPriced p
      → IsU64 num
      → IsU64 den
      → has_doubled f64 p num den ≡ true
      → p.entry_price_wsol_num * den ≤ num * p.entry_price_wsol_den

  abbrev pub panics : ActivePosition → Vbats F → SwapEvent → Bool
  panics p s e =
      is_panic f64
        (compute_log_velocity f64 s.prev_wsol_num s.prev_wsol_den e.quote_amount e.base_amount)
        (compute_pnl_bps e.quote_amount e.base_amount p.entry_price_wsol_num p.entry_price_wsol_den)

  -- The variables as a tick leaves them when nothing is sold.
  abbrev pub moved_on : ActivePosition → Vbats F → SwapEvent → Vbats F
  moved_on p s e =
      record (observe f64 p s e.quote_amount e.base_amount
        (compute_log_velocity f64 s.prev_wsol_num s.prev_wsol_den e.quote_amount e.base_amount)) {
          prev_wsol_num = e.quote_amount;
          prev_wsol_den = e.base_amount;
        }

  abbrev pub sell_all : Vbats F → SwapEvent → SaleReason → Turn F
  sell_all s e reason = exit (order s reason e.quote_amount e.base_amount)

  -- A fresh tick of the pool, with amounts, sells everything if it panics or the price is back at the entry;
  -- else the loop goes on.
  abbrev pub reference_turn : ActivePosition → Vbats F → SwapEvent → Turn F
  reference_turn p s e =
      if panics p s e
      then sell_all s e panic_velocity
      else if is_recovered p e
      then sell_all s e vwap_snapback
      else go_on (moved_on p s e)

  snapback_test :
      (p : ActivePosition) (e : SwapEvent)
      → IsPriced p
      → IsTick e
      → is_snapback p e.quote_amount e.base_amount ≡ is_recovered p e
  snapback_test p e hp ht =
      ground (arith, is_snapback_iff p e.quote_amount e.base_amount hp.0 hp.1 ht.1 ht.0)

  not_doubled :
      (p : ActivePosition) (e : SwapEvent)
      → DoubleIsGain
      → IsPriced p
      → IsTick e
      → is_recovered p e ≡ false
      → has_doubled f64 p e.quote_amount e.base_amount ≡ false
  not_doubled p e law hp ht h = elim (Bool-cases (has_doubled f64 p e.quote_amount e.base_amount)) [
    | inr miss ↦ miss
    | inl hit ↦ absurd (ground (arith, law p e.quote_amount e.base_amount hp ht.1 ht.0 hit, h))
  ]

  pub not_locked :
      (p : ActivePosition) (e : SwapEvent)
      → IsPriced p
      → IsTick e
      → is_recovered p e ≡ false
      → reaches_profit_lock p e.quote_amount e.base_amount ≡ false
  not_locked p e hp ht h = elim (Bool-cases (reaches_profit_lock p e.quote_amount e.base_amount)) [
    | inr miss ↦ miss
    | inl hit ↦ absurd (
        ground (
          arith,
          lock_is_snapback p e.quote_amount e.base_amount hp.0 hp.1 ht.1 ht.0 hit,
          snapback_test p e hp ht,
          h,
        ))
  ]

  -- The whole valuation of a tick, where no profit lock is held.
  pub value_tick_lem :
      (p : ActivePosition) (s : Vbats F) (e : SwapEvent) (now_ms : ℕ) (landed : Bool)
      → DoubleIsGain
      → IsPriced p
      → IsTick e
      → s.profit_lock_active ≡ false
      → value_tick f64 p s e now_ms landed ≡ reference_turn p s e
  value_tick_lem p s e now_ms landed law hp ht unlocked = elim (Bool-cases (is_recovered p e)) [
    | inl hit ↦ unfold value_tick decide observe in ground (arith, hit, snapback_test p e hp ht)
    | inr miss ↦
        unfold value_tick decide observe trailing_stop in
        ground (
          arith,
          miss,
          unlocked,
          snapback_test p e hp ht,
          not_doubled p e law hp ht miss,
          not_locked p e hp ht miss,
        )
  ]

  -- A fresh tick of the pool, with machine-word amounts above zero, where no profit lock is held:
  -- everything is sold if it panics, or else if its price is at least the entry's; else nothing is
  -- sold. No other exit is taken.
  pub turn-reference :
      (p : ActivePosition) (s : Vbats F) (e : SwapEvent) (now_ms : ℕ) (landed : Bool)
      → DoubleIsGain
      → IsPriced p
      → IsTick e
      → 0 < e.base_amount
      → 0 < e.quote_amount
      → (e.pool_id == p.source_pool_id) ≡ true
      → is_stale now_ms e ≡ false
      → s.profit_lock_active ≡ false
      → turn f64 p s (event e now_ms landed) ≡ reference_turn p s e
  unfolding turn
  turn-reference p s e now_ms landed law hp ht hb hq pool new unlocked =
      ground (arith, pool, new, hb, hq, value_tick_lem p s e now_ms landed law hp ht unlocked)

  reference_turn-IsSoundTurn :
      (p : ActivePosition) (s : Vbats F) (e : SwapEvent)
      → IsPriced p
      → IsTick e
      → IsHeld p s
      → IsSoundTurn p (reference_turn p s e)
  reference_turn-IsSoundTurn p s e hp ht held = elim (Bool-cases (panics p s e)) [
    | inl hit ↦ rw hit (held.1, refl, inl refl)
    | inr calm ↦ elim (Bool-cases (is_recovered p e)) [
      | inl hit ↦ rw (calm, hit) (held.1, refl, inr (refl, ground (arith, hit)))
      | inr miss ↦
          unfold observe in
          rw (calm, miss) (ground (arith, held.0, not_locked p e hp ht miss), held.1)
    ]
  ]

  count_stale-IsSoundTurn :
      (p : ActivePosition) (s : Vbats F) → IsHeld p s → IsSoundTurn p (count_stale s)
  unfolding count_stale
  count_stale-IsSoundTurn p s held = ground (arith, held)

  pub turn-IsSoundTurn :
      (p : ActivePosition) (s : Vbats F) (x : Feed)
      → DoubleIsGain
      → IsPriced p
      → IsFeed x
      → IsHeld p s
      → IsSoundTurn p (turn f64 p s x)
  unfolding turn
  turn-IsSoundTurn p s closed law hp ht held = tt
  turn-IsSoundTurn p s timed_out law hp ht held = count_stale-IsSoundTurn p s held
  turn-IsSoundTurn p s (event e now_ms landed) law hp ht held =
      let valued =
        subst (IsSoundTurn p) (sym (value_tick_lem p s e now_ms landed law hp ht held.0))
          (reference_turn-IsSoundTurn p s e hp ht held) in
      ground (arith, held, valued, count_stale-IsSoundTurn p s held)
