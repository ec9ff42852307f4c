-- ===== src/Watcher/Stale.antt =====
-- The dead feed: timeouts and stale ticks are counted, and the twentieth in a row ends the watcher.
use alpha_whales.Common.{
  ℕ, ◌+◌, ◌<◌, ◌≡◌, refl, true, List, [], ◌∷◌, text_key, ◌==◌, leb, if◌then◌else◌, arith, length,
  All,
}
use alpha_whales.Common.Floats.{F64}
use alpha_whales.Watcher.{
  ActivePosition, Vbats, Feed, event, closed, timed_out, count_stale, is_stale, End, waiting,
  aborted, max_consecutive_stale_ticks,
}
use alpha_whales.Watcher.Loop.{turn, run}

-- A timeout, or a tick of the pool that is too old.
abbrev pub IsDead : ActivePosition → Feed → Type 0
IsDead p closed = ⊥
IsDead p timed_out = Unit {0}
IsDead p (event e now_ms landed) =
    ((e.pool_id == p.source_pool_id) ≡ true)
    × (0 < e.base_amount)
    × (0 < e.quote_amount)
    × (is_stale now_ms e ≡ true)

module _ {F : Type 0} (f64 : F64 F) where
  dead_turn :
      (p : ActivePosition) (s : Vbats F) (x : Feed) → IsDead p x → turn f64 p s x ≡ count_stale s
  unfolding turn
  dead_turn p s closed h = absurd h
  dead_turn p s timed_out h = refl
  dead_turn p s (event e now_ms landed) h = ground (arith, h.0, h.1, h.2, h.3)

  -- The end of a run of dead deliveries, from the count so far.
  abbrev pub dead_end : Vbats F → ℕ → End F
  dead_end s n =
      if leb max_consecutive_stale_ticks (s.consecutive_stale + n)
      then aborted
      else waiting (record s { consecutive_stale = s.consecutive_stale + n })

  -- A dead feed keeps the watcher waiting with the deliveries counted up to nineteen in all; with
  -- twenty it is over, and nothing is sold.
  pub run-dead :
      (p : ActivePosition) (s : Vbats F) (xs : List Feed)
      → s.consecutive_stale < max_consecutive_stale_ticks
      → All (IsDead p) xs
      → run f64 p s xs ≡ ([], dead_end s (length xs))
  unfolding run
  run-dead p s [] h hs = ground (arith, h)
  run-dead p s (x ∷ xs) h hs = rw (dead_turn p s x hs.0) (
      unfold count_stale in
      ground
        (arith, run-dead p (record s { consecutive_stale = s.consecutive_stale + 1 }) xs, hs.1))
