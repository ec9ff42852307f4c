-- ===== src/Watcher/Runs.antt =====
-- Whole runs of the watcher: what is ever sold, and what never is.
use alpha_whales.Common.{◌≡◌, refl, List, [], ◌∷◌, text_key, All}
use alpha_whales.Common.Floats.{F64}
use alpha_whales.Watcher.{
  ActivePosition, SaleOrder, Vbats, Feed, Turn, go_on, scale_out, abort, exit, End, waiting,
  aborted, sold,
}
use alpha_whales.Watcher.Loop.{turn, start, run, after_turn}
use alpha_whales.Watcher.Exits.{
  DoubleIsGain, IsPriced, IsFeed, IsHeld, IsJustified, IsSoundTurn, turn-IsSoundTurn,
}

module _ {F : Type 0} where
  abbrev pub IsSoundEnd : ActivePosition → End F → Type 0
  IsSoundEnd p (waiting s) = IsHeld p s
  IsSoundEnd p aborted = Unit {0}
  IsSoundEnd p (sold o) = IsJustified p o

  abbrev pub IsSoundRun : ActivePosition → List SaleOrder × End F → Type 0
  IsSoundRun p r = (r.0 ≡ []) × IsSoundEnd p r.1

  after_turn-IsSoundRun :
      (p : ActivePosition) (t : Turn F) (rest : Vbats F → List SaleOrder × End F)
      → IsSoundTurn p t
      → ((s : Vbats F) → IsHeld p s → IsSoundRun p (rest s))
      → IsSoundRun p (after_turn t rest)
  after_turn-IsSoundRun p (go_on s) rest h k = k s h
  after_turn-IsSoundRun p (scale_out o s) rest h k = absurd h
  after_turn-IsSoundRun p abort rest h k = (refl, tt)
  after_turn-IsSoundRun p (exit o) rest h k = (refl, h)

module _ {F : Type 0} (f64 : F64 F) where
  runs_sound :
      (p : ActivePosition) (s : Vbats F) (xs : List Feed)
      → DoubleIsGain f64
      → IsPriced p
      → All IsFeed xs
      → IsHeld p s
      → IsSoundRun p (run f64 p s xs)
  unfolding run
  runs_sound p s [] law hp hs held = (refl, held)
  runs_sound p s (x ∷ xs) law hp hs held =
      after_turn-IsSoundRun p (turn f64 p s x) (λ s'. run f64 p s' xs)
        (turn-IsSoundTurn f64 p s x law hp hs.0 held) (λ s' h. runs_sound p s' xs law hp hs.1 h)

  -- Whatever the feed gives, on machine-word amounts: the watcher makes no partial sale, and if it
  -- sells, then the whole position, in a panic or at a price of at least the entry's.
  pub run-justified :
      (p : ActivePosition) (xs : List Feed)
      → DoubleIsGain f64
      → IsPriced p
      → All IsFeed xs
      → IsSoundRun p (run f64 p (start f64 p) xs)
  unfolding start
  run-justified p xs law hp hs = runs_sound p (start f64 p) xs law hp hs (refl, refl)
