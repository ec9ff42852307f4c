-- ===== src/Dispatch/Refine.antt =====
-- core/src/dispatcher.rs: the deduplicator against a set of keys, which forgets how they are kept.
use alpha_whales.Common.{
  ℕ, ◌-◌, ◌≡◌, refl, ◌∙◌, sym, Bool, true, false, not, ◌&&◌, ◌||◌, List, [], ◌∷◌, text_key,
  number_key, leb, filter, arith,
}
use alpha_whales.Dispatch.{
  OpportunityKey, same_opportunity, OpportunityDeduplicator, new_deduplicator, is_seen, try_acquire,
  prune,
}
use alpha_whales.Dispatch.Dedupe.{DedupeCall, acquire, prune_at, dedupe_step, same_epoch, step_ttl}
use text.Mathlib.TextEquality.{eq_iff}

-- The answers that a history of calls gets.
unfoldable pub dedupe_answers : OpportunityDeduplicator → List DedupeCall → List Bool
dedupe_answers d [] = []
dedupe_answers d (acquire key ∷ cs) =
    (try_acquire d key).1 ∷ dedupe_answers (dedupe_step d (acquire key)) cs
dedupe_answers d (prune_at now ∷ cs) = dedupe_answers (dedupe_step d (prune_at now)) cs

-- The same calls on a set.
unfoldable pub set_answers : ℕ → (OpportunityKey → Bool) → List DedupeCall → List Bool
set_answers ttl_secs s [] = []
set_answers ttl_secs s (acquire key ∷ cs) =
    not (s key) ∷ set_answers ttl_secs (λ k. same_opportunity key k || s k) cs
set_answers ttl_secs s (prune_at now ∷ cs) =
    set_answers ttl_secs (λ k. leb (now - ttl_secs) k.signal_epoch_secs && s k) cs

-- The deduplicator stands for the set.
abbrev pub StandsFor : OpportunityDeduplicator → (OpportunityKey → Bool) → Type 0
StandsFor d s = (k : OpportunityKey) → is_seen k d.seen ≡ s k

same_alike :
    (j k x : OpportunityKey)
    → same_opportunity j k ≡ true
    → same_opportunity x j ≡ same_opportunity x k
same_alike j k x e =
    let mints = (eq_iff j.mint k.mint).0 (ground arith) in
    let pools = (eq_iff j.pool k.pool).0 (ground arith) in
    let epochs = same_epoch j k e in rw mints (rw pools (rw epochs refl))

seen_alike :
    (j k : OpportunityKey) (seen : List OpportunityKey)
    → same_opportunity j k ≡ true
    → is_seen j seen ≡ is_seen k seen
seen_alike j k [] e = refl
seen_alike j k (x ∷ seen) e = rw (same_alike j k x e) (rw (seen_alike j k seen e) refl)

try_acquire-answer :
    (d : OpportunityDeduplicator) (key : OpportunityKey)
    → (try_acquire d key).1 ≡ not (is_seen key d.seen)
unfolding try_acquire
try_acquire-answer d key = ground arith

is_seen-filter :
    (k : OpportunityKey) (cutoff : ℕ) (seen : List OpportunityKey)
    → is_seen k (filter (λ x. leb cutoff x.signal_epoch_secs) seen)
      ≡ (leb cutoff k.signal_epoch_secs && is_seen k seen)
is_seen-filter k cutoff [] = ground arith
is_seen-filter k cutoff (x ∷ seen) = ground (arith, is_seen-filter k cutoff seen, same_epoch x k)

acquire-StandsFor :
    (d : OpportunityDeduplicator) (s : OpportunityKey → Bool) (key : OpportunityKey)
    → StandsFor d s
    → StandsFor (dedupe_step d (acquire key)) (λ k. same_opportunity key k || s k)
unfolding dedupe_step try_acquire
acquire-StandsFor d s key h k = ground (arith, h k, seen_alike key k d.seen)

prune-StandsFor :
    (d : OpportunityDeduplicator) (s : OpportunityKey → Bool) (now : ℕ)
    → StandsFor d s
    → StandsFor
        (dedupe_step d (prune_at now))
        (λ k. leb (now - d.ttl_secs) k.signal_epoch_secs && s k)
unfolding dedupe_step prune
prune-StandsFor d s now h k = rw (is_seen-filter k (now - d.ttl_secs) d.seen) (rw (h k) refl)

answers_alike :
    (d : OpportunityDeduplicator) (s : OpportunityKey → Bool) (ttl_secs : ℕ) (cs : List DedupeCall)
    → d.ttl_secs ≡ ttl_secs
    → StandsFor d s
    → dedupe_answers d cs ≡ set_answers ttl_secs s cs
unfolding dedupe_answers set_answers
answers_alike d s ttl_secs [] e h = refl
answers_alike d s ttl_secs (acquire key ∷ cs) e h = rw (try_acquire-answer d key) (
    rw (h key) (
      rw
        (answers_alike (dedupe_step d (acquire key)) (λ k. same_opportunity key k || s k) ttl_secs
          cs (step_ttl d (acquire key) ∙ e) (acquire-StandsFor d s key h))
        refl))
answers_alike d s ttl_secs (prune_at now ∷ cs) e h =
    answers_alike (dedupe_step d (prune_at now))
      (λ k. leb (now - ttl_secs) k.signal_epoch_secs && s k) ttl_secs cs
      (step_ttl d (prune_at now) ∙ e) (rw (sym e) (prune-StandsFor d s now h))

-- A new deduplicator answers every history of its calls as a set of keys does, to which a key is
-- added when it is asked for, and from which a prune takes the keys that are older than the time to
-- live: how often and in which order the keys are kept never shows.
pub dedupe_answers-set :
    (ttl_secs : ℕ) (cs : List DedupeCall)
    → dedupe_answers (new_deduplicator ttl_secs) cs ≡ set_answers ttl_secs (λ k. false) cs
unfolding new_deduplicator
dedupe_answers-set ttl_secs cs =
    answers_alike (new_deduplicator ttl_secs) (λ k. false) ttl_secs cs refl (λ k. refl)
