-- ===== src/Dispatch/Dedupe.antt =====
-- The deduplicator over histories of its two calls.
use alpha_whales.Common.{
  ℕ, ◌+◌, ◌-◌, ◌≤◌, ◌≡◌, refl, ◌∙◌, true, false, List, [], ◌∷◌, text_key, number_key, leb, filter,
  All, arith,
}
use alpha_whales.Dispatch.{
  OpportunityKey, same_opportunity, OpportunityDeduplicator, is_seen, try_acquire, prune,
}
use text.Mathlib.TextEquality.{eq_iff}

pub data DedupeCall : Type 0 where
  acquire : OpportunityKey → DedupeCall
  prune_at : ℕ → DedupeCall

unfoldable pub dedupe_step : OpportunityDeduplicator → DedupeCall → OpportunityDeduplicator
unfolding try_acquire prune
dedupe_step d (acquire key) = (try_acquire d key).0
dedupe_step d (prune_at now) = prune d now

unfoldable pub dedupe_run : OpportunityDeduplicator → List DedupeCall → OpportunityDeduplicator
dedupe_run d [] = d
dedupe_run d (c ∷ cs) = dedupe_run (dedupe_step d c) cs

-- No prune after the key's time to live.
abbrev pub IsWithin : OpportunityKey → ℕ → DedupeCall → Type 0
IsWithin key ttl (acquire k) = Unit {0}
IsWithin key ttl (prune_at now) = now ≤ key.signal_epoch_secs + ttl

same_self : (key : OpportunityKey) → same_opportunity key key ≡ true
same_self key = ground (arith, (eq_iff key.mint key.mint).1 refl, (eq_iff key.pool key.pool).1 refl)

pub same_epoch :
    (j k : OpportunityKey) → same_opportunity j k ≡ true → j.signal_epoch_secs ≡ k.signal_epoch_secs
same_epoch j k h = ground arith

kept :
    (key : OpportunityKey) (cutoff : ℕ) (seen : List OpportunityKey)
    → cutoff ≤ key.signal_epoch_secs
    → is_seen key seen ≡ true
    → is_seen key (filter (λ k. leb cutoff k.signal_epoch_secs) seen) ≡ true
kept key cutoff [] h s = s
kept key cutoff (k ∷ seen) h s = ground (arith, same_epoch k key, kept key cutoff seen h)

step-seen :
    (d : OpportunityDeduplicator) (key k : OpportunityKey)
    → is_seen key d.seen ≡ true
    → is_seen key (dedupe_step d (acquire k)).seen ≡ true
unfolding dedupe_step try_acquire
step-seen d key k s = ground (arith, s)

pub step_ttl :
    (d : OpportunityDeduplicator) (c : DedupeCall) → (dedupe_step d c).ttl_secs ≡ d.ttl_secs
unfolding dedupe_step try_acquire prune
step_ttl d (acquire k) = ground arith
step_ttl d (prune_at now) = refl

stays_seen :
    (d : OpportunityDeduplicator) (key : OpportunityKey) (ttl : ℕ) (cs : List DedupeCall)
    → d.ttl_secs ≡ ttl
    → is_seen key d.seen ≡ true
    → All (IsWithin key ttl) cs
    → is_seen key (dedupe_run d cs).seen ≡ true
unfolding dedupe_run
stays_seen d key ttl [] e s hs = s
stays_seen d key ttl (acquire k ∷ cs) e s hs =
    stays_seen (dedupe_step d (acquire k)) key ttl cs (step_ttl d (acquire k) ∙ e)
      (step-seen d key k s) hs.1
stays_seen d key ttl (prune_at now ∷ cs) e s hs =
    stays_seen (dedupe_step d (prune_at now)) key ttl cs (step_ttl d (prune_at now) ∙ e)
      (unfold dedupe_step prune in kept key (now - d.ttl_secs) d.seen (omega (arith, hs.0, e)) s)
      hs.1

acquired :
    (d : OpportunityDeduplicator) (key : OpportunityKey)
    → (is_seen key (try_acquire d key).0.seen ≡ true)
      × ((try_acquire d key).0.ttl_secs ≡ d.ttl_secs)
unfolding try_acquire
acquired d key = ground (arith, same_self key)

seen_refused :
    (d : OpportunityDeduplicator) (key : OpportunityKey)
    → is_seen key d.seen ≡ true
    → (try_acquire d key).1 ≡ false
unfolding try_acquire
seen_refused d key s = ground (arith, s)

-- Once a key has been asked for it is refused, however other keys are asked for and old ones
-- pruned, until a prune later than its epoch plus the time to live.
pub reacquire_refused :
    (d : OpportunityDeduplicator) (key : OpportunityKey) (cs : List DedupeCall)
    → All (IsWithin key d.ttl_secs) cs
    → (try_acquire (dedupe_run (try_acquire d key).0 cs) key).1 ≡ false
reacquire_refused d key cs hs =
    let (s, e) = acquired d key in
    seen_refused (dedupe_run (try_acquire d key).0 cs) key
      (stays_seen (try_acquire d key).0 key d.ttl_secs cs e s hs)
