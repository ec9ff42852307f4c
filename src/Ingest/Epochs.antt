-- ===== src/Ingest/Epochs.antt =====
-- What the stream epoch tells of the events that stand in the queue.
use alpha_whales.Common.{
  ℕ, suc, ◌+◌, ◌%◌, ◌≤◌, ◌<◌, ◌≡◌, refl, sym, ◌∙◌, subst, inl, inr, true, false, List, [], ◌∷◌,
  ◌++◌, KeyEq, filter, map, length, u64_mod, arith, Bool-cases,
}
use mathlib.Core.List.{append-nil, append_assoc}
use alpha_whales.Common.Keys.{Keys}
use alpha_whales.Common.Checked.{ok}
use alpha_whales.Types.{SwapEvent}
use alpha_whales.Config.{AppConfig}
use alpha_whales.Ingest.{Decoders, DecodedSwap}
use alpha_whales.Ingest.Stream.{
  Sending, sent, full, disconnected, Stream, increment, into_swap_event, passes_filter, after_send,
  count_decoded, enqueue_decoded_swap, enqueue_all,
}

module _ {K : Type 0} ⦃key : KeyEq K⦄ (keys : Keys K) (parse : Decoders K) (try_send : ℕ → Sending)
    (config : AppConfig) where
  -- The events of those swaps that pass the filter, under one epoch.
  abbrev pub events_of : ℕ → List (DecodedSwap K) → List SwapEvent
  events_of epoch ds =
      map (λ d. into_swap_event keys d epoch) (filter (passes_filter parse config) ds)

  -- From `s` to `s'` so many swaps were dropped at a full queue; if none was, the events are all there.
  record Progress (s s' : Stream) (ds : List (DecodedSwap K)) : Type 0 where
    drops : ℕ
    drops_le : drops ≤ length ds
    epoch : s'.stream_epoch ≡ (s.stream_epoch + drops) % u64_mod
    all_there : drops ≡ 0 → s'.queued ≡ s.queued ++ events_of s.stream_epoch ds

  -- Where one swap goes.
  data Placed (s s' : Stream) (d : DecodedSwap K) : Type 0 where
    filtered :
        passes_filter parse config d ≡ false
        → s'.stream_epoch ≡ s.stream_epoch
        → s'.queued ≡ s.queued
        → Placed s s' d
    in_queue :
        passes_filter parse config d ≡ true
        → s'.stream_epoch ≡ s.stream_epoch
        → s'.queued ≡ s.queued ++ (into_swap_event keys d s.stream_epoch ∷ [])
        → Placed s s' d
    dropped : s'.stream_epoch ≡ increment s.stream_epoch → Placed s s' d

  after_send-Placed :
      (s : Stream) (d : DecodedSwap K) (answer : Sending)
      → passes_filter parse config d ≡ true
      → (after_send keys (count_decoded s) d answer).1 ≡ ok tt
      → Placed s (after_send keys (count_decoded s) d answer).0 d
  after_send-Placed s d sent e h = in_queue e refl refl
  after_send-Placed s d full e h = dropped refl
  after_send-Placed s d disconnected e h = absurd (ground arith)

  still_small :
      {s s' : Stream} {d : DecodedSwap K}
      → s.stream_epoch < u64_mod
      → Placed s s' d
      → s'.stream_epoch < u64_mod
  still_small small (filtered e same queue) = omega (arith, same)
  still_small small (in_queue e same queue) = omega (arith, same)
  still_small small (dropped next) = omega (arith, next)

  opened :
      (s : Stream) (d : DecodedSwap K)
      → passes_filter parse config d ≡ true
      → enqueue_decoded_swap keys parse try_send config s d
        ≡ after_send keys (count_decoded s) d (try_send s.sends)
  unfolding enqueue_decoded_swap
  opened s d e = rw e refl

  enqueue-Placed :
      (s : Stream) (d : DecodedSwap K)
      → (enqueue_decoded_swap keys parse try_send config s d).1 ≡ ok tt
      → Placed s (enqueue_decoded_swap keys parse try_send config s d).0 d
  unfolding enqueue_decoded_swap
  enqueue-Placed s d h = elim (Bool-cases (passes_filter parse config d)) [
    | inr e ↦ rw e (filtered e refl refl)
    | inl e ↦
        rw e
          (after_send-Placed s d (try_send s.sends) e (subst (λ r. r.1 ≡ ok tt) (opened s d e) h))
  ]

  step-Progress :
      (s s1 s2 : Stream) (d : DecodedSwap K) (ds : List (DecodedSwap K))
      → s.stream_epoch < u64_mod
      → Placed s s1 d
      → Progress s1 s2 ds
      → Progress s s2 (d ∷ ds)
  step-Progress s s1 s2 d ds small (filtered e same queue) p = record {
    drops = p.drops;
    drops_le = omega (arith, p.drops_le);
    epoch = p.epoch ∙ rw same refl;
    all_there = λ z. p.all_there z ∙ rw (same, queue, e) refl;
  }
  step-Progress s s1 s2 d ds small (in_queue e same queue) p = record {
    drops = p.drops;
    drops_le = omega (arith, p.drops_le);
    epoch = p.epoch ∙ rw same refl;
    all_there = λ z. p.all_there z ∙ rw (same, queue, e, append_assoc) refl;
  }
  step-Progress s s1 s2 d ds small (dropped next) p = record {
    drops = suc p.drops;
    drops_le = omega (arith, p.drops_le);
    epoch = omega (arith, p.epoch, next);
    all_there = λ z. absurd (omega (arith, z));
  }

  run_cons :
      (s : Stream) (d : DecodedSwap K) (ds : List (DecodedSwap K))
      → (enqueue_all keys parse try_send config s (d ∷ ds)).1 ≡ ok tt
      → ((enqueue_decoded_swap keys parse try_send config s d).1 ≡ ok tt)
        × (enqueue_all keys parse try_send config s (d ∷ ds)
            ≡ enqueue_all keys parse try_send config
                (enqueue_decoded_swap keys parse try_send config s d).0
                ds)
  unfolding enqueue_all
  run_cons s d ds h = ground arith

  run-Progress :
      (s : Stream) (ds : List (DecodedSwap K))
      → s.stream_epoch < u64_mod
      → (enqueue_all keys parse try_send config s ds).1 ≡ ok tt
      → Progress s (enqueue_all keys parse try_send config s ds).0 ds
  unfolding enqueue_all
  run-Progress s [] small h = record {
    drops = 0;
    drops_le = omega arith;
    epoch = omega arith;
    all_there = λ _. sym (append-nil s.queued);
  }
  run-Progress s (d ∷ ds) small h =
      let (e, rest) = run_cons s d ds h in
      let s1 = (enqueue_decoded_swap keys parse try_send config s d).0 in
      let place = enqueue-Placed s d e in
      subst (λ r. Progress s r.0 (d ∷ ds)) (sym rest)
        (step-Progress s s1 _ d ds small place
          (run-Progress s1 ds (still_small small place) (subst (λ r. r.1 ≡ ok tt) rest h)))

  -- Where the decoded swaps of one transaction are handled without an error and the epoch is the same
  -- before and after, the queue has gained an event for every swap that the filter lets through, in their
  -- order.
  pub same_epoch_complete :
      (s : Stream) (ds : List (DecodedSwap K))
      → s.stream_epoch < u64_mod
      → length ds < u64_mod
      → (enqueue_all keys parse try_send config s ds).1 ≡ ok tt
      → (enqueue_all keys parse try_send config s ds).0.stream_epoch ≡ s.stream_epoch
      → (enqueue_all keys parse try_send config s ds).0.queued
        ≡ s.queued ++ events_of s.stream_epoch ds
  same_epoch_complete s ds small few h same =
      let p = run-Progress s ds small h in
      p.all_there (omega (arith, p.epoch, p.drops_le, same, small, few))
