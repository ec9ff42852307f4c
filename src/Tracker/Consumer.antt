-- ===== src/Tracker/Consumer.antt =====
-- What becomes of a result beyond the tracker: the slot of a finalized result, and the execution
-- consumer of alpha-whales/src/execution.rs that waits for the tracker's notice.
use alpha_whales.Common.{
  ℕ, ◌≡◌, Option, none, some, true, false, List, ◌∷◌, String, text_key, arith, unwrap_or, [], leb,
  if◌then◌else◌, number_key, ◌==◌,
}
use alpha_whales.Common.Maps.{get}
use alpha_whales.Tracker.{
  BundleTracker, BundleRecord, InclusionStatus, Landing, is_terminal, slot, update_some, classify,
  process_bundle_result, get_status, finalized, final,
}
use alpha_whales.Tracker.Steps.{get-update_status}
use alpha_whales.Tracker.Final.{update_settled}
use text.Mathlib.TextEquality.{eq_iff}

-- `timeout(BUNDLE_LANDING_WAIT, rx.recv())`
pub data Wait : Type 0 where
  received : BundleRecord → Wait
  closed elapsed : Wait

-- The slot and the region that the consumer goes on with, and its calls of
-- `db::record_landed_bundle`, the newest first.
pub record Handoff : Type 0 where
  pub bundle_slot : Option ℕ
  pub bundle_region : Option String
  pub recorded : List Landing

unfoldable pub await_landing : Wait → List Landing → Handoff
unfolding slot
await_landing (received r) log = record {
  bundle_slot = slot r.status;
  bundle_region = some r.region;
  recorded =
      record {
        bundle_id = r.bundle_id;
        region = r.region;
        mint = r.mint;
        landed_slot = unwrap_or (slot r.status) 0;
        transaction_signature = r.transaction_signature;
      }
      ∷ log;
}
await_landing closed log = record { bundle_slot = none; bundle_region = none; recorded = log }
await_landing elapsed log = record { bundle_slot = none; bundle_region = none; recorded = log }

abbrev pub bundle_landing_wait_ms : ℕ
bundle_landing_wait_ms = 10_000

abbrev or_new : Option BundleRecord → Option BundleRecord → Option BundleRecord
or_new (some r) newer = some r
or_new none newer = newer

-- The oldest notice on a channel, of the notices sent, the newest first.
unfoldable pub notice_on : ℕ → List (ℕ × BundleRecord) → Option BundleRecord
notice_on rx [] = none
notice_on rx ((tx, r) ∷ sent) = or_new (notice_on rx sent) (if tx == rx then some r else none)

-- How the wait ends, if the last of the notices comes that many milliseconds after its start.
unfoldable pub wait_on : ℕ → List (ℕ × BundleRecord) → ℕ → Wait
unfolding notice_on
wait_on rx sent passed_ms =
    if leb passed_ms bundle_landing_wait_ms
    then (elim (notice_on rx sent) [ none ↦ elapsed | some r ↦ received r ])
    else elapsed

slot_open : (s : InclusionStatus) → is_terminal s ≡ false → slot s ≡ none
unfolding is_terminal slot
slot_open s h = ground arith

module _ (display : ℕ → String) (debug : Option String → String) where
  -- A finalized result for a tracked bundle changes nothing if the bundle is resolved already, and
  -- otherwise stores slot 0: the slot of an earlier landing is never carried over.
  pub final_slot :
      (t : BundleTracker) (id : String) (r : BundleRecord)
      → get id t.bundles ≡ some r
      → (is_terminal r.status ≡ true → process_bundle_result display debug t id final ≡ t)
        × (is_terminal r.status ≡ false
            → get_status (process_bundle_result display debug t id final) id ≡ some (finalized 0 0))
  unfolding process_bundle_result classify update_some get_status
  final_slot t id r e = (
    (λ h. rw e (update_settled t id _ r e h)),
    λ h.
        ground
          (arith, slot_open r.status h, get-update_status t id id (finalized 0 0), eq_iff id id),
  )
