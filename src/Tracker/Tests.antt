-- ===== src/Tracker/Tests.antt =====
-- Runs of the tracker, and the theorems at concrete inputs.
use alpha_whales.Common.{
  ℕ, ◌*◌, ◌≡◌, refl, Option, none, some, List, [], ◌∷◌, String, text_key, length,
}
use alpha_whales.Common.Maps.{get, insert}
use alpha_whales.Tracker.{
  BundleTracker, BundleRecord, pending, landed, finalized, rejected, expired, is_terminal, classify,
  accepted, final, new_tracker, update_status, update_record, record_landing, notify,
  register_bundle, update_some, process_bundle_result, prune_expired, get_status,
}
use alpha_whales.Tracker.Steps.{Op, register, prune, receive, step, run}
use alpha_whales.Tracker.Final.{update_status_first}
use alpha_whales.Tracker.Counts.{count, is_resolved, is_landed}
use alpha_whales.Tracker.Ledger.{run-counts}
use alpha_whales.Tracker.Expiry.{get-prune_expired, IsPruned}

abbrev display : ℕ → String
display n = "n"

abbrev debug : Option String → String
debug m = "m"

abbrev submitted : String → BundleRecord
submitted id = record {
  bundle_id = id;
  region = "ack-region";
  mint = "mintA";
  pool_id = "pump";
  transaction_signature = "sig";
  submitted_at = 0;
  status = pending;
  notify_tx = none;
}

abbrev wired : BundleRecord
wired = record (submitted "b1") { notify_tx = some 7 }

abbrev tracker : BundleTracker
tracker = record { bundles = ("b1", wired) ∷ []; sent = []; recorded = [] }

abbrev history : List Op
history =
    register (submitted "b1") 7
    ∷ register (submitted "b2") 8
    ∷ receive "b1" (accepted 42 "validator")
    ∷ receive "b1" final
    ∷ receive "b3" final
    ∷ prune (121 * 1_000_000_000)
    ∷ []

history-b1 :
    get_status (run display debug new_tracker history) "b1" ≡ some (landed 42 0 "validator")
unfolding run step new_tracker register_bundle process_bundle_result classify update_some
    update_status update_record prune_expired get_status get insert record_landing notify
    is_terminal
history-b1 = refl

history-b2 : get_status (run display debug new_tracker history) "b2" ≡ some expired
unfolding run step new_tracker register_bundle process_bundle_result classify update_some
    update_status update_record prune_expired get_status get insert record_landing notify
    is_terminal
history-b2 = refl

update_status_first_example :
    update_status (update_status tracker "b1" (rejected "no")) "b1" (finalized 5 0)
    ≡ update_status tracker "b1" (rejected "no")
update_status_first_example =
    update_status_first tracker "b1" (rejected "no") (finalized 5 0) (unfold is_terminal in refl)

run-counts_example :
    let t = run display debug new_tracker history in
    (length t.sent ≡ count is_resolved t.bundles) × (length t.recorded ≡ count is_landed t.bundles)
run-counts_example = run-counts display debug history (refl, (refl, (tt, (tt, (tt, (tt, tt))))))

get-prune_expired_example :
    (get "b1" tracker.bundles ≡ none
      → get "b1" (prune_expired tracker (121 * 1_000_000_000)).bundles ≡ none)
    × ((r : BundleRecord)
        → get "b1" tracker.bundles ≡ some r
        → IsPruned
            (121 * 1_000_000_000)
            r
            (get "b1" (prune_expired tracker (121 * 1_000_000_000)).bundles))
unfolding get
get-prune_expired_example = get-prune_expired tracker "b1" (121 * 1_000_000_000) (refl, tt)
