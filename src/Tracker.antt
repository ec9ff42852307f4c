-- ===== src/Tracker.antt =====
-- core/src/bundle_tracker.rs: the inclusion status of each submitted bundle.
-- A method holds the write lock for its whole call, so it is one step on the tracker; where
-- `process_bundle_result` reads and then writes under two locks, the reading is `classify`, and
-- what other tasks do in between is any list of steps. The gRPC streams deliver `BundleResult`s; a
-- channel is a number, and the calls of its `try_send` and of the database are kept in order of
-- time, the newest first. Display and Debug texts of numbers and messages are arguments.
pub mod Steps
pub mod Final
pub mod Counts
pub mod Ledger
pub mod Expiry
pub mod Consumer
mod Tests
use Prim.Native.String.{◌++◌}
use alpha_whales.Common.{
  ℕ, ◌*◌, ◌-◌, Option, none, some, Bool, true, false, not, ◌&&◌, List, [], ◌∷◌, String, text_key,
  ltb, if◌then◌else◌, and_then, unwrap_or, length, nat_beq,
}
use alpha_whales.Common.Maps.{Map, get, contains_key, insert, remove}

-- 120 seconds, in nanoseconds.
abbrev pub max_bundle_age : ℕ
max_bundle_age = 120 * 1_000_000_000

pub data InclusionStatus : Type 0 where
  pending : InclusionStatus
  landed : ℕ → ℕ → String → InclusionStatus
  finalized : ℕ → ℕ → InclusionStatus
  rejected : String → InclusionStatus
  dropped : String → InclusionStatus
  expired : InclusionStatus

unfoldable pub is_confirmed : InclusionStatus → Bool
is_confirmed (landed slot index validator) = true
is_confirmed (finalized slot index) = true
is_confirmed _ = false

unfoldable pub slot : InclusionStatus → Option ℕ
slot (landed s index validator) = some s
slot (finalized s index) = some s
slot _ = none

unfoldable pub is_terminal : InclusionStatus → Bool
is_terminal pending = false
is_terminal _ = true

pub record BundleRecord : Type 0 where
  pub bundle_id : String
  pub region : String
  pub mint : String
  pub pool_id : String
  pub transaction_signature : String
  pub submitted_at : ℕ
  pub status : InclusionStatus
  pub notify_tx : Option ℕ

-- The arguments of one call of `db::record_landed_bundle`.
pub record Landing : Type 0 where
  pub bundle_id : String
  pub region : String
  pub mint : String
  pub landed_slot : ℕ
  pub transaction_signature : String

pub record BundleTracker : Type 0 where
  pub bundles : Map String BundleRecord
  pub sent : List (ℕ × BundleRecord)
  pub recorded : List Landing

unfoldable pub new_tracker : BundleTracker
new_tracker = record { bundles = []; sent = []; recorded = [] }

-- `tx` is the sending end of the new channel. It is dropped if the bundle is known.
unfoldable pub register_bundle : BundleTracker → BundleRecord → ℕ → BundleTracker
unfolding contains_key
register_bundle t r tx =
    if contains_key r.bundle_id t.bundles
    then t
    else record t { bundles = insert r.bundle_id (record r { notify_tx = some tx }) t.bundles }

unfoldable pub get_status : BundleTracker → String → Option InclusionStatus
get_status t id = and_then (get id t.bundles) (λ r. some r.status)

unfoldable pub record_landing :
    String → BundleRecord → InclusionStatus → List Landing → List Landing
record_landing id r status log =
    if is_confirmed status
    then record {
      bundle_id = id;
      region = r.region;
      mint = r.mint;
      landed_slot = unwrap_or (slot status) 0;
      transaction_signature = r.transaction_signature;
    }
      ∷ log
    else log

-- `record.notify_tx.take()`, and `try_send` of the record as it is then.
unfoldable pub notify : Option ℕ → BundleRecord → List (ℕ × BundleRecord) → List (ℕ × BundleRecord)
notify none r log = log
notify (some tx) r log = (tx, r) ∷ log

abbrev pub resolved : BundleRecord → InclusionStatus → BundleRecord
resolved r status = record r { status = status; notify_tx = none }

unfoldable pub update_record :
    BundleTracker → String → BundleRecord → InclusionStatus → BundleTracker
unfolding record_landing notify is_confirmed slot
update_record t id r status = if is_terminal r.status then t else record {
  bundles = insert id (resolved r status) t.bundles;
  sent = notify r.notify_tx (resolved r status) t.sent;
  recorded = record_landing id r status t.recorded;
}

unfoldable pub update_status : BundleTracker → String → InclusionStatus → BundleTracker
unfolding update_record
update_status t id status = elim (get id t.bundles) [
  | none ↦ t
  | some r ↦ update_record t id r status
]

unfoldable pub remove_bundle : BundleTracker → String → BundleTracker
remove_bundle t id = record t { bundles = remove id t.bundles }

unfoldable pub tracked_count : BundleTracker → ℕ
tracked_count t = length t.bundles

-- The keys whose record passes a test.
unfoldable pub ids_where : (BundleRecord → Bool) → Map String BundleRecord → List String
ids_where p [] = []
ids_where p ((id, r) ∷ m) = if p r then id ∷ ids_where p m else ids_where p m

abbrev pub is_pending : BundleRecord → Bool
is_pending r = not (is_terminal r.status)

unfoldable pub pending_bundle_ids : BundleTracker → List String
unfolding ids_where
pending_bundle_ids t = ids_where is_pending t.bundles

abbrev pub is_overdue : ℕ → BundleRecord → Bool
is_overdue now r = not (is_terminal r.status) && ltb max_bundle_age (now - r.submitted_at)

unfoldable pub expire_all : BundleTracker → List String → BundleTracker
expire_all t [] = t
expire_all t (id ∷ ids) = expire_all (update_status t id expired) ids

-- The overdue ids are collected first, and then updated one by one.
unfoldable pub prune_expired : BundleTracker → ℕ → BundleTracker
unfolding expire_all ids_where
prune_expired t now = expire_all t (ids_where (is_overdue now) t.bundles)

unfoldable pub update_some : BundleTracker → String → Option InclusionStatus → BundleTracker
update_some t id none = t
update_some t id (some status) = update_status t id status

-- jito_protos: the variants of a bundle result. The reason of a drop is the number that the match
-- tests; a negative one, which protobuf admits, is displayed as any other that is unknown.
pub data RejectedReason : Type 0 where
  state_auction_bid_rejected winning_batch_bid_rejected : ℕ → Option String → RejectedReason
  simulation_failure : String → Option String → RejectedReason
  internal_error dropped_bundle : String → RejectedReason

pub data BundleResult : Type 0 where
  accepted : ℕ → String → BundleResult
  processed : ℕ → ℕ → String → BundleResult
  final : BundleResult
  reject : Option RejectedReason → BundleResult
  drop : ℕ → BundleResult
  no_variant : BundleResult

module _ (display : ℕ → String) (debug : Option String → String) where
  unfoldable pub rejection_text : Option RejectedReason → String
  rejection_text none = "unknown_rejection"
  rejection_text (some (state_auction_bid_rejected bid msg)) =
      "state_auction_bid_rejected (bid=" ++ display bid ++ " lamports, msg=" ++ debug msg ++ ")"
  rejection_text (some (winning_batch_bid_rejected bid msg)) =
      "winning_batch_bid_rejected (bid=" ++ display bid ++ " lamports, msg=" ++ debug msg ++ ")"
  rejection_text (some (simulation_failure tx msg)) =
      "simulation_failure (tx=" ++ tx ++ ", msg=" ++ debug msg ++ ")"
  rejection_text (some (internal_error msg)) = "internal_error: " ++ msg
  rejection_text (some (dropped_bundle msg)) = "dropped_bundle: " ++ msg

  unfoldable pub drop_text : ℕ → String
  drop_text reason =
      if nat_beq reason 0
      then "blockhash_expired"
      else if nat_beq reason 1
      then "partially_processed"
      else if nat_beq reason 2
      then "not_finalized"
      else "unknown_drop_reason(" ++ display reason ++ ")"

  -- The status that a result stands for; a finalized result takes the slot from the record.
  unfoldable pub classify : BundleTracker → String → BundleResult → Option InclusionStatus
  unfolding rejection_text drop_text slot
  classify t id (accepted s validator) = some (landed s 0 validator)
  classify t id (processed s index validator) = some (landed s index validator)
  classify t id final =
      some (finalized (unwrap_or (and_then (get id t.bundles) (λ r. slot r.status)) 0) 0)
  classify t id (reject reason) = some (rejected (rejection_text reason))
  classify t id (drop reason) = some (dropped (drop_text reason))
  classify t id no_variant = none

  unfoldable pub process_bundle_result : BundleTracker → String → BundleResult → BundleTracker
  unfolding contains_key update_some
  process_bundle_result t id result =
      if contains_key id t.bundles then update_some t id (classify t id result) else t
