-- ===== src/Dispatch.antt =====
-- core/src/dispatcher.rs: opportunity deduplication, tip accounts and the fan-out of a bundle.
-- Public keys are a type of their own. What a gRPC call gives back is an argument; a lock is held
-- for a whole method, so a method is one step. A set is a list of its elements.
pub mod Dedupe
pub mod Refine
pub mod Tips
pub mod FanOut
pub mod Bundle
mod Tests
pub use alpha_whales.Common.Checked.{Checked, ok, err}
use alpha_whales.Common.{
  ℕ, zero, suc, ◌+◌, ◌-◌, ◌%◌, ◌≡◌, ◌↔◌, refl, Option, none, some, Bool, true, false, not, ◌&&◌,
  List, [], ◌∷◌, String, KeyEq, text_key, number_key, ◌==◌, ltb, leb, if◌then◌else◌, length,
  get_elem?, set, any, filter, arith,
}

pub data BundleError : Type 0 where
  transaction_serialization : BundleError
  transaction_too_large : ℕ → ℕ → BundleError
  transaction_signing message_compilation : String → BundleError

abbrev pub packet_data_size : ℕ
packet_data_size = 1_232

pub record ProtoPacket (D : Type 0) : Type 0 where
  pub data_bytes : List D
  pub meta_size : ℕ

-- `serialized` is what bincode gives for the transaction. A length is below 2^64.
unfoldable pub transaction_to_proto_packet :
    {D : Type 0} → Option (List D) → Checked BundleError (ProtoPacket D)
transaction_to_proto_packet none = err transaction_serialization
transaction_to_proto_packet (some bytes) =
    if ltb packet_data_size (length bytes)
    then err (transaction_too_large (length bytes) packet_data_size)
    else ok (record { data_bytes = bytes; meta_size = length bytes })

pub record OpportunityKey : Type 0 where
  pub mint : String
  pub pool : String
  pub signal_epoch_secs : ℕ

abbrev pub same_opportunity : OpportunityKey → OpportunityKey → Bool
same_opportunity j k =
    j.mint == k.mint && j.pool == k.pool && j.signal_epoch_secs == k.signal_epoch_secs

pub record OpportunityDeduplicator : Type 0 where
  pub seen : List OpportunityKey
  pub ttl_secs : ℕ

-- `OpportunityDeduplicator::new`
unfoldable pub new_deduplicator : ℕ → OpportunityDeduplicator
new_deduplicator ttl_secs = record { seen = []; ttl_secs = ttl_secs }

abbrev pub is_seen : OpportunityKey → List OpportunityKey → Bool
is_seen key seen = any (λ k. same_opportunity k key) seen

unfoldable pub try_acquire :
    OpportunityDeduplicator → OpportunityKey → OpportunityDeduplicator × Bool
try_acquire d key =
    if is_seen key d.seen then (d, false) else (record d { seen = key ∷ d.seen }, true)

unfoldable pub prune : OpportunityDeduplicator → ℕ → OpportunityDeduplicator
prune d now_secs =
    let cutoff = now_secs - d.ttl_secs in
    record d { seen = filter (λ k. leb cutoff k.signal_epoch_secs) d.seen }

pub record RegionClient (K : Type 0) : Type 0 where
  pub label : String
  pub tip_accounts : List K
  pub next_tip_account : ℕ

-- `RegionClient::take_tip_account`
unfoldable pub take_region_tip : {K : Type 0} → RegionClient K → RegionClient K × Option K
take_region_tip r = elim (get_elem? r.tip_accounts r.next_tip_account) [
  | none ↦ (r, none)
  | some account ↦ (
    record r { next_tip_account = (r.next_tip_account + 1) % length r.tip_accounts },
    some account,
  )
]

pub data DispatchError : Type 0 where
  connection_timeout submission_timeout empty_bundle_id : String → DispatchError
  grpc : String → String → DispatchError

pub record SubmissionAck : Type 0 where
  pub bundle_id : String
  pub region : String
  pub accepted_at : ℕ

-- What `send_bundle` comes to within its ten seconds: nothing, an error's text or a bundle id.
pub data Reply : Type 0 where
  timed_out : Reply
  failed uuid : String → Reply

unfoldable pub submit : String → Reply → ℕ → Checked DispatchError SubmissionAck
submit label timed_out now = err (submission_timeout label)
submit label (failed detail) now = err (grpc label detail)
submit label (uuid bundle_id) now =
    if bundle_id == ""
    then err (empty_bundle_id label)
    else ok (record { bundle_id = bundle_id; region = label; accepted_at = now })

pub record RegionResult : Type 0 where
  pub region : String
  pub result : Checked DispatchError SubmissionAck

pub record BundleDispatcher (K : Type 0) : Type 0 where
  pub regions : List (RegionClient K)
  pub next_region_for_tip : ℕ
  pub deduplicator : OpportunityDeduplicator

-- `BundleDispatcher::empty`
unfoldable pub empty_dispatcher : {K : Type 0} → BundleDispatcher K
empty_dispatcher = record {
  regions = [];
  next_region_for_tip = 0;
  deduplicator = new_deduplicator 0;
}

unfoldable pub region_count : {K : Type 0} → BundleDispatcher K → ℕ
region_count d = length d.regions

abbrev pub after_tip :
    {K : Type 0}
    → BundleDispatcher K
    → ℕ
    → RegionClient K × Option K
    → (BundleDispatcher K × Option K)
    → BundleDispatcher K × Option K
after_tip d idx (r, none) rest = rest
after_tip d idx (r, some account) rest = (
  record d { regions = set d.regions idx r; next_region_for_tip = (idx + 1) % length d.regions },
  some account,
)

-- The loop over the offsets that are left; a region that gives no account is unchanged.
unfoldable pub try_regions :
    {K : Type 0} → BundleDispatcher K → ℕ → ℕ → ℕ → BundleDispatcher K × Option K
unfolding take_region_tip
try_regions d start offset zero = (d, none)
try_regions d start offset (suc left) =
    let rest = try_regions d start (offset + 1) left in
    let idx = (start + offset) % length d.regions in
    elim (get_elem? d.regions idx) [
      | none ↦ rest
      | some r ↦ after_tip d idx (take_region_tip r) rest
    ]

unfoldable pub take_tip_account : {K : Type 0} → BundleDispatcher K → BundleDispatcher K × Option K
unfolding try_regions
take_tip_account d = try_regions d d.next_region_for_tip 0 (length d.regions)

-- The results in the order of the handles; a task that panicked has none. `first` is the
-- acknowledgment kept so far.
unfoldable pub collect :
    Option SubmissionAck → List (Option RegionResult) → Option SubmissionAck × List RegionResult
collect first [] = (first, [])
collect first (none ∷ outcomes) = collect first outcomes
collect none (some r ∷ outcomes) = elim r.result [
  | ok ack ↦ let (ack', rs) = collect (some ack) outcomes in (ack', r ∷ rs)
  | err e ↦ let (ack', rs) = collect none outcomes in (ack', r ∷ rs)
]
collect (some first) (some r ∷ outcomes) =
    let (ack', rs) = collect (some first) outcomes in (ack', r ∷ rs)

abbrev pub first_or_results :
    Option SubmissionAck × List RegionResult → Checked (List RegionResult) SubmissionAck
first_or_results (none, results) = err results
first_or_results (some ack, results) = ok ack

-- `outcomes` are the joined tasks, one for each region; without regions there are none.
unfoldable pub fan_out_submit :
    List (Option RegionResult) → Checked (List RegionResult) SubmissionAck
unfolding collect
fan_out_submit outcomes = first_or_results (collect none outcomes)
