-- ===== src/Dispatch/Tests.antt =====
-- Runs of the dispatcher, and the theorems at concrete inputs.
use alpha_whales.Dispatch.Refine.{dedupe_answers, set_answers, dedupe_answers-set}
use alpha_whales.Dispatch.{new_deduplicator}
use alpha_whales.Common.{
  ℕ, ◌+◌, ◌≡◌, refl, Option, none, some, true, false, List, [], ◌∷◌, text_key, number_key, arith,
}
use alpha_whales.Dispatch.Bundle.{Sdk, SignedBundle, build_and_sign_bundle_with_alt}
use alpha_whales.Dispatch.{
  OpportunityKey, OpportunityDeduplicator, try_acquire, prune, RegionClient, take_region_tip,
  BundleDispatcher, take_tip_account, try_regions, RegionResult, SubmissionAck, ok, err,
  submission_timeout, fan_out_submit, collect, transaction_to_proto_packet,
}
use alpha_whales.Dispatch.Dedupe.{reacquire_refused, acquire, prune_at, dedupe_run}
use alpha_whales.Dispatch.FanOut.{fan_out_submit-reference, head_or, acks, finished}

abbrev key : OpportunityKey
key = record { mint = "mintA"; pool = "pool"; signal_epoch_secs = 100 }

abbrev other : OpportunityKey
other = record key { mint = "mintB" }

abbrev dedupe : OpportunityDeduplicator
dedupe = record { seen = []; ttl_secs = 60 }

first_time : (try_acquire dedupe key).1 ≡ true
unfolding try_acquire
first_time = refl

after_prune : (try_acquire (prune (try_acquire dedupe key).0 161) key).1 ≡ true
unfolding try_acquire prune
after_prune = refl

reacquire_refused_example :
    (try_acquire (dedupe_run (try_acquire dedupe key).0 (acquire other ∷ prune_at 160 ∷ [])) key).1
    ≡ false
reacquire_refused_example =
    reacquire_refused dedupe key (acquire other ∷ prune_at 160 ∷ []) (tt, (omega arith, tt))

dedupe_answers-set_example :
    dedupe_answers
      (new_deduplicator 60)
      (acquire key ∷ acquire key ∷ acquire other ∷ prune_at 300 ∷ acquire key ∷ [])
    ≡ set_answers 60
        (λ k. false)
        (acquire key ∷ acquire key ∷ acquire other ∷ prune_at 300 ∷ acquire key ∷ [])
dedupe_answers-set_example =
    dedupe_answers-set 60
      (acquire key ∷ acquire key ∷ acquire other ∷ prune_at 300 ∷ acquire key ∷ [])

abbrev region : RegionClient ℕ
region = record { label = "ams"; tip_accounts = 7 ∷ 8 ∷ 9 ∷ []; next_tip_account = 1 }

abbrev bare : RegionClient ℕ
bare = record { label = "fra"; tip_accounts = []; next_tip_account = 0 }

abbrev dispatcher : BundleDispatcher ℕ
dispatcher = record { regions = bare ∷ region ∷ []; next_region_for_tip = 0; deduplicator = dedupe }

skips_bare : (take_tip_account dispatcher).1 ≡ some 8
unfolding take_tip_account try_regions take_region_tip
skips_bare = refl

abbrev barren : BundleDispatcher ℕ
barren = record dispatcher { regions = bare ∷ [] }

nothing_there : (take_tip_account barren).1 ≡ none
unfolding take_tip_account try_regions take_region_tip
nothing_there = refl

abbrev ack : SubmissionAck
ack = record { bundle_id = "b1"; region = "fra"; accepted_at = 3 }

abbrev outcomes : List (Option RegionResult)
outcomes =
    some (record { region = "ams"; result = err (submission_timeout "ams") })
    ∷ none
    ∷ some (record { region = "fra"; result = ok ack })
    ∷ []

first_found : fan_out_submit outcomes ≡ ok ack
unfolding fan_out_submit collect
first_found = refl

fan_out_submit-reference_example :
    fan_out_submit outcomes ≡ head_or (acks outcomes) (finished outcomes)
fan_out_submit-reference_example = fan_out_submit-reference outcomes

-- Numbers as instructions, lists of them as messages and transactions.
abbrev small_sdk : Sdk ℕ ℕ (List ℕ) (List ℕ) ℕ ℕ
small_sdk = record {
  transfer = λ account lamports. account + lamports;
  try_compile = λ instructions alts blockhash. ok instructions;
  try_new = λ message. ok message;
  first_signature = λ transaction. some "sig";
  serialize = λ transaction. some transaction;
  message_of = λ transaction. transaction;
  recent_blockhash = λ message. "hash";
}

abbrev small_bundle : SignedBundle ℕ
small_bundle = record {
  packets = record { data_bytes = 7 ∷ 1_005 ∷ []; meta_size = 2 } ∷ [];
  transaction_signature = "sig";
  recent_blockhash = "hash";
  transaction_fee_lamports = 0;
}

small_built : build_and_sign_bundle_with_alt small_sdk (7 ∷ []) 5 1_000 "hash" [] ≡ ok small_bundle
unfolding build_and_sign_bundle_with_alt transaction_to_proto_packet
small_built = refl
