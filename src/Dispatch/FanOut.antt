-- ===== src/Dispatch/FanOut.antt =====
-- The fan-out against the list of the acknowledgments in the order of the regions.
use alpha_whales.Common.{◌≡◌, refl, Option, none, some, List, [], ◌∷◌, String}
use alpha_whales.Dispatch.{
  SubmissionAck, RegionResult, Checked, ok, err, DispatchError, collect, fan_out_submit,
  first_or_results,
}

-- Every acknowledgment, and every result, in the order of the regions.
abbrev pub ack_of : Checked DispatchError SubmissionAck → List SubmissionAck → List SubmissionAck
ack_of (ok ack) acks = ack ∷ acks
ack_of (err e) acks = acks

abbrev pub acks : List (Option RegionResult) → List SubmissionAck
acks [] = []
acks (none ∷ outcomes) = acks outcomes
acks (some r ∷ outcomes) = ack_of r.result (acks outcomes)

abbrev pub finished : List (Option RegionResult) → List RegionResult
finished [] = []
finished (none ∷ outcomes) = finished outcomes
finished (some r ∷ outcomes) = r ∷ finished outcomes

abbrev pub head_or :
    List SubmissionAck → List RegionResult → Checked (List RegionResult) SubmissionAck
head_or [] results = err results
head_or (ack ∷ rest) results = ok ack

abbrev head_option : List SubmissionAck → Option SubmissionAck
head_option [] = none
head_option (ack ∷ rest) = some ack

collect_found :
    (ack : SubmissionAck) (outcomes : List (Option RegionResult))
    → collect (some ack) outcomes ≡ (some ack, finished outcomes)
unfolding collect
collect_found ack [] = refl
collect_found ack (none ∷ outcomes) = collect_found ack outcomes
collect_found ack (some r ∷ outcomes) = rw (collect_found ack outcomes) refl

collect-some :
    (region : String) (c : Checked DispatchError SubmissionAck)
    (outcomes : List (Option RegionResult))
    → collect none outcomes ≡ (head_option (acks outcomes), finished outcomes)
    → let r : RegionResult = record { region = region; result = c } in
      collect none (some r ∷ outcomes)
      ≡ (head_option (ack_of c (acks outcomes)), r ∷ finished outcomes)
unfolding collect
collect-some region (ok ack) outcomes h = rw (collect_found ack outcomes) refl
collect-some region (err e) outcomes h = rw h refl

collect_lem :
    (outcomes : List (Option RegionResult))
    → collect none outcomes ≡ (head_option (acks outcomes), finished outcomes)
unfolding collect
collect_lem [] = refl
collect_lem (none ∷ outcomes) = collect_lem outcomes
collect_lem (some r ∷ outcomes) = collect-some r.region r.result outcomes (collect_lem outcomes)

-- The fan-out gives the first acknowledgment in the order of the regions, and only if no region
-- has one the results of all tasks that finished.
pub fan_out_submit-reference :
    (outcomes : List (Option RegionResult))
    → fan_out_submit outcomes ≡ head_or (acks outcomes) (finished outcomes)
unfolding fan_out_submit
fan_out_submit-reference outcomes = rw (collect_lem outcomes) (go (acks outcomes))
  where
    go :
        (found : List SubmissionAck)
        → first_or_results (head_option found, finished outcomes)
          ≡ head_or found (finished outcomes)
    go [] = refl
    go (ack ∷ rest) = refl
