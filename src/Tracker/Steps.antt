-- ===== src/Tracker/Steps.antt =====
-- One step on the tracker, seen at one bundle, and histories of steps.
use alpha_whales.Common.{
  ℕ, ◌≡◌, refl, Option, none, some, true, List, [], ◌∷◌, String, text_key, ◌==◌, if◌then◌else◌,
  arith, Option-cases, Bool-cases, inl, inr, any,
}
use alpha_whales.Common.Maps.{get, get-insert}
use alpha_whales.Tracker.{
  BundleTracker, BundleRecord, InclusionStatus, BundleResult, is_terminal, resolved,
  register_bundle, update_status, remove_bundle, expire_all, prune_expired, expired,
  process_bundle_result,
}
use text.Mathlib.TextEquality.{eq_iff}

-- What an update makes of the record that it finds.
abbrev pub resolve : InclusionStatus → Option BundleRecord → Option BundleRecord
resolve status none = none
resolve status (some r) = some (if is_terminal r.status then r else resolved r status)

-- The first terminal status stays.
pub resolve_first :
    (status later : InclusionStatus) (o : Option BundleRecord)
    → is_terminal status ≡ true
    → resolve later (resolve status o) ≡ resolve status o
resolve_first status later none h = refl
resolve_first status later (some r) h = elim (Bool-cases (is_terminal r.status)) [
  | inl e ↦ rw (e, e) refl
  | inr e ↦ rw (e, h) refl
]

pub get-update_status :
    (t : BundleTracker) (id j : String) (status : InclusionStatus)
    → get j (update_status t id status).bundles
      ≡ (if id == j then resolve status (get j t.bundles) else get j t.bundles)
unfolding update_status
get-update_status t id j status = elim (Option-cases (get id t.bundles)) [
  | inl e ↦ ground (arith, eq_iff id j)
  | inr (r, e) ↦ ground (arith, eq_iff id j, get-insert id j (resolved r status) t.bundles)
]

pub get-register_bundle :
    (t : BundleTracker) (r : BundleRecord) (tx : ℕ) (j : String) (old : BundleRecord)
    → get j t.bundles ≡ some old
    → get j (register_bundle t r tx).bundles ≡ some old
unfolding register_bundle
get-register_bundle t r tx j old e = ground (
  arith,
  eq_iff r.bundle_id j,
  get-insert r.bundle_id j (record r { notify_tx = some tx }) t.bundles,
)

pub get-expire_all :
    (ids : List String) (t : BundleTracker) (j : String)
    → get j (expire_all t ids).bundles
      ≡ (if any (λ id. id == j) ids then resolve expired (get j t.bundles) else get j t.bundles)
unfolding expire_all
get-expire_all [] t j = refl
get-expire_all (id ∷ ids) t j = ground (
  arith,
  get-expire_all ids (update_status t id expired) j,
  get-update_status t id j expired,
  resolve_first expired expired (get j t.bundles) (unfold is_terminal in refl),
)

-- The steps of the tracker's tasks.
pub data Op : Type 0 where
  register : BundleRecord → ℕ → Op
  update : String → InclusionStatus → Op
  remove : String → Op
  prune : ℕ → Op
  receive : String → BundleResult → Op

module _ (display : ℕ → String) (debug : Option String → String) where
  unfoldable pub step : BundleTracker → Op → BundleTracker
  step t (register r tx) = register_bundle t r tx
  step t (update id status) = update_status t id status
  step t (remove id) = remove_bundle t id
  step t (prune now) = prune_expired t now
  step t (receive id result) = process_bundle_result display debug t id result

  unfoldable pub run : BundleTracker → List Op → BundleTracker
  run t [] = t
  run t (o ∷ os) = run (step t o) os
