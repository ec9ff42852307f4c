-- ===== src/Tracker/Final.antt =====
-- A terminal status is final.
use alpha_whales.Common.{
  ℕ, ◌≡◌, refl, Option, none, some, true, false, List, [], ◌∷◌, String, text_key, arith,
  Option-cases, Bool-cases, inl, inr, All, ◌≢◌,
}
use alpha_whales.Common.Maps.{get, contains_key, get-remove}
use alpha_whales.Tracker.{
  BundleTracker, BundleRecord, InclusionStatus, BundleResult, is_terminal, resolved, update_status,
  remove_bundle, prune_expired, ids_where, is_overdue, update_some, classify, process_bundle_result,
  get_status, no_variant, accepted, processed, final, reject, drop,
}
use alpha_whales.Tracker.Steps.{
  Op, register, update, remove, prune, receive, step, run, get-update_status, get-register_bundle,
  get-expire_all,
}
use text.Mathlib.TextEquality.{eq_iff}

pub update_settled :
    (t : BundleTracker) (id : String) (status : InclusionStatus) (r : BundleRecord)
    → get id t.bundles ≡ some r
    → is_terminal r.status ≡ true
    → update_status t id status ≡ t
unfolding update_status
update_settled t id status r e h = ground arith

update_unknown :
    (t : BundleTracker) (id : String) (status : InclusionStatus)
    → get id t.bundles ≡ none
    → update_status t id status ≡ t
unfolding update_status
update_unknown t id status e = ground arith

settles :
    (t : BundleTracker) (id : String) (status : InclusionStatus) (r : BundleRecord)
    → is_terminal status ≡ true
    → get id t.bundles ≡ some r
    → is_terminal r.status ≡ false
    → get id (update_status t id status).bundles ≡ some (resolved r status)
settles t id status r h e open_ = ground (arith, eq_iff id id, get-update_status t id id status)

-- The first terminal update of a bundle wins: a second update of it does nothing at all, be it to
-- the records, to the channels or to the database.
pub update_status_first :
    (t : BundleTracker) (id : String) (status later : InclusionStatus)
    → is_terminal status ≡ true
    → update_status (update_status t id status) id later ≡ update_status t id status
update_status_first t id status later h = elim (Option-cases (get id t.bundles)) [
  | inl e ↦ rw (update_unknown t id status e, update_unknown t id later e) refl
  | inr (r, e) ↦ elim (Bool-cases (is_terminal r.status)) [
    | inl done ↦ rw (update_settled t id status r e done, update_settled t id later r e done) refl
    | inr open_ ↦
        update_settled (update_status t id status) id later (resolved r status)
          (settles t id status r h e open_) h
  ]
]

-- The bundle is not taken out of the tracker.
abbrev pub Keeps : String → Op → Type 0
Keeps id (remove j) = j ≡ id → ⊥
Keeps id _ = Unit

update_held :
    (t : BundleTracker) (id j : String) (status : InclusionStatus) (r : BundleRecord)
    → get j t.bundles ≡ some r
    → is_terminal r.status ≡ true
    → get j (update_status t id status).bundles ≡ some r
update_held t id j status r e h = ground (arith, get-update_status t id j status)

update_some_held :
    (t : BundleTracker) (id j : String) (o : Option InclusionStatus) (r : BundleRecord)
    → get j t.bundles ≡ some r
    → is_terminal r.status ≡ true
    → get j (update_some t id o).bundles ≡ some r
unfolding update_some
update_some_held t id j none r e h = e
update_some_held t id j (some status) r e h = update_held t id j status r e h

module _ (display : ℕ → String) (debug : Option String → String) where
  step_held :
      (t : BundleTracker) (o : Op) (id : String) (r : BundleRecord)
      → Keeps id o
      → get id t.bundles ≡ some r
      → is_terminal r.status ≡ true
      → get id (step display debug t o).bundles ≡ some r
  unfolding step remove_bundle prune_expired process_bundle_result
  step_held t (register q tx) id r k e h = get-register_bundle t q tx id r e
  step_held t (update j status) id r k e h = update_held t j id status r e h
  step_held t (remove j) id r k e h = ground (arith, eq_iff j id, get-remove j id t.bundles, k)
  step_held t (prune now) id r k e h =
      ground (arith, get-expire_all (ids_where (is_overdue now) t.bundles) t id)
  step_held t (receive j result) id r k e h = elim (Bool-cases (contains_key j t.bundles)) [
    | inl tracked ↦ rw tracked (update_some_held t j id (classify display debug t j result) r e h)
    | inr unknown ↦ rw unknown e
  ]

  run_held :
      (t : BundleTracker) (os : List Op) (id : String) (r : BundleRecord)
      → All (Keeps id) os
      → get id t.bundles ≡ some r
      → is_terminal r.status ≡ true
      → get id (run display debug t os).bundles ≡ some r
  unfolding run
  run_held t [] id r k e h = e
  run_held t (o ∷ os) id r k e h =
      run_held (step display debug t o) os id r k.1 (step_held t o id r k.0 e h) h

  status_of :
      (t : BundleTracker) (id : String) (status : InclusionStatus)
      → get_status t id ≡ some status
      → (r : BundleRecord) × (get id t.bundles ≡ some r) × (r.status ≡ status)
  unfolding get_status
  status_of t id status h = elim (Option-cases (get id t.bundles)) [
    | inl e ↦ ground arith
    | inr (r, e) ↦ (r, e, ground arith)
  ]

  -- Whatever the tasks do, short of taking the bundle out of the tracker, a terminal status stays.
  pub run-get_status :
      (t : BundleTracker) (os : List Op) (id : String) (status : InclusionStatus)
      → All (Keeps id) os
      → get_status t id ≡ some status
      → is_terminal status ≡ true
      → get_status (run display debug t os) id ≡ some status
  unfolding get_status
  run-get_status t os id status k h term =
      let (r, e, same) = status_of t id status h in
      ground (arith, run_held t os id r k e (rw same term))

  classify_terminal :
      (t : BundleTracker) (id : String) (result : BundleResult)
      → result ≢ no_variant
      → (status : InclusionStatus) × (classify display debug t id result ≡ some status)
        × (is_terminal status ≡ true)
  unfolding classify is_terminal
  classify_terminal t id (accepted s v) h = (_, refl, refl)
  classify_terminal t id (processed s i v) h = (_, refl, refl)
  classify_terminal t id final h = (_, refl, refl)
  classify_terminal t id (reject reason) h = (_, refl, refl)
  classify_terminal t id (drop reason) h = (_, refl, refl)
  classify_terminal t id no_variant h = absurd (h refl)

  -- A tracked bundle that is unresolved is resolved by every result that has a variant, with the
  -- status that `classify` gives the result.
  pub receive_resolves :
      (t : BundleTracker) (id : String) (result : BundleResult) (r : BundleRecord)
      → get id t.bundles ≡ some r
      → is_terminal r.status ≡ false
      → result ≢ no_variant
      → (status : InclusionStatus) × (classify display debug t id result ≡ some status)
        × (is_terminal status ≡ true)
        × (get_status (process_bundle_result display debug t id result) id ≡ some status)
  unfolding get_status process_bundle_result
  receive_resolves t id result r e open_ some_variant =
      let (status, c, term) = classify_terminal t id result some_variant in
      (status, c, term, ground (arith, settles t id status r term e open_))
