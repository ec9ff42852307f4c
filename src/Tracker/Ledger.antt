-- ===== src/Tracker/Ledger.antt =====
-- The tracker notifies and records as often as bundles are resolved and confirmed: no event is
-- lost and none is doubled.
use alpha_whales.Common.{
  ℕ, ◌+◌, ◌≡◌, refl, Option, none, some, true, false, List, [], ◌∷◌, String, text_key, arith,
  Option-cases, Bool-cases, inl, inr, All, length, is_some, ap,
}
use alpha_whales.Common.Maps.{get, contains_key}
use alpha_whales.Tracker.{
  BundleTracker, BundleRecord, Landing, InclusionStatus, BundleResult, is_terminal, is_confirmed,
  resolved, register_bundle, update_record, update_status, expire_all, prune_expired, expired,
  pending, ids_where, is_overdue, update_some, classify, process_bundle_result, new_tracker,
  record_landing, notify, accepted, processed, final, reject, drop, no_variant,
}
use alpha_whales.Tracker.Counts.{
  bit, count, count-insert_old, count-insert_new, Wired, get-Wired, insert-Wired, is_resolved,
  is_landed,
}
use alpha_whales.Tracker.Steps.{Op, register, update, remove, prune, receive, step, run}

pub record Balanced (t : BundleTracker) : Type 0 where
  wired : Wired t.bundles
  pub one_notice_each : length t.sent ≡ count is_resolved t.bundles
  pub one_landing_each : length t.recorded ≡ count is_landed t.bundles

-- What the callers pass in: an unresolved record, a terminal status; no bundle is taken out.
abbrev pub Regular : Op → Type 0
Regular (register r tx) = r.status ≡ pending
Regular (update id status) = is_terminal status ≡ true
Regular (remove id) = ⊥
Regular _ = Unit

confirmed_terminal :
    (status : InclusionStatus) → is_terminal status ≡ false → is_confirmed status ≡ false
unfolding is_terminal is_confirmed
confirmed_terminal status h = ground arith

length-notify :
    (o : Option ℕ) (r : BundleRecord) (log : List (ℕ × BundleRecord))
    → is_some o ≡ true
    → length (notify o r log) ≡ length log + 1
unfolding notify
length-notify none r log h = cc
length-notify (some tx) r log h = omega arith

length-record_landing :
    (id : String) (r : BundleRecord) (status : InclusionStatus) (log : List Landing)
    → length (record_landing id r status log) ≡ length log + bit (is_confirmed status)
unfolding record_landing
length-record_landing id r status log = ground arith

resolve-Balanced :
    (t : BundleTracker) (id : String) (r : BundleRecord) (status : InclusionStatus)
    → is_terminal status ≡ true
    → is_terminal r.status ≡ false
    → get id t.bundles ≡ some r
    → Balanced t
    → Balanced (update_record t id r status)
unfolding update_record
resolve-Balanced t id r status h open_ e b =
    let w = get-Wired id r t.bundles b.wired e in
    rw open_ (record {
      wired = insert-Wired id (resolved r status) t.bundles b.wired (rw h refl);
      one_notice_each = omega (
        arith,
        length-notify r.notify_tx (resolved r status) t.sent (rw open_ at w),
        count-insert_old is_resolved id (resolved r status) r t.bundles e,
        b.one_notice_each,
        ap bit open_,
        ap bit h,
      );
      one_landing_each = omega (
        arith,
        length-record_landing id r status t.recorded,
        count-insert_old is_landed id (resolved r status) r t.bundles e,
        b.one_landing_each,
        ap bit (confirmed_terminal r.status open_),
      );
    })

update-Balanced :
    (t : BundleTracker) (id : String) (status : InclusionStatus)
    → is_terminal status ≡ true
    → Balanced t
    → Balanced (update_status t id status)
unfolding update_status
update-Balanced t id status h b = elim (Option-cases (get id t.bundles)) [
  | inl e ↦ rw (e, update_status) b
  | inr (r, e) ↦ elim (Bool-cases (is_terminal r.status)) [
    | inl done ↦ rw (e, update_status) (unfold update_record in rw done b)
    | inr open_ ↦ rw (e, update_status) (resolve-Balanced t id r status h open_ e b)
  ]
]

register-Balanced :
    (t : BundleTracker) (r : BundleRecord) (tx : ℕ)
    → r.status ≡ pending
    → Balanced t
    → Balanced (register_bundle t r tx)
unfolding register_bundle
register-Balanced t r tx h b = elim (Bool-cases (is_some (get r.bundle_id t.bundles))) [
  | inl known ↦ rw known b
  | inr unknown ↦
      let q = record r { notify_tx = some tx } in
      let absent : get r.bundle_id t.bundles ≡ none = ground arith in
      let open_ : is_terminal r.status ≡ false = rw h (unfold is_terminal in refl) in
      rw unknown (record {
        wired = insert-Wired r.bundle_id q t.bundles b.wired (rw open_ refl);
        one_notice_each = omega (
          arith,
          count-insert_new is_resolved r.bundle_id q t.bundles absent,
          b.one_notice_each,
          ap bit open_,
        );
        one_landing_each = omega (
          arith,
          count-insert_new is_landed r.bundle_id q t.bundles absent,
          b.one_landing_each,
          ap bit (confirmed_terminal r.status open_),
        );
      })
]

expire_all-Balanced :
    (ids : List String) (t : BundleTracker) → Balanced t → Balanced (expire_all t ids)
unfolding expire_all
expire_all-Balanced [] t b = b
expire_all-Balanced (id ∷ ids) t b =
    expire_all-Balanced ids _ (update-Balanced t id expired (unfold is_terminal in refl) b)

update_some-Balanced :
    (t : BundleTracker) (id : String) (o : Option InclusionStatus)
    → ((status : InclusionStatus) → o ≡ some status → is_terminal status ≡ true)
    → Balanced t
    → Balanced (update_some t id o)
unfolding update_some
update_some-Balanced t id none h b = b
update_some-Balanced t id (some status) h b = update-Balanced t id status (h status refl) b

module _ (display : ℕ → String) (debug : Option String → String) where
  classified :
      (t : BundleTracker) (id : String) (result : BundleResult) (status : InclusionStatus)
      → classify display debug t id result ≡ some status
      → is_terminal status ≡ true
  unfolding classify is_terminal
  classified t id (accepted s v) status e = ground arith
  classified t id (processed s i v) status e = ground arith
  classified t id final status e = ground arith
  classified t id (reject reason) status e = ground arith
  classified t id (drop reason) status e = ground arith
  classified t id no_variant status e = cc

  step-Balanced :
      (t : BundleTracker) (o : Op) → Regular o → Balanced t → Balanced (step display debug t o)
  unfolding step prune_expired process_bundle_result
  step-Balanced t (register r tx) h b = register-Balanced t r tx h b
  step-Balanced t (update id status) h b = update-Balanced t id status h b
  step-Balanced t (remove id) h b = elim h [ ]
  step-Balanced t (prune now) h b = expire_all-Balanced (ids_where (is_overdue now) t.bundles) t b
  step-Balanced t (receive id result) h b = elim (Bool-cases (contains_key id t.bundles)) [
    | inl known ↦ rw known (update_some-Balanced t id _ (classified t id result) b)
    | inr unknown ↦ rw unknown b
  ]

  run-Balanced :
      (t : BundleTracker) (os : List Op)
      → All Regular os
      → Balanced t
      → Balanced (run display debug t os)
  unfolding run
  run-Balanced t [] h b = b
  run-Balanced t (o ∷ os) h b =
      run-Balanced (step display debug t o) os h.1 (step-Balanced t o h.0 b)

  -- From a new tracker, through any history of registrations of unresolved records, terminal
  -- updates, results and prunings, the number of notices sent is the number of resolved bundles, and
  -- the number of landings recorded is the number of confirmed ones.
  pub run-counts :
      (os : List Op)
      → All Regular os
      → let t = run display debug new_tracker os in
        (length t.sent ≡ count is_resolved t.bundles)
        × (length t.recorded ≡ count is_landed t.bundles)
  unfolding new_tracker
  run-counts os h =
      let b =
        run-Balanced new_tracker os h
          (record { wired = tt; one_notice_each = refl; one_landing_each = refl }) in
      (b.one_notice_each, b.one_landing_each)
