-- ===== src/Tracker/Expiry.antt =====
-- Pruning: which bundles expire.
use alpha_whales.Common.{
  ℕ, ◌-◌, ◌<◌, ◌≤◌, ◌≡◌, ◌≢◌, ◌⊎◌, ◌∙◌, true, refl, Option, none, some, Bool, false, [], ◌∷◌,
  String, text_key, ◌==◌, if◌then◌else◌, arith, Option-cases, inl, inr, any,
}
use alpha_whales.Common.Maps.{Map, get, Unique}
use alpha_whales.Tracker.{
  BundleTracker, BundleRecord, InclusionStatus, pending, is_terminal, resolved, prune_expired,
  expired, ids_where, is_overdue,
}
use alpha_whales.Tracker.Steps.{get-expire_all}
use text.Mathlib.TextEquality.{eq_iff}

-- Does the record of `id`, if there is one, pass the test?
abbrev passes : (BundleRecord → Bool) → Option BundleRecord → Bool
passes p none = false
passes p (some r) = p r

ids_where_absent :
    (p : BundleRecord → Bool) (id : String) (m : Map String BundleRecord)
    → get id m ≡ none
    → any (λ j. j == id) (ids_where p m) ≡ false
unfolding get ids_where
ids_where_absent p id [] e = refl
ids_where_absent p id ((j, r) ∷ m) e = ground (arith, ids_where_absent p id m)

ids_where-passes :
    (p : BundleRecord → Bool) (id : String) (m : Map String BundleRecord)
    → Unique m
    → any (λ j. j == id) (ids_where p m) ≡ passes p (get id m)
unfolding get ids_where
ids_where-passes p id [] u = refl
ids_where-passes p id ((j, r) ∷ m) u =
    ground (arith, eq_iff j id, ids_where_absent p id m, ids_where-passes p id m u.1)

abbrev expire_if : ℕ → BundleRecord → BundleRecord
expire_if now r = if is_overdue now r then resolved r expired else r

pruned_record :
    (t : BundleTracker) (id : String) (now : ℕ)
    → Unique t.bundles
    → get id (prune_expired t now).bundles
      ≡ (elim (get id t.bundles) [ none ↦ none | some r ↦ some (expire_if now r) ])
unfolding prune_expired
pruned_record t id now u = elim (Option-cases (get id t.bundles)) [
  | inl e ↦ ground (
    arith,
    get-expire_all (ids_where (is_overdue now) t.bundles) t id,
    ids_where-passes (is_overdue now) id t.bundles u,
  )
  | inr (r, e) ↦ ground (
    arith,
    get-expire_all (ids_where (is_overdue now) t.bundles) t id,
    ids_where-passes (is_overdue now) id t.bundles u,
  )
]

-- What pruning at a time makes of a record.
abbrev pub IsPruned : ℕ → BundleRecord → Option BundleRecord → Type 0
IsPruned now r found =
    (r.status ≡ pending
      → 120_000_000_000 < now - r.submitted_at
      → found ≡ some (record r { status = expired; notify_tx = none }))
    × ((r.status ≢ pending) ⊎ (now - r.submitted_at ≤ 120_000_000_000) → found ≡ some r)

overdue :
    (now : ℕ) (r : BundleRecord)
    → r.status ≡ pending
    → 120_000_000_000 < now - r.submitted_at
    → is_overdue now r ≡ true
overdue now r open_ old = rw open_ (unfold is_terminal in ground arith)

settled : (s : InclusionStatus) → s ≢ pending → is_terminal s ≡ true
unfolding is_terminal
settled s h = ground (arith, h)

not_overdue :
    (now : ℕ) (r : BundleRecord)
    → (r.status ≢ pending) ⊎ (now - r.submitted_at ≤ 120_000_000_000)
    → is_overdue now r ≡ false
not_overdue now r (inl closed) = rw (settled r.status closed) refl
not_overdue now r (inr young) = ground arith

-- Pruning expires exactly the bundles that are pending and older than 120 seconds; every other
-- record stays as it is, and none is added or lost. The bundles' ids are unique.
pub get-prune_expired :
    (t : BundleTracker) (id : String) (now : ℕ)
    → Unique t.bundles
    → (get id t.bundles ≡ none → get id (prune_expired t now).bundles ≡ none)
      × ((r : BundleRecord)
          → get id t.bundles ≡ some r
          → IsPruned now r (get id (prune_expired t now).bundles))
get-prune_expired t id now u = (
  (λ e. pruned_record t id now u ∙ rw e refl),
  λ r e.
      let found : get id (prune_expired t now).bundles ≡ some (expire_if now r) =
        (pruned_record t id now u ∙ rw e refl) in
      (
        (λ open_ old. found ∙ rw (overdue now r open_ old) refl),
        λ kept. found ∙ rw (not_overdue now r kept) refl,
      ),
)
