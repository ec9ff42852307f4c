-- ===== src/Pool/Choice.antt =====
-- The pool that is chosen among the candidates.
use Prim.Native.Nat.{compare, Ordering}
use mathlib.Core.List.Perm
use mathlib.Core.List.{Perm}
use alpha_whales.Common.{
  ℕ, ◌≤◌, ◌<◌, ◌≡◌, ◌≢◌, inl, inr, Bool, true, false, List, [], ◌∷◌, number_key, filter, All, arith,
  Bool-cases, subst,
}
use alpha_whales.Common.Keys.{Keys}
use alpha_whales.Common.Checked.{ok, fail_if-elim, ok_inj}
use alpha_whales.Pool.{PoolSummary}
use alpha_whales.Pool.Api.{
  Liquidity, then_with, is_not_greater, insert_sorted, sort_by, ranks_first, ties, choose,
  is_candidate, select_pool,
}

-- `total_cmp` is the order of some numbers; on finite values above zero `==` is their equality.
pub record IsTotal {F : Type 0} (f64 : Liquidity F) (rank : F → ℕ) : Type 0 where
  pub by_rank : (a b : F) → f64.total_cmp a b ≡ compare (rank a) (rank b)
  pub same_rank :
      (a b : F)
      → f64.is_finite a ≡ true
      → f64.is_positive a ≡ true
      → f64.is_finite b ≡ true
      → f64.is_positive b ≡ true
      → rank a ≡ rank b
      → f64.same a b ≡ true

module _ {A : Type 0} (comes_first : A → A → Bool) where
  insert_sorted-perm : (x : A) (xs : List A) → Perm (insert_sorted comes_first x xs) (x ∷ xs)
  unfolding insert_sorted
  insert_sorted-perm x [] = Perm.refl (x ∷ [])
  insert_sorted-perm x (y ∷ ys) = elim (Bool-cases (comes_first x y)) [
    | inl e ↦ rw e (Perm.refl (x ∷ y ∷ ys))
    | inr e ↦ rw e (Perm.trans (Perm.cons y (insert_sorted-perm x ys)) (Perm.swap x y ys))
  ]

  sort_by-perm : (xs : List A) → Perm (sort_by comes_first xs) xs
  unfolding sort_by
  sort_by-perm [] = Perm.refl []
  sort_by-perm (x ∷ xs) =
      Perm.trans (insert_sorted-perm x (sort_by comes_first xs)) (Perm.cons x (sort_by-perm xs))

  module _ (rank : A → ℕ) (first : (x y : A) → comes_first x y ≡ true → rank y ≤ rank x)
      (later : (x y : A) → comes_first x y ≡ false → rank x ≤ rank y) where
    abbrev Below : ℕ → List A → Type 0
    Below n xs = All (λ y. rank y ≤ n) xs

    abbrev Descending : List A → Type 0
    Descending [] = Unit {0}
    Descending (x ∷ xs) = Below (rank x) xs × Descending xs

    Below-mono : (n m : ℕ) (xs : List A) → n ≤ m → Below n xs → Below m xs
    Below-mono n m [] h b = tt
    Below-mono n m (x ∷ xs) h b = (omega (arith, b.0), Below-mono n m xs h b.1)

    insert_sorted-Below :
        (n : ℕ) (x : A) (xs : List A)
        → rank x ≤ n
        → Below n xs
        → Below n (insert_sorted comes_first x xs)
    unfolding insert_sorted
    insert_sorted-Below n x [] h b = (h, tt)
    insert_sorted-Below n x (y ∷ ys) h b = elim (Bool-cases (comes_first x y)) [
      | inl e ↦ rw e (h, b)
      | inr e ↦ rw e (b.0, insert_sorted-Below n x ys h b.1)
    ]

    insert_sorted-Descending :
        (x : A) (xs : List A) → Descending xs → Descending (insert_sorted comes_first x xs)
    unfolding insert_sorted
    insert_sorted-Descending x [] d = (tt, tt)
    insert_sorted-Descending x (y ∷ ys) d = elim (Bool-cases (comes_first x y)) [
      | inl e ↦ rw e ((first x y e, Below-mono (rank y) (rank x) ys (first x y e) d.0), d)
      | inr e ↦
          rw e
            (insert_sorted-Below (rank y) x ys (later x y e) d.0, insert_sorted-Descending x ys d.1)
    ]

    sort_by-Descending : (xs : List A) → Descending (sort_by comes_first xs)
    unfolding sort_by
    sort_by-Descending [] = tt
    sort_by-Descending (x ∷ xs) =
        insert_sorted-Descending x (sort_by comes_first xs) (sort_by-Descending xs)

  insert_sorted-All :
      (P : A → Type 0) (x : A) (xs : List A)
      → P x
      → All P xs
      → All P (insert_sorted comes_first x xs)
  unfolding insert_sorted
  insert_sorted-All P x [] p ps = (p, tt)
  insert_sorted-All P x (y ∷ ys) p ps = elim (Bool-cases (comes_first x y)) [
    | inl e ↦ rw e (p, ps)
    | inr e ↦ rw e (ps.0, insert_sorted-All P x ys p ps.1)
  ]

  sort_by-All : (P : A → Type 0) (xs : List A) → All P xs → All P (sort_by comes_first xs)
  unfolding sort_by
  sort_by-All P [] ps = tt
  sort_by-All P (x ∷ xs) ps =
      insert_sorted-All P x (sort_by comes_first xs) ps.0 (sort_by-All P xs ps.1)

filter-All : {A : Type 0} (p : A → Bool) (xs : List A) → All (λ x. p x ≡ true) (filter p xs)
filter-All p [] = tt
filter-All p (x ∷ xs) = elim (Bool-cases (p x)) [
  | inl e ↦ rw e (e, filter-All p xs)
  | inr e ↦ rw e (filter-All p xs)
]

module _ {F : Type 0} (f64 : Liquidity F) (rank : F → ℕ) (total : IsTotal f64 rank) where
  first_lem : (x y : PoolSummary F) → ranks_first f64 x y ≡ true → rank y.tvl ≤ rank x.tvl
  unfolding ranks_first
  first_lem x y h = not_less (f64.total_cmp y.tvl x.tvl) _ (total.by_rank y.tvl x.tvl) h
    where
      not_less :
          (o next : Ordering)
          → o ≡ compare (rank y.tvl) (rank x.tvl)
          → is_not_greater (then_with o next) ≡ true
          → rank y.tvl ≤ rank x.tvl
      not_less o next e h = ground arith

  later_lem : (x y : PoolSummary F) → ranks_first f64 x y ≡ false → rank x.tvl ≤ rank y.tvl
  unfolding ranks_first
  later_lem x y h = not_more (f64.total_cmp y.tvl x.tvl) _ (total.by_rank y.tvl x.tvl) h
    where
      not_more :
          (o next : Ordering)
          → o ≡ compare (rank y.tvl) (rank x.tvl)
          → is_not_greater (then_with o next) ≡ false
          → rank x.tvl ≤ rank y.tvl
      not_more o next e h = ground arith

  below_strict :
      (n m : ℕ) (qs : List (PoolSummary F))
      → n < m
      → All (λ q. rank q.tvl ≤ n) qs
      → All (λ q. rank q.tvl < m) qs
  below_strict n m [] h b = tt
  below_strict n m (q ∷ qs) h b = (omega (arith, b.0), below_strict n m qs h b.1)

module _ {K : Type 0} (keys : Keys K) {F : Type 0} (f64 : Liquidity F) (rank : F → ℕ)
    (total : IsTotal f64 rank) where
  -- The pool is a candidate, and every other candidate of the list has less liquidity.
  pub record IsBest (pools : List (PoolSummary F)) (target : K) (selected : PoolSummary F)
      : Type 0 where
    pub others : List (PoolSummary F)
    pub are_candidates : Perm (selected ∷ others) (filter (is_candidate keys f64 target) pools)
    pub passes : is_candidate keys f64 target selected ≡ true
    pub have_less : All (λ (q : PoolSummary F). rank q.tvl < rank selected.tvl) others

  IsPassing : K → PoolSummary F → Type 0
  IsPassing target q = is_candidate keys f64 target q ≡ true

  not_tied :
      (target : K) (s q : PoolSummary F)
      → is_candidate keys f64 target s ≡ true
      → is_candidate keys f64 target q ≡ true
      → f64.same q.tvl s.tvl ≡ false
      → rank q.tvl ≢ rank s.tvl
  unfolding is_candidate
  not_tied target s q hs hq h e =
      let same : f64.same q.tvl s.tvl ≡ true =
        total.same_rank q.tvl s.tvl (ground arith) (ground arith) (ground arith) (ground arith) e in
      absurd (ground arith)

  others_less :
      (target : K) (s : PoolSummary F) (rest : List (PoolSummary F))
      → All (λ q. is_candidate keys f64 target q ≡ true) (s ∷ rest)
      → Descending
          (ranks_first f64)
          (λ q. rank q.tvl)
          (first_lem f64 rank total)
          (later_lem f64 rank total)
          (s ∷ rest)
      → ties f64 s rest ≡ false
      → All (λ (q : PoolSummary F). rank q.tvl < rank s.tvl) rest
  others_less target s [] ps d h = tt
  others_less target s (q ∷ qs) ps d h =
      let apart = not_tied target s q ps.0 ps.1.0 h in
      let less : rank q.tvl < rank s.tvl = omega (arith, d.0.0, apart) in
      (less, below_strict f64 rank total (rank q.tvl) (rank s.tvl) qs less d.1.0)

  chosen :
      (pools : List (PoolSummary F)) (target : K) (sorted : List (PoolSummary F))
      {selected : PoolSummary F}
      → Perm sorted (filter (is_candidate keys f64 target) pools)
      → All (λ q. is_candidate keys f64 target q ≡ true) sorted
      → Descending
          (ranks_first f64)
          (λ q. rank q.tvl)
          (first_lem f64 rank total)
          (later_lem f64 rank total)
          sorted
      → choose f64 sorted ≡ ok selected
      → IsBest pools target selected
  chosen pools target [] p ps d h = absurd (ground arith)
  chosen pools target (s ∷ rest) p ps d h = fail_if-elim (ties f64 s rest) _ _ h λ untied e.
      subst (IsBest pools target) (ok_inj e) (record {
        others = rest;
        are_candidates = p;
        passes = ps.0;
        have_less = others_less target s rest ps d untied;
      })

  -- The pool that is selected is a candidate, and every other candidate of the API's list has less
  -- liquidity, where `total_cmp` is a total order that agrees with `==` on positive finite values.
  pub select_pool_lem :
      (pools : List (PoolSummary F)) (target : K) {selected : PoolSummary F}
      → select_pool keys f64 pools target ≡ ok selected
      → IsBest pools target selected
  unfolding select_pool
  select_pool_lem pools target h =
      let candidates = filter (is_candidate keys f64 target) pools in
      chosen pools target (sort_by (ranks_first f64) candidates)
        (sort_by-perm (ranks_first f64) candidates)
        (sort_by-All (ranks_first f64) (λ q. is_candidate keys f64 target q ≡ true) candidates
          (filter-All (is_candidate keys f64 target) pools))
        (sort_by-Descending (ranks_first f64) (λ q. rank q.tvl) (first_lem f64 rank total)
          (later_lem f64 rank total) candidates)
        h
