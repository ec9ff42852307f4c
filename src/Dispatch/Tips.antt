-- ===== src/Dispatch/Tips.antt =====
-- Tip accounts: each region's in turn, and a region with an account is always found.
use native.Mathlib.Nat.{add-mod_right, mod-eq_of_lt, mod-lt, mod-add-mod}
use alpha_whales.Common.{
  ℕ, zero, suc, ◌+◌, ◌-◌, ◌%◌, ◌<◌, Bool-cases, leb, ◌≡◌, refl, subst, sym, ◌∙◌, Option, none, some,
  List, [], ◌∷◌, length, get_elem?, arith, Option-cases, inl, inr, ap,
}
use alpha_whales.Dispatch.{
  RegionClient, take_region_tip, BundleDispatcher, after_tip, try_regions, take_tip_account,
}

sum_back :
    (start i n : ℕ) → i < n → start + (i + n - start) ≡ i + n → (start + (i + n - start)) % n ≡ i
sum_back start i n hi e = rw e (add-mod_right i n ∙ mod-eq_of_lt hi)

-- The offset at which the loop looks at region i.
offset_of : (start i n : ℕ) → i < n → start < n → (k : ℕ) × (k < n) × ((start + k) % n ≡ i)
offset_of start i n hi hs = elim (Bool-cases (leb start i)) [
  | inl e ↦
      let back : start + (i - start) ≡ i = ground (arith, e) in
      (i - start, ground (arith, e), rw back (mod-eq_of_lt hi))
  | inr e ↦ (i + n - start, ground (arith, e), sum_back start i n hi (ground (arith, hs)))
]

get_elem?-lt : {A : Type 0} (xs : List A) (i : ℕ) (a : A) → get_elem? xs i ≡ some a → i < length xs
get_elem?-lt [] i a h = cc
get_elem?-lt (x ∷ xs) zero a h = omega arith
get_elem?-lt (x ∷ xs) (suc i) a h = omega (arith, get_elem?-lt xs i a h)

module _ {K : Type 0} where
  -- The state after n accounts have been taken.
  abbrev pub after_takes : RegionClient K → ℕ → RegionClient K
  after_takes r zero = r
  after_takes r (suc n) = (take_region_tip (after_takes r n)).0

  take_present :
      (r : RegionClient K) (a : K)
      → get_elem? r.tip_accounts r.next_tip_account ≡ some a
      → take_region_tip r
        ≡ (record r { next_tip_account = (r.next_tip_account + 1) % length r.tip_accounts }, some a)
  unfolding take_region_tip
  take_present r a h = rw (h, take_region_tip) refl

  get_elem?-present : (xs : List K) (i : ℕ) → i < length xs → (a : K) × (get_elem? xs i ≡ some a)
  get_elem?-present [] i h = absurd (omega (arith, h))
  get_elem?-present (x ∷ xs) zero h = (x, refl)
  get_elem?-present (x ∷ xs) (suc i) h = get_elem?-present xs i (omega (arith, h))

  after_takes_lem :
      (r : RegionClient K) (n : ℕ)
      → r.next_tip_account < length r.tip_accounts
      → after_takes r n
        ≡ record r { next_tip_account = (r.next_tip_account + n) % length r.tip_accounts }
  after_takes_lem r zero h = ground (arith, mod-eq_of_lt h)
  after_takes_lem r (suc n) h =
      let i : ℕ = (r.next_tip_account + n) % length r.tip_accounts in
      let (a, e) =
        get_elem?-present r.tip_accounts i (mod-lt (r.next_tip_account + n) (omega (arith, h))) in
      let one_more : r.next_tip_account + n + 1 ≡ r.next_tip_account + suc n = omega arith in
      let next : ℕ → RegionClient K = λ x. record r { next_tip_account = x } in
      ap (λ (x : RegionClient K). (take_region_tip x).0) (after_takes_lem r n h)
      ∙ ap (λ (t : RegionClient K × Option K). t.0) (take_present (next i) a e)
      ∙ ap next (
          mod-add-mod (r.next_tip_account + n) (length r.tip_accounts) 1
          ∙ ap (λ (x : ℕ). x % length r.tip_accounts) one_more)

  -- A region hands its tip accounts out in their order, round and round: after n accounts the next
  -- one is the account n places on.
  pub nth_tip :
      (r : RegionClient K) (n : ℕ)
      → r.next_tip_account < length r.tip_accounts
      → (take_region_tip (after_takes r n)).1
        ≡ get_elem? r.tip_accounts ((r.next_tip_account + n) % length r.tip_accounts)
  nth_tip r n h =
      let i : ℕ = (r.next_tip_account + n) % length r.tip_accounts in
      let (a, e) =
        get_elem?-present r.tip_accounts i (mod-lt (r.next_tip_account + n) (omega (arith, h))) in
      ap (λ (x : RegionClient K). (take_region_tip x).1) (after_takes_lem r n h)
      ∙ ap (λ (t : RegionClient K × Option K). t.1)
          (take_present (record r { next_tip_account = i }) a e)
      ∙ sym e

  after_tip-none :
      (d : BundleDispatcher K) (idx : ℕ) (t : RegionClient K × Option K)
      (rest : BundleDispatcher K × Option K)
      → (after_tip d idx t rest).1 ≡ none
      → (t.1 ≡ none) × (rest.1 ≡ none)
  after_tip-none d idx (r, none) rest h = (refl, h)
  after_tip-none d idx (r, some a) rest h = cc

  step-none :
      (d : BundleDispatcher K) (start offset left : ℕ)
      → (try_regions d start offset (suc left)).1 ≡ none
      → ((try_regions d start (offset + 1) left).1 ≡ none)
        × ((r : RegionClient K)
            → get_elem? d.regions ((start + offset) % length d.regions) ≡ some r
            → (take_region_tip r).1 ≡ none)
  unfolding try_regions
  step-none d start offset left h =
      elim (Option-cases (get_elem? d.regions ((start + offset) % length d.regions))) [
        | inl e ↦ ((rw (try_regions, e) at h), (λ r f. absurd (ground (arith, e, f))))
        | inr (r', e) ↦
            let both =
              after_tip-none d ((start + offset) % length d.regions) (take_region_tip r')
                (try_regions d start (offset + 1) left) (rw (try_regions, e) at h) in
            (both.1, (λ r f. cc (both.0, e, f)))
      ]

  -- The loop gives nothing only if each region that it looks at gives nothing.
  no_account :
      (d : BundleDispatcher K) (start offset left : ℕ)
      → (try_regions d start offset left).1 ≡ none
      → (k : ℕ) → k < left
      → (r : RegionClient K)
      → get_elem? d.regions ((start + (offset + k)) % length d.regions) ≡ some r
      → (take_region_tip r).1 ≡ none
  no_account d start offset zero h k small r e = absurd (omega (arith, small))
  no_account d start offset (suc left) h zero small r e = (step-none d start offset left h).1 r (
      subst (λ (x : ℕ). get_elem? d.regions ((start + x) % length d.regions) ≡ some r) (omega arith)
        e)
  no_account d start offset (suc left) h (suc k) small r e =
      no_account d start (offset + 1) left (step-none d start offset left h).0 k
        (omega (arith, small)) r
        (subst (λ (x : ℕ). get_elem? d.regions ((start + x) % length d.regions) ≡ some r)
          (omega arith) e)

  -- A dispatcher gives no tip account only if no region has one: each one that is connected gives
  -- none either.
  pub take_tip_account-none :
      (d : BundleDispatcher K)
      → d.next_region_for_tip < length d.regions
      → (take_tip_account d).1 ≡ none
      → (i : ℕ) (r : RegionClient K) → get_elem? d.regions i ≡ some r
      → (take_region_tip r).1 ≡ none
  take_tip_account-none d hs h i r e =
      let (k, small, same) =
        offset_of d.next_region_for_tip i (length d.regions) (get_elem?-lt d.regions i r e) hs in
      no_account d d.next_region_for_tip 0 (length d.regions) (unfold take_tip_account in h) k small
        r
        (ap (λ (x : ℕ). get_elem? d.regions x)
            (ap (λ (x : ℕ). (d.next_region_for_tip + x) % length d.regions) (omega arith) ∙ same)
          ∙ e)
