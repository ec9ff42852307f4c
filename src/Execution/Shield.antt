-- ===== src/Execution/Shield.antt =====
-- alpha-whales/src/execution.rs: the `jitodontfront` sentinel on an instruction, and the check of it
-- before signing.
use alpha_whales.Common.{
  ℕ, ◌≡◌, ◌⊎◌, inl, inr, Bool-cases, refl, Bool, true, false, not, ◌&&◌, List, [], ◌∷◌, ◌++◌,
  String, KeyEq, text_key, number_key, ◌==◌, same_refl, if◌then◌else◌, any, arith,
}
use alpha_whales.Execution.{
  Keys, AccountMeta, Instruction, invalid_sentinel_prefix, unsafe_trailing_account,
  sentinel_missing, not_at_leading_index, Result, ok, err, readonly,
}
use text.Mathlib.Text.{starts_with}

abbrev pub jito_dont_front_prefix : String
jito_dont_front_prefix = "jitodontfront"

unfoldable pub is_valid_dont_front_pubkey : {K : Type 0} → Keys K → K → Bool
is_valid_dont_front_pubkey keys k = starts_with (keys.to_string k) jito_dont_front_prefix

module _ {K : Type 0} ⦃key : KeyEq K⦄ where
  abbrev pub holds : K → List (AccountMeta K) → Bool
  holds sentinel accounts = any (λ m. m.pubkey == sentinel) accounts

  -- The sentinel as the Block Engine wants it: neither signer nor writable.
  abbrev pub shields : K → List (AccountMeta K) → Bool
  shields sentinel accounts =
      any (λ m. m.pubkey == sentinel && not m.is_signer && not m.is_writable) accounts

  unfoldable pub validate_bundle_protection : List (Instruction K) → K → ℕ → Result (Unit {0})
  validate_bundle_protection instructions sentinel bundle_index =
      if not (any (λ i. shields sentinel i.accounts) instructions)
      then err sentinel_missing
      else if not (bundle_index == 0)
      then err (not_at_leading_index bundle_index)
      else ok tt

module _ {K : Type 0} ⦃key : KeyEq K⦄ (keys : Keys K) where
  -- The instruction after the call, and its result.
  unfoldable pub apply_jitodontfront_protection :
      Instruction K → K → Instruction K × Result (Unit {0})
  unfolding is_valid_dont_front_pubkey
  apply_jitodontfront_protection instruction sentinel =
      if not (is_valid_dont_front_pubkey keys sentinel)
      then (instruction, err invalid_sentinel_prefix)
      else if not (instruction.program_id == keys.raydium_liquidity_pool_v4_program_id)
      then (instruction, err unsafe_trailing_account)
      else if holds sentinel instruction.accounts
      then (instruction, ok tt)
      else (record instruction { accounts = instruction.accounts ++ readonly sentinel ∷ [] }, ok tt)

  shields-append :
      (sentinel : K) (accounts : List (AccountMeta K))
      → shields sentinel (accounts ++ readonly sentinel ∷ []) ≡ true
  shields-append sentinel [] = ground (arith, same_refl sentinel)
  shields-append sentinel (m ∷ accounts) = ground (arith, shields-append sentinel accounts)

  holds-append :
      (sentinel : K) (accounts : List (AccountMeta K))
      → holds sentinel (accounts ++ readonly sentinel ∷ []) ≡ true
  holds-append sentinel [] = ground (arith, same_refl sentinel)
  holds-append sentinel (m ∷ accounts) = ground (arith, holds-append sentinel accounts)

  pub protect-keeps :
      (i : Instruction K) (sentinel : K)
      → let (i', r) = apply_jitodontfront_protection i sentinel in
        (i'.program_id ≡ i.program_id)
        × (i'.data_bytes ≡ i.data_bytes)
        × ((i'.accounts ≡ i.accounts) ⊎ (i'.accounts ≡ i.accounts ++ readonly sentinel ∷ []))
  unfolding apply_jitodontfront_protection
  protect-keeps i sentinel = elim (Bool-cases (is_valid_dont_front_pubkey keys sentinel)) [
    | inr e ↦ rw e (refl, refl, inl refl)
    | inl e ↦ elim (Bool-cases (i.program_id == keys.raydium_liquidity_pool_v4_program_id)) [
      | inr f ↦ rw (e, f) (refl, refl, inl refl)
      | inl f ↦ elim (Bool-cases (holds sentinel i.accounts)) [
        | inl g ↦ rw (e, f, g) (refl, refl, inl refl)
        | inr g ↦ rw (e, f, g) (refl, refl, inr refl)
      ]
    ]
  ]

  pub protect-holds :
      (i : Instruction K) (sentinel : K)
      → (apply_jitodontfront_protection i sentinel).1 ≡ ok tt
      → holds sentinel (apply_jitodontfront_protection i sentinel).0.accounts ≡ true
  unfolding apply_jitodontfront_protection
  protect-holds i sentinel h = ground (arith, holds-append sentinel i.accounts)

  -- Applying the protection again changes nothing and succeeds or fails as before.
  pub protect_idempotent :
      (i : Instruction K) (sentinel : K)
      → apply_jitodontfront_protection (apply_jitodontfront_protection i sentinel).0 sentinel
        ≡ apply_jitodontfront_protection i sentinel
  unfolding apply_jitodontfront_protection
  protect_idempotent i sentinel = ground (arith, holds-append sentinel i.accounts)

  any-front :
      {A : Type 0} (p : A → Bool) (front back : List A) (x : A)
      → p x ≡ true
      → any p (front ++ x ∷ back) ≡ true
  any-front p [] back x h = ground (arith, h)
  any-front p (y ∷ front) back x h = ground (arith, any-front p front back x h)

  -- An instruction of the Raydium program that does not name the sentinel yet comes out with it as
  -- its last account, read-only and no signer, its other accounts as they were; any list of
  -- instructions with the result in it passes the check at index 0, and at no other index.
  pub protect_validates :
      (i : Instruction K) (sentinel : K) (front back : List (Instruction K)) (index : ℕ)
      → is_valid_dont_front_pubkey keys sentinel ≡ true
      → (i.program_id == keys.raydium_liquidity_pool_v4_program_id) ≡ true
      → holds sentinel i.accounts ≡ false
      → let (i', r) = apply_jitodontfront_protection i sentinel in
        (r ≡ ok tt)
        × (i'.accounts ≡ i.accounts ++ readonly sentinel ∷ [])
        × (validate_bundle_protection (front ++ i' ∷ back) sentinel index
            ≡ (if index == 0 then ok tt else err (not_at_leading_index index)))
  unfolding apply_jitodontfront_protection validate_bundle_protection
  protect_validates i sentinel front back index valid program new =
      let i' : Instruction K = record i { accounts = i.accounts ++ readonly sentinel ∷ [] } in
      let prefix : starts_with (keys.to_string sentinel) jito_dont_front_prefix ≡ true =
        (unfold is_valid_dont_front_pubkey in valid) in
      rw (prefix, program, new)
        (
          refl,
          refl,
          rw
              (any-front (λ (j : Instruction K). shields sentinel j.accounts) front back i'
                (shields-append sentinel i.accounts))
              (ground arith),
        )
