-- ===== src/Pool/Verified.antt =====
-- What holds of the pool keys that `resolve_pool_keys` gives.
use alpha_whales.Common.{
  ℕ, ◌≡◌, refl, ◌⊎◌, subst, Option, some, true, not, ◌||◌, List, [], ◌∷◌, String, KeyEq, text_key,
  number_key, ◌==◌, length, arith, ◌<◌, ◌↔◌, same_refl,
}
use alpha_whales.Common.Keys.{Keys}
use alpha_whales.Common.Checked.{ok, bind-elim, fail_if-elim, ok_or, ok_or-ok}
use alpha_whales.Pool.{RaydiumPoolKeys, Chain, invalid_amm_state}
use alpha_whales.Pool.OnChain.{
  amm_info_len, amm_authority_seed, read_u64, nonce_u8, read_pubkey, amm_fields, check_fields,
  verify_amm_state,
}

nonce_u8_lem : (word : ℕ) {nonce : ℕ} → nonce_u8 word ≡ ok nonce → (word ≡ nonce) × (nonce < 256)
nonce_u8_lem word h = ground arith

module _ {K : Type 0} ⦃key : KeyEq K⦄ (keys : Keys K) (chain : Chain K) where
  -- Each field is read at its offset.
  abbrev pub HasFields : List ℕ → List (String × ℕ × K) → Type 0
  HasFields bytes [] = Unit {0}
  HasFields bytes ((name, offset, expected) ∷ fields) =
      (read_pubkey chain bytes offset ≡ ok expected) × HasFields bytes fields

  abbrev pub authority_of : ℕ → Option K
  authority_of nonce =
      chain.create_program_address (amm_authority_seed ∷ (nonce ∷ []) ∷ [])
        keys.raydium_liquidity_pool_v4_program_id

  -- What the bytes of a pool's account have to be: their number, a status that permits swaps, and the
  -- keys at their offsets, the authority by its nonce.
  pub record IsAmmState (bytes : List ℕ) (p : RaydiumPoolKeys K) : Type 0 where
    pub status : ℕ
    pub nonce : ℕ
    pub size : length bytes ≡ 752
    pub has_status : read_u64 bytes 0 ≡ ok status
    pub permits_swaps : (status ≡ 1) ⊎ (status ≡ 6)
    pub has_nonce : read_u64 bytes 8 ≡ ok nonce
    pub nonce_is_u8 : nonce < 256
    pub has_authority : authority_of nonce ≡ some p.authority
    pub has_fields : HasFields bytes (amm_fields p)

  check_fields_lem :
      (bytes : List ℕ) (fields : List (String × ℕ × K))
      → check_fields keys chain bytes fields ≡ ok tt
      → HasFields bytes fields
  unfolding check_fields
  check_fields_lem bytes [] h = tt
  check_fields_lem bytes ((name, offset, expected) ∷ fields) h =
      bind-elim (read_pubkey chain bytes offset) _ h λ found e h1.
        fail_if-elim (not (found == expected)) _ _ h1 λ same h2. (
          subst (λ k. read_pubkey chain bytes offset ≡ ok k)
              ((key.same_iff found expected).0 (ground arith)) e,
          check_fields_lem bytes fields h2,
        )

  verify_amm_state_lem :
      (bytes : List ℕ) (p : RaydiumPoolKeys K)
      → verify_amm_state keys chain bytes p ≡ ok tt
      → IsAmmState bytes p
  unfolding verify_amm_state
  verify_amm_state_lem bytes p h =
      fail_if-elim (not (length bytes == amm_info_len)) _ _ h λ size h1.
        bind-elim (read_u64 bytes 0) _ h1 λ status e1 h2.
          fail_if-elim (not (status == 1 || status == 6)) _ _ h2 λ permits h3.
            bind-elim (read_u64 bytes 8) _ h3 λ word e2 h4.
              bind-elim (nonce_u8 word) _ h4 λ nonce e3 h5.
                bind-elim
                  (ok_or (authority_of nonce) (invalid_amm_state "invalid authority PDA nonce")) _
                  h5
                  λ authority e4 h6. fail_if-elim (not (authority == p.authority)) _ _ h6 λ same h7.
                    record {
                      status = status;
                      nonce = nonce;
                      size = ground arith;
                      has_status = e1;
                      permits_swaps = ground arith;
                      has_nonce = subst (λ n. read_u64 bytes 8 ≡ ok n) (nonce_u8_lem word e3).0 e2;
                      nonce_is_u8 = (nonce_u8_lem word e3).1;
                      has_authority =
                          subst (λ k. authority_of nonce ≡ some k)
                            ((key.same_iff authority p.authority).0 (ground arith))
                            (ok_or-ok _ _ e4);
                      has_fields = check_fields_lem bytes (amm_fields p) h7;
                    }

  fields_checked :
      (bytes : List ℕ) (fields : List (String × ℕ × K))
      → HasFields bytes fields
      → check_fields keys chain bytes fields ≡ ok tt
  unfolding check_fields
  fields_checked bytes [] h = refl
  fields_checked bytes ((name, offset, expected) ∷ fields) h =
      rw (h.0, same_refl expected) (fields_checked bytes fields h.1)

  -- The bytes of a pool's account are accepted exactly if they are 752, their first word is a status
  -- that permits swaps, their second a nonce below 256 that gives the authority, and the eight keys
  -- stand at their offsets.
  pub verify_amm_state_iff :
      (bytes : List ℕ) (p : RaydiumPoolKeys K)
      → (verify_amm_state keys chain bytes p ≡ ok tt) ↔ IsAmmState bytes p
  unfolding verify_amm_state
  verify_amm_state_iff bytes p = (verify_amm_state_lem bytes p, accepted)
    where
      status_passes :
          (status : ℕ) → (status ≡ 1) ⊎ (status ≡ 6) → (status == 1 || status == 6) ≡ true
      status_passes status h = ground arith

      nonce_passes : (nonce : ℕ) → nonce < 256 → nonce_u8 nonce ≡ ok nonce
      nonce_passes nonce h = ground arith

      accepted : IsAmmState bytes p → verify_amm_state keys chain bytes p ≡ ok tt
      accepted a =
          rw
            (
              a.size,
              a.has_status,
              status_passes a.status a.permits_swaps,
              a.has_nonce,
              nonce_passes a.nonce a.nonce_is_u8,
              a.has_authority,
              same_refl p.authority,
            )
            (fields_checked bytes (amm_fields p) a.has_fields)
