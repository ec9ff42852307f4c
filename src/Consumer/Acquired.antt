-- ===== src/Consumer/Acquired.antt =====
-- What it means that the tokens of a purchase were acquired: confirmed, and read back.
use alpha_whales.Common.{
  ℕ, zero, suc, ◌<◌, ◌≡◌, refl, subst, Option, some, true, false, not, List, [], ◌∷◌, String, KeyEq,
  number_key, ◌==◌, arith,
}
use alpha_whales.Common.Checked.{
  Checked, ok, err, ok_or, bind-elim, fail_if-elim, ok_inj, ok_or-ok, map_err, map_err-ok,
}
use alpha_whales.Common.Keys.{Keys}
use alpha_whales.Consumer.Handoff.{
  HandoffError, token_account_readback, Poll, answered, rpc_error, poll_transaction_confirmation,
  confirmation_max_polls, TokenState, read_token_account_balance, Bought, acquired,
}
use alpha_whales.Pool.{Account}

-- One of the first answers says that the transaction is confirmed.
abbrev pub IsConfirmedIn : ℕ → List Poll → Type 0
IsConfirmedIn zero answers = ⊥
IsConfirmedIn (suc n) [] = ⊥
IsConfirmedIn (suc n) (answered true ∷ answers) = Unit {0}
IsConfirmedIn (suc n) (answered false ∷ answers) = IsConfirmedIn n answers
IsConfirmedIn (suc n) (rpc_error ∷ answers) = IsConfirmedIn n answers

confirmed_lem :
    (n : ℕ) (answers : List Poll)
    → poll_transaction_confirmation n answers ≡ ok tt
    → IsConfirmedIn n answers
unfolding poll_transaction_confirmation
confirmed_lem zero answers h = absurd (ground arith)
confirmed_lem (suc n) [] h = absurd (ground arith)
confirmed_lem (suc n) (answered true ∷ answers) h = tt
confirmed_lem (suc n) (answered false ∷ answers) h = confirmed_lem n answers h
confirmed_lem (suc n) (rpc_error ∷ answers) h = confirmed_lem n answers h

confirms :
    (n : ℕ) (answers : List Poll)
    → IsConfirmedIn n answers
    → poll_transaction_confirmation n answers ≡ ok tt
unfolding poll_transaction_confirmation
confirms zero answers h = absurd h
confirms (suc n) [] h = absurd h
confirms (suc n) (answered true ∷ answers) h = refl
confirms (suc n) (answered false ∷ answers) h = confirms n answers h
confirms (suc n) (rpc_error ∷ answers) h = confirms n answers h

positive : (n : ℕ) → (n == 0) ≡ false → 0 < n
positive n h = ground arith

module _ {K : Type 0} ⦃key : KeyEq K⦄ (keys : Keys K)
    (unpack : List ℕ → Option (TokenState K)) where
  -- The amount stands in an initialised token account of the mint that belongs to the user.
  pub record IsBalance (b : Bought K) (amount : ℕ) : Type 0 where
    pub account : Account K
    pub token : TokenState K
    pub fetched : b.balance_account ≡ some (ok (some account))
    pub of_program : account.owner ≡ keys.token_program
    pub unpacked : unpack account.data_bytes ≡ some token
    pub is_initialized : token.is_initialized ≡ true
    pub has_mint : token.mint ≡ b.target_mint
    pub has_owner : token.owner ≡ b.user_owner
    pub has_amount : token.amount ≡ amount

  pub record IsAcquired (b : Bought K) (amount : ℕ) : Type 0 where
    pub confirmed : IsConfirmedIn 40 b.confirmations
    pub above_zero : 0 < amount
    pub balance : IsBalance b amount

  balance_lem :
      (b : Bought K) (fetched : Checked String (Option (Account K))) {amount : ℕ}
      → b.balance_account ≡ some fetched
      → read_token_account_balance keys unpack fetched b.target_mint b.user_owner ≡ ok amount
      → IsBalance b amount
  unfolding read_token_account_balance
  balance_lem b fetched e h = bind-elim (map_err token_account_readback fetched) _ h λ found e1 h1.
      bind-elim (ok_or found (token_account_readback "does not exist")) _ h1 λ account e2 h2.
        fail_if-elim (not (account.owner == keys.token_program)) _ _ h2 λ f3 h3.
          bind-elim (ok_or (unpack account.data_bytes) (token_account_readback "unpack failed")) _
            h3
            λ token e4 h4. fail_if-elim (not token.is_initialized) _ _ h4 λ f5 h5.
              fail_if-elim (not (token.mint == b.target_mint)) _ _ h5 λ f6 h6.
                fail_if-elim (not (token.owner == b.user_owner)) _ _ h6 λ f7 h7. record {
                  account = account;
                  token = token;
                  fetched =
                      rw (e, map_err-ok token_account_readback fetched e1, ok_or-ok found _ e2)
                        refl;
                  of_program = (key.same_iff account.owner keys.token_program).0 (ground arith);
                  unpacked = ok_or-ok _ _ e4;
                  is_initialized = ground arith;
                  has_mint = (key.same_iff token.mint b.target_mint).0 (ground arith);
                  has_owner = (key.same_iff token.owner b.user_owner).0 (ground arith);
                  has_amount = ok_inj h7;
                }

  pub acquired_lem :
      (b : Bought K) {amount : ℕ} → acquired keys unpack b ≡ ok amount → IsAcquired b amount
  unfolding acquired
  acquired_lem b h = fail_if-elim (not b.signature_is_valid) _ _ h λ f1 h1.
      bind-elim (poll_transaction_confirmation confirmation_max_polls b.confirmations) _ h1
        λ _ e2 h2.
          bind-elim (ok_or b.balance_account (token_account_readback "timeout")) _ h2
            λ fetched e3 h3.
              bind-elim (read_token_account_balance keys unpack fetched b.target_mint b.user_owner)
                _ h3
                λ amount e4 h4. fail_if-elim (amount == 0) _ _ h4 λ f5 h5.
                  subst (IsAcquired b) (ok_inj h5) (record {
                    confirmed = confirmed_lem 40 b.confirmations e2;
                    above_zero = positive amount f5;
                    balance = balance_lem b fetched (ok_or-ok _ _ e3) e4;
                  })

  read_made :
      (b : Bought K) {amount : ℕ} (z : IsBalance b amount)
      → read_token_account_balance keys unpack (ok (some z.account)) b.target_mint b.user_owner
        ≡ ok amount
  unfolding read_token_account_balance
  read_made b z =
      rw
        (
          (key.same_iff z.account.owner keys.token_program).1 z.of_program,
          z.unpacked,
          z.is_initialized,
          (key.same_iff z.token.mint b.target_mint).1 z.has_mint,
          (key.same_iff z.token.owner b.user_owner).1 z.has_owner,
          z.has_amount,
        )
        refl

  acquired_made :
      (b : Bought K) {amount : ℕ}
      → b.signature_is_valid ≡ true
      → IsAcquired b amount
      → acquired keys unpack b ≡ ok amount
  unfolding acquired
  acquired_made b valid a =
      rw
        (
          valid,
          confirms 40 b.confirmations a.confirmed,
          a.balance.fetched,
          read_made b a.balance,
          above a.above_zero,
        )
        refl
    where
      above : {n : ℕ} → 0 < n → (n == 0) ≡ false
      above h = ground arith

  pub nothing_acquired :
      (b : Bought K) {why : HandoffError}
      → acquired keys unpack b ≡ err why
      → (amount : ℕ) → b.signature_is_valid ≡ true
      → ¬ IsAcquired b amount
  nothing_acquired b e amount valid a = ground (arith, e, acquired_made b valid a)
