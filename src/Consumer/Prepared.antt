-- ===== src/Consumer/Prepared.antt =====
-- alpha-whales/src/execution.rs: what a swap that is resolved for a signal is known to be.
use alpha_whales.Common.{
  ℕ, ◌∙◌, ◌⊎◌, map, ◌+◌, ◌*◌, ◌≤◌, ◌<◌, ◌≡◌, refl, sym, ap, subst, Option, none, some, Bool, true,
  false, not, ◌&&◌, ◌||◌, List, [], ◌∷◌, ◌++◌, String, KeyEq, text_key, number_key, ◌==◌, ltb, any,
  length, arith,
}
use alpha_whales.Common.Keys.{Keys}
use alpha_whales.Common.Checked.{
  ok, ok_or, map_err, bind-elim, fail_if-elim, ok_or-ok, ok_inj, map_err-ok,
}
use alpha_whales.Consumer.{WhaleSignal}
use alpha_whales.Consumer.Resolve.{
  user_account_addresses, Wallet, UserToken, Fetched, PreparedSwap, check_failed,
  invalid_user_account, account_of, is_only, invalid_target_mint, missing_source_token_account,
  fetch_raydium_quote, validate_user_token_account, destination_setup, protected_swap, with_quote,
  resolve_swap_instructions_for_signal,
}
use alpha_whales.Execution.{Instruction, readonly}
use alpha_whales.Execution.Config.{JitoExecutorConfig, ensure_signal_fresh, fresh_iff}
use alpha_whales.Execution.Quote.{QuoteData, validate_quote}
use alpha_whales.Execution.Shield.{
  holds, apply_jitodontfront_protection, protect-holds, protect-keeps,
}
use alpha_whales.Execution.Swap.{construct_raydium_swap_instruction}
use alpha_whales.Pool.{RaydiumPoolKeys, Account, Chain}
use alpha_whales.Pool.Resolved.{AnswersFrom}
use alpha_whales.Pool.Api.{Liquidity}
use alpha_whales.Pool.OnChain.{resolve_pool_keys}

module _ {K : Type 0} ⦃key : KeyEq K⦄ (keys : Keys K) (wallet : Wallet K) where
  -- An initialised token account of the mint and the owner, with at least the minimum.
  pub record IsUserToken (account : Account K) (mint owner : K) (minimum : ℕ) (native : Bool)
      (token : UserToken K) : Type 0 where
    pub of_program : account.owner ≡ keys.token_program
    pub unpacked : wallet.unpack_token_account account.data_bytes ≡ some token
    pub is_initialized : token.is_initialized ≡ true
    pub has_mint : token.mint ≡ mint
    pub has_owner : token.owner ≡ owner
    pub has_minimum : minimum ≤ token.amount
    pub is_native : native ≡ true → token.is_native ≡ true

  user_token_lem :
      (account : Account K) (name : String) (mint owner : K) (minimum : ℕ) (native : Bool)
      {token : UserToken K}
      → validate_user_token_account keys wallet account name mint owner minimum native ≡ ok token
      → IsUserToken account mint owner minimum native token
  unfolding validate_user_token_account
  user_token_lem account name mint owner minimum native h =
      fail_if-elim (not (account.owner == keys.token_program)) _ _ h λ f1 h1.
        bind-elim
          (ok_or (wallet.unpack_token_account account.data_bytes) (invalid_user_account name)) _ h1
          λ token e2 h2.
            fail_if-elim
              (not token.is_initialized
                || not (token.mint == mint)
                || not (token.owner == owner)
                || ltb token.amount minimum
                || (native && not token.is_native))
              _ _ h2
              λ f3 h3. subst (IsUserToken account mint owner minimum native) (ok_inj h3) (record {
                of_program = (key.same_iff account.owner keys.token_program).0 (ground arith);
                unpacked = ok_or-ok _ _ e2;
                is_initialized = ground arith;
                has_mint = (key.same_iff token.mint mint).0 (ground arith);
                has_owner = (key.same_iff token.owner owner).0 (ground arith);
                has_minimum = ground arith;
                is_native = λ e. ground arith;
              })

  -- The user holds nothing of the mint: there is no account, and it is created, or the only one is
  -- the destination and is empty.
  pub data HoldsNothing (found : Option (Account K)) (owned : List String) (owner mint : K)
      (creation : List (Instruction K)) : Type 0 where
    absent :
        found ≡ none
        → owned ≡ []
        → creation ≡ wallet.create_associated_token_account_idempotent owner owner mint ∷ []
        → HoldsNothing found owned owner mint creation
    empty :
        (account : Account K) (token : UserToken K)
        → found ≡ some account
        → IsUserToken account mint owner 0 false token
        → token.amount ≡ 0
        → owned ≡ keys.to_string (wallet.get_associated_token_address owner mint) ∷ []
        → creation ≡ []
        → HoldsNothing found owned owner mint creation

  none_owned : (owned : List String) → not (length owned == 0) ≡ false → owned ≡ []
  none_owned [] h = refl
  none_owned (x ∷ owned) h = absurd (ground arith)

  only_lem :
      (owned : List String) (destination : String)
      → is_only owned destination ≡ true
      → owned ≡ destination ∷ []
  only_lem [] destination h = absurd (ground arith)
  only_lem (x ∷ []) destination h = ap (λ y. y ∷ []) ((text_key.same_iff x destination).0 h)
  only_lem (x ∷ y ∷ owned) destination h = absurd (ground arith)

  holds_nothing :
      (found : Option (Account K)) (owned : List String) (owner mint : K) (rent : ℕ)
      {creation : List (Instruction K)} {ata_rent : ℕ}
      → destination_setup keys wallet found owned owner mint rent ≡ ok (creation, ata_rent)
      → HoldsNothing found owned owner mint creation
  unfolding destination_setup
  holds_nothing none owned owner mint rent h =
      fail_if-elim (not (length owned == 0)) _ _ h
        λ f1 h1. absent refl (none_owned owned f1) (sym (ap (λ r. r.0) (ok_inj h1)))
  holds_nothing (some account) owned owner mint rent h =
      bind-elim
        (validate_user_token_account keys wallet account "target destination" mint owner 0 false) _
        h
        λ token e1 h1.
          fail_if-elim
            (not (token.amount == 0)
              || not
                  (is_only owned (keys.to_string (wallet.get_associated_token_address owner mint))))
            _ _ h1
            λ f2 h2.
              empty account token refl (user_token_lem account _ mint owner 0 false e1)
                (ground arith) (only_lem owned _ (ground arith)) (sym (ap (λ r. r.0) (ok_inj h2)))

  module _ (config : JitoExecutorConfig K) where
    -- The swap that is built on a quote, for at least the minimum that the quote is accepted with, with
    -- the sentinel.
    pub record IsSwapFor (s : WhaleSignal) (pool_keys : RaydiumPoolKeys K) (quote : QuoteData)
        (owner mint : K) (swap : Instruction K) : Type 0 where
      pub minimum : ℕ
      pub accepted :
          validate_quote keys wallet.parse_u64 quote pool_keys.amm_id s.target_mint
            config.max_slippage_bps s.amount_in
          ≡ ok minimum
      pub bare : Instruction K
      pub built :
          construct_raydium_swap_instruction keys pool_keys owner
            (wallet.get_associated_token_address owner keys.wsol_mint)
            (wallet.get_associated_token_address owner mint)
            s.amount_in
            minimum
          ≡ ok bare
      pub same_program : swap.program_id ≡ bare.program_id
      pub same_data : swap.data_bytes ≡ bare.data_bytes
      pub same_accounts :
          (swap.accounts ≡ bare.accounts)
          ⊎ (swap.accounts ≡ bare.accounts ++ readonly config.jito_dont_front_pubkey ∷ [])
      pub is_protected : holds config.jito_dont_front_pubkey swap.accounts ≡ true

    protected_lem :
        (s : WhaleSignal) (pool_keys : RaydiumPoolKeys K) (quote : QuoteData) (owner mint : K)
        {swap : Instruction K}
        → protected_swap keys wallet config s pool_keys quote owner mint ≡ ok swap
        → IsSwapFor s pool_keys quote owner mint swap
    unfolding protected_swap
    protected_lem s pool_keys quote owner mint h =
        bind-elim
          (map_err check_failed (
            validate_quote keys wallet.parse_u64 quote pool_keys.amm_id s.target_mint
              config.max_slippage_bps s.amount_in))
          _ h
          λ minimum e1 h1.
            bind-elim
              (map_err check_failed (
                construct_raydium_swap_instruction keys pool_keys owner
                  (wallet.get_associated_token_address owner keys.wsol_mint)
                  (wallet.get_associated_token_address owner mint) s.amount_in minimum))
              _ h1
              λ swap e2 h2.
                bind-elim
                  (map_err check_failed
                    (apply_jitodontfront_protection keys swap config.jito_dont_front_pubkey).1)
                  _ h2
                  λ _ e3 h3.
                    let (same_program, same_data, same_accounts) =
                      protect-keeps keys swap config.jito_dont_front_pubkey in
                    subst (IsSwapFor s pool_keys quote owner mint) (ok_inj h3) (record {
                      minimum = minimum;
                      accepted = map_err-ok check_failed _ e1;
                      bare = swap;
                      built = map_err-ok check_failed _ e2;
                      same_program = same_program;
                      same_data = same_data;
                      same_accounts = same_accounts;
                      is_protected =
                          protect-holds keys swap config.jito_dont_front_pubkey
                            (map_err-ok check_failed _ e3);
                    })

    module _ {Alt F : Type 0} (chain : Chain K) (f64 : Liquidity F) where
      pub record IsPrepared (s : WhaleSignal) (owner : K) (ledger : K → Option (Account K))
          (f : Fetched K Alt F) (p : PreparedSwap K Alt) : Type 0 where
        pub is_fresh :
            (0 < s.timestamp_ms)
            × (f.now_ms * 1_000_000 ≤ s.timestamp_ms * 1_000_000 + config.max_signal_age)
        pub target_is_other : (p.target_mint == keys.wsol_mint) ≡ false
        pub resolved :
            resolve_pool_keys keys chain f64 f.pool_list f.key_records f.pool_accounts s.target_mint
            ≡ ok p.pool_keys
        pub quote : QuoteData
        pub quoted : fetch_raydium_quote f.quote_response ≡ ok quote
        pub source_account : Account K
        pub source : UserToken K
        pub source_at :
            ledger (wallet.get_associated_token_address owner keys.wsol_mint) ≡ some source_account
        pub has_funds : IsUserToken source_account keys.wsol_mint owner s.amount_in true source
        pub owned : List String
        pub owned_fetched : f.owned_target_accounts ≡ some owned
        pub creation : List (Instruction K)
        pub holds_none :
            HoldsNothing
              (ledger (wallet.get_associated_token_address owner p.target_mint))
              owned
              owner
              p.target_mint
              creation
        pub swap : Instruction K
        pub instructions_are : p.instructions ≡ creation ++ swap ∷ []
        pub is_swap : IsSwapFor s p.pool_keys quote owner p.target_mint swap

      fetched_lem :
          (s : WhaleSignal) (owner : K) (ledger : K → Option (Account K)) (f : Fetched K Alt F)
          {p : PreparedSwap K Alt} (target : K) (pool : RaydiumPoolKeys K) (quote : QuoteData)
          → (0 < s.timestamp_ms)
            × (f.now_ms * 1_000_000 ≤ s.timestamp_ms * 1_000_000 + config.max_signal_age)
          → AnswersFrom ledger f.user_accounts
          → (target == keys.wsol_mint) ≡ false
          → fetch_raydium_quote f.quote_response ≡ ok quote
          → resolve_pool_keys keys chain f64 f.pool_list f.key_records f.pool_accounts s.target_mint
            ≡ ok pool
          → with_quote keys wallet config s owner f target pool quote ≡ ok p
          → IsPrepared s owner ledger f p
      unfolding with_quote
      fetched_lem s owner ledger f target pool quote age answers f2 e4 e3 h4 =
          bind-elim
            (ok_or (f.user_accounts (user_account_addresses keys wallet owner target))
              f.first_failure)
            _ h4
            λ accounts e5 h5.
              bind-elim (ok_or f.owned_target_accounts f.first_failure) _ h5 λ owned e6 h6.
                bind-elim (ok_or f.destination_account_rent f.first_failure) _ h6 λ rent e7 h7.
                  bind-elim (ok_or (account_of accounts 0) missing_source_token_account) _ h7
                    λ account e8 h8.
                      bind-elim
                        (validate_user_token_account keys wallet account "WSOL source"
                          keys.wsol_mint owner s.amount_in true)
                        _ h8
                        λ source e9 h9.
                          fail_if-elim
                            (any
                              (λ address. not (
                                address
                                == keys.to_string
                                    (wallet.get_associated_token_address owner target)))
                              owned)
                            _ _ h9
                            λ f10 h10.
                              bind-elim
                                (destination_setup keys wallet (account_of accounts 1) owned owner
                                  target rent)
                                _ h10
                                λ (creation, ata_rent) e11 h11.
                                  bind-elim
                                    (protected_swap keys wallet config s pool quote owner target) _
                                    h11
                                    λ swap e12 h12.
                                      subst (IsPrepared s owner ledger f) (ok_inj h12) (record {
                                        is_fresh = age;
                                        target_is_other = f2;
                                        resolved = e3;
                                        quote = quote;
                                        quoted = e4;
                                        source_account = account;
                                        source = source;
                                        source_at =
                                            sym
                                              (listed accounts
                                                (answers _ accounts (ok_or-ok _ _ e5))).0
                                            ∙ ok_or-ok _ _ e8;
                                        has_funds =
                                            user_token_lem account _ keys.wsol_mint owner
                                              s.amount_in true e9;
                                        owned = owned;
                                        owned_fetched = ok_or-ok _ _ e6;
                                        creation = creation;
                                        holds_none =
                                            subst
                                              (λ found.
                                                HoldsNothing found owned owner target creation)
                                              (listed accounts
                                                (answers _ accounts (ok_or-ok _ _ e5))).1
                                              (holds_nothing (account_of accounts 1) owned owner
                                                target rent e11);
                                        swap = swap;
                                        instructions_are = refl;
                                        is_swap = protected_lem s pool quote owner target e12;
                                      })
        where
          listed :
              (accounts : List (Option (Account K)))
              → accounts ≡ map ledger (user_account_addresses keys wallet owner target)
              → (account_of accounts 0
                  ≡ ledger (wallet.get_associated_token_address owner keys.wsol_mint))
                × (account_of accounts 1
                    ≡ ledger (wallet.get_associated_token_address owner target))
          listed accounts e = (rw e refl, rw e refl)

      pub resolve_swap_lem :
          (s : WhaleSignal) (owner : K) (ledger : K → Option (Account K)) (f : Fetched K Alt F)
          {p : PreparedSwap K Alt}
          → AnswersFrom ledger f.user_accounts
          → resolve_swap_instructions_for_signal keys wallet config chain f64 s owner f ≡ ok p
          → IsPrepared s owner ledger f p
      unfolding resolve_swap_instructions_for_signal
      resolve_swap_lem s owner ledger f answers h =
          bind-elim
            (map_err check_failed
              (ensure_signal_fresh s.timestamp_ms f.now_ms config.max_signal_age))
            _ h
            λ _ e0 h0.
              bind-elim (ok_or (chain.pubkey_from_str s.target_mint) invalid_target_mint) _ h0
                λ target e1 h1. fail_if-elim (target == keys.wsol_mint) _ _ h1 λ f2 h2.
                  bind-elim
                    (map_err (λ why. f.first_failure)
                      (resolve_pool_keys keys chain f64 f.pool_list f.key_records f.pool_accounts
                        s.target_mint))
                    _ h2
                    λ pool e3 h3.
                      bind-elim
                        (map_err (λ why. f.first_failure) (fetch_raydium_quote f.quote_response)) _
                        h3
                        λ quote e4 h4.
                          fetched_lem s owner ledger f target pool quote
                            ((fresh_iff s.timestamp_ms f.now_ms config.max_signal_age).0
                              (map_err-ok check_failed _ e0))
                            answers f2 (map_err-ok (λ why. f.first_failure) _ e4)
                            (map_err-ok (λ why. f.first_failure) _ e3) h4
