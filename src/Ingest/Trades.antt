-- ===== src/Ingest/Trades.antt =====
-- What a decoded swap tells of the vaults' balances.
use alpha_whales.Common.{
  ℕ, String, ◌+◌, ◌<◌, ◌≡◌, refl, ◌⊎◌, inl, inr, false, not, ◌||◌, List, subst, KeyEq, ◌==◌, arith,
}
use alpha_whales.Common.Keys.{Keys}
use alpha_whales.Common.Checked.{ok, bind-elim, fail_if-elim, ok_inj}
use alpha_whales.Ingest.{
  Decoders, RawMessage, RawTokenBalance, SwapInstruction, DecodedSwap, BalanceDirection, increase,
  decrease,
}
use alpha_whales.Ingest.Balances.{
  balance_delta, same_direction, account_index_for_pubkey, unique_token_balance,
}
use alpha_whales.Ingest.Notification.{target_of, decode_candidate}

-- A balance that changes by `delta` in the given direction.
abbrev pub IsChange : ℕ → ℕ → BalanceDirection → ℕ → Type 0
IsChange pre post increase delta = (post ≡ pre + delta) × (0 < delta)
IsChange pre post decrease delta = (pre ≡ post + delta) × (0 < delta)

balance_delta_lem :
    (pre post : ℕ) {d : BalanceDirection} {delta : ℕ}
    → balance_delta pre post ≡ ok (d, delta)
    → IsChange pre post d delta
unfolding balance_delta
balance_delta_lem pre post {d = increase} {delta} h = ground arith
balance_delta_lem pre post {d = decrease} {delta} h = ground arith

module _ {K : Type 0} ⦃key : KeyEq K⦄ (parse : Decoders K) (message : RawMessage)
    (pre_balances post_balances : List RawTokenBalance) where
  -- The only balances of a vault, before and after, in one mint.
  pub record HasBalances (vault mint : K) (pre post : ℕ) : Type 0 where
    pub index : ℕ
    pub at_index : account_index_for_pubkey parse message vault ≡ ok index
    pub before : unique_token_balance parse pre_balances index ≡ ok (mint, pre)
    pub after : unique_token_balance parse post_balances index ≡ ok (mint, post)

  -- One vault of the swap's pool gained what the swap says, and the other one lost it: the one of the
  -- target mint and the one of WSOL.
  pub record IsTrade (wsol_mint target_vault wsol_vault target_mint : K)
      (base_amount quote_amount : ℕ) : Type 0 where
    pub target_pre : ℕ
    pub target_post : ℕ
    pub wsol_pre : ℕ
    pub wsol_post : ℕ
    pub target_balances : HasBalances target_vault target_mint target_pre target_post
    pub wsol_balances : HasBalances wsol_vault wsol_mint wsol_pre wsol_post
    pub target_is_other : (target_mint == wsol_mint) ≡ false
    pub exchanged :
        (IsChange target_pre target_post increase base_amount
          × IsChange wsol_pre wsol_post decrease quote_amount)
        ⊎ (IsChange target_pre target_post decrease base_amount
            × IsChange wsol_pre wsol_post increase quote_amount)

target_of_lem :
    {K : Type 0} ⦃key : KeyEq K⦄ (keys : Keys K) (m1 : K) (x1 : ℕ) (m2 : K) (x2 : ℕ) {t : K}
    {b q : ℕ}
    → target_of keys m1 x1 m2 x2 ≡ ok (t, b, q)
    → ((m1 ≡ keys.wsol_mint) × (m2 ≡ t) × ((t == keys.wsol_mint) ≡ false) × (b ≡ x2) × (q ≡ x1))
      ⊎ ((m2 ≡ keys.wsol_mint) × (m1 ≡ t) × ((t == keys.wsol_mint) ≡ false) × (b ≡ x1) × (q ≡ x2))
unfolding target_of
target_of_lem ⦃key⦄ keys m1 x1 m2 x2 h =
    grind (arith, key.same_iff m1 keys.wsol_mint, key.same_iff m2 keys.wsol_mint)

exchanged_lem :
    {a1 a2 a3 a4 x1 x2 : ℕ} (d1 d2 : BalanceDirection)
    → IsChange a1 a2 d1 x1
    → IsChange a3 a4 d2 x2
    → same_direction d1 d2 ≡ false
    → (IsChange a1 a2 increase x1 × IsChange a3 a4 decrease x2)
      ⊎ (IsChange a1 a2 decrease x1 × IsChange a3 a4 increase x2)
exchanged_lem increase increase c1 c2 g = absurd (ground arith)
exchanged_lem increase decrease c1 c2 g = inl (c1, c2)
exchanged_lem decrease increase c1 c2 g = inr (c1, c2)
exchanged_lem decrease decrease c1 c2 g = absurd (ground arith)

abbrev swap_either : {A B C D : Type 0} → (A × B) ⊎ (C × D) → (D × C) ⊎ (B × A)
swap_either (inl (a, b)) = inr (b, a)
swap_either (inr (c, d)) = inl (d, c)

module _ {K : Type 0} ⦃key : KeyEq K⦄ (keys : Keys K) (parse : Decoders K) (message : RawMessage)
    (pre_balances post_balances : List RawTokenBalance) where
  -- A trade through the pool of the two vaults, in either order.
  abbrev pub IsTradeOf : K → K → K → ℕ → ℕ → Type 0
  IsTradeOf base_vault quote_vault mint b q =
      IsTrade parse message pre_balances post_balances keys.wsol_mint quote_vault base_vault mint b
        q
      ⊎ IsTrade parse message pre_balances post_balances keys.wsol_mint base_vault quote_vault mint
          b q

  trade_of :
      {base_vault quote_vault m1 m2 t : K} {a1 a2 a3 a4 b q : ℕ} (x1 x2 : ℕ)
      (d1 d2 : BalanceDirection)
      → HasBalances parse message pre_balances post_balances base_vault m1 a1 a2
      → HasBalances parse message pre_balances post_balances quote_vault m2 a3 a4
      → IsChange a1 a2 d1 x1
      → IsChange a3 a4 d2 x2
      → same_direction d1 d2 ≡ false
      → target_of keys m1 x1 m2 x2 ≡ ok (t, b, q)
      → IsTradeOf base_vault quote_vault t b q
  trade_of {base_vault} {quote_vault} {m1} {m2} {t} {a1} {a2} {a3} {a4} x1 x2 d1 d2 v1 v2 c1 c2 g
        h =
      elim (target_of_lem keys m1 x1 m2 x2 h) [
        | inl (e1, e2, o, eb, eq) ↦ inl (
            rw (eb, eq)
              record {
                target_pre = a3;
                target_post = a4;
                wsol_pre = a1;
                wsol_post = a2;
                target_balances =
                    subst
                      (λ m.
                        HasBalances parse message pre_balances post_balances quote_vault m a3 a4)
                      e2 v2;
                wsol_balances =
                    subst
                      (λ m. HasBalances parse message pre_balances post_balances base_vault m a1 a2)
                      e1 v1;
                target_is_other = o;
                exchanged = swap_either (exchanged_lem d1 d2 c1 c2 g);
              })
        | inr (e2, e1, o, eb, eq) ↦ inr (
            rw (eb, eq)
              record {
                target_pre = a1;
                target_post = a2;
                wsol_pre = a3;
                wsol_post = a4;
                target_balances =
                    subst
                      (λ m. HasBalances parse message pre_balances post_balances base_vault m a1 a2)
                      e1 v1;
                wsol_balances =
                    subst
                      (λ m.
                        HasBalances parse message pre_balances post_balances quote_vault m a3 a4)
                      e2 v2;
                target_is_other = o;
                exchanged = exchanged_lem d1 d2 c1 c2 g;
              })
      ]

  balances_of :
      {vault m m' : K} {pre post : ℕ} (index : ℕ)
      → account_index_for_pubkey parse message vault ≡ ok index
      → unique_token_balance parse pre_balances index ≡ ok (m, pre)
      → unique_token_balance parse post_balances index ≡ ok (m', post)
      → m' ≡ m
      → HasBalances parse message pre_balances post_balances vault m pre post
  balances_of {post} index e1 e2 e3 same = record {
    index = index;
    at_index = e1;
    before = e2;
    after = subst (λ n. unique_token_balance parse post_balances index ≡ ok (n, post)) same e3;
  }

  same_mints :
      (m1 m2 m3 m4 : K) → (not (m1 == m2) || not (m3 == m4)) ≡ false → (m2 ≡ m1) × (m4 ≡ m3)
  same_mints m1 m2 m3 m4 f = grind (arith, key.same_iff m1 m2, key.same_iff m3 m4)

  pub decode_candidate_lem :
      (signature : String) (observed_at_ms slot : ℕ) (c : SwapInstruction K) {swap : DecodedSwap K}
      → decode_candidate keys parse message pre_balances post_balances signature observed_at_ms slot
          c
        ≡ ok swap
      → IsTradeOf c.base_vault c.quote_vault swap.target_mint swap.base_amount swap.quote_amount
        × (swap.pool_id ≡ c.pool_id)
  unfolding decode_candidate
  decode_candidate_lem signature observed_at_ms slot c {swap} h =
      bind-elim (account_index_for_pubkey parse message c.base_vault) _ h λ base_index e1 h1.
        bind-elim (account_index_for_pubkey parse message c.quote_vault) _ h1 λ quote_index e2 h2.
          bind-elim (unique_token_balance parse pre_balances base_index) _ h2 λ (m1, a1) e3 h3.
            bind-elim (unique_token_balance parse post_balances base_index) _ h3 λ (m2, a2) e4 h4.
              bind-elim (unique_token_balance parse pre_balances quote_index) _ h4 λ (m3, a3) e5 h5.
                bind-elim (unique_token_balance parse post_balances quote_index) _ h5
                  λ (m4, a4) e6 h6.
                    fail_if-elim (not (m1 == m2) || not (m3 == m4)) _ _ h6 λ same h7.
                      bind-elim (balance_delta a1 a2) _ h7 λ (d1, x1) e7 h8.
                        bind-elim (balance_delta a3 a4) _ h8 λ (d2, x2) e8 h9.
                          fail_if-elim (same_direction d1 d2) _ _ h9 λ opposite h10.
                            bind-elim (target_of keys m1 x1 m3 x2) _ h10 λ (t, b, q) e9 h11.
                              let (s1, s2) = same_mints m1 m2 m3 m4 same in
                              let trade =
                                trade_of x1 x2 d1 d2 (balances_of base_index e1 e3 e4 s1)
                                  (balances_of quote_index e2 e5 e6 s2) (balance_delta_lem a1 a2 e7)
                                  (balance_delta_lem a3 a4 e8) opposite e9 in
                              subst
                                (λ s.
                                  IsTradeOf c.base_vault c.quote_vault s.target_mint s.base_amount
                                    s.quote_amount
                                  × (s.pool_id ≡ c.pool_id))
                                (ok_inj h11) (trade, refl)
