-- ===== src/Ingest/Selection.antt =====
-- core/src/websocket.rs: lemmas on `decode_swap_instruction` and the candidates, in the words of
-- Ingest/Candidates.
use alpha_whales.Common.{
  ℕ, ◌+◌, ◌⊎◌, inl, inr, ◌≡◌, refl, sym, ap, ◌∙◌, Option, none, some, Bool, true, false, not, List,
  [], ◌∷◌, KeyEq, number_key, ◌==◌, leb, length, arith, subst, String, if◌then◌else◌,
}
use alpha_whales.Common.Words.{unwrap_or}
use alpha_whales.Common.Keys.{Keys}
use alpha_whales.Common.Checked.{ok, ok_or, ◌>>=◌, bind-elim, fail_if-elim, ok_inj, ok_or-ok}
use alpha_whales.Ingest.{
  Decoders, RawInstruction, RawMessage, RawInnerInstructions, NotificationResult, SwapInstruction,
}
use alpha_whales.Ingest.Instructions.{
  is_swap_tag, vault_indexes, u8_or, inner_u8, push_some, resolve_program_id, account_at,
  is_ambiguous, swap_of, raydium_swap, is_raydium, decode_swap_instruction, collect_instructions,
  collect_groups, candidates_of,
}
use alpha_whales.Ingest.Candidates.{
  HasSwapTag, base_in, base_out, HasVaultsAt, current, legacy, NamesAccounts, IsSwapAt, IsNoSwap,
  other_program, other_instruction, Selects, none_left, passed, taken, SelectsInner, no_groups,
  grouped, AreSwapsOf,
}

tag_lem : (bytes : List ℕ) → is_swap_tag bytes ≡ true → HasSwapTag bytes
tag_lem [] h = absurd (ground arith)
tag_lem (tag ∷ bytes) h = elim (either_tag tag h) [
  | inl e ↦ subst (λ t. HasSwapTag (t ∷ bytes)) (sym e) (base_in bytes)
  | inr e ↦ subst (λ t. HasSwapTag (t ∷ bytes)) (sym e) (base_out bytes)
]
  where
    either_tag : (tag : ℕ) → is_swap_tag (tag ∷ []) ≡ true → (tag ≡ 9) ⊎ (tag ≡ 11)
    either_tag tag h = ground arith

untagged_lem : (bytes : List ℕ) → is_swap_tag bytes ≡ false → ¬ HasSwapTag bytes
untagged_lem bytes h (base_in rest) = ground arith
untagged_lem bytes h (base_out rest) = ground arith

vaults_of :
    (count n : ℕ) {at found : ℕ × ℕ}
    → count ≡ n
    → vault_indexes n ≡ ok found
    → HasVaultsAt n found.0 found.1
    → vault_indexes count ≡ ok at
    → HasVaultsAt count at.0 at.1
vaults_of count n {at} e there vaults h =
    subst (λ m. HasVaultsAt m at.0 at.1) (sym e)
      (subst (λ (p : ℕ × ℕ). HasVaultsAt n p.0 p.1)
        (ok_inj (sym there ∙ subst (λ m. vault_indexes m ≡ ok at) e h)) vaults)

vaults_lem : (count : ℕ) {at : ℕ × ℕ} → vault_indexes count ≡ ok at → HasVaultsAt count at.0 at.1
vaults_lem count {at} h = by_count (count == 17) (count == 18) refl refl
  where
    by_count :
        (is_current is_legacy : Bool)
        → (count == 17) ≡ is_current
        → (count == 18) ≡ is_legacy
        → HasVaultsAt count at.0 at.1
    by_count true is_legacy e f = vaults_of count 17 (ground arith) refl current h
    by_count false true e f = vaults_of count 18 (ground arith) refl legacy h
    by_count false false e f = absurd (ground arith)

u8_or-ok : {E : Type 0} (index : ℕ) (why : E) {n : ℕ} → u8_or index why ≡ ok n → n ≡ index
u8_or-ok index why h = ground arith

inner_u8-ok : (inner : Option ℕ) {n : Option ℕ} → inner_u8 inner ≡ ok n → n ≡ inner
inner_u8-ok none h = sym (ok_inj h)
inner_u8-ok (some index) h =
    bind-elim (u8_or index _) _ h λ i e h1. sym (ok_inj h1) ∙ ap some (u8_or-ok index _ e)

module _ {K : Type 0} ⦃key : KeyEq K⦄ (keys : Keys K) (parse : Decoders K) where
  open parse use {base58_onto}

  swap_of_lem :
      (message : RawMessage) (instruction : RawInstruction) (outer : ℕ) (inner : Option ℕ)
      {c : SwapInstruction K}
      → swap_of keys parse message instruction outer inner ≡ ok c
      → NamesAccounts keys parse message instruction outer inner c
  unfolding swap_of
  swap_of_lem message instruction outer inner h =
      bind-elim (vault_indexes (length instruction.accounts)) _ h λ (base_index, quote_index) e1 h1.
        bind-elim (account_at keys parse message instruction.accounts 0) _ h1 λ program e2 h2.
          fail_if-elim (not (program == keys.token_program)) _ _ h2 λ f3 h3.
            bind-elim (account_at keys parse message instruction.accounts 1) _ h3 λ pool e4 h4.
              bind-elim (account_at keys parse message instruction.accounts base_index) _ h4
                λ base e5 h5.
                  bind-elim (account_at keys parse message instruction.accounts quote_index) _ h5
                    λ quote e6 h6.
                      fail_if-elim (is_ambiguous keys parse pool base quote) _ _ h6 λ f7 h7.
                        bind-elim (u8_or outer _) _ h7 λ outer_u8 e8 h8.
                          bind-elim (inner_u8 inner) _ h8 λ inner_index e9 h9.
                            subst (NamesAccounts keys parse message instruction outer inner)
                              (ok_inj h9)
                              (record {
                                base_index = base_index;
                                quote_index = quote_index;
                                has_vaults = vaults_lem _ e1;
                                has_pool = e4;
                                has_base = e5;
                                has_quote = e6;
                                has_outer = u8_or-ok outer _ e8;
                                has_inner = inner_u8-ok inner e9;
                              })

  -- What one instruction adds.
  abbrev Adds : RawMessage → RawInstruction → ℕ → Option ℕ → Option (SwapInstruction K) → Type 0
  Adds message instruction outer inner none = IsNoSwap keys parse message instruction
  Adds message instruction outer inner (some c) =
      IsSwapAt keys parse message instruction outer inner c

  raydium_swap_lem :
      (message : RawMessage) (instruction : RawInstruction) (outer : ℕ) (inner : Option ℕ)
      {found : Option (SwapInstruction K)}
      → resolve_program_id keys parse message instruction
        ≡ ok (some keys.raydium_liquidity_pool_v4_program_id)
      → raydium_swap keys parse message instruction outer inner ≡ ok found
      → Adds message instruction outer inner found
  unfolding raydium_swap
  raydium_swap_lem message instruction outer inner {found} called h =
      bind-elim (ok_or instruction.raw_data _) _ h λ text e1 h1.
        bind-elim (ok_or (base58_onto text) _) _ h1 λ bytes e2 h2.
          by_tag text bytes (is_swap_tag bytes) refl (ok_or-ok _ _ e1) (ok_or-ok _ _ e2) h2
    where
      by_tag :
          (text : String) (bytes : List ℕ) (tagged : Bool)
          → is_swap_tag bytes ≡ tagged
          → instruction.raw_data ≡ some text
          → base58_onto text ≡ some bytes
          → (if tagged
              then (swap_of keys parse message instruction outer inner >>= λ swap. ok (some swap))
              else ok none)
            ≡ ok found
          → Adds message instruction outer inner found
      by_tag text bytes false t e1 e2 h2 =
          subst (Adds message instruction outer inner) (ok_inj h2)
            (other_instruction text bytes e1 e2 (untagged_lem bytes t))
      by_tag text bytes true t e1 e2 h2 =
          bind-elim (swap_of keys parse message instruction outer inner) _ h2 λ c e3 h3.
            subst (Adds message instruction outer inner) (ok_inj h3) (record {
              text = text;
              bytes = bytes;
              calls_raydium = called;
              has_data = e1;
              is_base58 = e2;
              is_tagged = tag_lem bytes t;
              names = swap_of_lem message instruction outer inner e3;
            })

  decode_swap_instruction_lem :
      (message : RawMessage) (instruction : RawInstruction) (outer : ℕ) (inner : Option ℕ)
      {found : Option (SwapInstruction K)}
      → decode_swap_instruction keys parse message instruction outer inner ≡ ok found
      → Adds message instruction outer inner found
  unfolding decode_swap_instruction
  decode_swap_instruction_lem message instruction outer inner {found} h =
      bind-elim (resolve_program_id keys parse message instruction) _ h by_program
    where
      by_program :
          (program : Option K)
          → resolve_program_id keys parse message instruction ≡ ok program
          → (if is_raydium keys parse program
              then raydium_swap keys parse message instruction outer inner
              else ok none)
            ≡ ok found
          → Adds message instruction outer inner found
      by_program none e h =
          subst (Adds message instruction outer inner) (ok_inj h)
            (other_program none e (λ eq. ground arith))
      by_program (some program) e h =
          by_test (program == keys.raydium_liquidity_pool_v4_program_id) refl h
        where
          by_test :
              (called : Bool)
              → (program == keys.raydium_liquidity_pool_v4_program_id) ≡ called
              → (if called
                  then raydium_swap keys parse message instruction outer inner
                  else ok none)
                ≡ ok found
              → Adds message instruction outer inner found
          by_test false t h = subst (Adds message instruction outer inner) (ok_inj h) (
              other_program (some program) e (λ eq.
                ground (arith, key.same_iff program keys.raydium_liquidity_pool_v4_program_id, eq)))
          by_test true t h =
              raydium_swap_lem message instruction outer inner
                (e ∙ ap (λ k. ok (some k)) ((key.same_iff program _).0 t)) h

  collect_instructions_lem :
      (message : RawMessage) (place : ℕ → ℕ × Option ℕ) (index : ℕ)
      (instructions : List RawInstruction) {cs : List (SwapInstruction K)}
      → collect_instructions keys parse message place index instructions ≡ ok cs
      → Selects keys parse message place index instructions cs
  unfolding collect_instructions
  collect_instructions_lem message place index [] h =
      subst (Selects keys parse message place index []) (ok_inj h) (none_left index)
  collect_instructions_lem message place index (instruction ∷ rest) {cs} h =
      bind-elim
        (decode_swap_instruction keys parse message instruction (place index).0 (place index).1) _ h
        λ found e1 h1.
          bind-elim (collect_instructions keys parse message place (index + 1) rest) _ h1
            λ more e2 h2.
              subst (Selects keys parse message place index (instruction ∷ rest)) (ok_inj h2) (
                extend found (decode_swap_instruction_lem message instruction _ _ e1)
                  (collect_instructions_lem message place (index + 1) rest e2))
    where
      extend :
          (found : Option (SwapInstruction K)) {more : List (SwapInstruction K)}
          → Adds message instruction (place index).0 (place index).1 found
          → Selects keys parse message place (index + 1) rest more
          → Selects keys parse message place index (instruction ∷ rest) (push_some found more)
      extend none adds selects = passed adds selects
      extend (some c) adds selects = taken adds selects

  collect_groups_lem :
      (message : RawMessage) (groups : List RawInnerInstructions) {cs : List (SwapInstruction K)}
      → collect_groups keys parse message groups ≡ ok cs
      → SelectsInner keys parse message groups cs
  unfolding collect_groups
  collect_groups_lem message [] h = subst (SelectsInner keys parse message []) (ok_inj h) no_groups
  collect_groups_lem message (group ∷ groups) h =
      fail_if-elim (leb (length message.instructions) group.index) _ _ h λ f h1.
        bind-elim
          (collect_instructions keys parse message (λ inner. (group.index, some inner)) 0
            group.instructions)
          _ h1
          λ own e2 h2. bind-elim (collect_groups keys parse message groups) _ h2 λ more e3 h3.
            subst (SelectsInner keys parse message (group ∷ groups)) (ok_inj h3) (
              grouped (ground arith) (collect_instructions_lem message _ 0 group.instructions e2)
                (collect_groups_lem message groups e3))

  pub candidates_of-AreSwapsOf :
      (result : NotificationResult) {cs : List (SwapInstruction K)}
      → candidates_of keys parse result ≡ ok cs
      → AreSwapsOf keys parse result cs
  unfolding candidates_of
  candidates_of-AreSwapsOf result h =
      bind-elim
        (collect_instructions keys parse result.message (λ index. (index, none)) 0
          result.message.instructions)
        _ h
        λ outer e1 h1.
          bind-elim
            (collect_groups keys parse result.message (unwrap_or result.meta.inner_instructions []))
            _ h1
            λ inner e2 h2. record {
              outer = outer;
              inner = inner;
              at_top = collect_instructions_lem result.message _ 0 _ e1;
              within = collect_groups_lem result.message _ e2;
              are_all = sym (ok_inj h2);
            }
