-- ===== src/Ingest/Geyser.antt =====
-- core/src/geyser_stream.rs: which mints the Geyser stream routes to the execution (`run_geyser_stream`).
-- `encode` is bs58; an update that is no transaction with a message is left out of the list.
use Prim.Native.Char.{code}
use alpha_whales.Common.{
  ℕ, ◌≡◌, ◌≢◌, refl, subst, inl, inr, Option, none, some, Bool, true, false, ◌&&◌, ◌||◌, List, [],
  ◌∷◌, ◌++◌, String, text_key, number_key, ◌==◌, leb, if◌then◌else◌, get_elem?, length, All,
  All-get_elem, Bool-cases,
}
use alpha_whales.Common.Bytes.{take}

abbrev pub pump_fun_program_id : String
pump_fun_program_id = "6EF8rrecthR5Dkzon8Nwu78hRvfX9MLnqiX+"

abbrev pub global_create : List ℕ
global_create = 24 ∷ 30 ∷ 200 ∷ 40 ∷ 5 ∷ 28 ∷ 7 ∷ 119 ∷ []

abbrev pub global_create_v2 : List ℕ
global_create_v2 = 214 ∷ 144 ∷ 76 ∷ 236 ∷ 95 ∷ 139 ∷ 49 ∷ 180 ∷ []

-- `data` of the source, a list of bytes, is `data_bytes`.
pub record CompiledInstruction : Type 0 where
  pub program_id_index : ℕ
  pub accounts : List ℕ
  pub data_bytes : List ℕ

pub record GeyserMessage : Type 0 where
  pub account_keys : List (List ℕ)
  pub instructions : List CompiledInstruction

abbrev pub same_bytes : List ℕ → List ℕ → Bool
same_bytes [] [] = true
same_bytes [] (b ∷ bytes) = false
same_bytes (a ∷ bytes) [] = false
same_bytes (a ∷ as_) (b ∷ bs) = a == b && same_bytes as_ bs

abbrev pub is_create : List ℕ → Bool
is_create bytes =
    leb 8 (length bytes)
    && (same_bytes (take 8 bytes) global_create || same_bytes (take 8 bytes) global_create_v2)

module _ (encode : List ℕ → String) where
  abbrev pub text_at : List (List ℕ) → ℕ → Option String
  text_at account_keys index = elim (get_elem? account_keys index) [
    | none ↦ none
    | some bytes ↦ some (encode bytes)
  ]

  abbrev pub first_account : List (List ℕ) → List ℕ → Option String
  first_account account_keys [] = none
  first_account account_keys (index ∷ accounts) = text_at account_keys index

  abbrev pub created_by : Option String → List (List ℕ) → CompiledInstruction → Option String
  created_by none account_keys ix = none
  created_by (some program_id) account_keys ix =
      if program_id == pump_fun_program_id && is_create ix.data_bytes
      then first_account account_keys ix.accounts
      else none

  -- The mint that an instruction routes, if it does.
  unfoldable pub created_mint : List (List ℕ) → CompiledInstruction → Option String
  created_mint account_keys ix =
      created_by (text_at account_keys ix.program_id_index) account_keys ix

  abbrev pub and_sent : Option String → List String → List String
  and_sent none mints = mints
  and_sent (some mint) mints = mint ∷ mints

  unfoldable pub message_mints : List (List ℕ) → List CompiledInstruction → List String
  unfolding created_mint
  message_mints account_keys [] = []
  message_mints account_keys (ix ∷ instructions) =
      and_sent (created_mint account_keys ix) (message_mints account_keys instructions)

  -- What is sent to the execution's channel.
  unfoldable pub run_geyser_stream : List GeyserMessage → List String
  unfolding message_mints
  run_geyser_stream [] = []
  run_geyser_stream (message ∷ messages) =
      message_mints message.account_keys message.instructions ++ run_geyser_stream messages

-- The code points of a text.
abbrev pub codes : String → List ℕ
codes String.[] = []
codes (String.◌∷◌ c s) = code c ∷ codes s

-- base58 has no `+`.
abbrev pub IsPlusFree : String → Type 0
IsPlusFree text = All (λ c. c ≢ b'+') (codes text)

id_has_plus : ¬ IsPlusFree pump_fun_program_id
id_has_plus h = All-get_elem (λ c. c ≢ b'+') (codes pump_fun_program_id) 35 b'+' refl h refl

module _ (encode : List ℕ → String) (plus_free : (bytes : List ℕ) → IsPlusFree (encode bytes)) where
  never_pump : (bytes : List ℕ) → (encode bytes == pump_fun_program_id) ≡ false
  never_pump bytes = elim (Bool-cases (encode bytes == pump_fun_program_id)) [
    | inr e ↦ e
    | inl e ↦ absurd (
        id_has_plus (
          subst IsPlusFree ((text_key.same_iff (encode bytes) pump_fun_program_id).0 e)
            (plus_free bytes)))
  ]

  created_none :
      (account_keys : List (List ℕ)) (ix : CompiledInstruction)
      → created_mint encode account_keys ix ≡ none
  unfolding created_mint
  created_none account_keys ix = at_key (get_elem? account_keys ix.program_id_index)
    where
      at_key :
          (o : Option (List ℕ))
          → created_by encode
              (elim o [ none ↦ none | some bytes ↦ some (encode bytes) ])
              account_keys
              ix
            ≡ none
      at_key none = refl
      at_key (some bytes) = rw (never_pump bytes) refl

  message_none :
      (account_keys : List (List ℕ)) (instructions : List CompiledInstruction)
      → message_mints encode account_keys instructions ≡ []
  unfolding message_mints
  message_none account_keys [] = refl
  message_none account_keys (ix ∷ instructions) =
      rw (created_none account_keys ix) (message_none account_keys instructions)

  -- As base58 has no `+` and the program id that the stream compares with has one, the stream routes no
  -- mint at all.
  pub run_geyser_stream_silent :
      (messages : List GeyserMessage) → run_geyser_stream encode messages ≡ []
  unfolding run_geyser_stream
  run_geyser_stream_silent [] = refl
  run_geyser_stream_silent (message ∷ messages) =
      rw (message_none message.account_keys message.instructions)
        (run_geyser_stream_silent messages)
