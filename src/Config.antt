-- ===== src/Config.antt =====
-- core/src/config.rs: the settings from the environment, the watchlist and its reloading. `env` is
-- `env::var(name).ok()`; `trim` is that of str, and a line of the watchlist is its parts at the
-- commas. Numbers are parsed by parameters. The settings come without the watchlist.
pub mod Reload
mod Tests
use Prim.Native.Char.{code}
use alpha_whales.Common.{
  ℕ, ◌+◌, ◌≡◌, refl, subst, Option, none, some, Bool, true, false, not, ◌&&◌, ◌||◌, List, [], ◌∷◌,
  String, text_key, ◌==◌, number_key, leb, if◌then◌else◌, arith,
}
use alpha_whales.Common.Words.{unwrap_or, and_then}
use alpha_whales.Common.Checked.{
  Checked, ok, err, ◌>>=◌, ◌>>◌, fail_if, ok_or, bind-elim, fail_if-elim, ok_inj,
}
use text.Mathlib.Text.{starts_with}

pub record ShadowStartupPolicy : Type 0 where
  pub position_recovery_allowed : Bool
  pub capital_execution_allowed : Bool

pub data ConfigError : Type 0 where
  not_a_flag flag_required variable_required : String → ConfigError
  not_one_mode not_https not_wss not_a_number : ConfigError

abbrev pub Result {ℓ} : Type ℓ → Type ℓ
Result A = Checked ConfigError A

-- `eq_ignore_ascii_case`
abbrev pub lower : ℕ → ℕ
lower c = if leb b'A' c && leb c b'Z' then c + 32 else c

unfoldable pub eq_ignore_ascii_case : String → String → Bool
eq_ignore_ascii_case String.[] String.[] = true
eq_ignore_ascii_case String.[] (String.◌∷◌ d t) = false
eq_ignore_ascii_case (String.◌∷◌ c s) String.[] = false
eq_ignore_ascii_case (String.◌∷◌ c s) (String.◌∷◌ d t) =
    lower (code c) == lower (code d) && eq_ignore_ascii_case s t

abbrev pub says_true : String → Bool
says_true value = eq_ignore_ascii_case value "true" || value == "1"

abbrev pub says_false : String → Bool
says_false value = eq_ignore_ascii_case value "false" || value == "0"

abbrev pub nonempty : Option String → Option String
nonempty none = none
nonempty (some text) = if text == "" then none else some text

-- The fields of `AppConfig` but for the watchlist.
pub record AppConfig : Type 0 where
  pub rpc_url : String
  pub raydium_ws_url : String
  pub target_mints : Option (List String)
  pub min_swap_lamports : ℕ
  pub telegram_bot_token : Option String
  pub telegram_chat_id : Option String
  pub pumpportal_api_key : Option String
  pub startup_policy : ShadowStartupPolicy

abbrev pub policy_of : Bool → Bool → Result ShadowStartupPolicy
policy_of true false =
    ok (record { position_recovery_allowed = false; capital_execution_allowed = false })
policy_of false true =
    ok (record { position_recovery_allowed = false; capital_execution_allowed = true })
policy_of true true = err not_one_mode
policy_of false false = err not_one_mode

module _ (trim : String → String) where
  unfoldable pub parse_flag : String → Option String → Bool → Result Bool
  unfolding eq_ignore_ascii_case
  parse_flag name none required = if required then err (flag_required name) else ok false
  parse_flag name (some value) required =
      if says_true (trim value)
      then ok true
      else if says_false (trim value)
      then ok false
      else err (not_a_flag name)

  unfoldable pub startup_policy : Option String → Option String → Result ShadowStartupPolicy
  unfolding parse_flag
  startup_policy dry_run_value live_execution_value = do
    dry_run ← parse_flag "DRY_RUN" dry_run_value true
    live_execution ← parse_flag "LIVE_EXECUTION" live_execution_value false
    policy_of dry_run live_execution

  module _ (parse_u64 : String → Option ℕ) where
    abbrev pub min_swap : Option String → Result ℕ
    min_swap none = ok 10_000
    min_swap (some val) = ok_or (parse_u64 (trim val)) not_a_number

    unfoldable pub load_from_env : (String → Option String) → Result AppConfig
    unfolding startup_policy
    load_from_env env = do
      policy ← startup_policy (env "DRY_RUN") (env "LIVE_EXECUTION")
      rpc_url ← ok_or (env "RPC_URL") (variable_required "RPC_URL")
      fail_if (not (starts_with rpc_url "https://")) not_https
      raydium_ws_url ← ok_or (env "RAYDIUM_WS_URL") (variable_required "RAYDIUM_WS_URL")
      fail_if (not (starts_with raydium_ws_url "wss://")) not_wss
      min_swap_lamports ← min_swap (env "MIN_SWAP_LAMPORTS")
      ok (record {
        rpc_url = rpc_url;
        raydium_ws_url = raydium_ws_url;
        target_mints = none;
        min_swap_lamports = min_swap_lamports;
        telegram_bot_token = nonempty (env "TELEGRAM_BOT_TOKEN");
        telegram_chat_id = nonempty (env "TELEGRAM_CHAT_ID");
        pumpportal_api_key = nonempty (env "PUMPPORTAL_API_KEY");
        startup_policy = policy;
      })

  -- The value of the variable says so, with white space at its ends left aside.
  abbrev pub Says : (String → Bool) → Option String → Type 0
  Says test none = (false ≡ true)
  Says test (some value) = test (trim value) ≡ true

  policy_lem :
      (dry live : Option String) {p : ShadowStartupPolicy}
      → startup_policy dry live ≡ ok p
      → p.capital_execution_allowed ≡ true
      → Says says_false dry × Says says_true live
  unfolding startup_policy
  policy_lem none live h allowed = absurd (ground arith)
  policy_lem (some d) none h allowed = absurd (ground arith)
  policy_lem (some d) (some l) h allowed = ground arith

  no_recovery :
      (dry live : Option String) {p : ShadowStartupPolicy}
      → startup_policy dry live ≡ ok p
      → p.position_recovery_allowed ≡ false
  unfolding startup_policy
  no_recovery none live h = absurd (ground arith)
  no_recovery (some d) none h = ground arith
  no_recovery (some d) (some l) h = ground arith

  -- Settings that are loaded have an https and a wss address and no filter of mints. They allow
  -- capital to be spent only if DRY_RUN is there and says false and LIVE_EXECUTION is there and says
  -- true, and never a recovery of positions.
  pub load_from_env_lem :
      (parse_u64 : String → Option ℕ) (env : String → Option String) {c : AppConfig}
      → load_from_env parse_u64 env ≡ ok c
      → (starts_with c.rpc_url "https://" ≡ true)
        × (starts_with c.raydium_ws_url "wss://" ≡ true)
        × (c.target_mints ≡ none)
        × (c.startup_policy.position_recovery_allowed ≡ false)
        × (c.startup_policy.capital_execution_allowed ≡ true
            → Says says_false (env "DRY_RUN") × Says says_true (env "LIVE_EXECUTION"))
  unfolding load_from_env
  load_from_env_lem parse_u64 env {c} h =
      bind-elim (startup_policy (env "DRY_RUN") (env "LIVE_EXECUTION")) _ h λ policy e1 h1.
        bind-elim (ok_or (env "RPC_URL") (variable_required "RPC_URL")) _ h1 λ rpc_url e2 h2.
          fail_if-elim (not (starts_with rpc_url "https://")) _ _ h2 λ secure h3.
            bind-elim (ok_or (env "RAYDIUM_WS_URL") (variable_required "RAYDIUM_WS_URL")) _ h3
              λ ws_url e4 h4.
                fail_if-elim (not (starts_with ws_url "wss://")) _ _ h4 λ secure_ws h5.
                  bind-elim (min_swap parse_u64 (env "MIN_SWAP_LAMPORTS")) _ h5 λ lamports e6 h6.
                    subst
                      (λ (c : AppConfig).
                        (starts_with c.rpc_url "https://" ≡ true)
                        × (starts_with c.raydium_ws_url "wss://" ≡ true)
                        × (c.target_mints ≡ none)
                        × (c.startup_policy.position_recovery_allowed ≡ false)
                        × (c.startup_policy.capital_execution_allowed ≡ true
                            → Says says_false (env "DRY_RUN")
                              × Says says_true (env "LIVE_EXECUTION")))
                      (ok_inj h6)
                      (
                        not_not secure,
                        not_not secure_ws,
                        refl,
                        no_recovery (env "DRY_RUN") (env "LIVE_EXECUTION") e1,
                        policy_lem (env "DRY_RUN") (env "LIVE_EXECUTION") e1,
                      )
    where
      not_not : {b : Bool} → not b ≡ false → b ≡ true
      not_not h = ground arith
