-- ===== src/Config/Tests.antt =====
-- Settings, and the reloading of a watchlist, at concrete inputs.
use alpha_whales.Common.{
  ℕ, ◌+◌, ◌-◌, ◌*◌, ◌/◌, ◌^◌, ◌≡◌, refl, Option, none, some, true, false, List, [], ◌∷◌, String,
  text_key, ◌==◌, if◌then◌else◌, ltb, leb, min, max,
}
use alpha_whales.Common.Checked.{ok}
use alpha_whales.Common.Floats.{F64}
use alpha_whales.Config.{AppConfig, load_from_env, load_from_env_lem, Says, says_true, says_false}
use alpha_whales.Config.Reload.{
  Parsers, Line, parts_of, blank, Reloader, poll_unchanged, early_change_lost,
}
use text.Mathlib.Text.{starts_with}

abbrev env : String → Option String
env name =
    if name == "DRY_RUN"
    then some "False"
    else if name == "LIVE_EXECUTION"
    then some "1"
    else if name == "RPC_URL"
    then some "https://rpc"
    else if name == "RAYDIUM_WS_URL"
    then some "wss://ws"
    else none

abbrev live : AppConfig
live = record {
  rpc_url = "https://rpc";
  raydium_ws_url = "wss://ws";
  target_mints = none;
  min_swap_lamports = 10_000;
  telegram_bot_token = none;
  telegram_chat_id = none;
  pumpportal_api_key = none;
  startup_policy = record { position_recovery_allowed = false; capital_execution_allowed = true };
}

abbrev same_text : String → String
same_text text = text

abbrev no_number : String → Option ℕ
no_number text = none

loaded : load_from_env same_text no_number env ≡ ok live
unfolding load_from_env
loaded = refl

load_from_env_lem_example :
    (starts_with live.rpc_url "https://" ≡ true)
    × (starts_with live.raydium_ws_url "wss://" ≡ true)
    × (live.target_mints ≡ none)
    × (live.startup_policy.position_recovery_allowed ≡ false)
    × (live.startup_policy.capital_execution_allowed ≡ true
        → Says same_text says_false (env "DRY_RUN")
          × Says same_text says_true (env "LIVE_EXECUTION"))
load_from_env_lem_example = load_from_env_lem same_text no_number env loaded

abbrev whole : F64 ℕ
whole = record {
  decimal = λ digits places. digits / 10 ^ places;
  of_nat = λ n. n;
  negate = λ n. 0;
  add = λ a b. a + b;
  sub = λ a b. a - b;
  mul = λ a b. a * b;
  div = λ a b. a / b;
  ln = λ n. n;
  clamp = λ x lo hi. min hi (max lo x);
  is_finite = λ x. true;
  lt = ltb;
  le = leb;
  to_u128 = λ x. x;
}

abbrev parsers : Parsers ℕ
parsers = record { trim = same_text; parse_u32 = no_number; parse_f64 = no_number }

abbrev lines : List Line
lines = parts_of ("wallet" ∷ []) ∷ parts_of ("w1" ∷ "3" ∷ "1" ∷ "1" ∷ "1" ∷ []) ∷ blank ∷ []

abbrev start : Reloader whole parsers
start = record { last_modified = 0; watchlist = [] }

early_change_lost_example :
    (poll_unchanged whole parsers start 500
      ((true, some lines) ∷ (false, none) ∷ (true, some lines) ∷ [])).watchlist
    ≡ []
early_change_lost_example =
    early_change_lost whole parsers start 500
      ((true, some lines) ∷ (false, none) ∷ (true, some lines) ∷ []) refl
