-- ===== src/Webhook/Tests.antt =====
-- A webhook with one swap, and the theorem at it.
use alpha_whales.Common.{
  ℕ, ◌≡◌, ◌≢◌, refl, Option, none, some, Bool, true, [], ◌∷◌, String, text_key, All,
}
use alpha_whales.Common.Maps.{Map, get}
use alpha_whales.Common.Words.{unwrap_or}
use alpha_whales.Config.Reload.{sniper, WhaleProfile}
use alpha_whales.Webhook.{
  HeliusWebhookPayload, unauthorized, handle_webhook, IsSignalOf, handle_webhook_lem,
}

abbrev watchlist : Map String (WhaleProfile ℕ)
watchlist =
    (
      "whale",
      record { total_trades = 9; win_rate = 1; profit_factor = 2; net_profit = 3; lane = sniper },
    )
    ∷ []

abbrev swap : HeliusWebhookPayload
swap = record {
  event_type = "SWAP";
  fee_payer = "whale";
  timestamp = 1_700_000_000;
  token_outputs = none;
  token_transfers = some (record { to_user_account = "whale"; mint = "coin" } ∷ []);
}

abbrev api_key : String
api_key = "key"

abbrev authorization : Option String
authorization = some "key"

abbrev room : ℕ → Bool
room n = true

queued :
    (handle_webhook watchlist room "key" (some "key") (swap ∷ [])).0
    ≡ record {
      target_mint = "coin";
      whale_wallet = "whale";
      trade_size_lamports = 50_000_000;
      timestamp_ms = 1_700_000_000_000;
      lane = sniper;
    }
      ∷ []
unfolding handle_webhook get
queued = refl

handle_webhook_lem_example :
    let (signals, status) = handle_webhook watchlist room api_key authorization (swap ∷ []) in
    (unwrap_or authorization "" ≢ api_key → (signals ≡ []) × (status ≡ unauthorized))
    × All (IsSignalOf watchlist (swap ∷ [])) signals
handle_webhook_lem_example = handle_webhook_lem watchlist room api_key authorization (swap ∷ [])
