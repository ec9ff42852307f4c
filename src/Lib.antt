-- ===== src/Lib.antt =====
-- Alpha Whales: a trading bot that buys a token when followed wallets do, sends the purchase as a
-- Jito bundle, and watches the position until it sells. The bot is the crate alpha-whales over the
-- crate core. This library models the parts that decide, and keep the books:
--
-- - Tipping: core/src/tipping.rs. The refresh loop stores the snapshot of the tip floor that
--   `parse_tip_floor_response` makes of a decoded body (Tipping/Parse), and `calculate_tip` bids
--   against it, or skips. `calculate_tip` is cut into `calculate_fresh`, `candidate`,
--   `profit_share_cap` and `bid_or_cap`, in the order of its lines.
-- - State: core/src/state.rs. `BotState` is shared by all tasks: the mints that have been traded,
--   the permits for open positions, shadow positions, the streak of losses and the circuit breaker.
--   Each method is a function on the state; State/Trace has the tasks' calls as lists, in any
--   order.
-- - Tracker: core/src/bundle_tracker.rs. Records of the submitted bundles, resolved by the results
--   that the gRPC streams deliver, with the notices sent over channels and the rows written to the
--   database kept as lists; Tracker/Consumer has the wait of alpha-whales/src/execution.rs for a
--   notice (`await_landing`): of ten seconds, for the first notice of the bundle's channel
--   (`wait_on`).
-- - Dispatch: core/src/dispatcher.rs. Deduplication of opportunities, the round robin of tip
--   accounts, submission to a region and the choice among the regions' answers; Dispatch/Bundle
--   builds and signs a bundle. Dispatch/Refine has the set of keys that the deduplicator stands
--   for.
-- - Execution: alpha-whales/src/execution.rs. The sandwich protection of an instruction
--   (Execution/Shield), the Raydium swap instruction (Execution/Swap), the check of a quote
--   (Execution/Quote), and the configuration and the age of a signal (Execution/Config).
-- - Journal: alpha-whales/src/execution.rs. The execution journal: `load`, `reserve`,
--   `record_acceptance` and the writer lock, over a disk whose calls may fail. Journal has loading
--   and the file, Journal/Reserve the writing, Journal/History the calls of a process and what its
--   successor loads. A file is a list of lines, with the text behind the last line break, if any
--   (`torn`): it is read as a line, and what is appended is glued to it.
-- - Consumer: alpha-whales/src/execution.rs. The gates of `run_whale_execution_consumer` from a
--   signal to its reservation, in the order of the code: one gate is one function, and `consider`
--   is the turn of the loop. Consumer/Resolve has the instructions of a swap with the checks of the
--   user's accounts, and Consumer/Building signs its bundle. Consumer/Handoff has
--   `confirm_and_handoff`: the confirmation of a purchase, the balance that it gave, and the start
--   of the watcher.
-- - Watcher: alpha-whales/src/exits.rs. One turn of the loop of `run_watcher` is `turn`, on the
--   local variables (`Vbats`) and what the price feed delivers (Watcher/Loop); Watcher/Sale has
--   what `execute_sell_with_retry` does to `BotState`. Watcher/Price is about the comparisons of
--   prices.
-- - Sell: alpha-whales/src/exits.rs. `attempt_sell_bundle` with its connections, its retries, its
--   slippage and its tip (Sell/Attempts), and the polls that `execute_sell_with_retry` waits for.
--   What it sends is a list of submissions beside its result; Sell/Packets says of a submission
--   which transaction its packets are.
-- - Pool: core/src/pool_cache.rs. `resolve_pool_keys`: the choice of a pool among the candidates
--   and the reading of its record (Pool/Api), and the checks of the accounts on the chain down to
--   the bytes of the AMM state (Pool/OnChain). `get_multiple_accounts` is a function of the
--   addresses that it is asked for; Pool/Resolved assumes that it answers in their order, from a
--   ledger (`AnswersFrom`), and so does Consumer/Prepared for the accounts of the user.
-- - Ingest: core/src/websocket.rs. From a notification to the queue: the instructions and their
--   accounts (Ingest/Instructions), which Ingest/Candidates describes without the decoder
--   (Ingest/Selection has the lemmas), the balances of the vaults (Ingest/Balances),
--   `decode_notification` (Ingest/Notification), the filter, the counters and the epoch
--   (Ingest/Stream), and `run_listener` over what the socket delivers (Ingest/Listener).
--   Ingest/Geyser is the stream of new mints of core/src/geyser_stream.rs.
-- - Config: core/src/config.rs. The start-up policy and the settings over the environment; the
--   watchlist and its hot reloader (Config/Reload).
-- - Webhook: alpha-whales/src/webhook.rs. `handle_webhook`, from the key to the signals in the
--   channel; Webhook/Bought has the choice of the mint that was bought.
-- - Types: core/src/types.rs. The swap event that the parts pass on.
-- - Common: the names and lemmas that the parts share; machine words are numbers below the modulus
--   of their width (Common/Words), signed ones integers with the cuts written out (Common/Signed).
--
-- The Webhook makes a signal of a trade of a followed wallet, and Ingest gives the watchers their
-- prices. A purchase passes through them in this order: the Consumer locks the mint and takes a
-- permit (State), bids a tip (Tipping), checks the quote and builds the protected swap (Execution),
-- reserves it in the Journal, sends it (Dispatch), waits for the Tracker, and hands the position to
-- a Watcher, whose sale goes back to State.
--
-- Parameters. f64 (Common/Floats), tokio's semaphore, the public keys with their texts, base58,
-- solana_sdk's building and signing of a transaction (Dispatch/Bundle), the unpacking of SPL
-- accounts and `create_program_address` (the record Chain of Pool), `f64::total_cmp` (Liquidity of
-- Pool/Api), `trim` and the parsing of numbers, serde_json's encoding of a record, `parse::<u64>`,
-- and the Display and Debug texts are arguments or interfaces, with the laws of their documentation
-- where one is used. The clock, the results of HTTP, gRPC, RPC and disk calls are arguments of the
-- functions that read them. Of f64 one fact is used, as the hypothesis `DoubleIsGain`: that a
-- quotient of products of machine words, of which f64 says that it is at least two, is at least
-- one.
--
-- Bounds. All loops are structural: over the lines of a file, the deliveries of a feed, the regions
-- still to be tried, a history of calls. The sale recurses over the attempts that are left, of the
-- five of MAX_SELL_ATTEMPTS, and a wait for a confirmation over its polls, of forty or fifteen, as
-- the code does. So no fuel is chosen anywhere. Where a statement wants amounts below 2^56, that
-- keeps the signed 128-bit products of `compute_pnl_bps` from saturating.
--
-- Not modelled: the submission and the logging after the reservation, and the client
-- `ConnectedJitoClient`, which is not used any more (execution.rs); `fetch_alt`,
-- which only calls the RPC client; the opening of channels, sockets and gRPC streams; the SQL of
-- core/src/db.rs, whose calls are kept as lists where the parts make them; the entry point
-- alpha-whales/src/main.rs, which starts the tasks; log and Telegram messages. alpha-dbo, a near
-- copy of alpha-whales that the workspace does not build, is left out as well.
pub mod Common
pub mod Types
pub mod Tipping
pub mod State
pub mod Tracker
pub mod Dispatch
pub mod Pool
pub mod Execution
pub mod Journal
pub mod Config
pub mod Webhook
pub mod Ingest
pub mod Consumer
pub mod Watcher
pub mod Sell
