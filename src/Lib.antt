-- ===== src/Lib.antt =====
-- StellarGate is a payment gateway on the Stellar network: a merchant creates a payment intent, the
-- gateway watches its account through Horizon, credits the payments that carry the intent's memo,
-- settles the intent, and tells the merchant by a signed webhook. All paths below are in the
-- repository.
--
-- The parts, and the modules that model them:
-- Config: src/config.rs, from the environment's variables to a configuration that has passed every
--   check. Config/Boot reads the variables, Config/Assets, Config/Timing and Config/Secret are the
--   checks; Booted, Budget, Unambiguous and Issued prove what a configuration that boots can rely
--   on.
-- Money: src/money.rs, amounts as decimal texts and as integer numbers of stroops.
-- Strkey: src/strkey.rs, the check of an account address.
-- Db: src/db.rs, the SQLite tables as lists of rows, and one function for each statement.
--   Db/Payments has the intents and the ledger `processed_transactions`, Db/Deliveries the webhook
--   deliveries, Db/State the key/value table, Db/Idempotency the keys of payment creation,
--   Db/Retention the batches that remove aged rows, Db/ApiKeys the merchants and their keys,
--   Db/Listing the listings by offset and by cursor. Db/Backfill and Db/Timestamps are what a start
--   writes into rows of older versions: the ledger, the asset issuers, the keys of merchants, and
--   the timestamps, which are texts there only.
-- Horizon: src/horizon.rs, `verify` (which payment counts), `reconcile_payment` and `settle` (what a
--   payment that counts does). Horizon/Matched states what `asset_matches` and the comparison of the
--   totals decide. Horizon/Poll has the poll cycle, Horizon/Sse the event stream,
--   Horizon/Pace the loops around the two, with their waits.
-- Webhook: src/webhook.rs, `dispatch` with its inline retries, and `redrive_once` in Webhook/Redrive.
--   Webhook/Rows states what it leaves in the table, Webhook/Reserved what it does for a blocked host.
-- Ssrf: src/ssrf.rs, the guard that every webhook passes. Ssrf/Ipv4 and Ssrf/Ipv6 are the tests of
--   `std::net` that it calls.
-- Metrics: src/metrics.rs, the counters and the latency histogram. Metrics/Render has `render`, the
--   text of `GET /metrics`, Metrics/Render/Scrape what a scraper reads off it, Metrics/Render/Shown under
--   which name each counter stands.
-- Retention, Expiry: src/retention.rs and src/expiry.rs, one cycle of each; the loops are in Startup.
-- Startup: src/main.rs, the tasks that are required and started, and the timer loops around the
--   cycles of expiry, retention and redelivery.
-- Api: src/api/mod.rs and src/api/payments.rs. Api/Auth is the bearer token and the guards, Api/Keys
--   the key endpoints, Api/Create the creation of a payment, Api/Payments and Api/Webhooks the other
--   handlers, Api/Cursor the cursors of the listings, Api/Limits the rate limits, Api/Probes
--   `/health` and `/ready`.
-- Health, Supervise: `TaskHealth` of src/lib.rs with its snapshot, and the loop of src/supervise.rs
--   that restarts tasks.
-- Gateway: the program as a whole. Gateway/Run has the state of the process and one action for each
--   cycle of a task and for each request, Gateway/Lifecycle an abstract machine for the life of one
--   payment id, and Gateway/Lives that every list of actions follows it; Gateway/Paying follows one
--   payment from the record to the webhook; Gateway/Recorded and Gateway/Restart are about the next
--   start.
-- Prelude and Text hold what the modules share: Boolean tests, lists, equality, texts as lists of
-- character codes, decimal digits, and `str::parse` for integers in Text/Numbers. Tests has
-- concrete inputs.
--
-- How the parts interact: `poll_once` and `handle_stream_event` hand each record to
-- `reconcile_payment`, which reads an intent and the ledger, records a transaction, updates the
-- intent, and calls `dispatch`; `sweep_once` expires intents and calls `dispatch` for each;
-- `dispatch` asks the guard, sends its requests, and writes the delivery's row and the counters. This
-- state is the record `Webhook.Outbound`: the tables, the counters, and the requests that went out.
-- Every function takes a state and returns the next one. A handler takes a request whose body, query
-- or headers have been read, and answers with a value or with the status and the code of an error.
--
-- Numbers: amounts are natural numbers with the checks of `i64` written out; counters are 32-bit and
-- 64-bit words that wrap; a time is a number of seconds, since the stored texts have one fixed format
-- that SQLite compares in the order of the numbers. An error is a value
-- of `Db.Result`, `Config.Result` or `Api.Answer`.
--
-- Loops: the attempts of a delivery, and the pages of a poll cycle, are structural recursion on the
-- rounds that are left. Printing a number has fuel for 20 digits, which every `i64` and `u64` fits in.
-- `Retention.drain` has fuel for 100 batches, which Retention/Drained shows to be enough. The events
-- of a chunk have the length of the buffer as fuel, since every event takes at least two bytes.
--
-- Parameters: JSON and HMAC-SHA256 (`Webhook.Libs`, `Horizon.Sse.Decoding`), the URL parser and the
-- resolver (`Ssrf.Net`), Horizon's answers (`Horizon.Poll.HorizonApi`), the receivers' answers and the
-- clocks (`Webhook.Env`), the networks and the header values that the configuration parses
-- (`Config.Boot.Crates`), SHA-256, fresh ids, random bytes, and what other requests write while one
-- waits (`Api.Create.Outside`), the addresses (`Api.Limits.Addresses`) and the limiter of `governor`
-- (`Api.Limits.Check`), the random draws of `retry_delay` and of the redrive query, and what the
-- runtime does to a supervised task (`Supervise.Round`); for a start, the random ids of the
-- keys that it makes, and for the metrics the order of the keys of a `HashMap`.
--
-- Not modelled: the failure of a statement for reasons of the disk or of a lock; log lines and
-- messages; the interleaving of two tasks between two statements, but for the creation of a payment
-- with an idempotency key: elsewhere a cycle or a request is one action; the schema of the database;
-- the router and its layers, the extractors, and of the entry point the pool, the server and the
-- signals, which are calls of axum, serde, tokio and sqlx.
pub mod Prelude
pub mod Text
pub mod Money
pub mod Db
pub mod Metrics
pub mod Ssrf
pub mod Webhook
pub mod Horizon
pub mod Retention
pub mod Strkey
pub mod Expiry
pub mod Health
pub mod Supervise
pub mod Config
pub mod Api
pub mod Startup
pub mod Gateway
pub mod Tests
