-- ===== src/Config/Boot.antt =====
-- src/config.rs: `Config::from_env`, from the variables of the environment to a configuration that
-- passed every check.
use stellar_gate.Prelude.{
  ℕ, Bool, true, false, ◌&&◌, not, Option, none, some, List, [], ◌∷◌, ◌==◌, list_eq, nat_eq,
  if◌then◌else◌,
}
use stellar_gate.Prelude.Int.{ℤ, pos}
use stellar_gate.Text.{Text, codes}
use stellar_gate.Text.Numbers.{parse_unsigned, parse_signed}
use stellar_gate.Config.{
  AcceptedAsset, Config, ListenerMode, Result, ok, err, reject_if, ◌>>=◌, ◌>>◌, parse_mode,
  invalid_origin, no_origins, invalid_value, invalid_cidr,
}
use stellar_gate.Config.Assets.{entries, parse_list, default_list, validate_addresses}
use stellar_gate.Config.Timing.{validate_timing}
use stellar_gate.Config.Secret.{validate_webhook_secret}

-- What other crates and the tables of Unicode decide: the networks of `ipnet`, which texts are values
-- of an HTTP header, and `str::to_uppercase`.
pub record Crates (IpNet : Type 0) : Type 0 where
  pub parse_net : Text → Option IpNet
  pub is_header_value : Text → Bool
  pub to_uppercase : Text → Text

-- The environment: `none` for a variable that is not set, or is not Unicode.
abbrev pub Vars : Type 0
Vars = Text → Option Text

abbrev pub unwrap_or {ℓ} : {A : Type ℓ} → Option A → A → A
unwrap_or none default = default
unwrap_or (some a) default = a

abbrev parsed {ℓ} : {A : Type ℓ} → Option A → Result A
parsed none = err invalid_value
parsed (some a) = ok a

abbrev pub parse_env {ℓ} : {A : Type ℓ} → (Text → Option A) → Option Text → A → Result A
parse_env parse none default = ok default
parse_env parse (some raw) default = parsed (parse raw)

-- `str::parse::<bool>`
abbrev pub parse_bool : Text → Option Bool
parse_bool s =
    if s == codes "true" then some true else if s == codes "false" then some false else none

-- The numeric variables, by the type of their field.
abbrev pub u16 : Vars → Text → ℕ → Result ℕ
u16 vars key default = parse_env (parse_unsigned 16) (vars key) default

abbrev pub u32 : Vars → Text → ℕ → Result ℕ
u32 vars key default = parse_env (parse_unsigned 32) (vars key) default

abbrev pub u64 : Vars → Text → ℕ → Result ℕ
u64 vars key default = parse_env (parse_unsigned 64) (vars key) default

abbrev pub i64 : Vars → Text → ℕ → Result ℤ
i64 vars key default = parse_env parse_signed (vars key) (pos default)

abbrev add_net : {N : Type 0} → Option N → Result (List N) → Result (List N)
add_net none rest = err invalid_cidr
add_net (some net) rest = do nets ← rest; ok (net ∷ nets)

abbrev collect_nets : {N : Type 0} → (Text → Option N) → List Text → Result (List N)
collect_nets parse [] = ok []
collect_nets parse (entry ∷ rest) = add_net (parse entry) (collect_nets parse rest)

unfoldable pub parse_cidrs : {N : Type 0} → (Text → Option N) → Text → Result (List N)
unfolding entries
parse_cidrs parse raw = collect_nets parse (entries raw)

unfoldable pub check_origins : (Text → Bool) → List Text → Result (Unit {0})
check_origins valid [] = ok tt
check_origins valid (origin ∷ rest) = do
  reject_if (not (valid origin)) invalid_origin
  check_origins valid rest

abbrev assets_of : (Text → Text) → Text → List AcceptedAsset
assets_of upper raw = if raw == [] then default_list else parse_list upper raw

-- The variables that have to be parsed.
pub record ParsedVars (IpNet : Type 0) : Type 0 where
  pub port : ℕ
  pub webhook_retry_attempts : ℕ
  pub webhook_retry_delay_ms : ℕ
  pub webhook_retry_max_delay_ms : ℕ
  pub webhook_timeout_secs : ℕ
  pub webhook_redrive_interval_secs : ℕ
  pub webhook_redrive_concurrency : ℕ
  pub webhook_redrive_max_attempts : ℕ
  pub webhook_redrive_grace_secs : ℤ
  pub webhook_redrive_backoff_initial_secs : ℤ
  pub webhook_redrive_backoff_max_secs : ℤ
  pub webhook_redrive_jitter_secs : ℤ
  pub retention_interval_secs : ℕ
  pub webhook_delivery_retention_days : ℤ
  pub idempotency_retention_days : ℤ
  pub poll_interval_secs : ℕ
  pub cursor_staleness_multiple : ℕ
  pub payment_ttl_secs : ℕ
  pub expiry_batch_size : ℤ
  pub rate_limit_requests_per_sec : ℕ
  pub db_pool_max_connections : ℕ
  pub db_busy_timeout_ms : ℕ
  pub listener_mode : ListenerMode
  pub webhook_allow_private_targets : Bool
  pub request_timeout_secs : ℕ
  pub trusted_proxy_cidrs : List IpNet

-- In the order of the source: the first one that does not read stops the boot.
unfoldable pub parse_vars : {N : Type 0} → Crates N → Vars → Result (ParsedVars N)
parse_vars crates vars = do
  port ← u16 vars (codes "PORT") 3000
  webhook_retry_attempts ← u32 vars (codes "WEBHOOK_RETRY_ATTEMPTS") 3
  webhook_retry_delay_ms ← u64 vars (codes "WEBHOOK_RETRY_DELAY_MS") 5000
  webhook_retry_max_delay_ms ← u64 vars (codes "WEBHOOK_RETRY_MAX_DELAY_MS") 60000
  webhook_timeout_secs ← u64 vars (codes "WEBHOOK_TIMEOUT_SECS") 10
  webhook_redrive_interval_secs ← u64 vars (codes "WEBHOOK_REDRIVE_INTERVAL_SECS") 30
  webhook_redrive_concurrency ← u64 vars (codes "WEBHOOK_REDRIVE_CONCURRENCY") 4
  webhook_redrive_max_attempts ← u32 vars (codes "WEBHOOK_REDRIVE_MAX_ATTEMPTS") 8
  webhook_redrive_grace_secs ← i64 vars (codes "WEBHOOK_REDRIVE_GRACE_SECS") 60
  webhook_redrive_backoff_initial_secs ← i64 vars (codes "WEBHOOK_REDRIVE_BACKOFF_INITIAL_SECS") 30
  webhook_redrive_backoff_max_secs ← i64 vars (codes "WEBHOOK_REDRIVE_BACKOFF_MAX_SECS") 900
  webhook_redrive_jitter_secs ← i64 vars (codes "WEBHOOK_REDRIVE_JITTER_SECS") 30
  retention_interval_secs ← u64 vars (codes "RETENTION_INTERVAL_SECS") 3600
  webhook_delivery_retention_days ← i64 vars (codes "WEBHOOK_DELIVERY_RETENTION_DAYS") 30
  idempotency_retention_days ← i64 vars (codes "IDEMPOTENCY_RETENTION_DAYS") 7
  poll_interval_secs ← u64 vars (codes "POLL_INTERVAL_SECS") 10
  cursor_staleness_multiple ← u32 vars (codes "CURSOR_STALENESS_MULTIPLE") 3
  payment_ttl_secs ← u64 vars (codes "PAYMENT_TTL_SECS") 3600
  expiry_batch_size ← i64 vars (codes "EXPIRY_BATCH_SIZE") 500
  rate_limit_requests_per_sec ← u32 vars (codes "RATE_LIMIT_REQUESTS_PER_SEC") 10
  db_pool_max_connections ← u32 vars (codes "DB_POOL_MAX_CONNECTIONS") 10
  db_busy_timeout_ms ← u64 vars (codes "DB_BUSY_TIMEOUT_MS") 5000
  listener_mode ← parse_mode (unwrap_or (vars (codes "STELLAR_LISTENER_MODE")) [])
  webhook_allow_private_targets ←
      parse_env parse_bool (vars (codes "WEBHOOK_ALLOW_PRIVATE_TARGETS")) false
  request_timeout_secs ← u64 vars (codes "REQUEST_TIMEOUT_SECS") 30
  trusted_proxy_cidrs ←
      parse_cidrs crates.parse_net (unwrap_or (vars (codes "TRUSTED_PROXY_CIDRS")) [])
  ok (record {
    port = port;
    webhook_retry_attempts = webhook_retry_attempts;
    webhook_retry_delay_ms = webhook_retry_delay_ms;
    webhook_retry_max_delay_ms = webhook_retry_max_delay_ms;
    webhook_timeout_secs = webhook_timeout_secs;
    webhook_redrive_interval_secs = webhook_redrive_interval_secs;
    webhook_redrive_concurrency = webhook_redrive_concurrency;
    webhook_redrive_max_attempts = webhook_redrive_max_attempts;
    webhook_redrive_grace_secs = webhook_redrive_grace_secs;
    webhook_redrive_backoff_initial_secs = webhook_redrive_backoff_initial_secs;
    webhook_redrive_backoff_max_secs = webhook_redrive_backoff_max_secs;
    webhook_redrive_jitter_secs = webhook_redrive_jitter_secs;
    retention_interval_secs = retention_interval_secs;
    webhook_delivery_retention_days = webhook_delivery_retention_days;
    idempotency_retention_days = idempotency_retention_days;
    poll_interval_secs = poll_interval_secs;
    cursor_staleness_multiple = cursor_staleness_multiple;
    payment_ttl_secs = payment_ttl_secs;
    expiry_batch_size = expiry_batch_size;
    rate_limit_requests_per_sec = rate_limit_requests_per_sec;
    db_pool_max_connections = db_pool_max_connections;
    db_busy_timeout_ms = db_busy_timeout_ms;
    listener_mode = listener_mode;
    webhook_allow_private_targets = webhook_allow_private_targets;
    request_timeout_secs = request_timeout_secs;
    trusted_proxy_cidrs = trusted_proxy_cidrs;
  })

unfoldable pub read_config : {N : Type 0} → Crates N → Vars → Result (Config N)
read_config crates vars =
    let network = unwrap_or (vars (codes "STELLAR_NETWORK")) (codes "testnet") in
    let cors_allowed_origins = entries (unwrap_or (vars (codes "CORS_ALLOWED_ORIGINS")) []) in
    do
      webhook_secret ← validate_webhook_secret (vars (codes "WEBHOOK_SECRET"))
      check_origins crates.is_header_value cors_allowed_origins
      reject_if (network == codes "public" && cors_allowed_origins == []) no_origins
      parsed_vars ← parse_vars crates vars
      ok (record {
        port = parsed_vars.port;
        database_url = unwrap_or (vars (codes "DATABASE_URL")) (codes "sqlite:stellargate.db");
        network = network;
        horizon_url =
            unwrap_or (vars (codes "STELLAR_HORIZON_URL"))
              (codes "https://horizon-testnet.stellar.org");
        gateway_public = unwrap_or (vars (codes "STELLAR_GATEWAY_PUBLIC")) (codes "UNCONFIGURED");
        accepted_assets =
            assets_of crates.to_uppercase (unwrap_or (vars (codes "ACCEPTED_ASSETS")) []);
        webhook_secret = webhook_secret;
        webhook_retry_attempts = parsed_vars.webhook_retry_attempts;
        webhook_retry_delay_ms = parsed_vars.webhook_retry_delay_ms;
        webhook_retry_max_delay_ms = parsed_vars.webhook_retry_max_delay_ms;
        allowed_webhook_schemes =
            entries (unwrap_or (vars (codes "ALLOWED_WEBHOOK_SCHEMES")) (codes "https"));
        webhook_timeout_secs = parsed_vars.webhook_timeout_secs;
        webhook_redrive_interval_secs = parsed_vars.webhook_redrive_interval_secs;
        webhook_redrive_concurrency = parsed_vars.webhook_redrive_concurrency;
        webhook_redrive_max_attempts = parsed_vars.webhook_redrive_max_attempts;
        webhook_redrive_grace_secs = parsed_vars.webhook_redrive_grace_secs;
        webhook_redrive_backoff_initial_secs = parsed_vars.webhook_redrive_backoff_initial_secs;
        webhook_redrive_backoff_max_secs = parsed_vars.webhook_redrive_backoff_max_secs;
        webhook_redrive_jitter_secs = parsed_vars.webhook_redrive_jitter_secs;
        retention_interval_secs = parsed_vars.retention_interval_secs;
        webhook_delivery_retention_days = parsed_vars.webhook_delivery_retention_days;
        idempotency_retention_days = parsed_vars.idempotency_retention_days;
        poll_interval_secs = parsed_vars.poll_interval_secs;
        cursor_staleness_multiple = parsed_vars.cursor_staleness_multiple;
        payment_ttl_secs = parsed_vars.payment_ttl_secs;
        expiry_batch_size = parsed_vars.expiry_batch_size;
        rate_limit_requests_per_sec = parsed_vars.rate_limit_requests_per_sec;
        db_pool_max_connections = parsed_vars.db_pool_max_connections;
        db_busy_timeout_ms = parsed_vars.db_busy_timeout_ms;
        cors_allowed_origins = cors_allowed_origins;
        listener_mode = parsed_vars.listener_mode;
        webhook_allow_private_targets = parsed_vars.webhook_allow_private_targets;
        admin_provisioning_secret = unwrap_or (vars (codes "ADMIN_PROVISIONING_SECRET")) [];
        request_timeout_secs = parsed_vars.request_timeout_secs;
        trusted_proxy_cidrs = parsed_vars.trusted_proxy_cidrs;
      })

unfoldable pub from_env : {N : Type 0} → Crates N → Vars → Result (Config N)
unfolding read_config
from_env crates vars = do
  config ← read_config crates vars
  validate_addresses config
  validate_timing config
  ok config
