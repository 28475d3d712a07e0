-- ===== src/Config.antt =====
-- src/config.rs: the configuration that is read from the environment and checked at boot. The
-- checks of the addresses, of the timing and of the signing secret, and the reading of the
-- environment are in the child modules.
pub mod Assets
pub mod Timing
pub mod Secret
pub mod Boot
pub mod Budget
pub mod Unambiguous
pub mod Issued
pub mod Booted
use stellar_gate.Prelude.{
  ℕ, Bool, true, false, ◌&&◌, not, List, [], Option, ◌==◌, list_eq, nat_eq, ◌≡◌, refl, map,
  if◌then◌else◌,
}
use stellar_gate.Prelude.Int.{ℤ}
use stellar_gate.Text.{Text, codes, trim, to_ascii_lowercase}

-- What stops the boot, one for each message.
pub data ConfigError : Type 0 where
  unknown_listener_mode : ConfigError
  missing_secret empty_secret blank_secret placeholder_secret short_secret : ConfigError
  invalid_origin no_origins invalid_value invalid_cidr : ConfigError
  invalid_gateway invalid_issuer no_issuer duplicate_code : ConfigError
  zero_poll_interval zero_cursor_staleness zero_payment_ttl : ConfigError
  ttl_below_poll_interval empty_expiry_batch zero_attempts zero_retry_delay : ConfigError
  max_delay_below_delay grace_below_worst_case negative_jitter : ConfigError
  zero_request_timeout backoff_max_below_initial : ConfigError

pub data Result {ℓ} (A : Type ℓ) : Type ℓ where
  ok : A → Result A
  err : ConfigError → Result A

-- The operator `?`: the first error is the answer.
abbrev pub and_then {ℓ κ} : {T : Type ℓ} {U : Type κ} → (T → Result U) → Result T → Result U
and_then next (err problem) = err problem
and_then next (ok value) = next value

infixl 5 ◌>>=◌ ◌>>◌
abbrev pub ◌>>=◌ {ℓ κ} : {T : Type ℓ} {U : Type κ} → Result T → (T → Result U) → Result U
step >>= next = and_then next step

abbrev pub ◌>>◌ {ℓ} : {U : Type ℓ} → Result (Unit {0}) → Result U → Result U
step >> rest = and_then (λ done. rest) step

-- `if test { return Err(e) }`
abbrev pub reject_if : Bool → ConfigError → Result (Unit {0})
reject_if true e = err e
reject_if false e = ok tt

pub reject_if-passed {ℓ} :
    {A : Type ℓ} (test : Bool) (e : ConfigError) (k : Result A) {a : A}
    → (reject_if test e >> k) ≡ ok a
    → (test ≡ false) × (k ≡ ok a)
reject_if-passed true e k h = cc
reject_if-passed false e k h = (refl, h)

-- What comes behind a step runs only where the step is `ok`.
pub and_then-ok {ℓ κ} :
    {T : Type ℓ} {U : Type κ} (step : Result T) (next : T → Result U) {result : U}
    → and_then next step ≡ ok result
    → (value : T) × (step ≡ ok value) × (next value ≡ ok result)
and_then-ok (err problem) next h = cc
and_then-ok (ok value) next h = (value, refl, h)

pub data ListenerMode : Type 0 where
  stream poll : ListenerMode

abbrev mode_of : Text → Result ListenerMode
mode_of mode =
    if mode == []
    then ok stream
    else if mode == codes "stream"
    then ok stream
    else if mode == codes "poll"
    then ok poll
    else err unknown_listener_mode

unfoldable pub parse_mode : Text → Result ListenerMode
parse_mode raw = mode_of (map to_ascii_lowercase (trim raw))

-- `issuer` is `none` for the native asset.
pub record AcceptedAsset : Type 0 where
  pub code : Text
  pub issuer : Option Text

-- A `u16`, `u32`, `u64` or `usize` is a natural number and an `i64` an integer; `IpNet` is the type of
-- the networks, which the crate `ipnet` parses.
pub record Config (IpNet : Type 0) : Type 0 where
  pub port : ℕ
  pub database_url : Text
  pub network : Text
  pub horizon_url : Text
  pub gateway_public : Text
  pub accepted_assets : List AcceptedAsset
  pub webhook_secret : Text
  pub webhook_retry_attempts : ℕ
  pub webhook_retry_delay_ms : ℕ
  pub webhook_retry_max_delay_ms : ℕ
  pub allowed_webhook_schemes : List Text
  pub webhook_timeout_secs : ℕ
  pub webhook_redrive_interval_secs : ℕ
  pub webhook_redrive_concurrency : ℕ
  pub webhook_redrive_max_attempts : ℕ
  pub webhook_redrive_grace_secs : ℤ
  pub webhook_redrive_backoff_initial_secs : ℤ
  pub webhook_redrive_backoff_max_secs : ℤ
  pub webhook_redrive_jitter_secs : ℤ
  pub retention_interval_secs : ℕ
  pub webhook_delivery_retention_days : ℤ
  pub idempotency_retention_days : ℤ
  pub poll_interval_secs : ℕ
  pub cursor_staleness_multiple : ℕ
  pub payment_ttl_secs : ℕ
  pub expiry_batch_size : ℤ
  pub rate_limit_requests_per_sec : ℕ
  pub db_pool_max_connections : ℕ
  pub db_busy_timeout_ms : ℕ
  pub cors_allowed_origins : List Text
  pub listener_mode : ListenerMode
  pub webhook_allow_private_targets : Bool
  pub admin_provisioning_secret : Text
  pub request_timeout_secs : ℕ
  pub trusted_proxy_cidrs : List IpNet
