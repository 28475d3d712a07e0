-- ===== src/Tests/Boot.antt =====
-- src/config.rs on concrete environments.
use stellar_gate.Prelude.{
  ℕ, ◌+◌, ◌*◌, ◌-◌, ◌^◌, ◌≤◌, ◌≡◌, ◌≢◌, refl, true, false, none, some, [], ◌∷◌, arith, ◌==◌,
  list_eq, nat_eq, list_beq, length, filterb, map, if◌then◌else◌,
}
use stellar_gate.Prelude.Int.{pos}
use stellar_gate.Text.{
  Text, codes, as_bytes, split, trim, trim_start_matches, trim_end_matches, is_whitespace,
  starts_with, eq_ignore_ascii_case, to_ascii_uppercase, to_ascii_lowercase,
}
use stellar_gate.Strkey.{is_valid_account_id, validate_account_id, base32_decode, crc16_xmodem}
use stellar_gate.Db.Table.{count_where, update_where}
use stellar_gate.Text.Numbers.{parse_unsigned, parse_signed}
use stellar_gate.Config.{
  Config, ok, err, stream, parse_mode, duplicate_code, grace_below_worst_case,
  unknown_listener_mode, no_issuer,
}
use stellar_gate.Config.Assets.{
  default_list, parse_list, entries, validate_addresses, gateway_configured, check_issuers,
  check_codes,
}
use stellar_gate.Config.Timing.{
  worst_case, worst_case_inline_delivery_secs, delays_ms, validate_timing,
}
use stellar_gate.Config.Secret.{validate_webhook_secret, is_placeholder}
use stellar_gate.Config.Booted.{from_env-IsGuarded}
use stellar_gate.Config.Unambiguous.{has_code, from_env-unambiguous}
use stellar_gate.Config.Issued.{from_env-backfill_asset_issuers}
use stellar_gate.Db.{Db, empty_db}
use stellar_gate.Tests.Fixtures.{intent}
use stellar_gate.Db.Backfill.{backfill_asset_issuers, fill_issuers, has_same_code}
use stellar_gate.Db.Backfill.Issuers.{with_issuer}
use stellar_gate.Config.Budget.{waited, from_env-grace}
use stellar_gate.Config.Boot.{
  Crates, Vars, parse_cidrs, check_origins, from_env, parse_vars, read_config,
}

abbrev pub crates : Crates Text
crates = record {
  parse_net = λ entry. some entry;
  is_header_value = λ origin. true;
  to_uppercase = λ s. s;
}

abbrev pub secret : Text
secret = codes "0123456789abcdef0123456789abcdef"

-- An environment with the secret, and one more variable.
abbrev pub with_var : Text → Text → Vars
with_var name value key =
    if key == codes "WEBHOOK_SECRET" then some secret else if key == name then some value else none

abbrev pub default_config : Config Text
default_config = record {
  port = 3000;
  database_url = codes "sqlite:stellargate.db";
  network = codes "testnet";
  horizon_url = codes "https://horizon-testnet.stellar.org";
  gateway_public = codes "UNCONFIGURED";
  accepted_assets = default_list;
  webhook_secret = secret;
  webhook_retry_attempts = 3;
  webhook_retry_delay_ms = 5000;
  webhook_retry_max_delay_ms = 60000;
  allowed_webhook_schemes = codes "https" ∷ [];
  webhook_timeout_secs = 10;
  webhook_redrive_interval_secs = 30;
  webhook_redrive_concurrency = 4;
  webhook_redrive_max_attempts = 8;
  webhook_redrive_grace_secs = pos 60;
  webhook_redrive_backoff_initial_secs = pos 30;
  webhook_redrive_backoff_max_secs = pos 900;
  webhook_redrive_jitter_secs = pos 30;
  retention_interval_secs = 3600;
  webhook_delivery_retention_days = pos 30;
  idempotency_retention_days = pos 7;
  poll_interval_secs = 10;
  cursor_staleness_multiple = 3;
  payment_ttl_secs = 3600;
  expiry_batch_size = pos 500;
  rate_limit_requests_per_sec = 10;
  db_pool_max_connections = 10;
  db_busy_timeout_ms = 5000;
  cors_allowed_origins = [];
  listener_mode = stream;
  webhook_allow_private_targets = false;
  admin_provisioning_secret = [];
  request_timeout_secs = 30;
  trusted_proxy_cidrs = [];
}

-- With nothing but the secret set, the defaults boot.
pub defaults_boot : from_env crates (with_var [] []) ≡ ok default_config
unfolding from_env parse_vars read_config validate_webhook_secret is_placeholder starts_with
    count_where check_origins entries split trim trim_start_matches trim_end_matches is_whitespace
    parse_mode parse_cidrs parse_list validate_addresses validate_timing
    worst_case_inline_delivery_secs worst_case delays_ms gateway_configured check_issuers
    check_codes eq_ignore_ascii_case to_ascii_uppercase to_ascii_lowercase is_valid_account_id
    validate_account_id base32_decode crc16_xmodem as_bytes list_beq parse_unsigned parse_signed
defaults_boot = refl

from_env-IsGuarded_example :
    (is_placeholder secret ≡ false)
    × (32 ≤ length (as_bytes secret))
    × (codes "testnet" ≡ codes "public" → default_config.cors_allowed_origins ≢ [])
from_env-IsGuarded_example = from_env-IsGuarded crates (with_var [] []) default_config defaults_boot

from_env-unambiguous_example : length (filterb (has_code (codes "USDC")) default_list) ≤ 1
from_env-unambiguous_example =
    from_env-unambiguous crates (with_var [] []) default_config (codes "USDC") defaults_boot

-- An intent of an older version: a code in small letters, and no issuer.
abbrev old_db : Db
old_db = record empty_db { payments = record intent { asset = codes "usdc" } ∷ [] }

from_env-backfill_asset_issuers_example :
    backfill_asset_issuers default_list old_db
    ≡ record old_db { payments = map (with_issuer default_list) old_db.payments }
from_env-backfill_asset_issuers_example =
    from_env-backfill_asset_issuers crates (with_var [] []) default_config old_db defaults_boot

issuer_filled :
    map (λ p. p.asset_issuer) (backfill_asset_issuers default_list old_db).payments
    ≡ some (codes "GBBD47IF6LWK7P7MDEVSCWR7DPUWV3NY3DTQEVFL4NAT4AQH3ZLLFLA5") ∷ []
unfolding fill_issuers update_where has_same_code to_ascii_uppercase list_beq
issuer_filled = refl

from_env-grace_example :
    (grace : ℕ) × (pos 60 ≡ pos grace)
    × (3 * 10 * 1000 + waited (λ n k. k) 5000 60000 (3 - 1) 1 ≤ grace * 1000)
from_env-grace_example =
    from_env-grace crates (with_var [] []) default_config (λ n k. k) defaults_boot
      (λ n k. omega arith) (omega arith)

worst_case_default : worst_case 3 10 5000 60000 ≡ 45
unfolding worst_case
worst_case_default = refl

-- Past the largest `i64` the figure turns negative there, and no grace time is too short for it.
worst_case_wraps : validate_timing (record default_config { webhook_timeout_secs = 2 ^ 63 }) ≡ ok tt
unfolding validate_timing worst_case_inline_delivery_secs worst_case
worst_case_wraps = refl

grace_is_checked :
    validate_timing (record default_config { webhook_timeout_secs = 60 })
    ≡ err grace_below_worst_case
unfolding validate_timing worst_case_inline_delivery_secs worst_case
grace_is_checked = refl

duplicates_are_refused :
    validate_addresses (record default_config {
      accepted_assets =
          record { code = codes "XLM"; issuer = none }
          ∷ record { code = codes "xlm"; issuer = none }
          ∷ [];
    })
    ≡ err duplicate_code
unfolding validate_addresses gateway_configured check_issuers check_codes count_where
    eq_ignore_ascii_case to_ascii_uppercase list_beq
duplicates_are_refused = refl

asset_without_issuer_is_refused :
    validate_addresses (record default_config {
      accepted_assets = record { code = codes "USDC"; issuer = none } ∷ [];
    })
    ≡ err no_issuer
unfolding validate_addresses gateway_configured check_issuers eq_ignore_ascii_case
    to_ascii_uppercase list_beq
asset_without_issuer_is_refused = refl

unknown_mode_is_refused : parse_mode (codes " Turbo ") ≡ err unknown_listener_mode
unfolding parse_mode trim trim_start_matches trim_end_matches is_whitespace list_beq
    to_ascii_lowercase
unknown_mode_is_refused = refl
