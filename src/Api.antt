-- ===== src/Api.antt =====
-- src/api/mod.rs and src/api/payments.rs: the HTTP handlers, as functions from a request and the
-- state to an answer and the next state. An error is its status and its stable code; the messages,
-- the logs and the JSON of the answers are left out. The child modules have the handlers.
pub mod Keys
pub mod Auth
pub mod Cursor
pub mod Payments
pub mod Create
pub mod Webhooks
pub mod Limits
pub mod Probes
use stellar_gate.Prelude.{ℕ}
use stellar_gate.Db.{Db}
use stellar_gate.Metrics.{AuthMetrics}

-- The `code` of an error.
pub data Code : Type 0 where
  unauthorized internal_error merchant_not_found invalid_label last_active_key key_not_found : Code
  unsupported_asset ambiguous_asset invalid_amount invalid_webhook_url : Code
  idempotency_conflict payment_not_found invalid_status invalid_cursor : Code
  delivery_not_found webhook_target_blocked webhook_delivery_failed too_many_delivery_ids : Code

pub record AppError : Type 0 where
  pub status : ℕ
  pub code : Code

abbrev pub bad_request : Code → AppError
bad_request code = record { status = 400; code = code }

abbrev pub unauthorized_error : AppError
unauthorized_error = record { status = 401; code = unauthorized }

abbrev pub not_found_error : Code → AppError
not_found_error code = record { status = 404; code = code }

abbrev pub internal : Code → AppError
internal code = record { status = 500; code = code }

-- `Result<A, AppError>`
pub data Answer {ℓ} (A : Type ℓ) : Type ℓ where
  answer : A → Answer A
  refuse : AppError → Answer A

-- What the handlers share and change of `AppState`.
pub record AppState : Type 0 where
  pub db : Db
  pub auth_metrics : AuthMetrics

abbrev pub with_db : AppState → Db → AppState
with_db s db = record s { db = db }
