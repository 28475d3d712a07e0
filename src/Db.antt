-- ===== src/Db.antt =====
-- src/db.rs: the tables of the SQLite database as lists of rows, oldest first, but for
-- `processed_transactions`, which is only summed and searched and has its newest row first. The
-- statements that read and write them are in the child modules. A timestamp is its number of seconds: the stored
-- texts have one fixed format, so that SQLite's order of the texts is the order of the numbers.
pub mod Table
pub mod Payments
pub mod Deliveries
pub mod State
pub mod Idempotency
pub mod Retention
pub mod ApiKeys
pub mod Listing
pub mod Backfill
pub mod Timestamps
use stellar_gate.Prelude.{ℕ, Bool, true, false, Option, List, []}
use stellar_gate.Text.{Text}

-- The four values that the program writes into `payments.status`.
pub data Status : Type 0 where
  pending underpaid completed expired : Status

-- The three values that the program writes into `webhook_deliveries.status`.
pub data DeliveryStatus : Type 0 where
  pending delivered failed : DeliveryStatus

-- The event names: "payment.completed" and so on.
pub data Event : Type 0 where
  payment_completed payment_overpaid payment_underpaid payment_expired : Event

pub record Payment : Type 0 where
  pub id : Text
  pub merchant_id : Text
  pub destination_address : Text
  pub memo : Text
  pub amount : Text
  pub asset : Text
  pub status : Status
  pub webhook_url : Option Text
  pub tx_hash : Option Text
  pub paid_amount : Option Text
  pub created_at : ℕ
  pub updated_at : ℕ
  pub expires_at : ℕ
  pub asset_issuer : Option Text

pub record ProcessedTransaction : Type 0 where
  pub payment_id : Text
  pub tx_hash : Text
  pub amount_stroops : ℕ

pub record WebhookDelivery : Type 0 where
  pub id : Text
  pub payment_id : Text
  pub url : Text
  pub payload : Text
  pub event_type : Option Event
  pub status : DeliveryStatus
  pub attempts : ℕ
  pub last_attempt : Option ℕ
  pub acknowledged_at : Option ℕ
  pub created_at : ℕ

pub record IdempotencyKey : Type 0 where
  pub merchant_id : Text
  pub idempotency_key : Text
  pub payment_id : Text
  pub created_at : ℕ

pub record KvState : Type 0 where
  pub key : Text
  pub value : Text
  pub updated_at : ℕ

pub record Merchant : Type 0 where
  pub id : Text
  pub api_key_hash : Text

pub record ApiKey : Type 0 where
  pub id : Text
  pub merchant_id : Text
  pub key_hash : Text
  pub prefix : Text
  pub label : Option Text
  pub created_at : ℕ
  pub last_used_at : Option ℕ
  pub revoked_at : Option ℕ

pub record Db : Type 0 where
  pub payments : List Payment
  pub processed_transactions : List ProcessedTransaction
  pub webhook_deliveries : List WebhookDelivery
  pub idempotency_keys : List IdempotencyKey
  pub kv_state : List KvState
  pub merchants : List Merchant
  pub api_keys : List ApiKey

-- The errors of a statement that the model has: a constraint that refuses the row, the overflow of
-- `SUM`, and the two errors that `create_payment` makes itself.
pub data DbError : Type 0 where
  unique_violation integer_overflow invalid_amount not_found : DbError

pub data Result {ℓ} (A : Type ℓ) : Type ℓ where
  ok : A → Result A
  err : DbError → Result A

infixl 5 ◌>>=◌
abbrev pub ◌>>=◌ {ℓ κ} : {A : Type ℓ} {B : Type κ} → Result A → (A → Result B) → Result B
ok a >>= f = f a
err e >>= f = err e

-- status IN ('pending', 'underpaid')
abbrev pub is_watchable : Status → Bool
is_watchable pending = true
is_watchable underpaid = true
is_watchable completed = false
is_watchable expired = false

-- The database after `migrate` on an empty file.
abbrev pub empty_db : Db
empty_db = record {
  payments = [];
  processed_transactions = [];
  webhook_deliveries = [];
  idempotency_keys = [];
  kv_state = [];
  merchants = [];
  api_keys = [];
}
