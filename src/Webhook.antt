-- ===== src/Webhook.antt =====
-- src/webhook.rs: building, signing and delivering webhooks, the inline retries. JSON, HMAC-SHA256
-- and the client's answers are parameters.
pub mod Attempts
pub mod Frame
pub mod Rows
pub mod Outcome
pub mod Reserved
pub mod Delay
pub mod Redrive
use stellar_gate.Prelude.{
  ℕ, zero, suc, ◌+◌, ◌-◌, ◌*◌, ◌/◌, ◌%◌, ◌^◌, Bool, true, false, ◌&&◌, Option, none, some, List, [],
  ◌∷◌, ◌++◌, leb, ltb, min, max, if◌then◌else◌,
}
use stellar_gate.Prelude.Int.{pos}
use stellar_gate.Text.{Text}
use stellar_gate.Text.Digits.{show}
use stellar_gate.Money.{parse_stroops, stroops_to_string}
use stellar_gate.Db.{
  Db, Payment, Event, WebhookDelivery, DeliveryStatus, Status, Result, ok, err, payment_completed,
}
use stellar_gate.Db.Deliveries.{
  RedriveLimits, save_webhook_delivery, update_webhook_delivery, list_redrivable_deliveries,
}
use stellar_gate.Metrics.{
  WebhookMetrics, record_delivered, record_failed, record_retry, record_latency_ms,
}
use stellar_gate.Ssrf.{Net, Checked, safe, refused, validate}

-- The JSON object of an event.
pub record Payload : Type 0 where
  pub event : Event
  pub payment_id : Text
  pub merchant_id : Text
  pub tx_hash : Option Text
  pub amount : Text
  pub paid_amount : Option Text
  pub asset : Text
  pub asset_issuer : Option Text
  pub status : Status
  pub delta : Option Text

abbrev pub canonical : Text → Option Text
canonical amount = elim (parse_stroops amount) [
  | none ↦ none
  | some n ↦ some (stroops_to_string (pos n))
]

abbrev pub canonical_of : Option Text → Option Text
canonical_of none = none
canonical_of (some amount) = canonical amount

unfoldable pub build_payload : Payment → Event → Option Text → Payload
build_payload payment event delta = record {
  event = event;
  payment_id = payment.id;
  merchant_id = payment.merchant_id;
  tx_hash = payment.tx_hash;
  amount = elim (canonical payment.amount) [ none ↦ payment.amount | some c ↦ c ];
  paid_amount = canonical_of payment.paid_amount;
  asset = payment.asset;
  asset_issuer = payment.asset_issuer;
  status = payment.status;
  delta = canonical_of delta;
}

-- What the code calls and does not implement: `serde_json`, and `hmac_sha256` with its hex form.
pub record Libs : Type 0 where
  pub to_vec : Payload → Option Text
  pub event_of : Text → Option Event
  pub hmac_sha256_hex : Text → Text → Text

-- The digits of the timestamp, a dot, the body.
unfoldable pub sign : Libs → Text → ℕ → Text → Text
sign libs secret timestamp body = libs.hmac_sha256_hex secret (show timestamp ++ b'.' ∷ body)

pub record Config : Type 0 where
  pub webhook_secret : Text
  pub webhook_retry_attempts : ℕ
  pub webhook_retry_delay_ms : ℕ
  pub webhook_retry_max_delay_ms : ℕ
  pub webhook_allow_private_targets : Bool
  pub redrive : RedriveLimits

pub record Request : Type 0 where
  pub url : Text
  pub body : Text
  pub signature : Text
  pub timestamp : ℕ
  pub event : Event

-- How a request ends: an answer, with its `status().is_success()`, or an error of the client.
pub data Response : Type 0 where
  response : Bool → Response
  send_error : Response

unfoldable pub is_success : Response → Bool
is_success (response success) = success
is_success send_error = false

-- What the outside gives one delivery: a fresh id, the clocks, the resolver, whether the pinned
-- client can be built, the answer to each attempt, and the latency that is measured.
pub record Env : Type 0 where
  pub delivery_id : Text
  pub now : ℕ
  pub timestamp : ℕ
  pub net : Net
  pub client_builds : Bool
  pub respond : ℕ → Response
  pub elapsed_ms : ℕ

-- The part of `AppState` that deliveries change, and the requests that went out, the last first.
pub record Outbound : Type 0 where
  pub db : Db
  pub metrics : WebhookMetrics
  pub sent : List Request

-- `2^(attempt-1)` saturates at `u32::MAX`; `random k` is `rand::random_range(0..=k)`. Durations are
-- in milliseconds, and `as_millis() as u64` cuts at 2 ^ 64.
unfoldable pub retry_delay : (ℕ → ℕ) → ℕ → ℕ → ℕ → ℕ
retry_delay random attempt base max_delay =
    let factor = min (2 ^ (attempt - 1)) (2 ^ 32 - 1) in
    let ceiling_ms = min (base * factor) max_delay % 2 ^ 64 in
    let half = ceiling_ms / 2 in if leb ceiling_ms 0 then 0 else half + random (ceiling_ms - half)

unfoldable pub safe_client : Config → Env → Text → Bool
safe_client config env url = elim (validate env.net url config.webhook_allow_private_targets) [
  | safe target ↦ env.client_builds
  | refused e ↦ false
]

abbrev pub post : Request → Outbound → Outbound
post request o = record o { sent = request ∷ o.sent }

abbrev pub retried : Outbound → Outbound
retried o = record o { metrics = record_retry o.metrics }

-- The final bookkeeping of a delivery: the counter, the latency, the row.
abbrev pub finish :
    Env → DeliveryStatus → (WebhookMetrics → WebhookMetrics) → ℕ → Outbound → Outbound
finish env outcome count attempts o = record o {
  metrics = record_latency_ms (count o.metrics) env.elapsed_ms;
  db = update_webhook_delivery o.db env.delivery_id outcome attempts env.now;
}

-- `for attempt in 1..=attempts`, by the attempts that are left. The waits between attempts change
-- no state.
unfoldable pub attempt_loop : Env → Request → ℕ → ℕ → Outbound → Outbound
attempt_loop env request zero attempt o =
    finish env DeliveryStatus.failed record_failed (attempt - 1) o
attempt_loop env request (suc left) attempt o =
    let tried = post request (if ltb 1 attempt then retried o else o) in
    let rest = attempt_loop env request left (attempt + 1) tried in
    if is_success (env.respond attempt)
    then finish env DeliveryStatus.delivered record_delivered attempt tried
    else rest

abbrev pub make_request : Libs → Config → Env → Text → Text → Event → Request
make_request libs config env url body event = record {
  url = url;
  body = body;
  signature = sign libs config.webhook_secret env.timestamp body;
  timestamp = env.timestamp;
  event = event;
}

-- A row that cannot be saved is logged and the delivery goes on.
abbrev pub saved : Result Db → Outbound → Outbound
saved (ok db) o = record o { db = db }
saved (err e) o = o

abbrev pub blocked : Env → Text → ℕ → Outbound → Outbound
blocked env id attempts o = record o {
  metrics = record_failed o.metrics;
  db = update_webhook_delivery o.db id DeliveryStatus.failed attempts env.now;
}

unfoldable pub deliver : Libs → Config → Env → Payment → Event → Text → Text → Outbound → Outbound
unfolding attempt_loop safe_client sign
deliver libs config env payment event url body o =
    let recorded =
      saved (save_webhook_delivery o.db env.delivery_id payment.id url body event env.now) o in
    if safe_client config env url
    then attempt_loop env (make_request libs config env url body event)
        (max config.webhook_retry_attempts 1) 1 recorded
    else blocked env env.delivery_id 0 recorded

unfoldable pub dispatch : Libs → Config → Env → Payment → Event → Option Text → Outbound → Outbound
unfolding deliver
dispatch libs config env payment event delta o = elim payment.webhook_url [
  | none ↦ o
  | some url ↦ elim (libs.to_vec (build_payload payment event delta)) [
    | none ↦ o
    | some body ↦ deliver libs config env payment event url body o
  ]
]
