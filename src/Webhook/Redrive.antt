-- ===== src/Webhook/Redrive.antt =====
-- src/webhook.rs: the redrive worker's pass over the deliveries that are left.
use stellar_gate.Prelude.{
  ℕ, ◌+◌, Bool, true, false, none, some, List, [], ◌∷◌, leb, length, if◌then◌else◌,
}
use stellar_gate.Db.{Event, WebhookDelivery, DeliveryStatus, payment_completed}
use stellar_gate.Db.Deliveries.{update_webhook_delivery, list_redrivable_deliveries}
use stellar_gate.Metrics.{
  WebhookMetrics, record_delivered, record_failed, record_retry, record_latency_ms,
}
use stellar_gate.Webhook.{Libs, Config, Env, Request, Outbound, is_success, sign, safe_client}

-- `WebhookDelivery::event`: the stored event, else the one inside the payload, else the fallback.
unfoldable pub event : Libs → WebhookDelivery → Event
event libs d = elim d.event_type [
  | some e ↦ e
  | none ↦ elim (libs.event_of d.payload) [ some e ↦ e | none ↦ payment_completed ]
]

abbrev pub redrive_request : Libs → Config → Env → WebhookDelivery → Request
redrive_request libs config env d = record {
  url = d.url;
  body = d.payload;
  signature = sign libs config.webhook_secret env.timestamp d.payload;
  timestamp = env.timestamp;
  event = event libs d;
}

abbrev timed : Env → WebhookMetrics → WebhookMetrics
timed env m = record_latency_ms m env.elapsed_ms

-- The row's next status and the counters, from whether the request succeeded and whether this was
-- the last attempt.
abbrev outcome : Env → Bool → Bool → WebhookMetrics → DeliveryStatus × WebhookMetrics
outcome env true last m = (DeliveryStatus.delivered, timed env (record_delivered m))
outcome env false true m = (DeliveryStatus.failed, timed env (record_failed m))
outcome env false false m = (DeliveryStatus.pending, m)

unfoldable pub redrive_one : Libs → Config → Env → WebhookDelivery → Outbound → Outbound
unfolding event sign safe_client
redrive_one libs config env d o =
    let attempt = d.attempts + 1 in
    let (status, metrics) =
      outcome env (is_success (env.respond attempt)) (leb config.redrive.max_attempts attempt)
        (record_retry o.metrics) in
    if safe_client config env d.url
    then record {
      db = update_webhook_delivery o.db d.id status attempt env.now;
      metrics = metrics;
      sent = redrive_request libs config env d ∷ o.sent;
    }
    else record o {
      metrics = record_failed o.metrics;
      db = update_webhook_delivery o.db d.id DeliveryStatus.failed d.attempts env.now;
    }

-- The tasks of one pass work on different rows; they are taken one after the other.
unfoldable pub redrive_all :
    Libs → Config → (WebhookDelivery → Env) → List WebhookDelivery → Outbound → Outbound
redrive_all libs config env [] o = o
redrive_all libs config env (d ∷ rest) o =
    redrive_all libs config env rest (redrive_one libs config (env d) d o)

-- The number of deliveries that were attempted, and the state after the pass.
unfoldable pub redrive_once :
    Libs → Config → (WebhookDelivery → Env) → (WebhookDelivery → ℕ) → ℕ → Outbound → ℕ × Outbound
unfolding redrive_all
redrive_once libs config env random now o =
    let candidates = list_redrivable_deliveries o.db config.redrive random now in
    (length candidates, redrive_all libs config env candidates o)
