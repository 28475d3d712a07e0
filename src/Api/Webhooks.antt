-- ===== src/Api/Webhooks.antt =====
-- src/api/payments.rs: the listings of webhook deliveries, the bulk requeue, and the redelivery of
-- one of them. The requests to receivers go the way of the module `Webhook`.
pub mod Tenants
use stellar_gate.Prelude.{
  ℕ, ◌+◌, Bool, true, false, ◌||◌, not, Option, none, some, List, [], ◌∷◌, ltb, ◌==◌, list_eq,
  nat_eq, map, length, if◌then◌else◌,
}
use stellar_gate.Prelude.Int.{ℤ}
use stellar_gate.Text.{Text, codes}
use stellar_gate.Db.{Db, Event, WebhookDelivery, DeliveryStatus}
use stellar_gate.Db.Payments.{get_payment}
use stellar_gate.Db.Deliveries.{update_webhook_delivery}
use stellar_gate.Db.Listing.{
  Key, delivery_key, list_webhook_deliveries_keyset, list_deliveries_for_merchant,
  requeue_failed_deliveries, get_webhook_delivery,
}
use stellar_gate.Db.Listing.Pages.{next_cursor}
use stellar_gate.Webhook.{Libs, Config, Env, Outbound, safe_client, is_success}
use stellar_gate.Webhook.Redrive.{redrive_request, event}
use stellar_gate.Api.{
  Answer, answer, refuse, AppError, bad_request, not_found_error, payment_not_found,
  delivery_not_found, webhook_target_blocked, webhook_delivery_failed, too_many_delivery_ids,
  invalid_status, invalid_cursor,
}
use stellar_gate.Api.Cursor.{Codec, decode_cursor}
use stellar_gate.Api.Payments.{clamped, encoded}

-- VALID_DELIVERY_STATUSES
unfoldable pub delivery_status_of : Text → Option DeliveryStatus
delivery_status_of s =
    if s == codes "pending"
    then some DeliveryStatus.pending
    else if s == codes "delivered"
    then some DeliveryStatus.delivered
    else if s == codes "failed"
    then some DeliveryStatus.failed
    else none

-- One delivery as the API shows it, without its payload.
pub record DeliveryJson : Type 0 where
  pub id : Text
  pub payment_id : Text
  pub url : Text
  pub event : Event
  pub status : DeliveryStatus
  pub attempts : ℕ
  pub last_attempt : Option ℕ
  pub acknowledged_at : Option ℕ
  pub created_at : ℕ

abbrev pub delivery_to_json : Libs → WebhookDelivery → DeliveryJson
delivery_to_json libs d = record {
  id = d.id;
  payment_id = d.payment_id;
  url = d.url;
  event = event libs d;
  status = d.status;
  attempts = d.attempts;
  last_attempt = d.last_attempt;
  acknowledged_at = d.acknowledged_at;
  created_at = d.created_at;
}

pub record ListDeliveryQuery : Type 0 where
  pub status : Option Text
  pub limit : Option ℤ
  pub cursor : Option Text

pub record DeliveryPage : Type 0 where
  pub deliveries : List DeliveryJson
  pub limit : ℕ
  pub next_cursor : Option Text

-- Whether a payment exists and belongs to the merchant.
unfoldable pub owns_payment : Db → Text → Text → Bool
owns_payment db merchant_id payment_id = elim (get_payment db payment_id) [
  | none ↦ false
  | some p ↦ p.merchant_id == merchant_id
]

abbrev pub read_cursor : Codec → Option Text → Answer (Option Key)
read_cursor codec none = answer none
read_cursor codec (some raw) = elim (decode_cursor codec raw) [
  | none ↦ refuse (bad_request invalid_cursor)
  | some key ↦ answer (some key)
]

abbrev pub read_status : Option Text → Answer (Option DeliveryStatus)
read_status none = answer none
read_status (some s) = elim (delivery_status_of s) [
  | none ↦ refuse (bad_request invalid_status)
  | some status ↦ answer (some status)
]

abbrev owned_payment : Bool → Answer (Unit {0})
owned_payment true = answer tt
owned_payment false = refuse (not_found_error payment_not_found)

infixl 5 ◌>>=◌
abbrev ◌>>=◌ : {A B : Type 0} → Answer A → (A → Answer B) → Answer B
answer a >>= f = f a
refuse e >>= f = refuse e

module _ (codec : Codec) (stamp : ℕ → Text) (libs : Libs) (merchant_id : Text) (db : Db) where
  abbrev page_of : ℕ → List WebhookDelivery → DeliveryPage
  page_of limit deliveries = record {
    deliveries = map (delivery_to_json libs) deliveries;
    limit = limit;
    next_cursor = encoded codec (next_cursor (delivery_key stamp) limit deliveries);
  }

  unfoldable pub list_webhooks : Text → ListDeliveryQuery → Answer DeliveryPage
  list_webhooks payment_id q = do
    status ← read_status q.status
    found ← owned_payment (owns_payment db merchant_id payment_id)
    cursor ← read_cursor codec q.cursor
    answer (
        page_of (clamped q.limit)
          (list_webhook_deliveries_keyset stamp db payment_id status (clamped q.limit) cursor))

  abbrev or_failed : Option DeliveryStatus → DeliveryStatus
  or_failed none = DeliveryStatus.failed
  or_failed (some status) = status

  unfoldable pub list_merchant_webhooks : ListDeliveryQuery → Answer DeliveryPage
  list_merchant_webhooks q = do
    status ← read_status q.status
    cursor ← read_cursor codec q.cursor
    answer (
        page_of (clamped q.limit) (
          list_deliveries_for_merchant stamp db merchant_id (or_failed status) (clamped q.limit)
            cursor))

abbrev pub max_bulk_delivery_ids : ℕ
max_bulk_delivery_ids = 100

abbrev pub ids_of : Option (List Text) → List Text
ids_of none = []
ids_of (some ids) = ids

-- The number of requeued deliveries; nothing is sent here.
unfoldable pub redeliver_webhooks_bulk : Text → Option (List Text) → ℕ → Db → Answer ℕ × Db
redeliver_webhooks_bulk merchant_id delivery_ids now db =
    let ids = ids_of delivery_ids in
    let (requeued, db') = requeue_failed_deliveries db merchant_id ids now in
    if ltb max_bulk_delivery_ids (length ids)
    then (refuse (bad_request too_many_delivery_ids), db)
    else (answer requeued, db')

abbrev bad_gateway : AppError
bad_gateway = record { status = 502; code = webhook_delivery_failed }

-- The row's next status, from whether the one request succeeded.
abbrev pub sent_once : Libs → Config → Env → WebhookDelivery → Bool → Outbound → Outbound
sent_once libs config env d success o = record o {
  sent = redrive_request libs config env d ∷ o.sent;
  db =
      update_webhook_delivery o.db d.id
        (if success then DeliveryStatus.delivered else DeliveryStatus.failed) (d.attempts + 1)
        env.now;
}

abbrev pub resend : Libs → Config → Env → WebhookDelivery → Outbound → Answer (Unit {0}) × Outbound
resend libs config env d o =
    let success = is_success (env.respond (d.attempts + 1)) in
    if not (safe_client config env d.url)
    then (refuse (bad_request webhook_target_blocked), o)
    else (if success then answer tt else refuse bad_gateway, sent_once libs config env d success o)

abbrev pub resend_if_of :
    Libs → Config → Env → Text → Option WebhookDelivery → Outbound → Answer (Unit {0}) × Outbound
resend_if_of libs config env payment_id none o = (refuse (not_found_error delivery_not_found), o)
resend_if_of libs config env payment_id (some d) o =
    if not (d.payment_id == payment_id)
    then (refuse (not_found_error delivery_not_found), o)
    else resend libs config env d o

-- No counter of the webhook metrics moves.
unfoldable pub redeliver_webhook :
    Libs → Config → Env → Text → Text → Text → Outbound → Answer (Unit {0}) × Outbound
redeliver_webhook libs config env merchant_id payment_id delivery_id o =
    if not (owns_payment o.db merchant_id payment_id)
    then (refuse (not_found_error payment_not_found), o)
    else resend_if_of libs config env payment_id (get_webhook_delivery o.db delivery_id) o
