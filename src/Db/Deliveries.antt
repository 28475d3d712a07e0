-- ===== src/Db/Deliveries.antt =====
-- src/db.rs: the statements on `webhook_deliveries` that delivery and redrive use.
pub mod Redrivable
use stellar_gate.Prelude.{
  ℕ, zero, suc, ◌+◌, ◌*◌, ◌^◌, Bool, true, false, ◌&&◌, none, some, List, [], ◌∷◌, ◌++◌, leb, ltb,
  ◌==◌, list_eq, nat_eq, filterb, min, max, if◌then◌else◌,
}
use stellar_gate.Text.{Text}
use stellar_gate.Db.{Db, WebhookDelivery, DeliveryStatus, Event, Result, ok, err, unique_violation}
use stellar_gate.Db.Table.{update_where, count_where, order_by}

abbrev pub new_delivery : Text → Text → Text → Text → Event → ℕ → WebhookDelivery
new_delivery id payment_id url payload event now = record {
  id = id;
  payment_id = payment_id;
  url = url;
  payload = payload;
  event_type = some event;
  status = DeliveryStatus.pending;
  attempts = 0;
  last_attempt = none;
  acknowledged_at = none;
  created_at = now;
}

unfoldable pub save_webhook_delivery : Db → Text → Text → Text → Text → Event → ℕ → Result Db
save_webhook_delivery db id payment_id url payload event now =
    if leb 1 (count_where (λ d. d.id == id) db.webhook_deliveries)
    then err unique_violation
    else ok (record db {
      webhook_deliveries =
          db.webhook_deliveries ++ new_delivery id payment_id url payload event now ∷ [];
    })

abbrev pub attempted : DeliveryStatus → ℕ → ℕ → WebhookDelivery → WebhookDelivery
attempted status attempts now d = record d {
  status = status;
  attempts = attempts;
  last_attempt = some now;
}

unfoldable pub update_webhook_delivery : Db → Text → DeliveryStatus → ℕ → ℕ → Db
update_webhook_delivery db id status attempts now = record db {
  webhook_deliveries =
      update_where (λ d. d.id == id) (attempted status attempts now) db.webhook_deliveries;
}

-- status IN ('pending', 'failed')
abbrev pub is_undelivered : DeliveryStatus → Bool
is_undelivered DeliveryStatus.pending = true
is_undelivered DeliveryStatus.delivered = false
is_undelivered DeliveryStatus.failed = true

pub record RedriveLimits : Type 0 where
  pub max_attempts : ℕ
  pub grace_secs : ℕ
  pub backoff_initial_secs : ℕ
  pub backoff_max_secs : ℕ
  pub jitter_secs : ℕ

-- The idle window: `grace` for a row never tried, else the capped exponential backoff, at least
-- `grace`. `1 << MIN(attempts - 1, 32)` doubles up to 2 ^ 32.
unfoldable pub redrive_window : RedriveLimits → ℕ → ℕ
redrive_window l zero = l.grace_secs
redrive_window l (suc failures) =
    max l.grace_secs (min (l.backoff_initial_secs * 2 ^ min failures 32) l.backoff_max_secs)

abbrev pub idle_since : WebhookDelivery → ℕ
idle_since d = elim d.last_attempt [ none ↦ d.created_at | some t ↦ t ]

-- `RANDOM()` is drawn anew for each row: `random` gives the row's draw in [0, jitter_secs].
unfoldable pub is_redrivable : RedriveLimits → (WebhookDelivery → ℕ) → ℕ → WebhookDelivery → Bool
unfolding redrive_window
is_redrivable l random now d =
    is_undelivered d.status
    && ltb d.attempts l.max_attempts
    && leb
        (idle_since d
          + (redrive_window l d.attempts + (if ltb 0 l.jitter_secs then random d else 0)))
        now

unfoldable pub list_redrivable_deliveries :
    Db → RedriveLimits → (WebhookDelivery → ℕ) → ℕ → List WebhookDelivery
unfolding is_redrivable
list_redrivable_deliveries db l random now =
    order_by (λ d. d.created_at) (filterb (is_redrivable l random now) db.webhook_deliveries)
