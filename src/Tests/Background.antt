-- ===== src/Tests/Background.antt =====
-- src/retention.rs, src/supervise.rs, src/lib.rs, src/strkey.rs and the poll cycle of src/horizon.rs
-- on concrete inputs.
use stellar_gate.Prelude.{
  ℕ, ◌+◌, ◌≤◌, ◌≡◌, ◌⊎◌, ◌↔◌, true, refl, none, some, [], ◌∷◌, arith, replicate,
}
use stellar_gate.Text.{codes}
use stellar_gate.Db.{Db, WebhookDelivery, DeliveryStatus, empty_db}
use stellar_gate.Db.Retention.{is_prunable, prune_webhook_deliveries}
use stellar_gate.Retention.{drain_cycle, max_per_cycle}
use stellar_gate.Retention.Drained.{MayGo, rest_of, prunable, prune_webhook_deliveries-drained}
use stellar_gate.Health.{new_task_health}
use stellar_gate.Supervise.{default_backoff, begin, supervise_with}
use stellar_gate.Supervise.CrashLoop.{HasPanicked, panic, supervise_with-panics}
use stellar_gate.Strkey.{
  valid, wrong_version, base32_decode, crc16_xmodem, validate_account_id, invalid,
}
use stellar_gate.Tests.Fixtures.{gateway}

abbrev old_delivery : DeliveryStatus → WebhookDelivery
old_delivery status = record {
  id = codes "d1";
  payment_id = codes "p1";
  url = codes "https://shop.example/hook";
  payload = codes "p1";
  event_type = none;
  status = status;
  attempts = 3;
  last_attempt = some 7;
  acknowledged_at = none;
  created_at = 5;
}

abbrev old_db : Db
old_db = record empty_db {
  webhook_deliveries =
      old_delivery DeliveryStatus.pending
      ∷ old_delivery DeliveryStatus.delivered
      ∷ old_delivery DeliveryStatus.failed
      ∷ [];
}

prune_webhook_deliveries-drained_example :
    (r : ℕ × Db) × (drain_cycle (prune_webhook_deliveries 9000000 30) old_db ≡ some r)
    × (r.0 + prunable 9000000 30 r.1 ≡ prunable 9000000 30 old_db)
    × ((prunable 9000000 30 r.1 ≡ 0) ⊎ (max_per_cycle ≤ r.0))
    × (rest_of 9000000 30 r.1 ≡ rest_of 9000000 30 old_db)
    × ((d : WebhookDelivery) → (is_prunable 9000000 30 d ≡ true) ↔ MayGo 9000000 30 d)
prune_webhook_deliveries-drained_example = prune_webhook_deliveries-drained 9000000 30 old_db

supervise_with-panics_example : HasPanicked default_backoff (codes "poller") 0 3 (
    supervise_with default_backoff
      (codes "poller")
      (replicate 3 panic)
      (begin default_backoff new_task_health))
supervise_with-panics_example =
    supervise_with-panics default_backoff (codes "poller") new_task_health 3 (omega arith)
      (omega arith)

-- The test vectors of src/strkey.rs.
accepts_a_valid_account_id : validate_account_id gateway ≡ valid
unfolding validate_account_id base32_decode crc16_xmodem
accepts_a_valid_account_id = refl

rejects_wrong_version_byte :
    validate_account_id (codes "ABBD47IF6LWK7P7MDEVSCWR7DPUWV3NY3DTQEVFL4NAT4AQH3ZLLFLA5")
    ≡ invalid wrong_version
unfolding validate_account_id base32_decode crc16_xmodem
rejects_wrong_version_byte = refl
