-- ===== src/Db/Retention.antt =====
-- src/db.rs: the statements that remove or compact aged rows, one batch each. Their `LIMIT` has no
-- `ORDER BY`; the model takes the first rows of the table.
pub mod Batches
use stellar_gate.Prelude.{
  ℕ, zero, suc, ◌+◌, ◌*◌, Bool, true, false, ◌&&◌, ◌||◌, not, Option, none, some, List, [], ◌∷◌,
  ltb, min, if◌then◌else◌,
}
use stellar_gate.Text.{Text}
use stellar_gate.Money.{is_empty}
use stellar_gate.Db.{Db, DeliveryStatus, WebhookDelivery, IdempotencyKey}
use stellar_gate.Db.Table.{count_where}

abbrev pub prune_batch : ℕ
prune_batch = 500

module _ {ℓ} {A : Type ℓ} where
  -- DELETE … WHERE rowid IN (SELECT … WHERE test LIMIT n)
  unfoldable pub delete_up_to : (A → Bool) → ℕ → List A → List A
  delete_up_to test n [] = []
  delete_up_to test zero (r ∷ rows) = r ∷ rows
  delete_up_to test (suc n) (r ∷ rows) =
      let without = delete_up_to test n rows in
      let with_it = r ∷ delete_up_to test (suc n) rows in if test r then without else with_it

  -- UPDATE … WHERE rowid IN (SELECT … WHERE test LIMIT n)
  unfoldable pub update_up_to : (A → Bool) → (A → A) → ℕ → List A → List A
  update_up_to test change n [] = []
  update_up_to test change zero (r ∷ rows) = r ∷ rows
  update_up_to test change (suc n) (r ∷ rows) =
      let changed = change r ∷ update_up_to test change n rows in
      let as_is = r ∷ update_up_to test change (suc n) rows in if test r then changed else as_is

-- created_at < strftime(…, 'now', '-N days')
abbrev pub is_older : ℕ → ℕ → ℕ → Bool
is_older now retention_days created_at = ltb (created_at + retention_days * 86400) now

abbrev pub is_acknowledged : WebhookDelivery → Bool
is_acknowledged d = elim d.acknowledged_at [ none ↦ false | some t ↦ true ]

-- The delivery has finished: delivered, or failed and acknowledged.
abbrev pub is_settled : WebhookDelivery → DeliveryStatus → Bool
is_settled d DeliveryStatus.pending = false
is_settled d DeliveryStatus.delivered = true
is_settled d DeliveryStatus.failed = is_acknowledged d

-- Failed, and nobody has acknowledged it.
abbrev pub is_lost : WebhookDelivery → DeliveryStatus → Bool
is_lost d DeliveryStatus.pending = false
is_lost d DeliveryStatus.delivered = false
is_lost d DeliveryStatus.failed = not (is_acknowledged d)

abbrev pub is_prunable : ℕ → ℕ → WebhookDelivery → Bool
is_prunable now days d = is_settled d d.status && is_older now days d.created_at

abbrev pub is_compactable : ℕ → ℕ → WebhookDelivery → Bool
is_compactable now days d =
    is_lost d d.status && not (is_empty d.payload) && is_older now days d.created_at

abbrev pub is_stale : ℕ → ℕ → IdempotencyKey → Bool
is_stale now days k = is_older now days k.created_at

abbrev pub tombstone : WebhookDelivery → WebhookDelivery
tombstone d = record d { payload = [] }

-- The number is `rows_affected`.
unfoldable pub prune_webhook_deliveries : ℕ → ℕ → Db → ℕ × Db
prune_webhook_deliveries now days db = (
  min prune_batch (count_where (is_prunable now days) db.webhook_deliveries),
  record db {
    webhook_deliveries = delete_up_to (is_prunable now days) prune_batch db.webhook_deliveries;
  },
)

unfoldable pub compact_stale_failed_deliveries : ℕ → ℕ → Db → ℕ × Db
compact_stale_failed_deliveries now days db = (
  min prune_batch (count_where (is_compactable now days) db.webhook_deliveries),
  record db {
    webhook_deliveries =
        update_up_to (is_compactable now days) tombstone prune_batch db.webhook_deliveries;
  },
)

unfoldable pub prune_idempotency_keys : ℕ → ℕ → Db → ℕ × Db
prune_idempotency_keys now days db = (
  min prune_batch (count_where (is_stale now days) db.idempotency_keys),
  record db { idempotency_keys = delete_up_to (is_stale now days) prune_batch db.idempotency_keys },
)
