-- ===== src/Api/Webhooks/Tenants.antt =====
-- src/api/payments.rs and src/db.rs: requeueing and redelivering stay with the merchant that asks.
use stellar_gate.Prelude.{ℕ, ◌≡◌, refl, not, List, [], ◌∷◌, arith, list_eq, nat_eq, filterb}
use stellar_gate.Text.{Text}
use stellar_gate.Db.{Db, WebhookDelivery}
use stellar_gate.Db.Table.{update_where, count_where}
use stellar_gate.Db.Listing.{is_merchants, has_failed, requeued, requeue_failed_deliveries}

-- The deliveries that are not for payments of the merchant.
abbrev pub foreign : Db → Text → List WebhookDelivery
foreign db merchant_id = filterb (λ d. not (is_merchants db merchant_id d)) db.webhook_deliveries

module _ (db : Db) (merchant_id : Text) (ids : List Text) (now : ℕ) where
  requeued-none :
      (rows : List WebhookDelivery)
      → count_where
          (has_failed db merchant_id ids)
          (update_where (has_failed db merchant_id ids) (requeued now) rows)
        ≡ 0
  unfolding count_where update_where
  requeued-none [] = refl
  requeued-none (d ∷ rows) = ground (arith, requeued-none rows)

  requeued-foreign :
      (rows : List WebhookDelivery)
      → filterb
          (λ d. not (is_merchants db merchant_id d))
          (update_where (has_failed db merchant_id ids) (requeued now) rows)
        ≡ filterb (λ d. not (is_merchants db merchant_id d)) rows
  unfolding update_where
  requeued-foreign [] = refl
  requeued-foreign (d ∷ rows) = ground (arith, requeued-foreign rows)

  -- Behind a requeue none of the deliveries that were asked for is failed any more, the number
  -- that is answered is how many there were, and the deliveries of other merchants are as before.
  pub requeue_failed_deliveries-foreign :
      let (requeued, after) = requeue_failed_deliveries db merchant_id ids now in
      (count_where (has_failed after merchant_id ids) after.webhook_deliveries ≡ 0)
      × (requeued ≡ count_where (has_failed db merchant_id ids) db.webhook_deliveries)
      × (foreign after merchant_id ≡ foreign db merchant_id)
  unfolding requeue_failed_deliveries
  requeue_failed_deliveries-foreign =
      (requeued-none db.webhook_deliveries, refl, requeued-foreign db.webhook_deliveries)
