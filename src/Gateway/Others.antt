-- ===== src/Gateway/Others.antt =====
-- src/webhook.rs, src/retention.rs and src/api: what touches neither an intent nor the ledger.
use stellar_gate.Prelude.{
  ℕ, zero, suc, ◌+◌, ◌≡◌, refl, sym, ap, ◌∙◌, inl, inr, Bool, true, false, ◌||◌, Option, none, some,
  List, [], ◌∷◌, leb, ltb, ◌==◌, list_eq, nat_eq, arith, Bool-cases, if◌then◌else◌,
}
use stellar_gate.Prelude.Partial.{◌>>=◌}
use stellar_gate.Text.{Text}
use stellar_gate.Db.{Db, Payment, ProcessedTransaction, WebhookDelivery}
use stellar_gate.Db.Deliveries.{update_webhook_delivery}
use stellar_gate.Db.Listing.{get_webhook_delivery, requeue_failed_deliveries}
use stellar_gate.Db.Retention.{
  prune_batch, prune_webhook_deliveries, compact_stale_failed_deliveries, prune_idempotency_keys,
}
use stellar_gate.Retention.{drain, drain_cycle, max_per_cycle, rounds, prune_deliveries, prune_once}
use stellar_gate.Webhook.{Libs, Config, Env, Outbound, safe_client}
use stellar_gate.Webhook.Redrive.{redrive_one, redrive_all}
use stellar_gate.Api.Webhooks.{
  redeliver_webhook, resend_if_of, owns_payment, redeliver_webhooks_bulk,
}

-- The tables of the intents and of the ledger.
abbrev pub books : Db → List Payment × List ProcessedTransaction
books db = (db.payments, db.processed_transactions)

redrive_one-books :
    (libs : Libs) (config : Config) (env : Env) (d : WebhookDelivery) (o : Outbound)
    → books (redrive_one libs config env d o).db ≡ books o.db
unfolding redrive_one update_webhook_delivery
redrive_one-books libs config env d o = elim (Bool-cases (safe_client config env d.url)) [
  | inl e ↦ rw e refl
  | inr e ↦ rw e refl
]

pub redrive_all-books :
    (libs : Libs) (config : Config) (env : WebhookDelivery → Env) (rows : List WebhookDelivery)
    (o : Outbound)
    → books (redrive_all libs config env rows o).db ≡ books o.db
unfolding redrive_all
redrive_all-books libs config env [] o = refl
redrive_all-books libs config env (d ∷ rows) o =
    redrive_all-books libs config env rows (redrive_one libs config (env d) d o)
    ∙ redrive_one-books libs config (env d) d o

resend-books :
    (libs : Libs) (config : Config) (env : Env) (payment_id : Text) (d : Option WebhookDelivery)
    (o : Outbound)
    → books (resend_if_of libs config env payment_id d o).1.db ≡ books o.db
unfolding update_webhook_delivery
resend-books libs config env payment_id none o = refl
resend-books libs config env payment_id (some d) o =
    elim (Bool-cases (d.payment_id == payment_id)) [
      | inr e ↦ rw e refl
      | inl e ↦ rw e (elim (Bool-cases (safe_client config env d.url)) [
        | inl f ↦ rw f refl
        | inr f ↦ rw f refl
      ])
    ]

pub redeliver_webhook-books :
    (libs : Libs) (config : Config) (env : Env) (merchant_id payment_id delivery_id : Text)
    (o : Outbound)
    → books (redeliver_webhook libs config env merchant_id payment_id delivery_id o).1.db
      ≡ books o.db
unfolding redeliver_webhook
redeliver_webhook-books libs config env merchant_id payment_id delivery_id o =
    elim (Bool-cases (owns_payment o.db merchant_id payment_id)) [
      | inr e ↦ rw e refl
      | inl e ↦
          rw e (resend-books libs config env payment_id (get_webhook_delivery o.db delivery_id) o)
    ]

pub redeliver_webhooks_bulk-books :
    (merchant_id : Text) (delivery_ids : Option (List Text)) (now : ℕ) (db : Db)
    → books (redeliver_webhooks_bulk merchant_id delivery_ids now db).1 ≡ books db
unfolding redeliver_webhooks_bulk requeue_failed_deliveries
redeliver_webhooks_bulk-books merchant_id delivery_ids now db = ground arith

-- A loop over batches keeps what each batch keeps.
drain-books :
    (batch : Db → ℕ × Db) (fuel cap total : ℕ) (db : Db) (r : ℕ × Db)
    → ((d : Db) → books (batch d).1 ≡ books d)
    → drain fuel cap batch total db ≡ some r
    → books r.1 ≡ books db
unfolding drain
drain-books batch zero cap total db r keeps h = cc
drain-books batch (suc fuel) cap total db r keeps h =
    let (n, d) = batch db in
    elim (Bool-cases (ltb n prune_batch || leb cap (total + n))) [
      | inl e ↦
          let last = rw e at h in
          let same : (total + n, d) ≡ r = cc in ap (λ (x : ℕ × Db). books x.1) (sym same) ∙ keeps db
      | inr e ↦ drain-books batch fuel cap (total + n) d r keeps (rw e at h) ∙ keeps db
    ]

-- A chain of partial steps, in which each step keeps the tables.
bind-books :
    {A B : Type 0} (x : Option (A × Db)) (f : A × Db → Option (B × Db)) (db : Db) (r : B × Db)
    → ((a : A × Db) → x ≡ some a → books a.1 ≡ books db)
    → ((a : A × Db) → f a ≡ some r → books r.1 ≡ books a.1)
    → (x >>= f) ≡ some r
    → books r.1 ≡ books db
bind-books none f db r first second h = cc
bind-books (some a) f db r first second h = second a h ∙ first a refl

prune_webhook_deliveries-books :
    (now days : ℕ) (db : Db) → books (prune_webhook_deliveries now days db).1 ≡ books db
unfolding prune_webhook_deliveries
prune_webhook_deliveries-books now days db = refl

compact-books :
    (now days : ℕ) (db : Db) → books (compact_stale_failed_deliveries now days db).1 ≡ books db
unfolding compact_stale_failed_deliveries
compact-books now days db = refl

prune_idempotency_keys-books :
    (now days : ℕ) (db : Db) → books (prune_idempotency_keys now days db).1 ≡ books db
unfolding prune_idempotency_keys
prune_idempotency_keys-books now days db = refl

prune_deliveries-books :
    (now days : ℕ) (db : Db) (r : ℕ × Db)
    → prune_deliveries now days db ≡ some r
    → books r.1 ≡ books db
prune_deliveries-books now days db r h =
    bind-books (drain_cycle (prune_webhook_deliveries now days) db) _ db r
      (λ a e.
        drain-books (prune_webhook_deliveries now days) rounds max_per_cycle 0 db a
          (prune_webhook_deliveries-books now days) e)
      (λ a e.
        bind-books (drain_cycle (compact_stale_failed_deliveries now days) a.1) _ a.1 r
          (λ b f.
            drain-books (compact_stale_failed_deliveries now days) rounds max_per_cycle 0 a.1 b
              (compact-books now days) f)
          (λ b f. let same : (a.0, b.1) ≡ r = cc in ap (λ (x : ℕ × Db). books x.1) (sym same)) e)
      h

if_some-books :
    (test : Bool) (x : Option (ℕ × Db)) (db : Db) (r : ℕ × Db)
    → ((a : ℕ × Db) → x ≡ some a → books a.1 ≡ books db)
    → (if test then x else some (0, db)) ≡ some r
    → books r.1 ≡ books db
if_some-books true x db r keeps h = keeps r h
if_some-books false x db r keeps h =
    let same : (0, db) ≡ r = cc in ap (λ (y : ℕ × Db). books y.1) (sym same)

pub prune_once-books :
    (now delivery_days idempotency_days : ℕ) (db : Db) (r : (ℕ × ℕ) × Db)
    → prune_once now delivery_days idempotency_days db ≡ some r
    → books r.1 ≡ books db
unfolding prune_once
prune_once-books now delivery_days idempotency_days db r h =
    bind-books (if ltb 0 delivery_days then prune_deliveries now delivery_days db else some (0, db))
      _ db r
      (λ a e.
        if_some-books (ltb 0 delivery_days) (prune_deliveries now delivery_days db) db a
          (prune_deliveries-books now delivery_days db) e)
      (λ a e.
        bind-books
          (if ltb 0 idempotency_days
            then drain_cycle (prune_idempotency_keys now idempotency_days) a.1
            else some (0, a.1))
          _ a.1 r
          (λ b f.
            if_some-books (ltb 0 idempotency_days)
              (drain_cycle (prune_idempotency_keys now idempotency_days) a.1) a.1 b
              (λ c g.
                drain-books (prune_idempotency_keys now idempotency_days) rounds max_per_cycle 0 a.1
                  c (prune_idempotency_keys-books now idempotency_days) g)
              f)
          (λ b f.
            let same : ((a.0, b.0), b.1) ≡ r = cc in
            ap (λ (x : (ℕ × ℕ) × Db). books x.1) (sym same))
          e)
      h
