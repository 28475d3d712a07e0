-- ===== src/Webhook/Frame.antt =====
-- src/webhook.rs: a delivery writes to no table but `webhook_deliveries`.
use stellar_gate.Prelude.{
  ℕ, zero, suc, ◌+◌, ◌≡◌, refl, ◌∙◌, Bool, true, false, Option, List, ltb, Bool-cases, Option-cases,
  leb, ap, sym, ◌==◌, list_eq, nat_eq, inl, inr, if◌then◌else◌,
}
use stellar_gate.Text.{Text}
use stellar_gate.Db.{Db, Payment, Event, ProcessedTransaction, IdempotencyKey, KvState}
use stellar_gate.Db.Table.{count_where}
use stellar_gate.Db.Deliveries.{save_webhook_delivery, update_webhook_delivery}
use stellar_gate.Webhook.{
  Libs, Config, Env, Request, Outbound, is_success, attempt_loop, post, retried, deliver, dispatch,
  safe_client, build_payload, saved,
}

-- The tables that deliveries leave alone.
pub record Ledger : Type 0 where
  pub payments : List Payment
  pub processed_transactions : List ProcessedTransaction
  pub idempotency_keys : List IdempotencyKey
  pub kv_state : List KvState

abbrev pub ledger_of : Db → Ledger
ledger_of db = record {
  payments = db.payments;
  processed_transactions = db.processed_transactions;
  idempotency_keys = db.idempotency_keys;
  kv_state = db.kv_state;
}

again-ledger : (again : Bool) (o : Outbound) → (if again then retried o else o).db ≡ o.db
again-ledger true o = refl
again-ledger false o = refl

attempt_loop-ledger :
    (env : Env) (request : Request) (left attempt : ℕ) (o : Outbound)
    → ledger_of (attempt_loop env request left attempt o).db ≡ ledger_of o.db
unfolding attempt_loop update_webhook_delivery
attempt_loop-ledger env request zero attempt o = refl
attempt_loop-ledger env request (suc left) attempt o =
    elim (Bool-cases (is_success (env.respond attempt))) [
      | inl e ↦ rw e (ap ledger_of (again-ledger (ltb 1 attempt) o))
      | inr e ↦ rw e (
          attempt_loop-ledger env request left (attempt + 1)
            (post request (if ltb 1 attempt then retried o else o))
          ∙ ap ledger_of (again-ledger (ltb 1 attempt) o))
    ]

saved-ledger :
    (db : Db) (id payment_id url payload : Text) (event : Event) (now : ℕ) (o : Outbound)
    → o.db ≡ db
    → ledger_of (saved (save_webhook_delivery db id payment_id url payload event now) o).db
      ≡ ledger_of o.db
unfolding save_webhook_delivery
saved-ledger db id payment_id url payload event now o e =
    elim (Bool-cases (leb 1 (count_where (λ d. d.id == id) db.webhook_deliveries))) [
      | inl taken ↦ rw taken
      | inr new ↦ rw new (ap ledger_of (sym e))
    ]

deliver-ledger :
    (libs : Libs) (config : Config) (env : Env) (payment : Payment) (event : Event)
    (url body : Text) (o : Outbound)
    → ledger_of (deliver libs config env payment event url body o).db ≡ ledger_of o.db
unfolding deliver update_webhook_delivery
deliver-ledger libs config env payment event url body o =
    let recorded = saved-ledger o.db env.delivery_id payment.id url body event env.now o refl in
    elim (Bool-cases (safe_client config env url)) [
      | inl e ↦ rw e (attempt_loop-ledger env _ _ 1 _ ∙ recorded)
      | inr e ↦ rw e recorded
    ]

-- A webhook, whatever becomes of it, changes no intent, no credited transaction, no idempotency
-- key and no cursor.
pub dispatch-ledger :
    (libs : Libs) (config : Config) (env : Env) (payment : Payment) (event : Event)
    (delta : Option Text) (o : Outbound)
    → ledger_of (dispatch libs config env payment event delta o).db ≡ ledger_of o.db
unfolding dispatch
dispatch-ledger libs config env payment event delta o = elim (Option-cases payment.webhook_url) [
  | inl e ↦ rw (e, dispatch)
  | inr (url, e) ↦ elim (Option-cases (libs.to_vec (build_payload payment event delta))) [
    | inl none_body ↦ rw (e, dispatch) (rw (none_body, dispatch))
    | inr (body, some_body) ↦
        rw (e, dispatch)
          (rw (some_body, dispatch) (deliver-ledger libs config env payment event url body o))
  ]
]
