-- ===== src/Webhook/Outcome.antt =====
-- src/webhook.rs, `dispatch`: every branch of a delivery, as a client of the gateway sees it.
use stellar_gate.Prelude.{
  ℕ, suc, ◌+◌, ◌-◌, ◌^◌, ◌<◌, ◌≡◌, refl, ap, ◌∙◌, sym, subst, zero, Bool, true, false, Option, some,
  ◌++◌, arith, replicate, max, if◌then◌else◌,
}
use stellar_gate.Text.{Text}
use stellar_gate.Webhook.Rows.{IsStored, update_webhook_delivery-IsStored}
use stellar_gate.Db.{Db, Payment, Event, DeliveryStatus}
use stellar_gate.Db.Deliveries.{save_webhook_delivery, update_webhook_delivery}
use stellar_gate.Metrics.{
  WebhookMetrics, fetch_add, record_delivered, record_failed, record_latency_ms,
}
use stellar_gate.Webhook.{
  Libs, Config, Env, Request, Outbound, is_success, attempt_loop, finish, deliver, dispatch,
  make_request, safe_client, build_payload, saved,
}
use stellar_gate.Webhook.Attempts.{
  AllFail, tried, IsTried, attempt_loop-failed, attempt_loop-delivered, tried-IsTried,
  retried-tried,
}

-- The inputs of one delivery.
pub record Job : Type 0 where
  pub libs : Libs
  pub config : Config
  pub env : Env
  pub payment : Payment
  pub event : Event
  pub delta : Option Text
  pub url : Text
  pub body : Text

abbrev pub run : Job → Outbound → Outbound
run j o = dispatch j.libs j.config j.env j.payment j.event j.delta o

-- The payment has a webhook URL and its payload serialises.
pub record IsReady (j : Job) : Type 0 where
  pub has_url : j.payment.webhook_url ≡ some j.url
  pub serialises : j.libs.to_vec (build_payload j.payment j.event j.delta) ≡ some j.body

abbrev pub attempts : Job → ℕ
attempts j = max j.config.webhook_retry_attempts 1

abbrev pub request : Job → Request
request j = make_request j.libs j.config j.env j.url j.body j.event

-- The state with the delivery's row saved.
abbrev pub recorded : Job → Outbound → Outbound
recorded j o =
    saved (save_webhook_delivery o.db j.env.delivery_id j.payment.id j.url j.body j.event j.env.now)
      o

abbrev pub bump : Bool → ℕ → ℕ
bump counted n = if counted then fetch_add n 1 else n

abbrev pub is_delivered : DeliveryStatus → Bool
is_delivered DeliveryStatus.delivered = true
is_delivered _ = false

abbrev pub is_failed : DeliveryStatus → Bool
is_failed DeliveryStatus.failed = true
is_failed _ = false

-- What a delivery leaves that sent `count` requests and ended with `outcome`: the same signed
-- request each time, one more terminal outcome, a retry for each request but the first, and the
-- row with its outcome and its number of attempts.
pub record IsOutcome (j : Job) (outcome : DeliveryStatus) (count : ℕ) (o o' : Outbound)
    : Type 0 where
  pub sent : o'.sent ≡ replicate count (request j) ++ o.sent
  pub delivered : o'.metrics.delivered ≡ bump (is_delivered outcome) o.metrics.delivered
  pub failed : o'.metrics.failed ≡ bump (is_failed outcome) o.metrics.failed
  pub retried : o'.metrics.retried ≡ o.metrics.retried + (count - 1)
  pub row :
      o'.db ≡ update_webhook_delivery (recorded j o).db j.env.delivery_id outcome count j.env.now
  pub stored :
      IsStored j.env.delivery_id outcome count j.env.now o.db.webhook_deliveries
        o'.db.webhook_deliveries

-- What the table holds where the row is written.
pub stored_row :
    (j : Job) (outcome : DeliveryStatus) (count : ℕ) (o : Outbound) (db : Db)
    → db ≡ update_webhook_delivery (recorded j o).db j.env.delivery_id outcome count j.env.now
    → IsStored j.env.delivery_id outcome count j.env.now o.db.webhook_deliveries
        db.webhook_deliveries
stored_row j outcome count o db e =
    subst
      (λ d.
        IsStored j.env.delivery_id outcome count j.env.now o.db.webhook_deliveries
          d.webhook_deliveries)
      (sym e)
      (update_webhook_delivery-IsStored j.env.delivery_id j.payment.id j.url j.body j.event
        j.env.now o outcome count j.env.now)

pub dispatch-deliver :
    (j : Job) (o : Outbound)
    → IsReady j
    → run j o ≡ deliver j.libs j.config j.env j.payment j.event j.url j.body o
unfolding dispatch
dispatch-deliver j o ready = rw (ready.has_url, dispatch) (rw (ready.serialises, dispatch))

deliver-attempt_loop :
    (j : Job) (o : Outbound)
    → safe_client j.config j.env j.url ≡ true
    → deliver j.libs j.config j.env j.payment j.event j.url j.body o
      ≡ attempt_loop j.env (request j) (attempts j) 1 (recorded j o)
unfolding deliver
deliver-attempt_loop j o safe = rw (safe, deliver)

-- `finish` on the state after the requests, for either outcome.
abbrev closed : Job → DeliveryStatus → (WebhookMetrics → WebhookMetrics) → ℕ → Outbound → Outbound
closed j outcome count k o =
    finish j.env outcome count (suc k) (tried j.env (request j) (suc k) 1 (recorded j o))

pub saved-keeps :
    (j : Job) (o : Outbound) → ((recorded j o).sent ≡ o.sent) × ((recorded j o).metrics ≡ o.metrics)
unfolding save_webhook_delivery
saved-keeps j o = ground arith

tried-recorded :
    (j : Job) (k : ℕ) (o : Outbound)
    → o.metrics.retried + k < 2 ^ 64
    → (tried j.env (request j) (suc k) 1 (recorded j o)).metrics.retried ≡ o.metrics.retried + k
tried-recorded j k o fits =
    let e : (recorded j o).metrics.retried ≡ o.metrics.retried =
      ap (λ m. m.retried) (saved-keeps j o).1 in
    omega (arith, e, retried-tried j.env (request j) k (recorded j o) (omega (arith, e)))

module _ (j : Job) (k : ℕ) (o : Outbound) (fits : o.metrics.retried + k < 2 ^ 64) where
  abbrev facts :
      IsTried (request j) (suc k) (recorded j o) (tried j.env (request j) (suc k) 1 (recorded j o))
  facts = tried-IsTried j.env (request j) (suc k) 1 (recorded j o)

  sent-closed :
      (tried j.env (request j) (suc k) 1 (recorded j o)).sent
      ≡ replicate (suc k) (request j) ++ o.sent
  sent-closed = facts.0 ∙ ap (λ xs. replicate (suc k) (request j) ++ xs) (saved-keeps j o).0

  delivered-closed :
      (tried j.env (request j) (suc k) 1 (recorded j o)).metrics.delivered ≡ o.metrics.delivered
  delivered-closed = facts.1 ∙ ap (λ m. m.delivered) (saved-keeps j o).1

  failed-closed :
      (tried j.env (request j) (suc k) 1 (recorded j o)).metrics.failed ≡ o.metrics.failed
  failed-closed = facts.2 ∙ ap (λ m. m.failed) (saved-keeps j o).1

  row-closed :
      (outcome : DeliveryStatus)
      → (closed j outcome (λ m. m) k o).db
        ≡ update_webhook_delivery (recorded j o).db j.env.delivery_id outcome (suc k) j.env.now
  row-closed outcome =
      ap (λ db. update_webhook_delivery db j.env.delivery_id outcome (suc k) j.env.now) facts.3

  closed-delivered :
      IsOutcome j DeliveryStatus.delivered
        (suc k)
        o
        (closed j DeliveryStatus.delivered record_delivered k o)
  unfolding record_delivered record_latency_ms
  closed-delivered = record {
    sent = sent-closed;
    delivered = ap (λ n. fetch_add n 1) delivered-closed;
    failed = failed-closed;
    retried = omega (arith, tried-recorded j k o fits);
    row = row-closed DeliveryStatus.delivered;
    stored =
        stored_row j DeliveryStatus.delivered (suc k) o _ (row-closed DeliveryStatus.delivered);
  }

  closed-failed :
      IsOutcome j DeliveryStatus.failed (suc k) o (closed j DeliveryStatus.failed record_failed k o)
  unfolding record_failed record_latency_ms
  closed-failed = record {
    sent = sent-closed;
    delivered = delivered-closed;
    failed = ap (λ n. fetch_add n 1) failed-closed;
    retried = omega (arith, tried-recorded j k o fits);
    row = row-closed DeliveryStatus.failed;
    stored = stored_row j DeliveryStatus.failed (suc k) o _ (row-closed DeliveryStatus.failed);
  }

-- With a webhook URL, a payload that serialises and a target that passes the guard, a receiver
-- that first answers attempt `k + 1` with success, within the configured attempts and while the
-- counter of retries has room for `k` more, gets exactly `k + 1` identical signed requests; the
-- row is delivered with that number, rows of other deliveries are as before, and `k` retries and
-- one delivery are counted.
pub dispatch-delivered :
    (j : Job) (k : ℕ) (o : Outbound)
    → IsReady j
    → safe_client j.config j.env j.url ≡ true
    → AllFail j.env 1 k
    → is_success (j.env.respond (1 + k)) ≡ true
    → k < attempts j
    → o.metrics.retried + k < 2 ^ 64
    → IsOutcome j DeliveryStatus.delivered (suc k) o (run j o)
dispatch-delivered j k o ready safe fail good room fits =
    subst (IsOutcome j DeliveryStatus.delivered (suc k) o)
      (sym (
        dispatch-deliver j o ready
        ∙ deliver-attempt_loop j o safe
        ∙ attempt_loop-delivered j.env (request j) (attempts j) 1 k (recorded j o) fail good room
        ∙ ap
            (λ n.
              finish j.env DeliveryStatus.delivered record_delivered n
                (tried j.env (request j) (suc k) 1 (recorded j o)))
            (omega arith)))
      (closed-delivered j k o fits)

-- With a webhook URL, a payload that serialises and a target that passes the guard, a receiver
-- that answers none of the configured attempts with success gets all of them, while the counter of
-- retries has room for them; the row is failed with their number, rows of other deliveries are as
-- before, and the retries and one failure are counted.
pub dispatch-failed :
    (j : Job) (o : Outbound)
    → IsReady j
    → safe_client j.config j.env j.url ≡ true
    → AllFail j.env 1 (attempts j)
    → o.metrics.retried + attempts j < 2 ^ 64
    → IsOutcome j DeliveryStatus.failed (attempts j) o (run j o)
dispatch-failed j o ready safe fail fits = go (attempts j) refl
  where
    go : (n : ℕ) → attempts j ≡ n → IsOutcome j DeliveryStatus.failed (attempts j) o (run j o)
    go zero e = absurd (omega (arith, e))
    go (suc k) e = rw e (
        subst (IsOutcome j DeliveryStatus.failed (suc k) o)
          (sym (
            dispatch-deliver j o ready
            ∙ deliver-attempt_loop j o safe
            ∙ attempt_loop-failed j.env (request j) (attempts j) 1 (recorded j o) fail
            ∙ ap
                (λ n.
                  finish j.env DeliveryStatus.failed record_failed (1 + n - 1)
                    (tried j.env (request j) n 1 (recorded j o)))
                e
            ∙ ap
                (λ n.
                  finish j.env DeliveryStatus.failed record_failed n
                    (tried j.env (request j) (suc k) 1 (recorded j o)))
                (omega arith)))
          (closed-failed j k o (omega (arith, e))))
