-- ===== src/Gateway/Lives.antt =====
-- What holds of every intent, whatever the tasks and the requests do, in any order.
use stellar_gate.Prelude.{ℕ, ◌≤◌, ◌≡◌, ap, inl, inr, some, List, [], ◌∷◌, All, Option-cases}
use stellar_gate.Text.{Text}
use stellar_gate.Db.{Db, Payment, completed}
use stellar_gate.Db.Payments.{get_payment, ledger_sum}
use stellar_gate.Retention.{prune_once}
use stellar_gate.Webhook.Redrive.{redrive_once}
use stellar_gate.Db.Deliveries.{list_redrivable_deliveries}
use stellar_gate.Gateway.Lifecycle.{
  account, expected, Reach, IsPaid, IsKept, Reach-IsPaid, Reach-IsKept, IsKept-start, paid_in_full,
}
use stellar_gate.Gateway.Lookup.{HasDistinctIds}
use stellar_gate.Gateway.Statements.{Evolves, Evolves-same, Evolves-trans}
use stellar_gate.Gateway.Creating.{IsOrderly, create-Evolves, unchanged}
use stellar_gate.Gateway.Others.{
  books, redrive_all-books, redeliver_webhook-books, redeliver_webhooks_bulk-books,
  prune_once-books,
}
use stellar_gate.Gateway.Keyed.{serve-books}
use stellar_gate.Gateway.Tasks.{poll_once-Evolves, sweep_once-Evolves}
use stellar_gate.Gateway.Streamed.{stream_once-Evolves}
use stellar_gate.Gateway.Run.{
  Gateway, Action, poll, stream, sweep, redrive, prune, create_intent, key_request, redeliver,
  redeliver_bulk, pruned, Parts, act, run,
}

-- What other requests do while one to make an intent waits follows the life of every intent.
abbrev pub IsOrderlyAction : Action → Type 0
IsOrderlyAction (create_intent outside merchant_id body) = (i : ℕ) → IsOrderly (outside.meanwhile i)
IsOrderlyAction (poll api env now) = Unit
IsOrderlyAction (stream env cursor chunks) = Unit
IsOrderlyAction (sweep env batch now) = Unit
IsOrderlyAction (redrive env random now) = Unit
IsOrderlyAction (prune now delivery_days idempotency_days) = Unit
IsOrderlyAction (key_request request) = Unit
IsOrderlyAction (redeliver env merchant_id payment_id delivery_id) = Unit
IsOrderlyAction (redeliver_bulk merchant_id delivery_ids now) = Unit

-- Where the tables of the intents and of the ledger are as before.
kept_books : (db db' : Db) → HasDistinctIds db.payments → books db' ≡ books db → Evolves db db'
kept_books db db' distinct same =
    Evolves-same db db' distinct (ap (λ b. b.0) same) (ap (λ b. b.1) same)

pruned-Evolves :
    (g : Gateway) (now delivery_days idempotency_days : ℕ)
    → HasDistinctIds g.outbound.db.payments
    → Evolves g.outbound.db
        (pruned g (prune_once now delivery_days idempotency_days g.outbound.db)).outbound.db
pruned-Evolves g now delivery_days idempotency_days distinct =
    elim (Option-cases (prune_once now delivery_days idempotency_days g.outbound.db)) [
      | inl e ↦ rw e (unchanged g.outbound.db distinct)
      | inr (r, e) ↦ rw e (
          kept_books g.outbound.db r.1 distinct
            (prune_once-books now delivery_days idempotency_days g.outbound.db r e))
    ]

module _ {N : Type 0} (parts : Parts N) where
  act-Evolves :
      (action : Action) (g : Gateway)
      → IsOrderlyAction action
      → HasDistinctIds g.outbound.db.payments
      → Evolves g.outbound.db (act parts action g).outbound.db
  unfolding act redrive_once
  act-Evolves (poll api env now) g orderly distinct =
      poll_once-Evolves parts.libs parts.webhook_config api env now g.task_health g.outbound
        distinct
  act-Evolves (stream env cursor chunks) g orderly distinct =
      stream_once-Evolves parts.decoding parts.libs parts.webhook_config env chunks
        (record { cursor = cursor; seen = 0; health = g.task_health; outbound = g.outbound })
        distinct
  act-Evolves (sweep env batch now) g orderly distinct =
      sweep_once-Evolves parts.libs parts.webhook_config env batch now g.outbound distinct
  act-Evolves (redrive env random now) g orderly distinct = kept_books g.outbound.db _ distinct (
      redrive_all-books parts.libs parts.webhook_config env
        (list_redrivable_deliveries g.outbound.db parts.webhook_config.redrive random now)
        g.outbound)
  act-Evolves (prune now delivery_days idempotency_days) g orderly distinct =
      pruned-Evolves g now delivery_days idempotency_days distinct
  act-Evolves (create_intent outside merchant_id body) g orderly distinct =
      create-Evolves parts.config outside orderly merchant_id body g.outbound.db distinct
  act-Evolves (key_request request) g orderly distinct = kept_books g.outbound.db _ distinct (
      serve-books parts.hash_api_key request
        (record { db = g.outbound.db; auth_metrics = g.auth_metrics }))
  act-Evolves (redeliver env merchant_id payment_id delivery_id) g orderly distinct =
      kept_books g.outbound.db _ distinct (
        redeliver_webhook-books parts.libs parts.webhook_config env merchant_id payment_id
          delivery_id g.outbound)
  act-Evolves (redeliver_bulk merchant_id delivery_ids now) g orderly distinct =
      kept_books g.outbound.db _ distinct
        (redeliver_webhooks_bulk-books merchant_id delivery_ids now g.outbound.db)

  pub run-Evolves :
      (actions : List Action) (g : Gateway)
      → All IsOrderlyAction actions
      → HasDistinctIds g.outbound.db.payments
      → Evolves g.outbound.db (run parts actions g).outbound.db
  unfolding run
  run-Evolves [] g orderly distinct = unchanged g.outbound.db distinct
  run-Evolves (action ∷ actions) g orderly distinct =
      let first = act-Evolves action g orderly.0 distinct in
      let g' = act parts action g in
      Evolves-trans g.outbound.db g'.outbound.db _ first
        (run-Evolves actions g' orderly.1 first.distinct)

  -- From tables whose intents have distinct ids, any list of actions moves every payment id as the
  -- abstract machine of `Lifecycle` allows: opened as pending once, credited and settled only
  -- while it is pending or underpaid, settled at exactly the sum of its ledger, expired only while
  -- it is pending or underpaid and its time is up. An action is a poll cycle, a connection of the
  -- stream, a sweep, a redrive or a retention pass, or a request; the other requests that a
  -- request to make an intent waits for have to move the ids so too, and to keep in the ledger
  -- every transaction that an intent names.
  pub run-Reach :
      (actions : List Action) (g : Gateway) (id : Text)
      → All IsOrderlyAction actions
      → HasDistinctIds g.outbound.db.payments
      → Reach (account g.outbound.db id) (account (run parts actions g).outbound.db id)
  run-Reach actions g id orderly distinct = (run-Evolves actions g orderly distinct).moves id

  -- Under the same conditions, and if it held at the start for the id, an intent that reads as
  -- completed behind any list of actions has at least the amount that it asks for in the ledger.
  pub run-IsPaid :
      (actions : List Action) (g : Gateway) (id : Text) (p : Payment)
      → All IsOrderlyAction actions
      → HasDistinctIds g.outbound.db.payments
      → IsPaid (account g.outbound.db id)
      → get_payment (run parts actions g).outbound.db id ≡ some p
      → p.status ≡ completed
      → expected p ≤ ledger_sum id (run parts actions g).outbound.db.processed_transactions
  run-IsPaid actions g id p orderly distinct paid there done =
      paid_in_full (account (run parts actions g).outbound.db id) p
        (Reach-IsPaid (run-Reach actions g id orderly distinct) paid) there done

  -- Under the same conditions, an intent that is there at the start is there behind any list of
  -- actions, with the same merchant, destination, memo, amount, asset, webhook and times; if it
  -- was completed or expired it is unchanged in every column; and the sum of its ledger has not
  -- gone down.
  pub run-IsKept :
      (actions : List Action) (g : Gateway) (id : Text) (p : Payment)
      → All IsOrderlyAction actions
      → HasDistinctIds g.outbound.db.payments
      → get_payment g.outbound.db id ≡ some p
      → IsKept p
          (ledger_sum id g.outbound.db.processed_transactions)
          (account (run parts actions g).outbound.db id)
  run-IsKept actions g id p orderly distinct there =
      Reach-IsKept (run-Reach actions g id orderly distinct)
        (IsKept-start p (account g.outbound.db id) there)
