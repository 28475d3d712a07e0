-- ===== src/Gateway/Run.antt =====
-- The whole of what changes the tables, as one list of actions: the cycles of the background tasks
-- of src/main.rs, and the requests that src/api/mod.rs routes. Each action stands for the calls that
-- it names, one behind the other.
use stellar_gate.Prelude.{ℕ, Option, none, some, List, [], ◌∷◌}
use stellar_gate.Text.{Text}
use stellar_gate.Db.{Db, WebhookDelivery}
use stellar_gate.Metrics.{AuthMetrics}
use stellar_gate.Health.{TaskHealth}
use stellar_gate.Webhook as Webhook
use stellar_gate.Webhook.{Libs, Env, Outbound}
use stellar_gate.Webhook.Redrive.{redrive_once}
use stellar_gate.Config.{Config}
use stellar_gate.Retention.{prune_once}
use stellar_gate.Expiry.{sweep_once}
use stellar_gate.Horizon.Poll.{HorizonApi, Cycle, poll_once}
use stellar_gate.Horizon.Sse.{Decoding, Stream, stream_once}
use stellar_gate.Api.{AppState}
use stellar_gate.Api.Create.{CreatePaymentRequest, Outside, create}
use stellar_gate.Api.Keys.Requests.{KeyRequest, serve}
use stellar_gate.Api.Webhooks.{redeliver_webhook, redeliver_webhooks_bulk}
use stellar_gate.Gateway.Tasks.{cycle_outbound}

-- `AppState`: the tables with the counters and the requests that went out, the counters of the
-- guard, and the health of the tasks.
pub record Gateway : Type 0 where
  pub outbound : Outbound
  pub auth_metrics : AuthMetrics
  pub task_health : TaskHealth

-- What an action meets of its outside is part of it.
pub data Action : Type 0 where
  poll : HorizonApi → (ℕ → Env) → ℕ → Action
  stream : (ℕ → Env) → Text → List (Option (List ℕ)) → Action
  sweep : (ℕ → Env) → ℕ → ℕ → Action
  redrive : (WebhookDelivery → Env) → (WebhookDelivery → ℕ) → ℕ → Action
  prune : ℕ → ℕ → ℕ → Action
  create_intent : Outside → Text → CreatePaymentRequest → Action
  key_request : KeyRequest → Action
  redeliver : Env → Text → Text → Text → Action
  redeliver_bulk : Text → Option (List Text) → ℕ → Action

abbrev pub with_db : Gateway → Db → Gateway
with_db g db = record g { outbound = record g.outbound { db = db } }

abbrev pub with_outbound : Gateway → Outbound → Gateway
with_outbound g o = record g { outbound = o }

abbrev pub polled : Gateway → Cycle × TaskHealth → Gateway
polled g (cycle, h) = record g { outbound = cycle_outbound cycle; task_health = h }

abbrev pub streamed : Gateway → Stream → Gateway
streamed g s = record g { outbound = s.outbound; task_health = s.health }

abbrev pub keyed : Gateway → AppState → Gateway
keyed g s = record g { outbound = record g.outbound { db = s.db }; auth_metrics = s.auth_metrics }

abbrev pub pruned : Gateway → Option ((ℕ × ℕ) × Db) → Gateway
pruned g none = g
pruned g (some (counts, db)) = with_db g db

-- The parts of a running gateway: the libraries, what the webhooks and what the requests read of
-- the configuration, and the hash of a key.
pub record Parts (N : Type 0) : Type 0 where
  pub libs : Libs
  pub decoding : Decoding
  pub webhook_config : Webhook.Config
  pub config : Config N
  pub hash_api_key : Text → Text

module _ {N : Type 0} (parts : Parts N) where
  unfoldable pub act : Action → Gateway → Gateway
  act (poll api env now) g =
      polled g (poll_once api parts.libs parts.webhook_config env now g.task_health g.outbound)
  act (stream env cursor chunks) g = streamed g (
      stream_once parts.decoding parts.libs parts.webhook_config env chunks
        (record { cursor = cursor; seen = 0; health = g.task_health; outbound = g.outbound }))
  act (sweep env expiry_batch_size now) g =
      with_outbound g
        (sweep_once parts.libs parts.webhook_config env expiry_batch_size now g.outbound).1
  act (redrive env random now) g =
      with_outbound g (redrive_once parts.libs parts.webhook_config env random now g.outbound).1
  act (prune now delivery_days idempotency_days) g =
      pruned g (prune_once now delivery_days idempotency_days g.outbound.db)
  act (create_intent outside merchant_id body) g =
      with_db g (create parts.config outside merchant_id body g.outbound.db).1
  act (key_request request) g = keyed g (
      serve parts.hash_api_key request
        (record { db = g.outbound.db; auth_metrics = g.auth_metrics }))
  act (redeliver env merchant_id payment_id delivery_id) g =
      with_outbound g
        (redeliver_webhook parts.libs parts.webhook_config env merchant_id payment_id delivery_id
          g.outbound).1
  act (redeliver_bulk merchant_id delivery_ids now) g =
      with_db g (redeliver_webhooks_bulk merchant_id delivery_ids now g.outbound.db).1

  unfoldable pub run : List Action → Gateway → Gateway
  unfolding act
  run [] g = g
  run (action ∷ actions) g = run actions (act action g)
