-- ===== src/Startup.antt =====
-- src/main.rs: the tasks that the process starts, which of them `/health` requires, and what each of
-- them does first; and the timer loops of src/expiry.rs, src/retention.rs and src/webhook.rs around
-- the cycles. The server, the pool and the signals are the runtime's.
pub mod Green
pub mod Actions
use stellar_gate.Prelude.{
  ℕ, ◌+◌, Bool, true, false, ◌&&◌, not, Option, none, some, List, [], ◌∷◌, ltb, if◌then◌else◌,
}
use stellar_gate.Prelude.Int.{ℤ, pos, negsuc}
use stellar_gate.Text.{Text, codes}
use stellar_gate.Db.{Db, WebhookDelivery}
use stellar_gate.Config.{Config, ListenerMode, stream, poll}
use stellar_gate.Config.Assets.{gateway_configured}
use stellar_gate.Health.{TaskHealth, require, task_started, task_failed}
use stellar_gate.Supervise.{
  TaskExit, shutdown_requested, disabled_by_config, exited, Join, Round, Supervisor, Backoff,
  default_backoff, begin, round,
}
use stellar_gate.Horizon.Pace.{unconfigured}
use stellar_gate.Webhook.{Libs, Env, Outbound}
use stellar_gate.Webhook as Webhook
use stellar_gate.Webhook.Redrive.{redrive_once}
use stellar_gate.Expiry.{sweep_once}
use stellar_gate.Retention.{prune_once}

abbrev pub is_stream : ListenerMode → Bool
is_stream stream = true
is_stream poll = false

-- The facts of the configuration that decide over the tasks.
pub record Switches : Type 0 where
  pub configured : Bool
  pub streaming : Bool
  pub retaining : Bool

abbrev pub is_positive : ℤ → Bool
is_positive (pos n) = ltb 0 n
is_positive (negsuc n) = false

-- `run_retention_worker` has nothing to do where both retention times are 0 or less.
abbrev pub switches : {N : Type 0} → Config N → Switches
switches config = record {
  configured = gateway_configured config;
  streaming = is_stream config.listener_mode;
  retaining = not (
      not (is_positive config.webhook_delivery_retention_days)
      && not (is_positive config.idempotency_retention_days));
}

abbrev require_if : Bool → Text → TaskHealth → TaskHealth
require_if b name h = if b then require h name else h

unfoldable pub require_tasks : Switches → TaskHealth → TaskHealth
require_tasks s h =
    require
      (require
        (require
          (require_if (s.configured && s.streaming) (codes "stream")
            (require_if s.configured (codes "poller") h))
          (codes "sweeper"))
        (codes "retention"))
      (codes "redrive")

abbrev pub nothing_to_retain : TaskExit
nothing_to_retain =
    disabled_by_config
      (codes "both WEBHOOK_DELIVERY_RETENTION_DAYS and IDEMPOTENCY_RETENTION_DAYS are 0")

-- What a worker returns before its loop, if it does.
abbrev pub early_exit : Bool → TaskExit → Option TaskExit
early_exit enabled exit = if enabled then none else some exit

abbrev joined : TaskExit → Round
joined exit = record {
  shut_before = false;
  marked_stable = false;
  ending = some (exited exit);
  shut_after = false;
  shut_waiting = false;
}

-- The first turn of the supervisor of one task: a worker that goes on is counted as started, and one
-- that returns is joined.
abbrev pub launch : Text → Option TaskExit → TaskHealth → TaskHealth
launch name none h = task_started h name
launch name (some exit) h =
    (round default_backoff name (joined exit) (begin default_backoff h)).health

abbrev pub launch_if : Bool → Text → Option TaskExit → TaskHealth → TaskHealth
launch_if b name exit h = if b then launch name exit h else h

unfoldable pub launch_tasks : Switches → TaskHealth → TaskHealth
unfolding round
launch_tasks s h = launch (codes "redrive") none (
    launch (codes "retention") (early_exit s.retaining nothing_to_retain) (
      launch (codes "sweeper") none (
        launch (codes "poller") (early_exit s.configured unconfigured)
          (launch_if s.streaming (codes "stream") (early_exit s.configured unconfigured) h))))

-- The health behind the start: the tasks that are required, and then the tasks that run.
unfoldable pub boot : Switches → TaskHealth → TaskHealth
unfolding require_tasks launch_tasks
boot s h = launch_tasks s (require_tasks s h)

-- `join_task`: a supervisor that has panicked itself is counted as a failure.
unfoldable pub join_task : Bool → Text → TaskHealth → TaskHealth
join_task has_panicked name h = if has_panicked then task_failed h name else h

-- One turn of a timer loop: the outside of the cycle and its time.
pub record Turn (E : Type 0) : Type 0 where
  pub env : E
  pub now : ℕ

module _ (libs : Libs) (config : Webhook.Config) where
  -- Wait first, then sweep; the shutdown signal comes in the last wait.
  unfoldable pub run_sweeper : ℕ → List (Turn (ℕ → Env)) → Outbound → TaskExit × Outbound
  run_sweeper expiry_batch_size [] o = (shutdown_requested, o)
  run_sweeper expiry_batch_size (t ∷ turns) o =
      run_sweeper expiry_batch_size turns (sweep_once libs config t.env expiry_batch_size t.now o).1

  -- A pass first, and one behind each wait. The draws are those of the redrive query.
  unfoldable pub redrive_turns :
      List (Turn ((WebhookDelivery → Env) × (WebhookDelivery → ℕ))) → Outbound → Outbound
  redrive_turns [] o = o
  redrive_turns (t ∷ turns) o =
      redrive_turns turns (redrive_once libs config t.env.0 t.env.1 t.now o).1

  abbrev pub run_redrive_worker :
      Turn ((WebhookDelivery → Env) × (WebhookDelivery → ℕ))
      → List (Turn ((WebhookDelivery → Env) × (WebhookDelivery → ℕ)))
      → Outbound
      → TaskExit × Outbound
  run_redrive_worker first turns o = (shutdown_requested, redrive_turns (first ∷ turns) o)

abbrev pub days_of : ℤ → ℕ
days_of (pos n) = n
days_of (negsuc n) = 0

abbrev pub behind : Db → Option ((ℕ × ℕ) × Db) → Db
behind db none = db
behind db (some (counts, db')) = db'

-- By the times of the cycles.
unfoldable pub retention_turns : ℤ → ℤ → List ℕ → Db → Db
retention_turns delivery_days idempotency_days [] db = db
retention_turns delivery_days idempotency_days (now ∷ turns) db =
    retention_turns delivery_days idempotency_days turns
      (behind db (prune_once now (days_of delivery_days) (days_of idempotency_days) db))

unfoldable pub run_retention_worker : ℤ → ℤ → List ℕ → Db → TaskExit × Db
run_retention_worker delivery_days idempotency_days turns db =
    if not (is_positive delivery_days) && not (is_positive idempotency_days)
    then (nothing_to_retain, db)
    else (shutdown_requested, retention_turns delivery_days idempotency_days turns db)
