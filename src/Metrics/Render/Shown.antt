-- ===== src/Metrics/Render/Shown.antt =====
-- src/metrics.rs, `render`: which counter stands under which key of the text.
use stellar_gate.Prelude.{
  ℕ, ◌≡◌, refl, ◌∙◌, true, false, some, List, [], ◌∷◌, ◌++◌, ◌==◌, list_eq, nat_eq, list_beq, all,
}
use stellar_gate.Text.{Text, codes}
use stellar_gate.Text.Digits.{show, show_fuel}
use stellar_gate.Health.{TaskHealth, expected_tasks, live_tasks}
use stellar_gate.Health.Snapshot.{TaskSnapshot, snapshot}
use stellar_gate.Metrics.{WebhookMetrics, AuthMetrics, HorizonMetrics}
use stellar_gate.Metrics.Render.{Sample, labelled, per_task, families, render}
use stellar_gate.Metrics.Render.Scrape.{scrape, reading, all_samples, is_plain, is_key, IsKey}
use stellar_gate.Metrics.Render.Readings.{scrape-render}

-- The samples of the tasks do not answer another key.
reading-per_task :
    (key name : Text) (value : TaskSnapshot → ℕ) (snaps : List TaskSnapshot) (more : List Sample)
    → ((task : Text) → (labelled name (codes "task") task == key) ≡ false)
    → reading key (per_task name value snaps ++ more) ≡ reading key more
reading-per_task key name value [] more other = refl
reading-per_task key name value (snap ∷ snaps) more other =
    rw (other snap.name) (reading-per_task key name value snaps more other)

module _ (keys : List Text) (webhook : WebhookMetrics) (auth : AuthMetrics) (tasks : TaskHealth)
    (horizon : HorizonMetrics) where
  abbrev text : Text
  text = render keys webhook auth tasks horizon

  -- The value `n` stands under `key`.
  abbrev pub Shows : Text → ℕ → Type 0
  Shows key n = scrape key text ≡ some (show n)

  abbrev samples : List Sample
  samples = all_samples (families keys webhook auth tasks horizon)

  -- Every counter and gauge that is no task's, under its key.
  abbrev pub AreShown : ℕ → ℕ → ℕ → ℕ → ℕ → ℕ → ℕ → ℕ → ℕ → ℕ → Type 0
  AreShown b0 b1 b2 b3 b4 b5 b6 b7 b8 b9 =
      Shows (codes "stellargate_webhook_deliveries_total{outcome=\"delivered\"}") webhook.delivered
      × Shows (codes "stellargate_webhook_deliveries_total{outcome=\"failed\"}") webhook.failed
      × Shows (codes "stellargate_webhook_retries_total") webhook.retried
      × Shows (codes "stellargate_webhook_delivery_latency_ms_bucket{le=\"10\"}") b0
      × Shows (codes "stellargate_webhook_delivery_latency_ms_bucket{le=\"50\"}") b1
      × Shows (codes "stellargate_webhook_delivery_latency_ms_bucket{le=\"100\"}") b2
      × Shows (codes "stellargate_webhook_delivery_latency_ms_bucket{le=\"250\"}") b3
      × Shows (codes "stellargate_webhook_delivery_latency_ms_bucket{le=\"500\"}") b4
      × Shows (codes "stellargate_webhook_delivery_latency_ms_bucket{le=\"1000\"}") b5
      × Shows (codes "stellargate_webhook_delivery_latency_ms_bucket{le=\"2500\"}") b6
      × Shows (codes "stellargate_webhook_delivery_latency_ms_bucket{le=\"5000\"}") b7
      × Shows (codes "stellargate_webhook_delivery_latency_ms_bucket{le=\"10000\"}") b8
      × Shows (codes "stellargate_webhook_delivery_latency_ms_bucket{le=\"+Inf\"}") b9
      × Shows (codes "stellargate_webhook_delivery_latency_ms_sum") webhook.latency_sum_ms
      × Shows (codes "stellargate_webhook_delivery_latency_ms_count") webhook.latency_count
      × Shows (codes "stellargate_auth_attempts_total{outcome=\"success\"}") auth.success
      × Shows (codes "stellargate_auth_attempts_total{outcome=\"failure\",reason=\"missing_key\"}")
          auth.failure_missing_key
      × Shows (codes "stellargate_auth_attempts_total{outcome=\"failure\",reason=\"invalid_key\"}")
          auth.failure_invalid_key
      × Shows
          (codes "stellargate_auth_attempts_total{outcome=\"failure\",reason=\"internal_error\"}")
          auth.failure_internal_error
      × Shows (codes "stellargate_tasks_started_total") tasks.started
      × Shows (codes "stellargate_tasks_stopped_total") tasks.stopped
      × Shows (codes "stellargate_tasks_failed_total") tasks.failed
      × Shows (codes "stellargate_tasks_expected") (expected_tasks tasks)
      × Shows (codes "stellargate_tasks_live") (live_tasks tasks)
      × Shows (codes "stellargate_horizon_poll_cycles_total{outcome=\"success\"}") horizon.success
      × Shows (codes "stellargate_horizon_poll_cycles_total{outcome=\"rate_limited\"}")
          horizon.rate_limited
      × Shows (codes "stellargate_horizon_poll_cycles_total{outcome=\"error\"}") horizon.error
      × Shows (codes "stellargate_horizon_last_successful_poll_timestamp_seconds")
          tasks.last_success_unix

  module _ (required : all is_plain tasks.required ≡ true) (others : all is_plain keys ≡ true) where
    shown_by : (key : Text) (n : ℕ) → IsKey key → reading key samples ≡ some (show n) → Shows key n
    shown_by key n is_key e =
        scrape-render keys webhook auth tasks horizon key is_key required others ∙ e

    -- Past the three families for each task.
    behind_tasks :
        (key : Text)
        → ((task : Text)
            → (labelled (codes "stellargate_task_restarts_total") (codes "task") task == key)
              ≡ false)
        → ((task : Text)
            → (labelled (codes "stellargate_task_running") (codes "task") task == key) ≡ false)
        → ((task : Text)
            → (labelled (codes "stellargate_task_consecutive_failures") (codes "task") task == key)
              ≡ false)
        → (restarts running failures : TaskSnapshot → ℕ) (more : List Sample)
        → reading key (
            per_task (codes "stellargate_task_restarts_total") restarts (snapshot keys tasks)
            ++ (per_task (codes "stellargate_task_running") running (snapshot keys tasks)
                ++ (per_task
                      (codes "stellargate_task_consecutive_failures")
                      failures
                      (snapshot keys tasks)
                    ++ more)))
          ≡ reading key more
    behind_tasks key first second third restarts running failures more =
        reading-per_task key (codes "stellargate_task_restarts_total") restarts
          (snapshot keys tasks) _ first
        ∙ reading-per_task key (codes "stellargate_task_running") running (snapshot keys tasks) _
            second
        ∙ reading-per_task key (codes "stellargate_task_consecutive_failures") failures
            (snapshot keys tasks) more third

    -- With names of tasks that have no space and no line end, and the ten slots of the histogram,
    -- a reader of the text of `GET /metrics` finds under the key of every counter and gauge that
    -- is not one task's the digits of its value: the deliveries by outcome, the retries, the ten
    -- buckets under their bounds, the sum and the count, the four decisions of authentication, the
    -- tasks started, stopped, failed, expected and live, the poll cycles by outcome, and the time
    -- of the last success.
    pub scrape-Shows :
        (b0 b1 b2 b3 b4 b5 b6 b7 b8 b9 : ℕ)
        → webhook.latency_buckets ≡ b0 ∷ b1 ∷ b2 ∷ b3 ∷ b4 ∷ b5 ∷ b6 ∷ b7 ∷ b8 ∷ b9 ∷ []
        → AreShown b0 b1 b2 b3 b4 b5 b6 b7 b8 b9
    unfolding all_samples list_beq show show_fuel
    scrape-Shows b0 b1 b2 b3 b4 b5 b6 b7 b8 b9 e = (
      shown_by (codes "stellargate_webhook_deliveries_total{outcome=\"delivered\"}")
          webhook.delivered refl refl,
      shown_by (codes "stellargate_webhook_deliveries_total{outcome=\"failed\"}") webhook.failed
          refl refl,
      shown_by (codes "stellargate_webhook_retries_total") webhook.retried refl refl,
      shown_by (codes "stellargate_webhook_delivery_latency_ms_bucket{le=\"10\"}") b0 refl
          (rw e refl),
      shown_by (codes "stellargate_webhook_delivery_latency_ms_bucket{le=\"50\"}") b1 refl
          (rw e refl),
      shown_by (codes "stellargate_webhook_delivery_latency_ms_bucket{le=\"100\"}") b2 refl
          (rw e refl),
      shown_by (codes "stellargate_webhook_delivery_latency_ms_bucket{le=\"250\"}") b3 refl
          (rw e refl),
      shown_by (codes "stellargate_webhook_delivery_latency_ms_bucket{le=\"500\"}") b4 refl
          (rw e refl),
      shown_by (codes "stellargate_webhook_delivery_latency_ms_bucket{le=\"1000\"}") b5 refl
          (rw e refl),
      shown_by (codes "stellargate_webhook_delivery_latency_ms_bucket{le=\"2500\"}") b6 refl
          (rw e refl),
      shown_by (codes "stellargate_webhook_delivery_latency_ms_bucket{le=\"5000\"}") b7 refl
          (rw e refl),
      shown_by (codes "stellargate_webhook_delivery_latency_ms_bucket{le=\"10000\"}") b8 refl
          (rw e refl),
      shown_by (codes "stellargate_webhook_delivery_latency_ms_bucket{le=\"+Inf\"}") b9 refl
          (rw e refl),
      shown_by (codes "stellargate_webhook_delivery_latency_ms_sum") webhook.latency_sum_ms refl
          (rw e refl),
      shown_by (codes "stellargate_webhook_delivery_latency_ms_count") webhook.latency_count refl
          (rw e refl),
      shown_by (codes "stellargate_auth_attempts_total{outcome=\"success\"}") auth.success refl
          (rw e refl),
      shown_by (codes "stellargate_auth_attempts_total{outcome=\"failure\",reason=\"missing_key\"}")
          auth.failure_missing_key refl (rw e refl),
      shown_by (codes "stellargate_auth_attempts_total{outcome=\"failure\",reason=\"invalid_key\"}")
          auth.failure_invalid_key refl (rw e refl),
      shown_by
          (codes "stellargate_auth_attempts_total{outcome=\"failure\",reason=\"internal_error\"}")
          auth.failure_internal_error refl (rw e refl),
      shown_by (codes "stellargate_tasks_started_total") tasks.started refl (rw e refl),
      shown_by (codes "stellargate_tasks_stopped_total") tasks.stopped refl (rw e refl),
      shown_by (codes "stellargate_tasks_failed_total") tasks.failed refl (rw e refl),
      shown_by (codes "stellargate_tasks_expected") (expected_tasks tasks) refl (
          rw e (
            behind_tasks (codes "stellargate_tasks_expected") (λ t. refl) (λ t. refl) (λ t. refl) _
              _ _ _)),
      shown_by (codes "stellargate_tasks_live") (live_tasks tasks) refl (
          rw e (
            behind_tasks (codes "stellargate_tasks_live") (λ t. refl) (λ t. refl) (λ t. refl) _ _ _
              _)),
      shown_by (codes "stellargate_horizon_poll_cycles_total{outcome=\"success\"}") horizon.success
          refl
          (rw e (
            behind_tasks (codes "stellargate_horizon_poll_cycles_total{outcome=\"success\"}")
              (λ t. refl) (λ t. refl) (λ t. refl) _ _ _ _
            ∙ reading-per_task (codes "stellargate_horizon_poll_cycles_total{outcome=\"success\"}")
                (codes "stellargate_task_disabled") _ (snapshot keys tasks) _ (λ t. refl))),
      shown_by (codes "stellargate_horizon_poll_cycles_total{outcome=\"rate_limited\"}")
          horizon.rate_limited refl
          (rw e (
            behind_tasks (codes "stellargate_horizon_poll_cycles_total{outcome=\"rate_limited\"}")
              (λ t. refl) (λ t. refl) (λ t. refl) _ _ _ _
            ∙ reading-per_task
                (codes "stellargate_horizon_poll_cycles_total{outcome=\"rate_limited\"}")
                (codes "stellargate_task_disabled") _ (snapshot keys tasks) _ (λ t. refl))),
      shown_by (codes "stellargate_horizon_poll_cycles_total{outcome=\"error\"}") horizon.error refl
          (rw e (
            behind_tasks (codes "stellargate_horizon_poll_cycles_total{outcome=\"error\"}")
              (λ t. refl) (λ t. refl) (λ t. refl) _ _ _ _
            ∙ reading-per_task (codes "stellargate_horizon_poll_cycles_total{outcome=\"error\"}")
                (codes "stellargate_task_disabled") _ (snapshot keys tasks) _ (λ t. refl))),
      shown_by (codes "stellargate_horizon_last_successful_poll_timestamp_seconds")
          tasks.last_success_unix refl
          (rw e (
            behind_tasks (codes "stellargate_horizon_last_successful_poll_timestamp_seconds")
              (λ t. refl) (λ t. refl) (λ t. refl) _ _ _ _
            ∙ reading-per_task (codes "stellargate_horizon_last_successful_poll_timestamp_seconds")
                (codes "stellargate_task_disabled") _ (snapshot keys tasks) _ (λ t. refl))),
    )
