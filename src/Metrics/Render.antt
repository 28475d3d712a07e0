-- ===== src/Metrics/Render.antt =====
-- src/metrics.rs, `render`: the text of `GET /metrics`. Each call of `push_str` is one line; a family
-- is its two comments and its samples.
pub mod Scrape
pub mod Readings
pub mod Shown
use stellar_gate.Prelude.{
  ℕ, ◌+◌, Bool, true, false, ◌||◌, not, Option, none, some, List, [], ◌∷◌, ◌++◌, map, ◌==◌, list_eq,
  nat_eq, if◌then◌else◌,
}
use stellar_gate.Text.{Text, codes}
use stellar_gate.Text.Digits.{show}
use stellar_gate.Db.Listing.{text_ltb}
use stellar_gate.Metrics.{WebhookMetrics, AuthMetrics, HorizonMetrics, latency_buckets_ms}
use stellar_gate.Health.{TaskHealth, expected_tasks, live_tasks, or_zero, is_running, is_present}
use stellar_gate.Health.Snapshot.{TaskSnapshot, snapshot}

-- The name with its labels, and the value.
pub record Sample : Type 0 where
  pub key : Text
  pub value : ℕ

pub record Family : Type 0 where
  pub name : Text
  pub help : Text
  pub kind : Text
  pub samples : List Sample

abbrev pub sample_line : Sample → Text
sample_line s = s.key ++ b' ' ∷ show s.value

abbrev pub family_lines : Family → List Text
family_lines f =
    (codes "# HELP " ++ f.name ++ b' ' ∷ f.help)
    ∷ (codes "# TYPE " ++ f.name ++ b' ' ∷ f.kind)
    ∷ map sample_line f.samples

unfoldable pub all_lines : List Family → List Text
all_lines [] = []
all_lines (f ∷ families) = family_lines f ++ all_lines families

-- Every line has its end.
unfoldable pub text_of : List Text → Text
text_of [] = []
text_of (line ∷ lines) = line ++ b'\n' ∷ text_of lines

abbrev pub quoted : Text → Text → Text
quoted label value = label ++ b'=' ∷ b'"' ∷ value ++ b'"' ∷ []

abbrev pub labelled : Text → Text → Text → Text
labelled name label value = name ++ b'{' ∷ quoted label value ++ b'}' ∷ []

abbrev with_reason : Text → Text → Text
with_reason name reason =
    name
    ++ b'{' ∷ quoted (codes "outcome") (codes "failure")
    ++ b',' ∷ quoted (codes "reason") reason
    ++ b'}' ∷ []

abbrev bit : Bool → ℕ
bit b = if b then 1 else 0

abbrev pub sample : Text → ℕ → Sample
sample key value = record { key = key; value = value }

abbrev bare : Text → Text → Text → ℕ → Family
bare name help kind value = record {
  name = name;
  help = help;
  kind = kind;
  samples = sample name value ∷ [];
}

abbrev counter : Text
counter = codes "counter"

abbrev gauge : Text
gauge = codes "gauge"

abbrev outcome : Text → Text → ℕ → Sample
outcome name value = sample (labelled name (codes "outcome") value)

abbrev deliveries_name : Text
deliveries_name = codes "stellargate_webhook_deliveries_total"

abbrev pub latency_name : Text
latency_name = codes "stellargate_webhook_delivery_latency_ms"

-- The buckets under their bounds, and the last one under `+Inf`.
abbrev pub bucket_samples : List ℕ → List ℕ → List Sample
bucket_samples bounds [] = []
bucket_samples [] (inf ∷ rest) =
    sample (labelled (latency_name ++ codes "_bucket") (codes "le") (codes "+Inf")) inf ∷ []
bucket_samples (bound ∷ bounds) (slot ∷ slots) =
    sample (labelled (latency_name ++ codes "_bucket") (codes "le") (show bound)) slot
    ∷ bucket_samples bounds slots

abbrev pub webhook_families : WebhookMetrics → List Family
webhook_families webhook =
    record {
      name = deliveries_name;
      help = codes "Total webhook delivery attempts by outcome.";
      kind = counter;
      samples =
          outcome deliveries_name (codes "delivered") webhook.delivered
          ∷ outcome deliveries_name (codes "failed") webhook.failed
          ∷ [];
    }
    ∷ bare (codes "stellargate_webhook_retries_total")
        (codes "Total webhook retry attempts (excludes the first try).") counter webhook.retried
    ∷ record {
      name = latency_name;
      help = codes "End-to-end webhook delivery latency in milliseconds.";
      kind = codes "histogram";
      samples =
          bucket_samples latency_buckets_ms webhook.latency_buckets
          ++ sample (latency_name ++ codes "_sum") webhook.latency_sum_ms
            ∷ sample (latency_name ++ codes "_count") webhook.latency_count
            ∷ [];
    }
    ∷ []

abbrev auth_name : Text
auth_name = codes "stellargate_auth_attempts_total"

abbrev pub auth_families : AuthMetrics → List Family
auth_families auth =
    record {
      name = auth_name;
      help = codes "Total auth middleware decisions by outcome and reason.";
      kind = counter;
      samples =
          outcome auth_name (codes "success") auth.success
          ∷ sample (with_reason auth_name (codes "missing_key")) auth.failure_missing_key
          ∷ sample (with_reason auth_name (codes "invalid_key")) auth.failure_invalid_key
          ∷ sample (with_reason auth_name (codes "internal_error")) auth.failure_internal_error
          ∷ [];
    }
    ∷ []

-- One sample for each task.
abbrev pub per_task : Text → (TaskSnapshot → ℕ) → List TaskSnapshot → List Sample
per_task name value [] = []
per_task name value (snap ∷ snaps) =
    sample (labelled name (codes "task") snap.name) (value snap) ∷ per_task name value snaps

abbrev task_family : Text → Text → Text → (TaskSnapshot → ℕ) → List TaskSnapshot → Family
task_family name help kind value snaps = record {
  name = name;
  help = help;
  kind = kind;
  samples = per_task name value snaps;
}

abbrev pub task_families : List TaskSnapshot → TaskHealth → List Family
task_families snaps tasks =
    bare (codes "stellargate_tasks_started_total")
      (codes "Total background task starts (including restarts).") counter tasks.started
    ∷ bare (codes "stellargate_tasks_stopped_total") (codes "Total background task clean stops.")
        counter tasks.stopped
    ∷ bare (codes "stellargate_tasks_failed_total") (codes "Total background task panics.") counter
        tasks.failed
    ∷ task_family (codes "stellargate_task_restarts_total")
        (codes "Supervisor restarts of a background task after panic or unexpected return.") counter
        (λ snap. snap.restarts) snaps
    ∷ task_family (codes "stellargate_task_running")
        (codes "Whether the named background task is currently running (1) or not (0).") gauge
        (λ snap. bit snap.running) snaps
    ∷ task_family (codes "stellargate_task_consecutive_failures")
        (codes "Consecutive panics of a background task since it last ran stably.") gauge
        (λ snap. snap.consecutive_failures) snaps
    ∷ bare (codes "stellargate_tasks_expected")
        (codes
          "Background workers this deployment expects to be running, excluding any disabled by configuration.")
        gauge (expected_tasks tasks)
    ∷ bare (codes "stellargate_tasks_live") (codes "Expected background workers currently running.")
        gauge (live_tasks tasks)
    ∷ task_family (codes "stellargate_task_disabled")
        (codes
          "Whether the named background task exited because configuration gave it nothing to do (1) or not (0).")
        gauge (λ snap. bit (is_present snap.disabled_reason)) snaps
    ∷ []

abbrev cycles_name : Text
cycles_name = codes "stellargate_horizon_poll_cycles_total"

abbrev pub horizon_families : HorizonMetrics → TaskHealth → List Family
horizon_families horizon tasks =
    record {
      name = cycles_name;
      help = codes "Total Horizon poll cycles by outcome.";
      kind = counter;
      samples =
          outcome cycles_name (codes "success") horizon.success
          ∷ outcome cycles_name (codes "rate_limited") horizon.rate_limited
          ∷ outcome cycles_name (codes "error") horizon.error
          ∷ [];
    }
    ∷ bare (codes "stellargate_horizon_last_successful_poll_timestamp_seconds")
        (codes "Unix timestamp of the last successful Horizon poll or stream event.") gauge
        tasks.last_success_unix
    ∷ []

abbrev pub families :
    List Text → WebhookMetrics → AuthMetrics → TaskHealth → HorizonMetrics → List Family
families keys webhook auth tasks horizon =
    webhook_families webhook
    ++ (auth_families auth
        ++ (task_families (snapshot keys tasks) tasks ++ horizon_families horizon tasks))

unfoldable pub render :
    List Text → WebhookMetrics → AuthMetrics → TaskHealth → HorizonMetrics → Text
unfolding all_lines text_of
render keys webhook auth tasks horizon =
    text_of (all_lines (families keys webhook auth tasks horizon))
