-- ===== src/Metrics.antt =====
-- src/metrics.rs: the counters of webhook deliveries, of authentication and of Horizon polls, and
-- the latency histogram. An `AtomicU64` wraps at 2 ^ 64; the snapshot accessors are the fields.
pub mod Histogram
pub mod Render
use stellar_gate.Prelude.{ℕ, ◌+◌, ◌%◌, ◌^◌, List, [], ◌∷◌, leb, if◌then◌else◌}

-- fetch_add(n, Ordering::Relaxed)
abbrev pub fetch_add : ℕ → ℕ → ℕ
fetch_add counter n = (counter + n) % 2 ^ 64

abbrev pub latency_buckets_ms : List ℕ
latency_buckets_ms = 10 ∷ 50 ∷ 100 ∷ 250 ∷ 500 ∷ 1000 ∷ 2500 ∷ 5000 ∷ 10000 ∷ []

-- `latency_buckets` has one slot for each bound, and `+Inf` as the last.
pub record WebhookMetrics : Type 0 where
  pub delivered : ℕ
  pub failed : ℕ
  pub retried : ℕ
  pub latency_sum_ms : ℕ
  pub latency_count : ℕ
  pub latency_buckets : List ℕ

abbrev pub new_webhook_metrics : WebhookMetrics
new_webhook_metrics = record {
  delivered = 0;
  failed = 0;
  retried = 0;
  latency_sum_ms = 0;
  latency_count = 0;
  latency_buckets = 0 ∷ 0 ∷ 0 ∷ 0 ∷ 0 ∷ 0 ∷ 0 ∷ 0 ∷ 0 ∷ 0 ∷ [];
}

unfoldable pub record_delivered : WebhookMetrics → WebhookMetrics
record_delivered m = record m { delivered = fetch_add m.delivered 1 }

unfoldable pub record_failed : WebhookMetrics → WebhookMetrics
record_failed m = record m { failed = fetch_add m.failed 1 }

unfoldable pub record_retry : WebhookMetrics → WebhookMetrics
record_retry m = record m { retried = fetch_add m.retried 1 }

-- Bounds and slots side by side; the slot behind the last bound is `+Inf`, always incremented.
unfoldable pub observe : List ℕ → List ℕ → ℕ → List ℕ
observe bounds [] ms = []
observe [] (inf ∷ rest) ms = fetch_add inf 1 ∷ rest
observe (bound ∷ bounds) (slot ∷ slots) ms =
    (if leb ms bound then fetch_add slot 1 else slot) ∷ observe bounds slots ms

unfoldable pub record_latency_ms : WebhookMetrics → ℕ → WebhookMetrics
unfolding observe
record_latency_ms m ms = record m {
  latency_sum_ms = fetch_add m.latency_sum_ms ms;
  latency_count = fetch_add m.latency_count 1;
  latency_buckets = observe latency_buckets_ms m.latency_buckets ms;
}

pub record AuthMetrics : Type 0 where
  pub success : ℕ
  pub failure_missing_key : ℕ
  pub failure_invalid_key : ℕ
  pub failure_internal_error : ℕ

unfoldable pub record_success : AuthMetrics → AuthMetrics
record_success m = record m { success = fetch_add m.success 1 }

unfoldable pub record_failure_missing_key : AuthMetrics → AuthMetrics
record_failure_missing_key m = record m { failure_missing_key = fetch_add m.failure_missing_key 1 }

unfoldable pub record_failure_invalid_key : AuthMetrics → AuthMetrics
record_failure_invalid_key m = record m { failure_invalid_key = fetch_add m.failure_invalid_key 1 }

unfoldable pub record_failure_internal_error : AuthMetrics → AuthMetrics
record_failure_internal_error m = record m {
  failure_internal_error = fetch_add m.failure_internal_error 1;
}

pub record HorizonMetrics : Type 0 where
  pub success : ℕ
  pub rate_limited : ℕ
  pub error : ℕ

unfoldable pub record_poll_success : HorizonMetrics → HorizonMetrics
record_poll_success m = record m { success = fetch_add m.success 1 }

unfoldable pub record_rate_limited : HorizonMetrics → HorizonMetrics
record_rate_limited m = record m { rate_limited = fetch_add m.rate_limited 1 }

unfoldable pub record_error : HorizonMetrics → HorizonMetrics
record_error m = record m { error = fetch_add m.error 1 }
