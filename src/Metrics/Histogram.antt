-- ===== src/Metrics/Histogram.antt =====
-- src/metrics.rs, `record_latency_ms`: what the cumulative histogram counts.
use stellar_gate.Prelude.{
  ℕ, ◌+◌, ◌%◌, ◌^◌, ◌≡◌, refl, ap, ◌∙◌, List, [], ◌∷◌, arith, leb, length, if◌then◌else◌,
}
use stellar_gate.Metrics.{
  WebhookMetrics, new_webhook_metrics, latency_buckets_ms, observe, record_latency_ms, fetch_add,
}

-- The metrics after the observations, the latest first.
pub observed : List ℕ → WebhookMetrics
observed [] = new_webhook_metrics
observed (ms ∷ history) = record_latency_ms (observed history) ms

-- How many observations are at most `bound`.
pub count_le : ℕ → List ℕ → ℕ
count_le bound [] = 0
count_le bound (ms ∷ history) = (if leb ms bound then 1 else 0) + count_le bound history

pub sum : List ℕ → ℕ
sum [] = 0
sum (ms ∷ history) = ms + sum history

-- The counts of each bound, and of all observations, as `u64`.
abbrev pub expected_buckets : List ℕ → List ℕ → List ℕ
expected_buckets [] history = length history % 2 ^ 64 ∷ []
expected_buckets (bound ∷ bounds) history =
    count_le bound history % 2 ^ 64 ∷ expected_buckets bounds history

observe-expected :
    (bounds : List ℕ) (ms : ℕ) (history : List ℕ)
    → observe bounds (expected_buckets bounds history) ms ≡ expected_buckets bounds (ms ∷ history)
unfolding observe count_le
observe-expected [] ms history = ap (λ n. n ∷ []) (omega arith)
observe-expected (bound ∷ bounds) ms history = cc (observe-expected bounds ms history, slot)
  where
    slot :
        (if leb ms bound
          then fetch_add (count_le bound history % 2 ^ 64) 1
          else count_le bound history % 2 ^ 64)
        ≡ ((if leb ms bound then 1 else 0) + count_le bound history) % 2 ^ 64
    slot = ground arith

-- After any observations each bucket counts those at most its bound, the last bucket and the count
-- count them all, and the sum is their sum; each counter wraps at 2 ^ 64.
pub observed-buckets :
    (history : List ℕ)
    → ((observed history).latency_buckets ≡ expected_buckets latency_buckets_ms history)
      × ((observed history).latency_count ≡ length history % 2 ^ 64)
      × ((observed history).latency_sum_ms ≡ sum history % 2 ^ 64)
unfolding observed record_latency_ms count_le sum
observed-buckets [] = (refl, refl, refl)
observed-buckets (ms ∷ history) =
    let ih = observed-buckets history in
    (
      ap (λ b. observe latency_buckets_ms b ms) ih.0
          ∙ observe-expected latency_buckets_ms ms history,
      omega (arith, ih.1),
      omega (arith, ih.2),
    )
