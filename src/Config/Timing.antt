-- ===== src/Config/Timing.antt =====
-- src/config.rs: the cross-checks of the timing fields, and the longest time that an inline delivery
-- can take. The sums and products of `u64` saturate at `u64::MAX`.
use stellar_gate.Prelude.{
  ℕ, zero, suc, ◌+◌, ◌-◌, ◌*◌, ◌/◌, ◌^◌, Bool, true, false, ◌&&◌, not, ltb, ◌==◌, nat_eq, max, min,
  if◌then◌else◌,
}
use stellar_gate.Prelude.Int.{ℤ, pos, negsuc}
use stellar_gate.Config.{
  Config, Result, reject_if, ◌>>◌, zero_poll_interval, zero_cursor_staleness, zero_payment_ttl,
  ttl_below_poll_interval, empty_expiry_batch, zero_attempts, zero_retry_delay,
  max_delay_below_delay, grace_below_worst_case, negative_jitter, zero_request_timeout,
  backoff_max_below_initial,
}

-- `saturating_add`, `saturating_mul` and `saturating_pow` of `u64`: the exact result, cut here.
abbrev pub saturated : ℕ → ℕ
saturated n = min n (2 ^ 64 - 1)

-- `as i64` of a `u64`.
abbrev pub as_i64 : ℕ → ℤ
as_i64 n = if ltb n (2 ^ 63) then pos n else negsuc (2 ^ 64 - 1 - n)

abbrev pub ltz : ℤ → ℤ → Bool
ltz (pos a) (pos b) = ltb a b
ltz (pos a) (negsuc b) = false
ltz (negsuc a) (pos b) = true
ltz (negsuc a) (negsuc b) = ltb b a

abbrev pub step_ms : ℕ → ℕ → ℕ → ℕ
step_ms base max_delay attempt = min (saturated (base * saturated (2 ^ (attempt - 1)))) max_delay

-- `for attempt in 1..attempts`, by the rounds that are left.
unfoldable pub delays_ms : ℕ → ℕ → ℕ → ℕ → ℕ → ℕ
delays_ms base max_delay zero attempt total = total
delays_ms base max_delay (suc left) attempt total =
    delays_ms base max_delay left (attempt + 1) (saturated (total + step_ms base max_delay attempt))

unfoldable pub worst_case : (attempts timeout base max_delay : ℕ) → ℕ
unfolding delays_ms
worst_case attempts timeout base max_delay =
    let n = max attempts 1 in
    saturated (saturated (n * timeout) + (delays_ms base max_delay (n - 1) 1 0 + 999) / 1000)

unfoldable pub worst_case_inline_delivery_secs : {N : Type 0} → Config N → ℕ
worst_case_inline_delivery_secs c =
    worst_case c.webhook_retry_attempts c.webhook_timeout_secs c.webhook_retry_delay_ms
      c.webhook_retry_max_delay_ms

unfoldable pub validate_timing : {N : Type 0} → Config N → Result (Unit {0})
validate_timing c = do
  reject_if (c.poll_interval_secs == 0) zero_poll_interval
  reject_if (c.cursor_staleness_multiple == 0) zero_cursor_staleness
  reject_if (c.payment_ttl_secs == 0) zero_payment_ttl
  reject_if (ltb c.payment_ttl_secs c.poll_interval_secs) ttl_below_poll_interval
  reject_if (not (ltz (pos 0) c.expiry_batch_size)) empty_expiry_batch
  reject_if (c.webhook_retry_attempts == 0) zero_attempts
  reject_if (ltb 1 c.webhook_retry_attempts && c.webhook_retry_delay_ms == 0) zero_retry_delay
  reject_if (ltb c.webhook_retry_max_delay_ms c.webhook_retry_delay_ms) max_delay_below_delay
  reject_if (ltz c.webhook_redrive_grace_secs (as_i64 (worst_case_inline_delivery_secs c)))
      grace_below_worst_case
  reject_if (ltz c.webhook_redrive_jitter_secs (pos 0)) negative_jitter
  reject_if (c.request_timeout_secs == 0) zero_request_timeout
  reject_if (ltz c.webhook_redrive_backoff_max_secs c.webhook_redrive_backoff_initial_secs)
      backoff_max_below_initial
