-- ===== src/Api/Limits/Waits.antt =====
-- src/api/mod.rs: the times that a throttled client is told.
use stellar_gate.Prelude.{ℕ, ◌+◌, ◌-◌, ◌*◌, ◌/◌, ◌≤◌, ◌<◌, arith, max}
use stellar_gate.Api.Limits.{Quota, retry_after_secs, reset_secs, nanos_per_sec}

ceil_le : (a b : ℕ) → a ≤ b → (a + 999999999) / 1000000000 ≤ (b + 999999999) / 1000000000
ceil_le a b h = omega (arith, h)

-- Where a client has to wait at all, one that waits for `Retry-After` seconds waits long enough
-- and less than a second too long, and the time to a full bucket that it is told is at least as
-- long.
pub retry_after_secs_bounds :
    (quota : Quota) (remaining wait : ℕ)
    → 0 < wait
    → (wait ≤ retry_after_secs wait * nanos_per_sec)
      × (retry_after_secs wait * nanos_per_sec < wait + nanos_per_sec)
      × (retry_after_secs wait ≤ reset_secs quota remaining wait)
unfolding retry_after_secs reset_secs
retry_after_secs_bounds quota remaining wait h =
    let refill = quota.replenish_interval * (quota.burst_size - remaining) in
    (omega arith, omega arith, omega (arith, ceil_le wait (max refill wait) (omega arith)))
