-- ===== src/Webhook/Delay.antt =====
-- src/webhook.rs, `retry_delay`: growth, cap and jitter.
use stellar_gate.Prelude.{ℕ, ◌+◌, ◌-◌, ◌*◌, ◌/◌, ◌%◌, ◌^◌, ◌≤◌, ◌<◌, arith, leb, min, if◌then◌else◌}
use native.Mathlib.Nat.{mod-eq_of_lt}
use stellar_gate.Webhook.{retry_delay}

-- The exact exponential schedule under its cap.
abbrev pub ceiling : ℕ → ℕ → ℕ → ℕ
ceiling attempt base max_delay = min (base * min (2 ^ (attempt - 1)) (2 ^ 32 - 1)) max_delay

drawn :
    (random : ℕ → ℕ) (c : ℕ)
    → ((k : ℕ) → random k ≤ k)
    → c < 2 ^ 64
    → let delay =
        (if leb (c % 2 ^ 64) 0 then 0 else c % 2 ^ 64 / 2 + random (c % 2 ^ 64 - c % 2 ^ 64 / 2)) in
      (c / 2 ≤ delay) × (delay ≤ c)
drawn random c draws fits = rw (mod-eq_of_lt fits) (ground (arith, draws (c - c / 2)))

-- With a draw that stays in its range and a cap that fits a `u64`, every delay lies in the upper
-- half of the capped exponential schedule.
pub retry_delay_bounds :
    (random : ℕ → ℕ) (attempt base max_delay : ℕ)
    → ((k : ℕ) → random k ≤ k)
    → max_delay < 2 ^ 64
    → (ceiling attempt base max_delay / 2 ≤ retry_delay random attempt base max_delay)
      × (retry_delay random attempt base max_delay ≤ ceiling attempt base max_delay)
unfolding retry_delay
retry_delay_bounds random attempt base max_delay draws fits =
    drawn random (ceiling attempt base max_delay) draws (omega arith)
