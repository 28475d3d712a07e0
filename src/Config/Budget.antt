-- ===== src/Config/Budget.antt =====
-- src/config.rs and src/webhook.rs: the grace time of the redrive worker against the time that an
-- inline delivery takes.
use stellar_gate.Prelude.{
  ℕ, zero, suc, ◌+◌, ◌-◌, ◌*◌, ◌^◌, ◌≤◌, ◌<◌, ◌≡◌, ◌≢◌, refl, arith, max, min, false,
}
use native.Mathlib.Nat.{suc-mul}
use stellar_gate.Prelude.Int.{ℤ, pos, negsuc}
use stellar_gate.Webhook.{retry_delay}
use stellar_gate.Webhook.Delay.{ceiling, retry_delay_bounds}
use stellar_gate.Config.{Config, ok}
use stellar_gate.Config.Boot.{Crates, Vars, from_env}
use stellar_gate.Config.Booted.{from_env-checks}
use stellar_gate.Config.Timing.{
  delays_ms, step_ms, saturated, worst_case, worst_case_inline_delivery_secs, validate_timing,
  as_i64, ltz,
}

-- The waits before attempts `attempt + 1`, … of one delivery, each with its own draw.
abbrev pub waited : (ℕ → ℕ → ℕ) → ℕ → ℕ → ℕ → ℕ → ℕ
waited random base max_delay zero attempt = 0
waited random base max_delay (suc left) attempt =
    retry_delay (random attempt) attempt base max_delay
    + waited random base max_delay left (attempt + 1)

module _ (base max_delay : ℕ) (fits : max_delay < 2 ^ 64) where
  scaled : (p q : ℕ) → p ≤ q → base * p ≤ base * q
  scaled p q h = grind arith

  ceiling-le-step_ms :
      (attempt : ℕ) → ceiling attempt base max_delay ≤ step_ms base max_delay attempt
  ceiling-le-step_ms attempt = omega (
    arith,
    scaled (min (2 ^ (attempt - 1)) 4294967295) (min (2 ^ (attempt - 1)) 18446744073709551615)
        (omega arith),
  )

  -- The saturation does not show, and each wait stays under its step.
  delays_ms-bound :
      (random : ℕ → ℕ → ℕ) (draws : (n k : ℕ) → random n k ≤ k) (left attempt total : ℕ)
      → total + left * max_delay < 2 ^ 64
      → total + waited random base max_delay left attempt
        ≤ delays_ms base max_delay left attempt total
  unfolding delays_ms
  delays_ms-bound random draws zero attempt total h = omega arith
  delays_ms-bound random draws (suc left) attempt total h =
      let step = step_ms base max_delay attempt in
      let small : total + step + left * max_delay < 2 ^ 64 =
        omega (arith, suc-mul left max_delay) in
      omega (
        arith,
        (retry_delay_bounds (random attempt) attempt base max_delay (draws attempt) fits).1,
        ceiling-le-step_ms attempt,
        delays_ms-bound random draws left (attempt + 1) (saturated (total + step)) (omega arith),
      )

delays_ms-le :
    (base max_delay left attempt total : ℕ)
    → delays_ms base max_delay left attempt total ≤ total + left * max_delay
unfolding delays_ms
delays_ms-le base max_delay zero attempt total = omega arith
delays_ms-le base max_delay (suc left) attempt total = omega (
  arith,
  suc-mul left max_delay,
  delays_ms-le base max_delay left (attempt + 1)
      (saturated (total + step_ms base max_delay attempt)),
)

-- With products that are far from the limits, the figure is no overflow and covers every attempt
-- with its whole timeout and every wait that can be drawn.
waited-le-worst_case :
    (random : ℕ → ℕ → ℕ) (attempts timeout base max_delay : ℕ)
    → ((n k : ℕ) → random n k ≤ k)
    → attempts ≢ 0
    → attempts * timeout + attempts * max_delay < 2 ^ 63
    → (worst_case attempts timeout base max_delay < 2 ^ 63)
      × (attempts * timeout * 1000 + waited random base max_delay (attempts - 1) 1
          ≤ worst_case attempts timeout base max_delay * 1000)
unfolding worst_case
waited-le-worst_case random zero timeout base max_delay draws some_attempt small =
    absurd (some_attempt refl)
waited-le-worst_case random (suc left) timeout base max_delay draws some_attempt small =
    let e : max (suc left) 1 ≡ suc left = omega arith in
    let room : left * max_delay + max_delay < 2 ^ 63 = omega (arith, suc-mul left max_delay) in
    let above = delays_ms-le base max_delay left 1 0 in
    let below = delays_ms-bound base max_delay (omega arith) random draws left 1 0 (omega arith) in
    let last : suc left - 1 ≡ left = omega arith in rw (e, last) (omega arith, omega arith)

validate_timing-grace :
    {N : Type 0} (c : Config N)
    → validate_timing c ≡ ok tt
    → (c.webhook_retry_attempts ≢ 0)
      × (ltz c.webhook_redrive_grace_secs (as_i64 (worst_case_inline_delivery_secs c)) ≡ false)
unfolding validate_timing
validate_timing-grace c h = ground arith

grace_covers :
    (grace : ℤ) (n : ℕ)
    → n < 2 ^ 63
    → ltz grace (as_i64 n) ≡ false
    → (g : ℕ) × (grace ≡ pos g) × (n ≤ g)
grace_covers (pos g) n small h = (g, refl, ground arith)
grace_covers (negsuc g) n small h = ground arith

-- Whatever the environment, a configuration that boots has a redrive grace time that is not
-- negative and covers the longest inline delivery: every attempt with its whole timeout, and every
-- wait that can be drawn between them, where the attempts times the timeout and the longest delay
-- stay far below 2 ^ 63.
pub from_env-grace :
    {N : Type 0} (crates : Crates N) (vars : Vars) (c : Config N) (random : ℕ → ℕ → ℕ)
    → from_env crates vars ≡ ok c
    → ((n k : ℕ) → random n k ≤ k)
    → c.webhook_retry_attempts * c.webhook_timeout_secs
        + c.webhook_retry_attempts * c.webhook_retry_max_delay_ms
      < 2 ^ 63
    → (grace : ℕ) × (c.webhook_redrive_grace_secs ≡ pos grace)
      × (c.webhook_retry_attempts * c.webhook_timeout_secs * 1000
            + waited random c.webhook_retry_delay_ms c.webhook_retry_max_delay_ms
                (c.webhook_retry_attempts - 1)
                1
          ≤ grace * 1000)
unfolding worst_case_inline_delivery_secs
from_env-grace crates vars c random boots draws small =
    let timed = validate_timing-grace c (from_env-checks crates vars c boots).1 in
    let covered =
      waited-le-worst_case random c.webhook_retry_attempts c.webhook_timeout_secs
        c.webhook_retry_delay_ms c.webhook_retry_max_delay_ms draws timed.0 small in
    let (g, e, above) = grace_covers c.webhook_redrive_grace_secs _ covered.0 timed.1 in
    (g, e, omega (arith, covered.1))
