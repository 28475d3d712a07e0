-- ===== src/Horizon/Pace/Awake.antt =====
-- src/horizon.rs, `run_poller`: the poller keeps polling.
use stellar_gate.Prelude.{
  ℕ, ◌≤◌, ◌+◌, Option, none, some, List, [], ◌∷◌, ◌^◌, ◌-◌, ◌*◌, true, arith, All, min, max,
}
use stellar_gate.Webhook.{Libs, Config}
use stellar_gate.Webhook.Delay.{retry_delay_bounds}
use stellar_gate.Health.{TaskHealth}
use stellar_gate.Horizon.Poll.{Cycle, finished, failed, poll_once}
use stellar_gate.Horizon.Pace.{
  Turn, Poller, next_poll_delay, retry_after_of, after_cycle, poller_turn, poller_loop,
  poll_backoff_base, poll_backoff_max, run_poller,
}

abbrev pub IsAtMost : ℕ → Option ℕ → Type 0
IsAtMost longest none = Unit
IsAtMost longest (some retry_after) = retry_after ≤ longest

-- A turn whose draw stays in its range, and whose `Retry-After` is at most `longest`.
abbrev pub IsPatient : ℕ → Turn → Type 0
IsPatient longest turn =
    ((k : ℕ) → turn.random k ≤ k) × IsAtMost longest (retry_after_of turn.horizon_err)

next_poll_delay_le :
    (longest : ℕ) (random : ℕ → ℕ) (failures : ℕ) (retry_after : Option ℕ)
    → poll_backoff_max ≤ longest
    → ((k : ℕ) → random k ≤ k)
    → IsAtMost longest retry_after
    → next_poll_delay random failures retry_after ≤ longest
unfolding next_poll_delay
next_poll_delay_le longest random failures none le_cap draws h =
    let (low, high) =
      retry_delay_bounds random failures poll_backoff_base poll_backoff_max draws (omega arith) in
    omega (arith, le_cap, high)
next_poll_delay_le longest random failures (some retry_after) le_cap draws h = h

after_cycle_le :
    (longest interval : ℕ) (turn : Turn) (p : Poller) (cycle : Cycle) (task_health : TaskHealth)
    → interval ≤ longest
    → poll_backoff_max ≤ longest
    → IsPatient longest turn
    → (after_cycle interval turn p cycle task_health).next_delay ≤ longest
after_cycle_le longest interval turn p (finished n o) task_health h le_cap patient = h
after_cycle_le longest interval turn p (failed o) task_health h le_cap (draws, r) =
    next_poll_delay_le longest turn.random (min (p.consecutive_failures + 1) (2 ^ 32 - 1))
      (retry_after_of turn.horizon_err) le_cap draws r

poller_loop_le :
    (libs : Libs) (config : Config) (longest interval : ℕ) (turns : List Turn) (p : Poller)
    → interval ≤ longest
    → poll_backoff_max ≤ longest
    → All (IsPatient longest) turns
    → p.next_delay ≤ longest
    → (poller_loop libs config interval turns p).next_delay ≤ longest
unfolding poller_loop poller_turn
poller_loop_le libs config longest interval [] p h le_cap patient start = start
poller_loop_le libs config longest interval (turn ∷ turns) p h le_cap (patient, rest) start =
    let (cycle, task_health) =
      poll_once turn.api libs config turn.env turn.now p.task_health p.outbound in
    poller_loop_le libs config longest interval turns
      (after_cycle interval turn p cycle task_health) h le_cap rest
      (after_cycle_le longest interval turn p cycle task_health h le_cap patient)

-- Where a bound is at least the poll interval, at least 120 seconds, and at least every
-- `Retry-After` that Horizon sends, and every draw stays in its range, the poller of a configured
-- gateway never waits longer than it for its next cycle, whatever its cycles come to.
pub run_poller-next_delay :
    (libs : Libs) (config : Config) (longest poll_interval_secs : ℕ) (turns : List Turn)
    (p : Poller)
    → max poll_interval_secs 1 * 1000 ≤ longest
    → poll_backoff_max ≤ longest
    → All (IsPatient longest) turns
    → (run_poller libs config true poll_interval_secs turns p).1.next_delay ≤ longest
unfolding run_poller
run_poller-next_delay libs config longest poll_interval_secs turns p h le_cap patient =
    poller_loop_le libs config longest (max poll_interval_secs 1 * 1000) turns
      (record p { consecutive_failures = 0; next_delay = max poll_interval_secs 1 * 1000 }) h le_cap
      patient h
