-- ===== src/Horizon/Pace.antt =====
-- src/horizon.rs: when the loops around `poll_once` and `stream_once` go on: `run_poller` and
-- `run_stream_listener`. What happens in one turn of a loop is an element of a list; the shutdown
-- signal comes behind the last one. A `Duration` is its number of milliseconds.
pub mod Awake
pub mod Reconnect
use stellar_gate.Prelude.{
  ℕ, ◌+◌, ◌-◌, ◌*◌, ◌^◌, Bool, true, false, ◌||◌, not, Option, none, some, List, [], ◌∷◌, ◌==◌,
  nat_eq, min, max, if◌then◌else◌,
}
use stellar_gate.Text.{Text, codes, trim}
use stellar_gate.Text.Numbers.{parse_unsigned}
use stellar_gate.Metrics.{HorizonMetrics, record_poll_success, record_rate_limited, record_error}
use stellar_gate.Health.{TaskHealth}
use stellar_gate.Supervise.{TaskExit, shutdown_requested, disabled_by_config, fatal}
use stellar_gate.Webhook.{Libs, Config, Env, Outbound, retry_delay}
use stellar_gate.Horizon.Poll.{HorizonApi, Cycle, finished, failed, poll_once}

pub record HorizonHttpError : Type 0 where
  pub status : ℕ
  pub retry_after : Option ℕ

unfoldable pub is_rate_limited : HorizonHttpError → Bool
is_rate_limited e = e.status == 429 || e.status == 503

abbrev from_secs : Option ℕ → Option ℕ
from_secs none = none
from_secs (some secs) = some (secs * 1000)

abbrev parsed_retry_after : Option Text → Option ℕ
parsed_retry_after none = none
parsed_retry_after (some value) = from_secs (parse_unsigned 64 (trim value))

-- The header's value, where there is one and it is a text.
unfoldable pub parse_retry_after : Option Text → Option ℕ
parse_retry_after header = parsed_retry_after header

abbrev pub poll_backoff_base : ℕ
poll_backoff_base = 1000

abbrev pub poll_backoff_max : ℕ
poll_backoff_max = 120000

unfoldable pub next_poll_delay : (ℕ → ℕ) → ℕ → Option ℕ → ℕ
next_poll_delay random consecutive_failures none =
    retry_delay random consecutive_failures poll_backoff_base poll_backoff_max
next_poll_delay random consecutive_failures (some retry_after) = retry_after

-- The outside of one cycle: Horizon, the outside of each record, the clock, the error that a cycle
-- which fails has where it is one of Horizon's, and the draw of the backoff.
pub record Turn : Type 0 where
  pub api : HorizonApi
  pub env : ℕ → Env
  pub now : ℕ
  pub horizon_err : Option HorizonHttpError
  pub random : ℕ → ℕ

pub record Poller : Type 0 where
  pub horizon_metrics : HorizonMetrics
  pub consecutive_failures : ℕ
  pub next_delay : ℕ
  pub task_health : TaskHealth
  pub outbound : Outbound

abbrev rate_limited_by : Option HorizonHttpError → Bool
rate_limited_by none = false
rate_limited_by (some e) = is_rate_limited e

abbrev pub retry_after_of : Option HorizonHttpError → Option ℕ
retry_after_of none = none
retry_after_of (some e) = e.retry_after

abbrev pub after_cycle : ℕ → Turn → Poller → Cycle → TaskHealth → Poller
after_cycle interval turn p (finished settled o) task_health = record {
  horizon_metrics = record_poll_success p.horizon_metrics;
  consecutive_failures = 0;
  next_delay = interval;
  task_health = task_health;
  outbound = o;
}
after_cycle interval turn p (failed o) task_health =
    let failures = min (p.consecutive_failures + 1) (2 ^ 32 - 1) in
    record {
      horizon_metrics =
          if rate_limited_by turn.horizon_err
          then record_rate_limited p.horizon_metrics
          else record_error p.horizon_metrics;
      consecutive_failures = failures;
      next_delay = next_poll_delay turn.random failures (retry_after_of turn.horizon_err);
      task_health = task_health;
      outbound = o;
    }

unfoldable pub poller_turn : Libs → Config → ℕ → Turn → Poller → Poller
poller_turn libs config interval turn p =
    let (cycle, task_health) =
      poll_once turn.api libs config turn.env turn.now p.task_health p.outbound in
    after_cycle interval turn p cycle task_health

unfoldable pub poller_loop : Libs → Config → ℕ → List Turn → Poller → Poller
unfolding poller_turn
poller_loop libs config interval [] p = p
poller_loop libs config interval (turn ∷ turns) p =
    poller_loop libs config interval turns (poller_turn libs config interval turn p)

abbrev pub unconfigured : TaskExit
unconfigured = disabled_by_config (codes "STELLAR_GATEWAY_PUBLIC is unconfigured")

-- By whether a gateway is configured and by `poll_interval_secs`; the `Poller` holds the state that
-- the loop shares, and the delay before the first cycle is the interval.
unfoldable pub run_poller : Libs → Config → Bool → ℕ → List Turn → Poller → TaskExit × Poller
unfolding poller_loop
run_poller libs config configured poll_interval_secs turns p =
    let interval = max poll_interval_secs 1 * 1000 in
    let stopped =
      poller_loop libs config interval turns
        (record p { consecutive_failures = 0; next_delay = interval }) in
    if configured then (shutdown_requested, stopped) else (unconfigured, p)

abbrev pub stream_backoff_base : ℕ
stream_backoff_base = 1000

abbrev pub stream_backoff_max : ℕ
stream_backoff_max = 30000

-- One connection: whether it has moved the cursor. The wait, and the backoff of the next turn.
abbrev pub reconnect_wait : Bool → ℕ → ℕ
reconnect_wait moved backoff = if moved then stream_backoff_base else backoff

abbrev pub next_backoff : ℕ → ℕ
next_backoff wait = min (wait * 2) stream_backoff_max

-- The waits of the listener, behind each of its connections.
unfoldable pub listener_waits : ℕ → List Bool → List ℕ
listener_waits backoff [] = []
listener_waits backoff (moved ∷ connections) =
    let wait = reconnect_wait moved backoff in wait ∷ listener_waits (next_backoff wait) connections

-- By whether a gateway is configured, and whether the client builds; the text of its error is left
-- out.
unfoldable pub run_stream_listener : Bool → Bool → List Bool → TaskExit × List ℕ
run_stream_listener configured client_builds connections =
    let waits = listener_waits stream_backoff_base connections in
    if not configured
    then (unconfigured, [])
    else if client_builds
    then (shutdown_requested, waits)
    else (fatal (codes "failed to build stream HTTP client"), [])
