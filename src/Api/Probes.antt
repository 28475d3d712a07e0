-- ===== src/Api/Probes.antt =====
-- src/api/mod.rs: `/health` and `/ready`. The texts of the reasons are data here, and the list of
-- the disabled tasks, which walks the keys of a `HashMap`, is left out.
pub mod Live
use stellar_gate.Prelude.{
  ℕ, ◌*◌, ◌%◌, ◌^◌, Bool, true, false, ◌&&◌, not, List, [], ◌∷◌, leb, ltb, if◌then◌else◌,
}
use stellar_gate.Prelude.Int.{ℤ, pos, negsuc}
use stellar_gate.Text.{Text}
use stellar_gate.Config.{Config}
use stellar_gate.Config.Assets.{gateway_configured}
use stellar_gate.Config.Timing.{as_i64, ltz}
use stellar_gate.Health.{
  TaskHealth, expected_tasks, live_tasks, dead_required_tasks, crash_looping_required_tasks,
  last_success_age_secs,
}

-- What `/health` answers: the status, and the tasks that it names as dead or as crash-looping.
pub record Liveness : Type 0 where
  pub status : ℕ
  pub expected : ℕ
  pub live : ℕ
  pub dead : List Text
  pub looping : List Text

abbrev pub no_names : List Text → Bool
no_names [] = true
no_names (name ∷ names) = false

unfoldable pub health : TaskHealth → Liveness
health tasks = record {
  status =
      if no_names (dead_required_tasks tasks) && no_names (crash_looping_required_tasks tasks)
      then 200
      else 503;
  expected = expected_tasks tasks;
  live = live_tasks tasks;
  dead = dead_required_tasks tasks;
  looping = crash_looping_required_tasks tasks;
}

-- What the request to Horizon comes to: a status, an error, or 3 seconds without an answer.
pub data Reply : Type 0 where
  replied : ℕ → Reply
  unreachable timed_out : Reply

pub data Readiness : Type 0 where
  is_ready database_unreachable horizon_unreachable horizon_timed_out : Readiness
  horizon_returned : ℕ → Readiness
  stalled : ℤ → ℤ → Readiness

unfoldable pub check_horizon_ready : Reply → Readiness
check_horizon_ready (replied status) = if ltb status 500 then is_ready else horizon_returned status
check_horizon_ready unreachable = horizon_unreachable
check_horizon_ready timed_out = horizon_timed_out

-- The two casts and the product, which wraps in a release build.
abbrev pub staleness_limit : {N : Type 0} → Config N → ℤ
staleness_limit config =
    as_i64 (config.poll_interval_secs * config.cursor_staleness_multiple % 2 ^ 64)

abbrev pub check_cursor : {N : Type 0} → Config N → TaskHealth → ℕ → Readiness
check_cursor config tasks now =
    let age = last_success_age_secs tasks now in
    if ltz (staleness_limit config) age then stalled age (staleness_limit config) else is_ready

abbrev and_check : Readiness → Readiness → Readiness
and_check is_ready next = next
and_check failed next = failed

-- `ping` says whether the database answers.
unfoldable pub ready : {N : Type 0} → Config N → Bool → Reply → TaskHealth → ℕ → Readiness
ready config ping reply tasks now =
    if not ping
    then database_unreachable
    else if gateway_configured config
    then and_check (check_horizon_ready reply) (check_cursor config tasks now)
    else is_ready
