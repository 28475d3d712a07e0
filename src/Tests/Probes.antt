-- ===== src/Tests/Probes.antt =====
-- src/api/mod.rs: the probes on concrete tasks and times.
use stellar_gate.Prelude.{◌≡◌, refl, true, list_eq, nat_eq, list_beq}
use stellar_gate.Prelude.Int.{pos}
use stellar_gate.Text.{codes}
use stellar_gate.Config.Assets.{gateway_configured}
use stellar_gate.Health.{
  TaskHealth, new_task_health, require, task_started, dead_required_tasks,
  crash_looping_required_tasks, last_success_age_secs,
}
use stellar_gate.Api.Probes.{health, ready, check_horizon_ready, replied, stalled}
use stellar_gate.Tests.Boot.{default_config}

abbrev waiting : TaskHealth
waiting =
    require (task_started (require new_task_health (codes "poller")) (codes "poller"))
      (codes "sweeper")

-- The sweeper is expected and has not started.
not_green : (health waiting).status ≡ 503
unfolding health dead_required_tasks crash_looping_required_tasks require task_started list_beq
not_green = refl

-- The last event is one second older than three poll intervals.
stale :
    ready
      (record default_config { gateway_public = codes "GATEWAY" })
      true
      (replied 200)
      (record waiting { last_success_unix = 100 })
      131
    ≡ stalled (pos 31) (pos 30)
unfolding ready check_horizon_ready last_success_age_secs gateway_configured list_beq
stale = refl
