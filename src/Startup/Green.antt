-- ===== src/Startup/Green.antt =====
-- src/main.rs and src/api/mod.rs: what `/health` says of a process that has just started.
use stellar_gate.Prelude.{◌≡◌, List, [], ◌∷◌, ◌++◌, All, length, if◌then◌else◌}
use stellar_gate.Text.{Text, codes}
use stellar_gate.Config.{Config}
use stellar_gate.Health.{new_task_health, task_stopped, task_failed, expected_tasks}
use stellar_gate.Api.Probes.{health}
use stellar_gate.Startup.{Switches, boot}

-- The tasks that the configuration wants.
abbrev pub wanted : Switches → List Text
wanted s =
    (if s.configured then codes "poller" ∷ [] else [])
    ++ ((if s.configured then (if s.streaming then codes "stream" ∷ [] else []) else [])
        ++ (codes "sweeper" ∷ (if s.retaining then codes "retention" ∷ [] else [])
            ++ codes "redrive" ∷ []))

-- Both answers of the probe: all is well, and then one of the tasks has gone.
abbrev pub IsGreen : Switches → Type 0
IsGreen s =
    ((health (boot s new_task_health)).status ≡ 200)
    × (expected_tasks (boot s new_task_health) ≡ length (wanted s))
    × All
        (λ name.
          ((health (task_stopped (boot s new_task_health) name)).status ≡ 503)
          × ((health (task_failed (boot s new_task_health) name)).status ≡ 503))
        (wanted s)
