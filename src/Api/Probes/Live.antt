-- ===== src/Api/Probes/Live.antt =====
-- src/api/mod.rs: when `/health` is green.
use stellar_gate.Prelude.{Bool, List, ltb, nat_eq, all}
use stellar_gate.Text.{Text}
use stellar_gate.Health.{TaskHealth, crash_loop_threshold, or_zero}

-- Whether every task of a list has failed fewer than three times in a row.
abbrev pub none_looping : TaskHealth → List Text → Bool
none_looping tasks =
    all (λ name. ltb (or_zero (tasks.consecutive_failures name)) crash_loop_threshold)
