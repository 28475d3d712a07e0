-- ===== src/Health/Probes.antt =====
-- src/lib.rs: what `/health` reads of `TaskHealth`.
use stellar_gate.Prelude.{◌+◌, ◌≡◌, Bool, not, List, [], ◌∷◌, arith, filterb, length}
use stellar_gate.Text.{Text}
use stellar_gate.Health.{
  TaskHealth, expected_tasks, live_tasks, dead_required_tasks, is_running, is_expected,
}

length-split :
    (p : Text → Bool) (names : List Text)
    → length (filterb p names) + length (filterb (λ n. not (p n)) names) ≡ length names
length-split p [] = omega arith
length-split p (n ∷ names) = ground (arith, length-split p names)

-- Every expected task is either live or reported as dead, and none is both.
pub live_tasks-dead_required_tasks :
    (h : TaskHealth) → live_tasks h + length (dead_required_tasks h) ≡ expected_tasks h
unfolding live_tasks dead_required_tasks expected_tasks
live_tasks-dead_required_tasks h = length-split (is_running h) (filterb (is_expected h) h.required)
