-- ===== src/Tests/Started.antt =====
-- src/main.rs and src/metrics.rs: the default configuration's start, and the text of its metrics.
use stellar_gate.Prelude.{◌≡◌, refl, some, List, [], ◌∷◌, list_eq, nat_eq, list_beq}
use stellar_gate.Prelude.Int.{pos}
use stellar_gate.Text.{Text, codes}
use stellar_gate.Text.Digits.{show}
use stellar_gate.Db.{empty_db}
use stellar_gate.Db.Listing.{text_ltb}
use stellar_gate.Health.{
  TaskHealth, new_task_health, require, task_started, task_failed, expected_tasks, live_tasks,
}
use stellar_gate.Metrics.{AuthMetrics, HorizonMetrics, new_webhook_metrics}
use stellar_gate.Health.Snapshot.{snapshot, sort_names, insert_name}
use stellar_gate.Metrics.Render.{Family, families}
use stellar_gate.Metrics.Render.Scrape.{reading, all_samples}
use stellar_gate.Metrics.Render.Shown.{AreShown, scrape-Shows}
use stellar_gate.Startup.{run_retention_worker, nothing_to_retain}

-- Both retention times are 0: the worker says so and leaves the rows alone.
nothing_kept :
    run_retention_worker (pos 0) (pos 0) (5 ∷ 10 ∷ []) empty_db ≡ (nothing_to_retain, empty_db)
unfolding run_retention_worker
nothing_kept = refl

abbrev auth : AuthMetrics
auth = record {
  success = 4;
  failure_missing_key = 1;
  failure_invalid_key = 0;
  failure_internal_error = 0;
}

abbrev horizon : HorizonMetrics
horizon = record { success = 7; rate_limited = 2; error = 0 }

-- The sweeper runs, the poller has panicked.
abbrev tasks : TaskHealth
tasks =
    task_failed
      (task_started (require (require new_task_health (codes "sweeper")) (codes "poller"))
        (codes "sweeper"))
      (codes "poller")

abbrev panics : Text
panics = codes "stellargate_task_consecutive_failures{task=\"poller\"}"

abbrev shown : List Family
shown = families (codes "sweeper" ∷ []) new_webhook_metrics auth tasks horizon

scrape-Shows_example :
    AreShown (codes "sweeper" ∷ []) new_webhook_metrics auth tasks horizon 0 0 0 0 0 0 0 0 0 0
unfolding require task_started task_failed
scrape-Shows_example =
    scrape-Shows (codes "sweeper" ∷ []) new_webhook_metrics auth tasks horizon refl refl 0 0 0 0 0 0
      0 0 0 0 refl

one_panic : reading panics (all_samples shown) ≡ some (show 1)
unfolding all_samples snapshot sort_names insert_name require task_started task_failed
    expected_tasks live_tasks list_beq text_ltb
one_panic = refl
