-- ===== src/Health.antt =====
-- src/lib.rs: `TaskHealth`, what the supervisor and the probes know of the background tasks. A
-- `HashMap` keyed by task names is a function of the name.
pub mod Probes
pub mod Snapshot
use stellar_gate.Prelude.{
  ℕ, ◌+◌, ◌-◌, ◌%◌, ◌^◌, Bool, true, false, ◌&&◌, not, Option, none, some, List, [], ◌∷◌, ◌++◌, leb,
  ltb, ◌==◌, list_eq, option_eq, nat_eq, filterb, length, if◌then◌else◌,
}
use stellar_gate.Prelude.Int.{ℤ, pos, negsuc}
use stellar_gate.Text.{Text}

abbrev pub crash_loop_threshold : ℕ
crash_loop_threshold = 3

pub record TaskHealth : Type 0 where
  pub started : ℕ
  pub stopped : ℕ
  pub failed : ℕ
  pub running : Text → Option Bool
  pub restarts : Text → Option ℕ
  pub consecutive_failures : Text → Option ℕ
  pub disabled : Text → Option Text
  pub required : List Text
  pub last_success_unix : ℕ

abbrev pub new_task_health : TaskHealth
new_task_health = record {
  started = 0;
  stopped = 0;
  failed = 0;
  running = λ name. none;
  restarts = λ name. none;
  consecutive_failures = λ name. none;
  disabled = λ name. none;
  required = [];
  last_success_unix = 0;
}

-- `HashMap::insert`
abbrev pub insert {ℓ} : {V : Type ℓ} → Text → V → (Text → Option V) → Text → Option V
insert name v m key = if name == key then some v else m key

abbrev pub or_zero : Option ℕ → ℕ
or_zero none = 0
or_zero (some n) = n

-- `fetch_add(1)` on an `AtomicU64`
abbrev pub next_u64 : ℕ → ℕ
next_u64 n = (n + 1) % 2 ^ 64

unfoldable pub require : TaskHealth → Text → TaskHealth
require h name = record h { required = h.required ++ name ∷ [] }

unfoldable pub task_started : TaskHealth → Text → TaskHealth
task_started h name = record h {
  started = next_u64 h.started;
  running = insert name true h.running;
}

unfoldable pub task_stopped : TaskHealth → Text → TaskHealth
task_stopped h name = record h {
  stopped = next_u64 h.stopped;
  running = insert name false h.running;
}

-- The counter of consecutive failures is a `u32`.
unfoldable pub task_failed : TaskHealth → Text → TaskHealth
task_failed h name = record h {
  failed = next_u64 h.failed;
  running = insert name false h.running;
  consecutive_failures =
      insert name ((or_zero (h.consecutive_failures name) + 1) % 2 ^ 32) h.consecutive_failures;
}

unfoldable pub task_restarted : TaskHealth → Text → TaskHealth
task_restarted h name = record h {
  restarts = insert name (next_u64 (or_zero (h.restarts name))) h.restarts;
}

unfoldable pub task_disabled : TaskHealth → Text → Text → TaskHealth
task_disabled h name reason = record h {
  stopped = next_u64 h.stopped;
  running = insert name false h.running;
  disabled = insert name reason h.disabled;
}

unfoldable pub note_stable : TaskHealth → Text → TaskHealth
note_stable h name = record h { consecutive_failures = insert name 0 h.consecutive_failures }

unfoldable pub note_success : TaskHealth → ℕ → TaskHealth
note_success h now = record h { last_success_unix = now }

abbrev pub is_present {ℓ} : {V : Type ℓ} → Option V → Bool
is_present none = false
is_present (some v) = true

abbrev pub is_expected : TaskHealth → Text → Bool
is_expected h name = not (is_present (h.disabled name))

abbrev pub is_running : TaskHealth → Text → Bool
is_running h name = elim (h.running name) [ none ↦ false | some b ↦ b ]

unfoldable pub expected_tasks : TaskHealth → ℕ
expected_tasks h = length (filterb (is_expected h) h.required)

unfoldable pub live_tasks : TaskHealth → ℕ
live_tasks h = length (filterb (is_running h) (filterb (is_expected h) h.required))

unfoldable pub dead_required_tasks : TaskHealth → List Text
dead_required_tasks h =
    filterb (λ name. not (is_running h name)) (filterb (is_expected h) h.required)

unfoldable pub crash_looping_required_tasks : TaskHealth → List Text
crash_looping_required_tasks h =
    filterb (λ name. leb crash_loop_threshold (or_zero (h.consecutive_failures name))) h.required

unfoldable pub last_success_age_secs : TaskHealth → ℕ → ℤ
last_success_age_secs h now =
    if leb h.last_success_unix now
    then pos (now - h.last_success_unix)
    else negsuc (h.last_success_unix - now - 1)
