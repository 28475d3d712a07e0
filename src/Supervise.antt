-- ===== src/Supervise.antt =====
-- src/supervise.rs: the loop that keeps a background task running. What the runtime does to the loop
-- is a script, one entry for each round; `watch` and the timers are in it.
pub mod CrashLoop
use stellar_gate.Prelude.{
  ℕ, ◌+◌, ◌*◌, Bool, true, false, ◌||◌, Option, none, some, List, [], ◌∷◌, min, if◌then◌else◌,
}
use stellar_gate.Text.{Text}
use stellar_gate.Health.{
  TaskHealth, task_started, task_stopped, task_failed, task_restarted, task_disabled, note_stable,
}

pub data TaskExit : Type 0 where
  shutdown_requested : TaskExit
  disabled_by_config : Text → TaskExit
  fatal : Text → TaskExit

-- Milliseconds.
pub record Backoff : Type 0 where
  pub initial : ℕ
  pub maximum : ℕ
  pub stability : ℕ

abbrev pub default_backoff : Backoff
default_backoff = record { initial = 1000; maximum = 60000; stability = 5000 }

-- How the join of the child ends.
pub data Join : Type 0 where
  exited : TaskExit → Join
  panicked : Join
  cancelled : Join

-- One round: shutdown is set before the child starts; the child lives past the stability time; the
-- child ends by itself, or shutdown comes while it runs (`none`); shutdown is set once it has ended;
-- shutdown comes during the wait.
pub record Round : Type 0 where
  pub shut_before : Bool
  pub marked_stable : Bool
  pub ending : Option Join
  pub shut_after : Bool
  pub shut_waiting : Bool

-- `health`, whether the loop goes on, the delay of the next restart, and the waits so far, the last
-- first.
pub record Supervisor : Type 0 where
  pub health : TaskHealth
  pub looping : Bool
  pub delay : ℕ
  pub waits : List ℕ

abbrev pub begin : Backoff → TaskHealth → Supervisor
begin backoff h = record { health = h; looping = true; delay = backoff.initial; waits = [] }

abbrev pub finished : TaskHealth → Supervisor → Supervisor
finished h s = record s { health = h; looping = false }

-- The restart: counted, then the wait, then the delay doubles up to the cap.
abbrev pub restart : Backoff → Text → Bool → TaskHealth → Supervisor → Supervisor
restart backoff name shut_waiting h s =
    let h' = task_restarted h name in
    if shut_waiting then finished (task_stopped h' name) s else record s {
      health = h';
      delay = min (s.delay * 2) backoff.maximum;
      waits = s.delay ∷ s.waits;
    }

abbrev pub after_join : Backoff → Text → Bool → TaskHealth → Supervisor → Join → Supervisor
after_join backoff name shut_waiting h s (exited shutdown_requested) =
    finished (task_stopped h name) s
after_join backoff name shut_waiting h s (exited (disabled_by_config reason)) =
    finished (task_disabled h name reason) s
after_join backoff name shut_waiting h s (exited (fatal reason)) =
    restart backoff name shut_waiting (task_stopped h name) s
after_join backoff name shut_waiting h s panicked =
    restart backoff name shut_waiting (task_failed h name) s
after_join backoff name shut_waiting h s cancelled = finished (task_stopped h name) s

abbrev pub after_run : Backoff → Text → Round → TaskHealth → Supervisor → Option Join → Supervisor
after_run backoff name r h s none = finished (task_stopped h name) s
after_run backoff name r h s (some join) =
    if r.shut_after
    then finished (task_stopped h name) s
    else after_join backoff name r.shut_waiting h s join

unfoldable pub round : Backoff → Text → Round → Supervisor → Supervisor
round backoff name r s =
    let h = task_started s.health name in
    if r.shut_before
    then finished (task_stopped s.health name) s
    else after_run backoff name r (if r.marked_stable then note_stable h name else h) s r.ending

-- The loop along a script; it ends where the loop returns or the script does.
unfoldable pub supervise_with : Backoff → Text → List Round → Supervisor → Supervisor
unfolding round
supervise_with backoff name [] s = s
supervise_with backoff name (r ∷ script) s =
    let rest = supervise_with backoff name script (round backoff name r s) in
    if s.looping then rest else s
