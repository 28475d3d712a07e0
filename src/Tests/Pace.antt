-- ===== src/Tests/Pace.antt =====
-- src/horizon.rs: the poller and the listener on concrete turns.
use stellar_gate.Prelude.{◌≤◌, ◌≡◌, refl, true, false, none, some, [], ◌∷◌, arith, list_eq, nat_eq}
use stellar_gate.Text.{
  codes, trim, trim_start_matches, trim_end_matches, is_whitespace, is_ascii_digit,
}
use stellar_gate.Text.Digits.{value_from}
use stellar_gate.Text.Numbers.{parse_unsigned}
use stellar_gate.Db.State.{get_state}
use stellar_gate.Health.{new_task_health}
use stellar_gate.Webhook.{retry_delay, send_error}
use stellar_gate.Horizon.Poll.{poll_once, starting_cursor}
use stellar_gate.Horizon.Pace.{
  Turn, Poller, run_poller, poller_loop, poller_turn, next_poll_delay, parse_retry_after,
  listener_waits, stream_backoff_base,
}
use stellar_gate.Horizon.Pace.Awake.{run_poller-next_delay}
use stellar_gate.Tests.Fixtures.{libs, config, outbound, answering}

-- Horizon answers with an error, and says to come back in 30 seconds.
abbrev throttled : Turn
throttled = record {
  api = record { fetch_recent_payments = λ cursor. none; latest = none };
  env = λ i. answering (λ n. send_error);
  now = 100;
  horizon_err = some (record { status = 429; retry_after = some 30000 });
  random = λ k. k;
}

-- The request fails on the way.
abbrev broken : Turn
broken = record throttled { horizon_err = none }

abbrev idle : Poller
idle = record {
  horizon_metrics = record { success = 0; rate_limited = 0; error = 0 };
  consecutive_failures = 0;
  next_delay = 0;
  task_health = new_task_health;
  outbound = outbound;
}

-- The second failure in a row doubles the backoff, and `Retry-After` replaces it.
backed_off :
    ((run_poller libs config true 10 (broken ∷ []) idle).1.next_delay ≡ 1000)
    × ((run_poller libs config true 10 (throttled ∷ broken ∷ []) idle).1.next_delay ≡ 2000)
    × ((run_poller libs config true 10 (broken ∷ throttled ∷ []) idle).1.next_delay ≡ 30000)
unfolding run_poller poller_loop poller_turn next_poll_delay poll_once starting_cursor get_state
    retry_delay
backed_off = (refl, refl, refl)

header_value : parse_retry_after (some (codes " 30 ")) ≡ some 30000
unfolding parse_retry_after parse_unsigned trim trim_start_matches trim_end_matches is_whitespace
    is_ascii_digit value_from
header_value = refl

-- A connection that moves the cursor brings the wait back to a second.
reconnects :
    listener_waits stream_backoff_base (false ∷ false ∷ false ∷ true ∷ false ∷ [])
    ≡ 1000 ∷ 2000 ∷ 4000 ∷ 1000 ∷ 2000 ∷ []
unfolding listener_waits
reconnects = refl

run_poller-next_delay_example :
    (run_poller libs config true 10 (broken ∷ throttled ∷ []) idle).1.next_delay ≤ 120000
run_poller-next_delay_example =
    run_poller-next_delay libs config 120000 10 (broken ∷ throttled ∷ []) idle (omega arith)
      (omega arith) (((λ k. omega arith), tt), (((λ k. omega arith), omega arith), tt))
