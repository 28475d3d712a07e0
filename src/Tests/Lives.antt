-- ===== src/Tests/Lives.antt =====
-- The whole program on concrete actions: an intent that is paid by two transactions, swept past its
-- time, and beside it a request for another one.
use stellar_gate.Prelude.{◌≤◌, ◌≡◌, refl, none, some, List, [], ◌∷◌, All, list_eq, nat_eq, list_beq}
use stellar_gate.Text.{
  Text, codes, trim, trim_end_matches, trim_start_matches, is_whitespace, split_once,
  is_ascii_digit, eq_ignore_ascii_case, to_ascii_uppercase,
}
use stellar_gate.Text.Digits.{value_from, show, show_fuel, show_padded}
use stellar_gate.Money.{push_zeros, parse_stroops, stroops_to_string}
use stellar_gate.Db.{Payment, Status}
use stellar_gate.Db.Payments.{
  get_payment, ledger_sum, find_pending_by_memo, record_processed_tx, sum_processed_stroops,
  update_payment_status, expire_overdue, overdue_ids,
}
use stellar_gate.Db.Table.{count_where, update_where, order_by}
use stellar_gate.Db.State.{get_state, set_state}
use stellar_gate.Expiry.{sweep_once, notify_expired}
use stellar_gate.Health.{new_task_health}
use stellar_gate.Webhook.{send_error, dispatch, is_success}
use stellar_gate.Ssrf.{validate, is_blocked_ip, is_blocked_ipv4}
use stellar_gate.Db.Deliveries.{update_webhook_delivery, save_webhook_delivery}
use stellar_gate.Horizon.{
  memo, verify, is_successful, asset_matches, settle, settlement, reconcile_payment,
}
use stellar_gate.Horizon.Poll.{
  HorizonApi, poll_once, starting_cursor, poll_pages, poll_page, poll_record,
}
use stellar_gate.Api.Keys.Requests.{provision}
use stellar_gate.Gateway.Creating.{unchanged}
use stellar_gate.Gateway.Lifecycle.{account, expected, Reach, IsKept}
use stellar_gate.Gateway.Run.{
  Gateway, Action, poll, sweep, create_intent, key_request, Parts, run, act,
}
use stellar_gate.Gateway.Lives.{IsOrderlyAction, run-Reach, run-IsPaid, run-IsKept}
use stellar_gate.Gateway.Restart.{started, run-backfill_ledger}
use stellar_gate.Db.Backfill.{backfill_ledger}
use stellar_gate.Tests.Fixtures.{intent, first, second, libs, config, answering, outbound}
use stellar_gate.Tests.Boot.{default_config}
use stellar_gate.Tests.Keys.{hash}
use stellar_gate.Tests.Requests.{outside, body}

abbrev two_payments : HorizonApi
two_payments = record {
  fetch_recent_payments =
      λ cursor. some (first ∷ record second { transaction_hash = some (codes "tx2") } ∷ []);
  latest = some [];
}

abbrev parts : Parts Text
parts = record {
  libs = libs;
  decoding = record { from_utf8_lossy = λ bytes. bytes; payment_of = λ body. none };
  webhook_config = config;
  config = default_config;
  hash_api_key = hash;
}

abbrev actions : List Action
actions =
    poll two_payments (λ i. answering (λ n. send_error)) 500
    ∷ sweep (λ i. answering (λ n. send_error)) 100 2000
    ∷ key_request (
        provision
          (record { merchant_id = codes "m1"; key_id = codes "k1"; random_hex = codes "aa" }) 2000)
    ∷ create_intent (outside (codes "p9")) (codes "m1") body
    ∷ []

abbrev paying : List Action
paying =
    poll two_payments (λ i. answering (λ n. send_error)) 500
    ∷ sweep (λ i. answering (λ n. send_error)) 100 2000
    ∷ []

abbrev start : Gateway
start = record {
  outbound = outbound;
  auth_metrics = record {
    success = 0;
    failure_missing_key = 0;
    failure_invalid_key = 0;
    failure_internal_error = 0;
  };
  task_health = new_task_health;
}

abbrev paid_intent : Payment
paid_intent = record intent {
  status = Status.completed;
  tx_hash = some (codes "tx2");
  paid_amount = some (codes "10.5");
  updated_at = 500;
}

completes : get_payment (run parts paying start).outbound.db (codes "p1") ≡ some paid_intent
unfolding run act get_payment poll_once starting_cursor get_state poll_pages poll_page poll_record
    reconcile_payment find_pending_by_memo memo verify is_successful asset_matches parse_stroops
    count_where record_processed_tx ledger_sum sum_processed_stroops settle settlement
    update_payment_status update_where stroops_to_string sweep_once expire_overdue overdue_ids
    order_by notify_expired set_state trim trim_end_matches trim_start_matches is_whitespace
    split_once is_ascii_digit value_from push_zeros eq_ignore_ascii_case to_ascii_uppercase list_beq
    dispatch validate is_blocked_ip is_blocked_ipv4 is_success update_webhook_delivery
    save_webhook_delivery show show_fuel show_padded
completes = refl

orderly : All IsOrderlyAction actions
orderly = (tt, (tt, (tt, ((λ i db distinct. unchanged db distinct), tt))))

run-Reach_example :
    Reach
      (account start.outbound.db (codes "p1"))
      (account (run parts actions start).outbound.db (codes "p1"))
run-Reach_example = run-Reach parts actions start (codes "p1") orderly (refl, tt)

run-IsPaid_example :
    expected paid_intent
    ≤ ledger_sum (codes "p1") (run parts paying start).outbound.db.processed_transactions
unfolding get_payment list_beq
run-IsPaid_example =
    run-IsPaid parts paying start (codes "p1") paid_intent (tt, (tt, tt)) (refl, tt) (λ done. cc)
      completes refl

run-IsKept_example : IsKept intent 0 (account (run parts actions start).outbound.db (codes "p1"))
unfolding get_payment ledger_sum list_beq
run-IsKept_example = run-IsKept parts actions start (codes "p1") intent orderly (refl, tt) refl

run-backfill_ledger_example :
    backfill_ledger (run parts actions (started start)).outbound.db
    ≡ (run parts actions (started start)).outbound.db
run-backfill_ledger_example = run-backfill_ledger parts actions start orderly (refl, tt)
