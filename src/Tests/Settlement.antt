-- ===== src/Tests/Settlement.antt =====
-- src/horizon.rs on an intent for 10.5 XLM that is paid in two halves, first by two payments of one
-- transaction.
use stellar_gate.Prelude.{ℕ, ◌+◌, ◌≡◌, refl, inl, some, arith, some, list_beq}
use stellar_gate.Text.{
  codes, trim, trim_end_matches, trim_start_matches, is_whitespace, split_once, is_ascii_digit,
  to_ascii_uppercase,
}
use stellar_gate.Text.Digits.{value_from}
use stellar_gate.Money.{push_zeros, parse_stroops}
use stellar_gate.Db.Table.{count_where}
use stellar_gate.Db.Payments.{find_pending_by_memo}
use stellar_gate.Webhook.{Env, Outbound, send_error}
use stellar_gate.Horizon.{reconcile_payment, find_intent, memo, or_empty}
use stellar_gate.Horizon.Matched.{IsJudged, is_native}
use stellar_gate.Horizon.Verify.{Pays, judge, verify-Pays, verify-eq_some}
use stellar_gate.Horizon.Reconcile.{IsCredited, credited_db, reconcile-credited}
use stellar_gate.Tests.Fixtures.{
  intent, transaction, first, second, libs, config, answering, db, outbound,
}

abbrev env : Env
env = answering (λ n. send_error)

-- The state once the first half is credited.
abbrev half_paid : Outbound
half_paid = record outbound { db = credited_db db intent.id first 40000000 }

first-Pays : Pays intent first 40000000 105000000
unfolding parse_stroops trim trim_end_matches trim_start_matches is_whitespace split_once
    is_ascii_digit value_from push_zeros to_ascii_uppercase list_beq
first-Pays = record {
  transaction = transaction;
  joined = refl;
  is_payment = refl;
  to_gateway = refl;
  text_memo = refl;
  same_memo = refl;
  succeeded = refl;
  same_asset = is_native (inl refl) refl refl;
  raw_amount = codes "4.0000000";
  has_amount = refl;
  amount_paid = refl;
  amount_expected = refl;
}

verify-eq_some_example :
    (paid : ℕ) × (expected : ℕ) × Pays intent first paid expected
    × (judge first 0 40000000 105000000 ≡ judge first 0 paid expected)
    × IsJudged
        (or_empty first.transaction_hash)
        (0 + paid)
        expected
        (judge first 0 40000000 105000000)
verify-eq_some_example =
    verify-eq_some intent first 0 (judge first 0 40000000 105000000)
      (verify-Pays intent first 0 40000000 105000000 first-Pays)

found : find_intent first 500 db ≡ some intent
unfolding find_pending_by_memo memo list_beq
found = refl

again : IsCredited intent.id second half_paid.db
unfolding count_where list_beq
again e = omega (arith, e)

-- The second payment of the same transaction is not credited.
reconcile-credited_example : (reconcile_payment libs config env second half_paid).1 ≡ half_paid
unfolding memo find_pending_by_memo
reconcile-credited_example = reconcile-credited libs config env second half_paid intent found again
