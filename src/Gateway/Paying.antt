-- ===== src/Gateway/Paying.antt =====
-- src/horizon.rs, `reconcile_payment`: the whole effect of a payment that counts, on the tables and on
-- what the merchant is told.
use stellar_gate.Prelude.{
  ℕ, ◌+◌, ◌-◌, ◌≡◌, Bool, true, Option, none, some, list_eq, nat_eq, ◌==◌, leb, ltb, if◌then◌else◌,
}
use stellar_gate.Prelude.Int.{pos}
use stellar_gate.Text.{Text}
use stellar_gate.Money.{stroops_to_string}
use stellar_gate.Db.{
  Db, Payment, Status, Event, Result, ok, payment_completed, payment_overpaid, payment_underpaid,
}
use stellar_gate.Db.Payments.{get_payment, ledger_sum, update_payment_status}
use stellar_gate.Webhook.{Libs, Config, Env, Outbound, dispatch}
use stellar_gate.Horizon.{HorizonPayment, settlement}
use stellar_gate.Horizon.Reconcile.{hash_of, credited_db}
use stellar_gate.Gateway.Recorded.{has_entry}
use stellar_gate.Gateway.Settling.{IsOpen}

-- Completed from the expected amount on, and underpaid below it.
abbrev pub paid_status : ℕ → ℕ → Status
paid_status total expected = if leb expected total then Status.completed else Status.underpaid

abbrev pub paid_event : ℕ → ℕ → Event
paid_event total expected =
    if total == expected
    then payment_completed
    else if ltb expected total
    then payment_overpaid
    else payment_underpaid

-- What is too much or what is missing.
abbrev pub paid_delta : ℕ → ℕ → Option Text
paid_delta total expected =
    if total == expected
    then none
    else if ltb expected total
    then some (stroops_to_string (pos (total - expected)))
    else some (stroops_to_string (pos (expected - total)))

abbrev pub paid_copy : ℕ → ℕ → Text → Payment → Payment
paid_copy total expected tx_hash p = record p {
  status = paid_status total expected;
  tx_hash = some tx_hash;
  paid_amount = some (stroops_to_string (pos total));
}

module _ (libs : Libs) (config : Config) (env : Env) (hp : HorizonPayment) (o : Outbound)
    (p : Payment) (paid expected : ℕ) where
  abbrev total : ℕ
  total = paid + ledger_sum p.id o.db.processed_transactions

  -- The tables before the merchant is told.
  abbrev settled_db : Db
  settled_db =
      (update_payment_status (credited_db o.db p.id hp paid) p.id (settlement total expected).status
        (hash_of hp) (stroops_to_string (pos total)) env.now).1

  abbrev before : Outbound
  before = record o { db = settled_db }

  -- The state behind a settlement that takes effect.
  abbrev told : Outbound
  told =
      dispatch libs config env (paid_copy total expected (hash_of hp) p) (paid_event total expected)
        (paid_delta total expected) before

  abbrev pub IsPaidFor : Result Bool × Outbound → Type 0
  IsPaidFor r =
      (r.0 ≡ ok true)
      × (get_payment r.1.db p.id
          ≡ some (record (paid_copy total expected (hash_of hp) p) { updated_at = env.now }))
      × (ledger_sum p.id r.1.db.processed_transactions ≡ total)
      × (has_entry r.1.db.processed_transactions p.id (hash_of hp) ≡ true)
      × ((b : Outbound) × (r.1
            ≡ dispatch libs config env (paid_copy total expected (hash_of hp) p)
                (paid_event total expected) (paid_delta total expected) b)
          × (b.sent ≡ o.sent)
          × (b.metrics ≡ o.metrics))

  module _ (open_row : IsOpen o.db p) where
    abbrev sending : Status → Event → Option Text → Outbound
    sending status event delta =
        dispatch libs config env
          (record p {
            status = status;
            tx_hash = some (hash_of hp);
            paid_amount = some (stroops_to_string (pos total));
          })
          event delta before
