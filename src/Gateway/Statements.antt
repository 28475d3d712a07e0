-- ===== src/Gateway/Statements.antt =====
-- src/db.rs: the statements that write intents and the ledger follow the life of an intent.
use stellar_gate.Prelude.{
  ℕ, ◌+◌, ◌≡◌, refl, sym, ap, subst, inl, inr, true, false, Option, some, List, ◌∷◌, ◌==◌, ==_iff,
  ==-refl, list_eq, nat_eq, arith, Bool-cases, Option-cases,
}
use stellar_gate.Prelude.Int.{pos}
use stellar_gate.Text.{Text}
use stellar_gate.Money.{stroops_to_string}
use stellar_gate.Db.{Db, Payment, ProcessedTransaction, is_watchable}
use stellar_gate.Db.Table.{update_where, count_where}
use stellar_gate.Db.Payments.{
  get_payment, is_open, is_entry, ledger_sum, update_payment_status, record_processed_tx,
  settled_row,
}
use stellar_gate.Horizon.{settlement}
use stellar_gate.Gateway.Lifecycle.{
  account, expected, credits, settles, Reach, here, next, Reach-trans, Reach-eq,
}
use stellar_gate.Db.Backfill.{legacy_entry}
use stellar_gate.Gateway.Recorded.{
  has_entry, covers, is_recorded, all_covered-later, settled-covered, update_where-covered,
}
use stellar_gate.Gateway.Lookup.{
  lookup, HasDistinctIds, lookup-id, changed, lookup-update_where, update_where-HasDistinctIds,
}

-- Behind `db'` ids are distinct, every id has moved from `db` as its life allows, and the ledger still
-- has every transaction that an intent names.
pub record Evolves (db db' : Db) : Type 0 where
  pub distinct : HasDistinctIds db'.payments
  pub moves : (id : Text) → Reach (account db id) (account db' id)
  pub recorded : is_recorded db ≡ true → is_recorded db' ≡ true

pub Evolves-trans : (a b c : Db) → Evolves a b → Evolves b c → Evolves a c
Evolves-trans a b c e f = record {
  distinct = f.distinct;
  moves = λ id. Reach-trans (e.moves id) (f.moves id);
  recorded = λ h. f.recorded (e.recorded h);
}

-- A statement on other tables.
pub Evolves-same :
    (db db' : Db)
    → HasDistinctIds db.payments
    → db'.payments ≡ db.payments
    → db'.processed_transactions ≡ db.processed_transactions
    → Evolves db db'
unfolding get_payment
Evolves-same db db' distinct payments ledger = record {
  distinct = rw payments distinct;
  moves = λ id. Reach-eq (rw (payments, ledger) refl);
  recorded = λ h. rw (payments, ledger) h;
}

other_id : (id key : Text) (q : Payment) → q.id ≡ id → (key == id) ≡ false → is_open key q ≡ false
other_id id key q e h = ground (arith, ==_iff q.id key, ==_iff key id)

-- A guarded update leaves the other ids alone.
changed-other :
    (id key : Text) (rows : List Payment) (change : Payment → Payment)
    → (key == id) ≡ false
    → changed (is_open key) change (lookup id rows) ≡ lookup id rows
changed-other id key rows change h = elim (Option-cases (lookup id rows)) [
  | inl e ↦ rw e refl
  | inr (q, e) ↦ rw e (rw (other_id id key q (lookup-id id rows q e) h) refl)
]

-- A row of the id `id`, settled by a transaction of the ledger.
settled_row-covered :
    (ledger : List ProcessedTransaction) (id tx_hash paid_amount : Text) (q : Payment)
    → has_entry ledger id tx_hash ≡ true
    → (q.id == id) ≡ true
    → covers ledger q.id (legacy_entry (some tx_hash) (some paid_amount)) ≡ true
settled_row-covered ledger id tx_hash paid_amount q entered same =
    settled-covered ledger q.id tx_hash paid_amount
      (subst (λ k. has_entry ledger k tx_hash ≡ true) (sym ((==_iff q.id id).0 same)) entered)

pub open_self : (p : Payment) → is_watchable p.status ≡ true → is_open p.id p ≡ true
open_self p h = rw (==-refl p.id, h) refl

ledger_sum-new :
    (id : Text) (t : ProcessedTransaction) (rows : List ProcessedTransaction)
    → (t.payment_id == id) ≡ false
    → ledger_sum id (t ∷ rows) ≡ ledger_sum id rows
unfolding ledger_sum
ledger_sum-new id t rows h = ground arith

ledger_sum_self :
    (t : ProcessedTransaction) (rows : List ProcessedTransaction)
    → ledger_sum t.payment_id (t ∷ rows) ≡ ledger_sum t.payment_id rows + t.amount_stroops
unfolding ledger_sum
ledger_sum_self t rows = ground (arith, ==-refl t.payment_id)

-- Where one id moves and the others stay.
pub by_id :
    (db db' : Db) (key : Text)
    → Reach (account db key) (account db' key)
    → ((id : Text) → (key == id) ≡ false → account db' id ≡ account db id)
    → (id : Text) → Reach (account db id) (account db' id)
by_id db db' key self others id = elim (Bool-cases (key == id)) [
  | inl e ↦ subst (λ k. Reach (account db k) (account db' k)) ((==_iff key id).0 e) self
  | inr e ↦ Reach-eq (others id e)
]

module _ (db : Db) (distinct : HasDistinctIds db.payments) (p : Payment)
    (there : get_payment db p.id ≡ some p) (watched : is_watchable p.status ≡ true) where
  -- Settling at the sum of the ledger.
  pub update_payment_status-Evolves :
      (total : ℕ) (tx_hash : Text) (now : ℕ)
      → ledger_sum p.id db.processed_transactions ≡ total
      → has_entry db.processed_transactions p.id tx_hash ≡ true
      → Evolves db
          (update_payment_status db p.id
            (settlement total (expected p)).status
            tx_hash
            (stroops_to_string (pos total))
            now).1
  unfolding update_payment_status get_payment
  update_payment_status-Evolves total tx_hash now sum entered =
      let change =
        settled_row (settlement total (expected p)).status tx_hash (stroops_to_string (pos total))
          now in
      let db' = record db { payments = update_where (is_open p.id) change db.payments } in
      let read = lookup-update_where (is_open p.id) change (λ q. refl) in
      record {
        distinct =
            update_where-HasDistinctIds (is_open p.id) change (λ q. refl) db.payments distinct;
        moves =
            by_id db db' p.id
              (next here (
                settles p tx_hash now there watched
                  (rw (read p.id db.payments, there, open_self p watched, sum) refl)))
              (λ id e. rw (read id db.payments, changed-other id p.id db.payments change e) refl);
        recorded =
            update_where-covered db.processed_transactions (is_open p.id) change
              (λ q here covered.
                settled_row-covered db.processed_transactions p.id tx_hash
                  (stroops_to_string (pos total)) q entered (ground (arith, here)))
              db.payments;
      }

  -- Recording a transaction.
  pub record_processed_tx-Evolves :
      (tx_hash : Text) (amount : ℕ) → Evolves db (record_processed_tx db p.id tx_hash amount).1
  unfolding record_processed_tx get_payment
  record_processed_tx-Evolves tx_hash amount =
      elim (Bool-cases (count_where (is_entry p.id tx_hash) db.processed_transactions == 0)) [
        | inr e ↦ rw e (Evolves-same db db distinct refl refl)
        | inl e ↦
            let t : ProcessedTransaction = record {
              payment_id = p.id;
              tx_hash = tx_hash;
              amount_stroops = amount;
            } in
            let db' = record db { processed_transactions = t ∷ db.processed_transactions } in
            rw e (record {
              distinct = distinct;
              moves =
                  by_id db db' p.id
                    (next here (
                      credits p amount there watched (
                        rw (ledger_sum_self t db.processed_transactions) (
                          ap
                            (λ (x : Option Payment).
                              (x, ledger_sum p.id db.processed_transactions + amount))
                            there))))
                    (λ id other. rw (ledger_sum-new id t db.processed_transactions other) refl);
              recorded = all_covered-later t db.processed_transactions db.payments;
            })
      ]
