-- ===== src/Gateway/Settling.antt =====
-- src/horizon.rs: a record from Horizon moves the intent of its memo, along the life of an intent.
use stellar_gate.Prelude.{
  ℕ, ◌≡◌, refl, ap, inl, inr, true, ◌&&◌, Option, some, ltb, ◌==◌, list_eq, nat_eq, arith,
  Bool-cases, Option-cases,
}
use stellar_gate.Prelude.Int.{pos, i64_max}
use stellar_gate.Text.{Text}
use stellar_gate.Money.{stroops_to_string}
use stellar_gate.Db.{Db, Payment, Event, Result, ok, err, is_watchable}
use stellar_gate.Db.Payments.{
  get_payment, is_live, find_pending_by_memo, ledger_sum, sum_processed_stroops,
  update_payment_status, record_processed_tx,
}
use stellar_gate.Webhook.{Libs, Config, Env, Outbound, dispatch}
use stellar_gate.Webhook.Frame.{dispatch-ledger}
use stellar_gate.Horizon.{
  HorizonPayment, settlement, settled_copy, verify, settle, settle_total, credit, reconcile_intent,
  reconcile_payment, find_intent, memo, is_some, or_empty, stroops_or_zero,
}
use stellar_gate.Gateway.Lifecycle.{expected}
use stellar_gate.Gateway.Lookup.{HasDistinctIds, lookup-find, find-test}
use stellar_gate.Gateway.Recorded.{
  has_entry, record_processed_tx-entry, record_processed_tx-payments,
}
use stellar_gate.Gateway.Statements.{
  Evolves, Evolves-same, Evolves-trans, update_payment_status-Evolves, record_processed_tx-Evolves,
}

pub dispatch-Evolves :
    (libs : Libs) (config : Config) (env : Env) (payment : Payment) (event : Event)
    (delta : Option Text) (o : Outbound)
    → HasDistinctIds o.db.payments
    → Evolves o.db (dispatch libs config env payment event delta o).db
dispatch-Evolves libs config env payment event delta o distinct =
    let same = dispatch-ledger libs config env payment event delta o in
    Evolves-same o.db _ distinct (ap (λ l. l.payments) same)
      (ap (λ l. l.processed_transactions) same)

sum_ok :
    (db : Db) (id : Text) (total : ℕ)
    → sum_processed_stroops db id ≡ ok total
    → ledger_sum id db.processed_transactions ≡ total
unfolding sum_processed_stroops
sum_ok db id total h = elim (Bool-cases (ltb i64_max (ledger_sum id db.processed_transactions))) [
  | inl e ↦ let bad = rw e at h in cc
  | inr e ↦ let same = rw e at h in cc
]

-- An intent that can still be settled, and is read by its id.
pub record IsOpen (db : Db) (p : Payment) : Type 0 where
  pub distinct : HasDistinctIds db.payments
  pub there : get_payment db p.id ≡ some p
  pub watched : is_watchable p.status ≡ true

module _ (libs : Libs) (config : Config) (env : Env) (p : Payment) where
  settle-Evolves :
      (total : ℕ) (tx_hash : Text) (o : Outbound)
      → IsOpen o.db p
      → ledger_sum p.id o.db.processed_transactions ≡ total
      → has_entry o.db.processed_transactions p.id tx_hash ≡ true
      → Evolves o.db
          (settle libs config env p
            (settlement total (expected p))
            tx_hash
            (stroops_to_string (pos total))
            o).1.db
  unfolding settle
  settle-Evolves total tx_hash o h sum entered =
      let out = settlement total (expected p) in
      let paid = stroops_to_string (pos total) in
      let r = update_payment_status o.db p.id out.status tx_hash paid env.now in
      let first =
        update_payment_status-Evolves o.db h.distinct p h.there h.watched total tx_hash env.now sum
          entered in
      elim (Bool-cases r.0) [
        | inl e ↦ rw e (
            Evolves-trans o.db r.1 _ first (
              dispatch-Evolves libs config env (settled_copy p out.status tx_hash paid) out.event
                out.delta (record o { db = r.1 }) first.distinct))
        | inr e ↦ rw e first
      ]

  settle_total-Evolves :
      (tx_hash : Text) (o : Outbound) (sum : Result ℕ)
      → IsOpen o.db p
      → sum_processed_stroops o.db p.id ≡ sum
      → has_entry o.db.processed_transactions p.id tx_hash ≡ true
      → Evolves o.db (settle_total libs config env p tx_hash o sum).1.db
  settle_total-Evolves tx_hash o (err e) h s entered = Evolves-same o.db o.db h.distinct refl refl
  settle_total-Evolves tx_hash o (ok total) h s entered =
      settle-Evolves total tx_hash o h (sum_ok o.db p.id total s) entered

  credit-Evolves :
      (hp : HorizonPayment) (o : Outbound)
      → IsOpen o.db p
      → Evolves o.db (credit libs config env p hp o).1.db
  unfolding get_payment
  credit-Evolves hp o h =
      let tx_hash = or_empty hp.transaction_hash in
      let r = record_processed_tx o.db p.id tx_hash (stroops_or_zero hp.amount) in
      let first =
        record_processed_tx-Evolves o.db h.distinct p h.there h.watched tx_hash
          (stroops_or_zero hp.amount) in
      let later : IsOpen r.1 p = record {
        distinct = first.distinct;
        there =
            rw (record_processed_tx-payments o.db p.id tx_hash (stroops_or_zero hp.amount)) h.there;
        watched = h.watched;
      } in
      elim (Bool-cases r.0) [
        | inl e ↦ rw e (
            Evolves-trans o.db r.1 _ first (
              settle_total-Evolves tx_hash (record o { db = r.1 }) (sum_processed_stroops r.1 p.id)
                later refl
                (record_processed_tx-entry o.db p.id tx_hash (stroops_or_zero hp.amount))))
        | inr e ↦ rw e first
      ]

  reconcile_intent-Evolves :
      (hp : HorizonPayment) (o : Outbound) (sum : Result ℕ)
      → IsOpen o.db p
      → Evolves o.db (reconcile_intent libs config env hp o p sum).1.db
  reconcile_intent-Evolves hp o (err e) h = Evolves-same o.db o.db h.distinct refl refl
  reconcile_intent-Evolves hp o (ok already) h = elim (Bool-cases (is_some (verify p hp already))) [
    | inl e ↦ rw e (credit-Evolves hp o h)
    | inr e ↦ rw e (Evolves-same o.db o.db h.distinct refl refl)
  ]

found-IsOpen :
    (db : Db) (key : Text) (now : ℕ) (p : Payment)
    → HasDistinctIds db.payments
    → find_pending_by_memo db key now ≡ some p
    → IsOpen db p
unfolding find_pending_by_memo get_payment
found-IsOpen db key now p distinct h =
    let live = find-test (λ q. q.memo == key && is_live now q) db.payments p h in
    record {
      distinct = distinct;
      there = lookup-find (λ q. q.memo == key && is_live now q) db.payments p distinct h;
      watched = ground (arith, live);
    }

pub find_intent-IsOpen :
    (hp : HorizonPayment) (now : ℕ) (db : Db) (p : Payment)
    → HasDistinctIds db.payments
    → find_intent hp now db ≡ some p
    → IsOpen db p
find_intent-IsOpen hp now db p distinct h = elim (Option-cases (memo hp)) [
  | inl e ↦ let bad = rw e at h in cc
  | inr (key, e) ↦ found-IsOpen db key now p distinct (rw e at h)
]

pub reconcile_payment-Evolves :
    (libs : Libs) (config : Config) (env : Env) (hp : HorizonPayment) (o : Outbound)
    → HasDistinctIds o.db.payments
    → Evolves o.db (reconcile_payment libs config env hp o).1.db
unfolding reconcile_payment
reconcile_payment-Evolves libs config env hp o distinct =
    elim (Option-cases (find_intent hp env.now o.db)) [
      | inl e ↦ rw e (Evolves-same o.db o.db distinct refl refl)
      | inr (p, e) ↦ rw e (
          reconcile_intent-Evolves libs config env p hp o (sum_processed_stroops o.db p.id)
            (find_intent-IsOpen hp env.now o.db p distinct e))
    ]
