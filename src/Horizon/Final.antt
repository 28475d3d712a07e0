-- ===== src/Horizon/Final.antt =====
-- src/horizon.rs: what becomes of an intent that is completed or expired.
use stellar_gate.Prelude.{
  ℕ, ◌≡◌, refl, ap, ◌∙◌, inl, inr, Bool, true, false, ◌&&◌, Option, none, some, List, [], ◌∷◌, ◌==◌,
  list_eq, nat_eq, find, Bool-cases, if◌then◌else◌,
}
use stellar_gate.Text.{Text}
use stellar_gate.Db.{Db, Payment, Status, Result, ok, err, is_watchable}
use stellar_gate.Db.Table.{update_where, count_where}
use stellar_gate.Db.Payments.{
  get_payment, is_open, is_entry, update_payment_status, record_processed_tx, sum_processed_stroops,
  settled_row,
}
use stellar_gate.Webhook.{Libs, Config, Env, Outbound, dispatch}
use stellar_gate.Webhook.Frame.{dispatch-ledger}
use stellar_gate.Horizon.{
  HorizonPayment, Outcome, verify, settle, settle_total, credit, reconcile_intent, reconcile_found,
  reconcile_payment, find_intent, is_some, or_empty, stroops_or_zero,
}
use stellar_gate.Horizon.Poll.{Progress, poll_record, poll_page}

abbrev pub IsFinal : Payment → Type 0
IsFinal p = is_watchable p.status ≡ false

some_injective : {a b : Payment} → some a ≡ some b → a ≡ b
some_injective e = cc

and_false : (a b : Bool) → b ≡ false → (a && b) ≡ false
and_false true b h = h
and_false false b h = refl

same_id :
    (change : Payment → Payment) (q : Payment) (b : Bool)
    → (change q).id ≡ q.id
    → (if b then change q else q).id ≡ q.id
same_id change q true h = h
same_id change q false h = refl

find-update_where :
    (id : Text) (test : Payment → Bool) (change : Payment → Payment) (rows : List Payment)
    (p : Payment)
    → ((q : Payment) → (change q).id ≡ q.id)
    → test p ≡ false
    → find (λ q. q.id == id) rows ≡ some p
    → find (λ q. q.id == id) (update_where test change rows) ≡ some p
unfolding update_where
find-update_where id test change [] p same untouched h = h
find-update_where id test change (q ∷ rows) p same untouched h = elim (Bool-cases (q.id == id)) [
  | inl e ↦
      let untouched' : test q ≡ false = ap test (some_injective (rw e at h)) ∙ untouched in
      rw (untouched', e) (rw e at h)
  | inr e ↦
      rw (same_id change q (test q) (same q), e)
        (find-update_where id test change rows p same untouched (rw e at h))
]

module _ (id : Text) (p : Payment) (final : IsFinal p) where
  -- The intent `id` reads as `p`.
  abbrev pub Reads : Db → Type 0
  Reads db = get_payment db id ≡ some p

  update_payment_status-Reads :
      (db : Db) (key : Text) (status : Status) (tx_hash paid_amount : Text) (now : ℕ)
      → Reads db
      → Reads (update_payment_status db key status tx_hash paid_amount now).1
  unfolding update_payment_status get_payment
  update_payment_status-Reads db key status tx_hash paid_amount now h =
      find-update_where id (is_open key) (settled_row status tx_hash paid_amount now) db.payments p
        (λ q. refl) (and_false (p.id == key) (is_watchable p.status) final) h

  dispatch-Reads :
      (libs : Libs) (config : Config) (env : Env) (payment : Payment) (out : Outcome) (o : Outbound)
      → Reads o.db
      → Reads (dispatch libs config env payment out.event out.delta o).db
  unfolding get_payment
  dispatch-Reads libs config env payment out o h =
      ap (λ l. find (λ q. q.id == id) l.payments)
        (dispatch-ledger libs config env payment out.event out.delta o)
      ∙ h

  record_processed_tx-Reads :
      (db : Db) (key hash : Text) (amount : ℕ)
      → Reads db
      → Reads (record_processed_tx db key hash amount).1
  unfolding record_processed_tx get_payment
  record_processed_tx-Reads db key hash amount h =
      elim (Bool-cases (count_where (is_entry key hash) db.processed_transactions == 0)) [
        | inl e ↦ rw e h
        | inr e ↦ rw e h
      ]

  module _ (libs : Libs) (config : Config) (env : Env) where
    settle-Reads :
        (payment : Payment) (out : Outcome) (tx_hash paid_amount : Text) (o : Outbound)
        → Reads o.db
        → Reads (settle libs config env payment out tx_hash paid_amount o).1.db
    unfolding settle
    settle-Reads payment out tx_hash paid_amount o h =
        let r = update_payment_status o.db payment.id out.status tx_hash paid_amount env.now in
        let kept =
          update_payment_status-Reads o.db payment.id out.status tx_hash paid_amount env.now h in
        elim (Bool-cases r.0) [
          | inl e ↦ rw e (dispatch-Reads libs config env _ out (record o { db = r.1 }) kept)
          | inr e ↦ rw e kept
        ]

    settle_total-Reads :
        (payment : Payment) (hash : Text) (o : Outbound) (sum : Result ℕ)
        → Reads o.db
        → Reads (settle_total libs config env payment hash o sum).1.db
    settle_total-Reads payment hash o (err e) h = h
    settle_total-Reads payment hash o (ok total) h = settle-Reads payment _ hash _ o h

    credit-Reads :
        (payment : Payment) (hp : HorizonPayment) (o : Outbound)
        → Reads o.db
        → Reads (credit libs config env payment hp o).1.db
    credit-Reads payment hp o h =
        let hash = or_empty hp.transaction_hash in
        let r = record_processed_tx o.db payment.id hash (stroops_or_zero hp.amount) in
        let kept = record_processed_tx-Reads o.db payment.id hash (stroops_or_zero hp.amount) h in
        elim (Bool-cases r.0) [
          | inl e ↦ rw e (
              settle_total-Reads payment hash (record o { db = r.1 })
                (sum_processed_stroops r.1 payment.id) kept)
          | inr e ↦ rw e kept
        ]

    intent-Reads :
        (hp : HorizonPayment) (o : Outbound) (payment : Payment) (sum : Result ℕ)
        → Reads o.db
        → Reads (reconcile_intent libs config env hp o payment sum).1.db
    intent-Reads hp o payment (err e) h = h
    intent-Reads hp o payment (ok already) h =
        elim (Bool-cases (is_some (verify payment hp already))) [
          | inl e ↦ rw e (credit-Reads payment hp o h)
          | inr e ↦ rw e h
        ]

    found-Reads :
        (hp : HorizonPayment) (o : Outbound) (found : Option Payment)
        → Reads o.db
        → Reads (reconcile_found libs config env hp o found).1.db
    found-Reads hp o none h = h
    found-Reads hp o (some payment) h =
        intent-Reads hp o payment (sum_processed_stroops o.db payment.id) h

    -- Reconciling a record changes nothing in an intent that is completed or expired.
    pub reconcile_payment-Reads :
        (hp : HorizonPayment) (o : Outbound)
        → Reads o.db
        → Reads (reconcile_payment libs config env hp o).1.db
    unfolding reconcile_payment
    reconcile_payment-Reads hp o h = found-Reads hp o (find_intent hp env.now o.db) h

  -- An intent that reads as completed or expired reads the same behind the reconciliation of any
  -- sequence of records.
  pub poll_page-Reads :
      (libs : Libs) (config : Config) (env : ℕ → Env) (page : List HorizonPayment)
      (progress : Progress)
      → Reads progress.outbound.db
      → Reads (poll_page libs config env page progress).outbound.db
  unfolding poll_page poll_record
  poll_page-Reads libs config env [] progress h = h
  poll_page-Reads libs config env (hp ∷ page) progress h =
      poll_page-Reads libs config env page (poll_record libs config env hp progress)
        (reconcile_payment-Reads libs config (env progress.seen) hp progress.outbound h)
