-- ===== src/Horizon/Reconcile.antt =====
-- src/horizon.rs, `reconcile_payment`: what one on-chain payment does to the ledger and its intent.
use stellar_gate.Prelude.{
  ℕ, ◌+◌, ◌≤◌, ◌≡◌, refl, ap, sym, subst, ◌∙◌, ◌≢◌, inl, inr, Bool, true, false, Option, some, ◌∷◌,
  arith, ==-refl, list_eq, nat_eq, option_eq, Bool-cases, if◌then◌else◌, le→ltb,
}
use stellar_gate.Prelude.Int.{pos, i64_max}
use stellar_gate.Text.{Text}
use stellar_gate.Money.{parse_stroops, stroops_to_string}
use stellar_gate.Db.{Db, Payment, Result, ok, err}
use stellar_gate.Db.Table.{count_where}
use stellar_gate.Db.Payments.{is_entry, record_processed_tx, ledger_sum, sum_processed_stroops}
use stellar_gate.Webhook.{Libs, Config, Env, Outbound}
use stellar_gate.Horizon.Verify.{Pays, verify-Pays}
use stellar_gate.Horizon.{
  HorizonPayment, verify, settlement, settle, settle_total, credit, reconcile_intent, find_intent,
  reconcile_payment, or_empty, stroops_or_zero, is_some,
}

abbrev pub hash_of : HorizonPayment → Text
hash_of hp = or_empty hp.transaction_hash

-- The transaction of `hp` has been credited to the intent `id`.
abbrev pub IsCredited : Text → HorizonPayment → Db → Type 0
IsCredited id hp db = count_where (is_entry id (hash_of hp)) db.processed_transactions ≢ 0

record_processed_tx-credited :
    (db : Db) (id hash : Text) (amount : ℕ)
    → count_where (is_entry id hash) db.processed_transactions ≢ 0
    → record_processed_tx db id hash amount ≡ (false, db)
unfolding record_processed_tx
record_processed_tx-credited db id hash amount h = ground arith

record_processed_tx-new :
    (db : Db) (id hash : Text) (amount : ℕ)
    → count_where (is_entry id hash) db.processed_transactions ≡ 0
    → record_processed_tx db id hash amount ≡ (
      true,
      record db {
        processed_transactions =
            record { payment_id = id; tx_hash = hash; amount_stroops = amount }
            ∷ db.processed_transactions;
      },
    )
unfolding record_processed_tx
record_processed_tx-new db id hash amount h = rw h

module _ (libs : Libs) (config : Config) (env : Env) (hp : HorizonPayment) (o : Outbound) where
  credit-credited :
      (payment : Payment)
      → IsCredited payment.id hp o.db
      → credit libs config env payment hp o ≡ (ok false, o)
  credit-credited payment h =
      rw (record_processed_tx-credited o.db payment.id (hash_of hp) (stroops_or_zero hp.amount) h)

  reconcile_intent-credited :
      (payment : Payment) (sum : Result ℕ)
      → IsCredited payment.id hp o.db
      → (reconcile_intent libs config env hp o payment sum).1 ≡ o
  reconcile_intent-credited payment (err e) h = refl
  reconcile_intent-credited payment (ok already) h =
      elim (Bool-cases (is_some (verify payment hp already))) [
        | inl e ↦ rw e (ap (λ (r : Result Bool × Outbound). r.1) (credit-credited payment h))
        | inr e ↦ rw e
      ]

  -- A payment whose transaction is already recorded for the live intent of its memo changes
  -- nothing: no row, no counter, no request.
  pub reconcile-credited :
      (payment : Payment)
      → find_intent hp env.now o.db ≡ some payment
      → IsCredited payment.id hp o.db
      → (reconcile_payment libs config env hp o).1 ≡ o
  unfolding reconcile_payment
  reconcile-credited payment found h =
      rw found (reconcile_intent-credited payment (sum_processed_stroops o.db payment.id) h)

-- The state in which the transaction of `hp` is recorded, with its amount, for the intent `id`.
abbrev pub credited_db : Db → Text → HorizonPayment → ℕ → Db
credited_db db id hp paid = record db {
  processed_transactions =
      record { payment_id = id; tx_hash = hash_of hp; amount_stroops = paid }
      ∷ db.processed_transactions;
}

sum_processed_stroops-ok :
    (db : Db) (id : Text)
    → ledger_sum id db.processed_transactions ≤ i64_max
    → sum_processed_stroops db id ≡ ok (ledger_sum id db.processed_transactions)
unfolding sum_processed_stroops
sum_processed_stroops-ok db id h = rw (le→ltb _ i64_max h)

pub ledger_sum-credited :
    (db : Db) (id : Text) (hp : HorizonPayment) (paid : ℕ)
    → ledger_sum id (credited_db db id hp paid).processed_transactions
      ≡ paid + ledger_sum id db.processed_transactions
unfolding ledger_sum
ledger_sum-credited db id hp paid = rw (==-refl id)

stroops_or_zero-eq :
    (raw : Option Text) (a : Text) (n : ℕ)
    → raw ≡ some a
    → parse_stroops a ≡ some n
    → stroops_or_zero raw ≡ n
stroops_or_zero-eq raw a n e parsed = rw (e, stroops_or_zero) (rw parsed)

-- Settling `payment` by a transaction that brings `paid` stroops and is recorded as of now.
abbrev pub settle_credited :
    Libs → Config → Env → HorizonPayment → Outbound → Payment → ℕ → ℕ → Bool × Outbound
settle_credited libs config env hp o payment paid expected =
    let total = paid + ledger_sum payment.id o.db.processed_transactions in
    settle libs config env payment (settlement total expected) (hash_of hp)
      (stroops_to_string (pos total)) (record o { db = credited_db o.db payment.id hp paid })

credit-Pays :
    (libs : Libs) (config : Config) (env : Env) (hp : HorizonPayment) (o : Outbound)
    (payment : Payment) (paid expected : ℕ)
    → Pays payment hp paid expected
    → count_where (is_entry payment.id (hash_of hp)) o.db.processed_transactions ≡ 0
    → paid + ledger_sum payment.id o.db.processed_transactions ≤ i64_max
    → let r = settle_credited libs config env hp o payment paid expected in
      credit libs config env payment hp o ≡ (ok r.0, r.1)
credit-Pays libs config env hp o payment paid expected p fresh fits =
    let recorded = ledger_sum-credited o.db payment.id hp paid in
    let summed =
      sum_processed_stroops-ok (credited_db o.db payment.id hp paid) payment.id
        (subst (λ n. n ≤ i64_max) (sym recorded) fits)
      ∙ ap ok recorded in
    ap (λ a. after (record_processed_tx o.db payment.id (hash_of hp) a))
      (stroops_or_zero-eq hp.amount p.raw_amount paid p.has_amount p.amount_paid)
    ∙ ap after (record_processed_tx-new o.db payment.id (hash_of hp) paid fresh)
    ∙ ap (settle_total libs config env payment (hash_of hp) credited) summed
    ∙ ap (λ n. settled (settle_credited libs config env hp o payment paid n))
        (stroops_or_zero-eq (some payment.amount) payment.amount expected refl p.amount_expected)
  where
    credited : Outbound
    credited = record o { db = credited_db o.db payment.id hp paid }

    settled : Bool × Outbound → Result Bool × Outbound
    settled r = (ok r.0, r.1)

    after : Bool × Db → Result Bool × Outbound
    after r =
        let o' = record o { db = r.1 } in
        if r.0
        then settle_total libs config env payment (hash_of hp) o'
            (sum_processed_stroops r.1 payment.id)
        else (ok false, o')

-- A payment that meets every condition towards the live intent of its memo, whose transaction is
-- not recorded for it yet and whose amount keeps the ledger's sum in an `i64`, is credited with
-- exactly its amount, and the intent is settled at the exact cumulative total.
pub reconcile-Pays :
    (libs : Libs) (config : Config) (env : Env) (hp : HorizonPayment) (o : Outbound)
    (payment : Payment) (paid expected : ℕ)
    → find_intent hp env.now o.db ≡ some payment
    → Pays payment hp paid expected
    → count_where (is_entry payment.id (hash_of hp)) o.db.processed_transactions ≡ 0
    → paid + ledger_sum payment.id o.db.processed_transactions ≤ i64_max
    → let r = settle_credited libs config env hp o payment paid expected in
      reconcile_payment libs config env hp o ≡ (ok r.0, r.1)
unfolding reconcile_payment
reconcile-Pays libs config env hp o payment paid expected found p fresh fits =
    rw
      (
        found,
        sum_processed_stroops-ok o.db payment.id (omega arith),
        verify-Pays payment hp (ledger_sum payment.id o.db.processed_transactions) paid expected p,
      )
      (credit-Pays libs config env hp o payment paid expected p fresh fits)
