-- ===== src/Db/Payments.antt =====
-- src/db.rs: the statements on `payments`, and the ledger `processed_transactions`.
use stellar_gate.Prelude.{
  ℕ, ◌+◌, ◌-◌, Bool, true, false, ◌&&◌, ◌||◌, Option, none, some, List, [], ◌∷◌, ◌++◌, ltb, leb,
  ◌==◌, nat_eq, list_eq, take, filterb, find, if◌then◌else◌,
}
use stellar_gate.Prelude.Int.{ℤ, pos, negsuc, i64_max}
use stellar_gate.Text.{Text}
use stellar_gate.Money.{parse_stroops, stroops_to_string}
use stellar_gate.Db.{
  Db, Payment, ProcessedTransaction, Status, Result, ok, err, unique_violation, integer_overflow,
  invalid_amount, not_found, is_watchable,
}
use stellar_gate.Db.Table.{update_where, count_where, order_by}

pub record NewPayment : Type 0 where
  pub id : Text
  pub merchant_id : Text
  pub destination_address : Text
  pub memo : Text
  pub amount : Text
  pub asset : Text
  pub asset_issuer : Option Text
  pub webhook_url : Option Text
  pub ttl_secs : ℤ

-- strftime('now', '+N seconds')
abbrev add_secs : ℕ → ℤ → ℕ
add_secs now (pos n) = now + n
add_secs now (negsuc n) = now - (n + 1)

unfoldable pub get_payment : Db → Text → Option Payment
get_payment db id = find (λ p. p.id == id) db.payments

abbrev is_taken : Db → NewPayment → Bool
is_taken db new = leb 1 (count_where (λ p. p.id == new.id || p.memo == new.memo) db.payments)

abbrev pub new_row : NewPayment → Text → ℕ → Payment
new_row new amount now = record {
  id = new.id;
  merchant_id = new.merchant_id;
  destination_address = new.destination_address;
  memo = new.memo;
  amount = amount;
  asset = new.asset;
  status = Status.pending;
  webhook_url = new.webhook_url;
  tx_hash = none;
  paid_amount = none;
  created_at = now;
  updated_at = now;
  expires_at = add_secs now new.ttl_secs;
  asset_issuer = new.asset_issuer;
}

abbrev insert_payment : Db → Payment → Db
insert_payment db p = record db { payments = db.payments ++ p ∷ [] }

abbrev read_back : Db → Text → Result (Payment × Db)
read_back db id = elim (get_payment db id) [ none ↦ err not_found | some p ↦ ok (p, db) ]

-- The primary key `id` and the unique column `memo` refuse a second row.
unfoldable pub create_payment : Db → NewPayment → ℕ → Result (Payment × Db)
unfolding get_payment
create_payment db new now = elim (parse_stroops new.amount) [
  | none ↦ err invalid_amount
  | some stroops ↦
      if is_taken db new
      then err unique_violation
      else read_back (insert_payment db (new_row new (stroops_to_string (pos stroops)) now)) new.id
]

abbrev pub is_live : ℕ → Payment → Bool
is_live now p = is_watchable p.status && ltb now p.expires_at

abbrev pub is_overdue : ℕ → Payment → Bool
is_overdue now p = is_watchable p.status && leb p.expires_at now

unfoldable pub list_pending : Db → ℕ → List Payment
list_pending db now = order_by (λ p. p.created_at) (filterb (is_live now) db.payments)

unfoldable pub find_pending_by_memo : Db → Text → ℕ → Option Payment
find_pending_by_memo db memo now = find (λ p. p.memo == memo && is_live now p) db.payments

abbrev pub settled_row : Status → Text → Text → ℕ → Payment → Payment
settled_row status tx_hash paid_amount now p = record p {
  status = status;
  tx_hash = some tx_hash;
  paid_amount = some paid_amount;
  updated_at = now;
}

abbrev pub is_open : Text → Payment → Bool
is_open id p = p.id == id && is_watchable p.status

-- The flag is `rows_affected() == 1`.
unfoldable pub update_payment_status : Db → Text → Status → Text → Text → ℕ → Bool × Db
update_payment_status db id status tx_hash paid_amount now = (
  count_where (is_open id) db.payments == 1,
  record db {
    payments = update_where (is_open id) (settled_row status tx_hash paid_amount now) db.payments;
  },
)

-- The ids that the subquery of `expire_overdue` selects.
unfoldable pub overdue_ids : Db → ℕ → ℕ → List Payment
overdue_ids db batch now =
    take batch (order_by (λ p. p.created_at) (filterb (is_overdue now) db.payments))

abbrev pub has_id : List Payment → Payment → Bool
has_id rows p = leb 1 (count_where (λ q. q.id == p.id) rows)

abbrev pub expired_row : ℕ → Payment → Payment
expired_row now p = record p { status = Status.expired; updated_at = now }

-- UPDATE … RETURNING: the rows as the statement left them.
unfoldable pub expire_overdue : Db → ℕ → ℕ → List Payment × Db
unfolding overdue_ids
expire_overdue db batch now =
    let swept = overdue_ids db batch now in
    (
      update_where (has_id swept) (expired_row now) (filterb (has_id swept) db.payments),
      record db { payments = update_where (has_id swept) (expired_row now) db.payments },
    )

abbrev pub is_entry : Text → Text → ProcessedTransaction → Bool
is_entry payment_id tx_hash t = t.payment_id == payment_id && t.tx_hash == tx_hash

-- INSERT … ON CONFLICT(payment_id, tx_hash) DO NOTHING
unfoldable pub record_processed_tx : Db → Text → Text → ℕ → Bool × Db
record_processed_tx db payment_id tx_hash amount_stroops =
    if count_where (is_entry payment_id tx_hash) db.processed_transactions == 0
    then (
      true,
      record db {
        processed_transactions =
            record { payment_id = payment_id; tx_hash = tx_hash; amount_stroops = amount_stroops }
            ∷ db.processed_transactions;
      },
    )
    else (false, db)

-- The exact sum of the amounts recorded for a payment.
unfoldable pub ledger_sum : Text → List ProcessedTransaction → ℕ
ledger_sum payment_id [] = 0
ledger_sum payment_id (t ∷ rows) =
    (if t.payment_id == payment_id then t.amount_stroops else 0) + ledger_sum payment_id rows

-- SQLite's SUM of integers raises an error past the range of an `i64`.
unfoldable pub sum_processed_stroops : Db → Text → Result ℕ
sum_processed_stroops db payment_id =
    let total = ledger_sum payment_id db.processed_transactions in
    if ltb i64_max total then err integer_overflow else ok total

unfoldable pub memo_exists : Db → Text → Bool
memo_exists db memo = ltb 0 (count_where (λ p. p.memo == memo) db.payments)
