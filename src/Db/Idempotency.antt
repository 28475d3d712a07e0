-- ===== src/Db/Idempotency.antt =====
-- src/db.rs: the idempotency keys of payment creation.
pub mod FirstWins
use stellar_gate.Prelude.{
  ℕ, Bool, true, false, ◌&&◌, Option, none, some, List, [], ◌∷◌, ◌++◌, ◌==◌, list_eq, nat_eq, find,
  filterb, not, if◌then◌else◌,
}
use stellar_gate.Text.{Text}
use stellar_gate.Db.{Db, IdempotencyKey}

abbrev pub is_key : Text → Text → IdempotencyKey → Bool
is_key merchant_id key row = row.merchant_id == merchant_id && row.idempotency_key == key

abbrev pub payment_id_of : Option IdempotencyKey → Option Text
payment_id_of none = none
payment_id_of (some row) = some row.payment_id

unfoldable pub find_payment_id_by_idempotency_key : Db → Text → Text → Option Text
find_payment_id_by_idempotency_key db merchant_id key =
    payment_id_of (find (is_key merchant_id key) db.idempotency_keys)

abbrev pub new_key : Text → Text → Text → ℕ → IdempotencyKey
new_key merchant_id key payment_id now = record {
  merchant_id = merchant_id;
  idempotency_key = key;
  payment_id = payment_id;
  created_at = now;
}

-- INSERT … ON CONFLICT(merchant_id, idempotency_key) DO NOTHING
abbrev pub inserted : Db → IdempotencyKey → Option IdempotencyKey → Db
inserted db row none = record db { idempotency_keys = db.idempotency_keys ++ row ∷ [] }
inserted db row (some there) = db

abbrev pub or_else : Text → Option Text → Text
or_else payment_id none = payment_id
or_else payment_id (some stored) = stored

-- The payment id that is stored behind the insert, and the tables.
unfoldable pub save_idempotency_key : Db → Text → Text → Text → ℕ → Text × Db
unfolding find_payment_id_by_idempotency_key
save_idempotency_key db merchant_id key payment_id now =
    let db' =
      inserted db (new_key merchant_id key payment_id now)
        (find (is_key merchant_id key) db.idempotency_keys) in
    (or_else payment_id (find_payment_id_by_idempotency_key db' merchant_id key), db')

-- The statement by which `create` drops a key whose payment was never made.
unfoldable pub delete_idempotency_key : Db → Text → Text → Db
delete_idempotency_key db merchant_id key = record db {
  idempotency_keys = filterb (λ row. not (is_key merchant_id key row)) db.idempotency_keys;
}
