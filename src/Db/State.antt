-- ===== src/Db/State.antt =====
-- src/db.rs: the durable key/value table `kv_state`.
pub mod Lookup
use stellar_gate.Prelude.{
  ℕ, Bool, true, false, Option, none, some, List, [], ◌∷◌, ◌++◌, ◌==◌, list_eq, nat_eq, find, leb,
  if◌then◌else◌,
}
use stellar_gate.Text.{Text}
use stellar_gate.Db.{Db, KvState}
use stellar_gate.Db.Table.{update_where, count_where}

abbrev pub has_key : Text → KvState → Bool
has_key key row = row.key == key

abbrev pub value_of : Option KvState → Option Text
value_of none = none
value_of (some row) = some row.value

unfoldable pub get_state : Db → Text → Option Text
get_state db key = value_of (find (has_key key) db.kv_state)

-- INSERT … ON CONFLICT(key) DO UPDATE
unfoldable pub set_state : Db → Text → Text → ℕ → Db
set_state db key value now = record db {
  kv_state =
      if leb 1 (count_where (has_key key) db.kv_state)
      then update_where (has_key key) (λ row. record row { value = value; updated_at = now })
          db.kv_state
      else db.kv_state ++ record { key = key; value = value; updated_at = now } ∷ [];
}
