-- ===== src/Db/State/Lookup.antt =====
-- src/db.rs: reading the key/value table behind a write.
use stellar_gate.Prelude.{
  ℕ, ◌≤◌, ◌≡◌, inl, inr, some, List, [], ◌∷◌, ◌++◌, arith, ==-refl, list_eq, nat_eq, find, leb,
  Bool-cases,
}
use stellar_gate.Text.{Text}
use stellar_gate.Db.{Db, KvState}
use stellar_gate.Db.Table.{update_where, count_where}
use stellar_gate.Db.State.{has_key, value_of, get_state, set_state}

abbrev new_row : Text → Text → ℕ → KvState
new_row key value now = record { key = key; value = value; updated_at = now }

abbrev written : Text → ℕ → KvState → KvState
written value now row = record row { value = value; updated_at = now }

updated :
    (key value : Text) (now : ℕ) (rows : List KvState)
    → 1 ≤ count_where (has_key key) rows
    → value_of (find (has_key key) (update_where (has_key key) (written value now) rows))
      ≡ some value
unfolding update_where count_where
updated key value now [] h = absurd (omega arith)
updated key value now (row ∷ rows) h = elim (Bool-cases (has_key key row)) [
  | inl e ↦ rw (e, e)
  | inr e ↦ rw (e, e) (updated key value now rows (omega (arith, rw e at h)))
]

appended :
    (key value : Text) (now : ℕ) (rows : List KvState)
    → count_where (has_key key) rows ≡ 0
    → value_of (find (has_key key) (rows ++ new_row key value now ∷ [])) ≡ some value
unfolding count_where
appended key value now [] h = rw (==-refl key)
appended key value now (row ∷ rows) h = elim (Bool-cases (has_key key row)) [
  | inl e ↦ absurd (omega (arith, rw e at h))
  | inr e ↦ rw e (appended key value now rows (omega (arith, rw e at h)))
]

-- A key that is written reads as the value that was written last.
pub get_state-set_state :
    (db : Db) (key value : Text) (now : ℕ) → get_state (set_state db key value now) key ≡ some value
unfolding get_state set_state
get_state-set_state db key value now =
    elim (Bool-cases (leb 1 (count_where (has_key key) db.kv_state))) [
      | inl e ↦ rw e (updated key value now db.kv_state (ground arith))
      | inr e ↦ rw e (appended key value now db.kv_state (ground arith))
    ]
