-- ===== src/Db/Backfill/Keys.antt =====
-- src/db.rs, `migrate`: merchants of the time before `api_keys` get a row there for their one key. The
-- random ids and the column `created_at` of the merchants are parameters.
use stellar_gate.Prelude.{
  ℕ, ◌≡◌, refl, ap, ◌∙◌, Bool, true, ◌||◌, some, List, [], ◌∷◌, ◌==◌, list_eq, nat_eq, leb, all,
  arith, if◌then◌else◌,
}
use stellar_gate.Text.{Text, codes}
use stellar_gate.Db.{Db, Merchant, ApiKey, Result, ok, err}
use stellar_gate.Db.Table.{count_where}
use stellar_gate.Db.ApiKeys.{has_hash, new_api_key, insert_api_key}

abbrev or_ignore : Db → Result Db → Db
or_ignore db (ok db') = db'
or_ignore db (err e) = db

abbrev pub has_key : List ApiKey → Text → Bool
has_key keys key_hash = leb 1 (count_where (has_hash key_hash) keys)

-- No hash, or a row for it.
abbrev pub is_carried_by : List ApiKey → Merchant → Bool
is_carried_by keys m = m.api_key_hash == [] || has_key keys m.api_key_hash

abbrev pub is_carried : Db → Bool
is_carried db = all (is_carried_by db.api_keys) db.merchants

module _ (random_id : Merchant → Text) (created_at : Merchant → ℕ) where
  abbrev pub legacy_key : Merchant → ApiKey
  legacy_key m =
      new_api_key (random_id m) m.id m.api_key_hash (codes "legacy") (some (codes "migrated"))
        (created_at m)

  -- INSERT OR IGNORE … WHERE api_key_hash <> ''
  unfoldable pub carry_rows : List Merchant → Db → Db
  carry_rows [] db = db
  carry_rows (m ∷ rows) db =
      carry_rows rows
        (if m.api_key_hash == [] then db else or_ignore db (insert_api_key db (legacy_key m)))

  abbrev pub carry_keys : Db → Db
  carry_keys db = carry_rows db.merchants db

  has_key-taken :
      (id key_hash : Text) (keys : List ApiKey)
      → has_key keys key_hash ≡ true
      → leb 1 (count_where (λ k. k.id == id || has_hash key_hash k) keys) ≡ true
  unfolding count_where
  has_key-taken id key_hash [] h = h
  has_key-taken id key_hash (k ∷ keys) h = ground (arith, has_key-taken id key_hash keys)

  carry_row_again :
      (m : Merchant) (db : Db)
      → is_carried_by db.api_keys m ≡ true
      → (if m.api_key_hash == [] then db else or_ignore db (insert_api_key db (legacy_key m))) ≡ db
  unfolding insert_api_key
  carry_row_again m db h = ground (arith, h, has_key-taken (random_id m) m.api_key_hash db.api_keys)

  carry_rows_again :
      (rows : List Merchant) (db : Db)
      → all (is_carried_by db.api_keys) rows ≡ true
      → carry_rows rows db ≡ db
  unfolding carry_rows
  carry_rows_again [] db h = refl
  carry_rows_again (m ∷ rows) db h =
      ap (carry_rows rows) (carry_row_again m db (ground (arith, h)))
      ∙ carry_rows_again rows db (ground (arith, h))

  pub carry_keys-is_carried : (db : Db) → is_carried db ≡ true → carry_keys db ≡ db
  carry_keys-is_carried db h = carry_rows_again db.merchants db h
