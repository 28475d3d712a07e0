-- ===== src/Db/ApiKeys/Revoked.antt =====
-- src/db.rs: who a raw key authenticates behind a revocation.
use stellar_gate.Prelude.{
  ℕ, ◌≤◌, ◌≡◌, refl, ◌∙◌, Option, none, some, List, [], ◌∷◌, arith, nat_eq, list_eq, find, ap,
  if◌then◌else◌,
}
use stellar_gate.Text.{Text}
use stellar_gate.Db.{Db, ApiKey}
use stellar_gate.Db.Table.{update_where, count_where}
use stellar_gate.Db.ApiKeys.{
  has_hash, is_usable, is_target, revoked, find_merchant_by_key, revoke_api_key,
}

-- The columns `key_hash` are unique.
abbrev pub HasUniqueHashes : Db → Type 0
HasUniqueHashes db = (key_hash : Text) → count_where (has_hash key_hash) db.api_keys ≤ 1

-- The row that a hash finds.
abbrev pub usable_key : Db → Text → Option ApiKey
usable_key db key_hash = find (is_usable key_hash) db.api_keys

abbrev pub spared : Text → Text → Option ApiKey → Option ApiKey
spared merchant_id key_id none = none
spared merchant_id key_id (some key) = if is_target merchant_id key_id key then none else some key

module _ (key_hash merchant_id key_id : Text) (now : ℕ) where
  usable-none :
      (rows : List ApiKey)
      → count_where (has_hash key_hash) rows ≡ 0
      → find (is_usable key_hash) rows ≡ none
  unfolding count_where
  usable-none [] h = refl
  usable-none (k ∷ rows) h = ground (arith, usable-none rows)

  find-update_where :
      (rows : List ApiKey)
      → count_where (has_hash key_hash) rows ≤ 1
      → find (is_usable key_hash) (update_where (is_target merchant_id key_id) (revoked now) rows)
        ≡ spared merchant_id key_id (find (is_usable key_hash) rows)
  unfolding count_where update_where
  find-update_where [] h = refl
  find-update_where (k ∷ rows) h = ground (arith, usable-none rows, find-update_where rows)

abbrev pub merchant_of : Option ApiKey → Option Text
merchant_of none = none
merchant_of (some key) = some key.merchant_id

module _ (hash_api_key : Text → Text) where
  pub find_merchant_by_key-usable_key :
      (db : Db) (raw_key : Text) (now : ℕ)
      → (find_merchant_by_key hash_api_key db raw_key now).0
        ≡ merchant_of (usable_key db (hash_api_key raw_key))
  unfolding find_merchant_by_key
  find_merchant_by_key-usable_key db raw_key now = ground arith

  -- Where no two keys have one hash, a revocation takes its key away from then on, and leaves
  -- every other raw key the merchant that it authenticated.
  pub find_merchant_by_key-revoke_api_key :
      (db : Db) (merchant_id key_id raw_key : Text) (now later : ℕ)
      → HasUniqueHashes db
      → (find_merchant_by_key hash_api_key
          (revoke_api_key db merchant_id key_id now).1
          raw_key
          later).0
        ≡ merchant_of (spared merchant_id key_id (usable_key db (hash_api_key raw_key)))
  unfolding revoke_api_key
  find_merchant_by_key-revoke_api_key db merchant_id key_id raw_key now later unique =
      find_merchant_by_key-usable_key (revoke_api_key db merchant_id key_id now).1 raw_key later
      ∙ ap merchant_of (
          find-update_where (hash_api_key raw_key) merchant_id key_id now db.api_keys
            (unique (hash_api_key raw_key)))
