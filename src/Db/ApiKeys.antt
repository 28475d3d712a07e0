-- ===== src/Db/ApiKeys.antt =====
-- src/db.rs: merchants and their API keys. SHA-256 with its hex form, fresh ids and random bytes are
-- parameters.
pub mod Revoked
use stellar_gate.Prelude.{
  ℕ, ◌+◌, ◌-◌, Bool, true, false, ◌&&◌, ◌||◌, Option, none, some, List, [], ◌∷◌, ◌++◌, ltb, leb,
  ◌==◌, nat_eq, list_eq, filterb, find, take, if◌then◌else◌,
}
use stellar_gate.Text.{Text, codes}
use stellar_gate.Db.{Db, Merchant, ApiKey, Result, ok, err, unique_violation}
use stellar_gate.Db.Table.{update_where, count_where}

abbrev pub key_prefix_len : ℕ
key_prefix_len = 12

-- The raw key and the prefix that is shown; `random_hex` is the hex form of 32 random bytes.
unfoldable pub generate_api_key : Text → Text × Text
generate_api_key random_hex = let raw = codes "sg_" ++ random_hex in (raw, take key_prefix_len raw)

abbrev pub is_unrevoked : ApiKey → Bool
is_unrevoked key = elim key.revoked_at [ none ↦ true | some t ↦ false ]

abbrev pub has_hash : Text → ApiKey → Bool
has_hash key_hash key = key.key_hash == key_hash

abbrev pub new_api_key : Text → Text → Text → Text → Option Text → ℕ → ApiKey
new_api_key id merchant_id key_hash prefix label now = record {
  id = id;
  merchant_id = merchant_id;
  key_hash = key_hash;
  prefix = prefix;
  label = label;
  created_at = now;
  last_used_at = none;
  revoked_at = none;
}

-- The primary key `id` and the unique column `key_hash` refuse a second row.
unfoldable pub insert_api_key : Db → ApiKey → Result Db
insert_api_key db key =
    if leb 1 (count_where (λ k. k.id == key.id || has_hash key.key_hash k) db.api_keys)
    then err unique_violation
    else ok (record db { api_keys = db.api_keys ++ key ∷ [] })

unfoldable pub create_api_key :
    (Text → Text) → Db → Text → Text → Text → Text → Option Text → ℕ → Result Db
unfolding insert_api_key
create_api_key hash_api_key db id merchant_id raw_key prefix label now =
    insert_api_key db (new_api_key id merchant_id (hash_api_key raw_key) prefix label now)

abbrev insert_merchant : Db → Merchant → Result Db
insert_merchant db m =
    if leb 1 (count_where (λ n. n.id == m.id || n.api_key_hash == m.api_key_hash) db.merchants)
    then err unique_violation
    else ok (record db { merchants = db.merchants ++ m ∷ [] })

abbrev with_first_key : Result Db → ApiKey → Result Db
with_first_key (err e) key = err e
with_first_key (ok db) key = insert_api_key db key

-- One transaction: an error of the second insert takes the first one back.
unfoldable pub create_merchant : (Text → Text) → Db → Text → Text → Text → Text → ℕ → Result Db
unfolding insert_api_key
create_merchant hash_api_key db id raw_key prefix key_id now =
    with_first_key (insert_merchant db (record { id = id; api_key_hash = hash_api_key raw_key }))
      (new_api_key key_id id (hash_api_key raw_key) prefix (some (codes "initial")) now)

abbrev pub is_usable : Text → ApiKey → Bool
is_usable key_hash key = has_hash key_hash key && is_unrevoked key

-- last_used_at IS NULL OR last_used_at < now - 60 seconds
abbrev pub is_idle : ℕ → ApiKey → Bool
is_idle now key = elim key.last_used_at [ none ↦ true | some t ↦ ltb t (now - 60) ]

abbrev pub touched : ℕ → ApiKey → ApiKey
touched now key = record key { last_used_at = some now }

abbrev touch : Db → Option ApiKey → ℕ → Option Text × Db
touch db none now = (none, db)
touch db (some key) now = (
  some key.merchant_id,
  record db {
    api_keys = update_where (λ k. k.id == key.id && is_idle now k) (touched now) db.api_keys;
  },
)

unfoldable pub find_merchant_by_key : (Text → Text) → Db → Text → ℕ → Option Text × Db
find_merchant_by_key hash_api_key db raw_key now =
    touch db (find (is_usable (hash_api_key raw_key)) db.api_keys) now

abbrev pub is_target : Text → Text → ApiKey → Bool
is_target merchant_id key_id key =
    key.id == key_id && key.merchant_id == merchant_id && is_unrevoked key

abbrev pub revoked : ℕ → ApiKey → ApiKey
revoked now key = record key { revoked_at = some now }

-- The flag is `rows_affected() > 0`.
unfoldable pub revoke_api_key : Db → Text → Text → ℕ → Bool × Db
revoke_api_key db merchant_id key_id now = (
  ltb 0 (count_where (is_target merchant_id key_id) db.api_keys),
  record db { api_keys = update_where (is_target merchant_id key_id) (revoked now) db.api_keys },
)

abbrev pub is_active_of : Text → ApiKey → Bool
is_active_of merchant_id key = key.merchant_id == merchant_id && is_unrevoked key

unfoldable pub count_active_api_keys : Db → Text → ℕ
count_active_api_keys db merchant_id = count_where (is_active_of merchant_id) db.api_keys

unfoldable pub merchant_exists : Db → Text → Bool
merchant_exists db merchant_id = ltb 0 (count_where (λ m. m.id == merchant_id) db.merchants)
