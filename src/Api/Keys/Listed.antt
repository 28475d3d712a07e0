-- ===== src/Api/Keys/Listed.antt =====
-- src/api/mod.rs and src/db.rs: listing a merchant's API keys. The hash of a key is not read.
use stellar_gate.Prelude.{
  ℕ, ◌+◌, ◌≡◌, ◌∙◌, ap, Bool, Option, List, [], ◌∷◌, arith, ◌==◌, nat_eq, list_eq, filterb, map,
  if◌then◌else◌,
}
use stellar_gate.Text.{Text}
use stellar_gate.Db.{Db, ApiKey}
use stellar_gate.Db.Table.{count_where}
use stellar_gate.Db.Listing.{Key, insert_newest, newest_first}
use stellar_gate.Db.ApiKeys.{merchant_exists, count_active_api_keys, is_active_of, is_unrevoked}
use stellar_gate.Api.{Answer, answer, refuse, not_found_error, merchant_not_found}

-- A key as it is answered.
pub record ApiKeyInfo : Type 0 where
  pub id : Text
  pub prefix : Text
  pub label : Option Text
  pub created_at : ℕ
  pub last_used_at : Option ℕ
  pub revoked_at : Option ℕ
  pub active : Bool

abbrev info_of : ApiKey → ApiKeyInfo
info_of key = record {
  id = key.id;
  prefix = key.prefix;
  label = key.label;
  created_at = key.created_at;
  last_used_at = key.last_used_at;
  revoked_at = key.revoked_at;
  active = is_unrevoked key;
}

module _ (stamp : ℕ → Text) where
  abbrev api_key_key : ApiKey → Key
  api_key_key key = (stamp key.created_at, key.id)

  unfoldable pub list_api_keys : Db → Text → List ApiKeyInfo
  list_api_keys db merchant_id =
      map info_of
        (newest_first api_key_key (filterb (λ key. key.merchant_id == merchant_id) db.api_keys))

  unfoldable pub list_keys : Db → Text → Answer (List ApiKeyInfo)
  list_keys db merchant_id =
      if merchant_exists db merchant_id
      then answer (list_api_keys db merchant_id)
      else refuse (not_found_error merchant_not_found)

count_where-insert_newest :
    (key : ApiKey → Key) (test : ApiKey → Bool) (r : ApiKey) (rows : List ApiKey)
    → count_where test (insert_newest key r rows) ≡ count_where test (r ∷ rows)
unfolding insert_newest count_where
count_where-insert_newest key test r [] = ground arith
count_where-insert_newest key test r (s ∷ rows) =
    ground (arith, count_where-insert_newest key test r rows)

count_where-newest_first :
    (key : ApiKey → Key) (test : ApiKey → Bool) (rows : List ApiKey)
    → count_where test (newest_first key rows) ≡ count_where test rows
unfolding newest_first count_where
count_where-newest_first key test [] = ground arith
count_where-newest_first key test (r ∷ rows) = ground (
  arith,
  count_where-insert_newest key test r (newest_first key rows),
  count_where-newest_first key test rows,
)

count_where-info_of :
    (keys : List ApiKey)
    → count_where (λ (info : ApiKeyInfo). info.active) (map info_of keys)
      ≡ count_where is_unrevoked keys
unfolding count_where
count_where-info_of [] = ground arith
count_where-info_of (key ∷ keys) =
    ap (λ n. (if is_unrevoked key then 1 else 0) + n) (count_where-info_of keys)

count_where-filterb :
    (merchant_id : Text) (keys : List ApiKey)
    → count_where is_unrevoked (filterb (λ key. key.merchant_id == merchant_id) keys)
      ≡ count_where (is_active_of merchant_id) keys
unfolding count_where
count_where-filterb merchant_id [] = ground arith
count_where-filterb merchant_id (key ∷ keys) = ground (arith, count_where-filterb merchant_id keys)

-- The keys that the listing shows as active are as many as the check before a revocation counts.
pub list_api_keys-active :
    (stamp : ℕ → Text) (db : Db) (merchant_id : Text)
    → count_where (λ (info : ApiKeyInfo). info.active) (list_api_keys stamp db merchant_id)
      ≡ count_active_api_keys db merchant_id
unfolding list_api_keys count_active_api_keys
list_api_keys-active stamp db merchant_id =
    let mine = filterb (λ (key : ApiKey). key.merchant_id == merchant_id) db.api_keys in
    count_where-info_of (newest_first (api_key_key stamp) mine)
    ∙ count_where-newest_first (api_key_key stamp) is_unrevoked mine
    ∙ count_where-filterb merchant_id db.api_keys
