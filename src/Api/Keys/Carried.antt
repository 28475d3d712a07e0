-- ===== src/Api/Keys/Carried.antt =====
-- src/api/mod.rs and src/db.rs, `migrate`: a start behind any requests for keys carries none across,
-- and so revives none.
use stellar_gate.Prelude.{
  ℕ, ◌≡◌, refl, ap, subst, inl, inr, and_true, Bool, true, ◌&&◌, Option, some, List, [], ◌∷◌, ◌++◌,
  ◌==◌, ==-refl, list_eq, nat_eq, all, find, arith, Option-cases,
}
use stellar_gate.Text.{Text, codes}
use stellar_gate.Db.{Db, Merchant, ApiKey, ok}
use stellar_gate.Db.Table.{update_where, count_where}
use stellar_gate.Db.ApiKeys.{
  has_hash, new_api_key, is_target, revoked, is_usable, is_idle, touched, insert_api_key,
  create_merchant, create_api_key, find_merchant_by_key, revoke_api_key,
}
use stellar_gate.Db.Backfill.Keys.{
  has_key, is_carried_by, is_carried, carry_keys, carry_keys-is_carried,
}
use stellar_gate.Api.{AppState}
use stellar_gate.Api.Keys.Requests.{KeyRequest, serve_all}
use stellar_gate.Api.Keys.Frame.{IsFramed, serve_all-framed}

has_key-append :
    (keys : List ApiKey) (k : ApiKey) (key_hash : Text)
    → has_key keys key_hash ≡ true
    → has_key (keys ++ k ∷ []) key_hash ≡ true
unfolding count_where
has_key-append [] k key_hash h = cc
has_key-append (j ∷ keys) k key_hash h = ground (arith, has_key-append keys k key_hash)

has_key-end : (keys : List ApiKey) (k : ApiKey) → has_key (keys ++ k ∷ []) k.key_hash ≡ true
unfolding count_where
has_key-end [] k = ground (arith, ==-refl k.key_hash)
has_key-end (j ∷ keys) k = ground (arith, has_key-end keys k)

is_carried_by-append :
    (keys : List ApiKey) (k : ApiKey) (m : Merchant)
    → is_carried_by keys m ≡ true
    → is_carried_by (keys ++ k ∷ []) m ≡ true
is_carried_by-append keys k m h = ground (arith, h, has_key-append keys k m.api_key_hash)

all_carried-append :
    (keys : List ApiKey) (k : ApiKey) (rows : List Merchant)
    → all (is_carried_by keys) rows ≡ true
    → all (is_carried_by (keys ++ k ∷ [])) rows ≡ true
all_carried-append keys k [] h = refl
all_carried-append keys k (m ∷ rows) h =
    and_true _ _ (is_carried_by-append keys k m (ground (arith, h)))
      (all_carried-append keys k rows (ground (arith, h)))

all_carried_end :
    (keys : List ApiKey) (rows : List Merchant) (m : Merchant)
    → all (is_carried_by keys) rows ≡ true
    → is_carried_by keys m ≡ true
    → all (is_carried_by keys) (rows ++ m ∷ []) ≡ true
all_carried_end keys [] m h hm = and_true _ true hm refl
all_carried_end keys (n ∷ rows) m h hm =
    and_true _ _ (ground (arith, h)) (all_carried_end keys rows m (ground (arith, h)) hm)

count_where-update_where :
    (p test : ApiKey → Bool) (change : ApiKey → ApiKey) (keys : List ApiKey)
    → ((k : ApiKey) → p (change k) ≡ p k)
    → count_where p (update_where test change keys) ≡ count_where p keys
unfolding count_where update_where
count_where-update_where p test change [] same = refl
count_where-update_where p test change (k ∷ keys) same =
    ground (arith, same k, count_where-update_where p test change keys same)

-- The rows of a table of keys whose hashes stay.
is_carried-update_where :
    (test : ApiKey → Bool) (change : ApiKey → ApiKey) (keys : List ApiKey) (rows : List Merchant)
    → ((k : ApiKey) → (change k).key_hash ≡ k.key_hash)
    → all (is_carried_by keys) rows ≡ true
    → all (is_carried_by (update_where test change keys)) rows ≡ true
is_carried-update_where test change keys [] same h = refl
is_carried-update_where test change keys (m ∷ rows) same h =
    and_true _ _
      (rw
        (count_where-update_where (has_hash m.api_key_hash) test change keys
          (λ k. ap (λ x. x == m.api_key_hash) (same k)))
        (ground (arith, h)))
      (is_carried-update_where test change keys rows same (ground (arith, h)))

inserted_row :
    (db : Db) (key : ApiKey) (db' : Db)
    → insert_api_key db key ≡ ok db'
    → record db { api_keys = db.api_keys ++ key ∷ [] } ≡ db'
unfolding insert_api_key
inserted_row db key db' h = ground (arith, h)

insert_api_key-is_carried :
    (db : Db) (key : ApiKey) (db' : Db)
    → insert_api_key db key ≡ ok db'
    → is_carried db ≡ true
    → is_carried db' ≡ true
insert_api_key-is_carried db key db' e h =
    subst (λ d. is_carried d ≡ true) (inserted_row db key db' e)
      (all_carried-append db.api_keys key db.merchants h)

module _ (hash_api_key : Text → Text) where
  create_api_key-is_carried :
      (db : Db) (id merchant_id raw_key prefix : Text) (label : Option Text) (now : ℕ) (db' : Db)
      → create_api_key hash_api_key db id merchant_id raw_key prefix label now ≡ ok db'
      → is_carried db ≡ true
      → is_carried db' ≡ true
  unfolding create_api_key
  create_api_key-is_carried db id merchant_id raw_key prefix label now db' e h =
      insert_api_key-is_carried db
        (new_api_key id merchant_id (hash_api_key raw_key) prefix label now) db' e h

  created_rows :
      (db : Db) (id raw_key prefix key_id : Text) (now : ℕ) (db' : Db)
      → create_merchant hash_api_key db id raw_key prefix key_id now ≡ ok db'
      → record db {
        merchants = db.merchants ++ record { id = id; api_key_hash = hash_api_key raw_key } ∷ [];
        api_keys =
            db.api_keys
            ++ new_api_key key_id id (hash_api_key raw_key) prefix (some (codes "initial")) now
              ∷ [];
      }
        ≡ db'
  unfolding create_merchant insert_api_key
  created_rows db id raw_key prefix key_id now db' e = ground (arith, e)

  create_merchant-is_carried :
      (db : Db) (id raw_key prefix key_id : Text) (now : ℕ) (db' : Db)
      → create_merchant hash_api_key db id raw_key prefix key_id now ≡ ok db'
      → is_carried db ≡ true
      → is_carried db' ≡ true
  create_merchant-is_carried db id raw_key prefix key_id now db' e h =
      let m : Merchant = record { id = id; api_key_hash = hash_api_key raw_key } in
      let key = new_api_key key_id id m.api_key_hash prefix (some (codes "initial")) now in
      subst (λ d. is_carried d ≡ true) (created_rows db id raw_key prefix key_id now db' e)
        (all_carried_end (db.api_keys ++ key ∷ []) db.merchants m
          (all_carried-append db.api_keys key db.merchants h)
          (ground (arith, has_key-end db.api_keys key)))

  find_merchant_by_key-is_carried :
      (db : Db) (raw_key : Text) (now : ℕ)
      → is_carried db ≡ true
      → is_carried (find_merchant_by_key hash_api_key db raw_key now).1 ≡ true
  unfolding find_merchant_by_key
  find_merchant_by_key-is_carried db raw_key now h =
      elim (Option-cases (find (is_usable (hash_api_key raw_key)) db.api_keys)) [
        | inl e ↦ rw e h
        | inr (key, e) ↦ rw e (
            is_carried-update_where (λ k. k.id == key.id && is_idle now k) (touched now) db.api_keys
              db.merchants (λ k. refl) h)
      ]

  is_carried-IsFramed : IsFramed hash_api_key (λ db. is_carried db ≡ true)
  unfolding revoke_api_key
  is_carried-IsFramed = record {
    provisions = create_merchant-is_carried;
    issues = create_api_key-is_carried;
    authenticates = find_merchant_by_key-is_carried;
    revokes = λ db merchant_id key_id now h.
        is_carried-update_where (is_target merchant_id key_id) (revoked now) db.api_keys
          db.merchants (λ k. refl) h;
  }

  -- From tables where every merchant's hash is empty or has a row among the keys, revoked or not,
  -- any sequence of requests to provision, issue, revoke and authenticate leads to tables on which
  -- the next start, which carries the keys of old merchants across, does nothing: it revives no
  -- key.
  pub serve_all-carry_keys :
      (random_id : Merchant → Text) (created_at : Merchant → ℕ) (requests : List KeyRequest)
      (s : AppState)
      → is_carried s.db ≡ true
      → carry_keys random_id created_at (serve_all hash_api_key requests s).db
        ≡ (serve_all hash_api_key requests s).db
  serve_all-carry_keys random_id created_at requests s h =
      carry_keys-is_carried random_id created_at (serve_all hash_api_key requests s).db (
        serve_all-framed hash_api_key (λ db. is_carried db ≡ true) is_carried-IsFramed requests s h)
