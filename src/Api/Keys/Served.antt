-- ===== src/Api/Keys/Served.antt =====
-- src/db.rs: the statements on API keys keep the ids unique, and each merchant a key that works.
use stellar_gate.Prelude.{
  ℕ, ◌+◌, ◌≤◌, ◌≡◌, refl, Bool, true, Option, some, List, [], ◌∷◌, ◌++◌, arith, leb, ltb, ◌==◌,
  nat_eq, list_eq, ==_iff, subst, ◌||◌, ◌⊎◌, Bool-cases, inl, inr, if◌then◌else◌,
}
use stellar_gate.Text.{Text, codes}
use stellar_gate.Db.{Db, ApiKey, Merchant, ok}
use stellar_gate.Db.Table.{update_where, count_where}
use stellar_gate.Db.ApiKeys.{
  has_hash, is_target, is_unrevoked, is_active_of, revoked, touched, revoke_api_key,
  count_active_api_keys, merchant_exists, create_merchant, create_api_key, insert_api_key,
  new_api_key,
}

abbrev pub has_key_id : Text → ApiKey → Bool
has_key_id id key = key.id == id

-- No two keys have one id, and a merchant that exists has a key that is not revoked.
pub record IsServed (db : Db) : Type 0 where
  pub unique : (id : Text) → count_where (has_key_id id) db.api_keys ≤ 1
  pub usable : (m : Text) → merchant_exists db m ≡ true → 1 ≤ count_active_api_keys db m

count_where-append {ℓ} :
    {A : Type ℓ} (test : A → Bool) (rows added : List A)
    → count_where test (rows ++ added) ≡ count_where test rows + count_where test added
unfolding count_where
count_where-append test [] added = omega arith
count_where-append test (r ∷ rows) added = omega (arith, count_where-append test rows added)

module _ (merchant_id key_id : Text) (now : ℕ) where
  -- A revocation takes from its merchant as many active keys as it hits, and none from another.
  active-revoked :
      (m : Text) (rows : List ApiKey)
      → count_where
            (is_active_of m)
            (update_where (is_target merchant_id key_id) (revoked now) rows)
          + (if m == merchant_id then count_where (is_target merchant_id key_id) rows else 0)
        ≡ count_where (is_active_of m) rows
  unfolding count_where update_where
  active-revoked m [] = ground arith
  active-revoked m (k ∷ rows) = ground (
    arith,
    active-revoked m rows,
    ==_iff m merchant_id,
    ==_iff k.merchant_id m,
    ==_iff k.merchant_id merchant_id,
  )

  target-le-id :
      (rows : List ApiKey)
      → count_where (is_target merchant_id key_id) rows ≤ count_where (has_key_id key_id) rows
  unfolding count_where
  target-le-id [] = omega arith
  target-le-id (k ∷ rows) = ground (arith, target-le-id rows)

-- Neither a revocation nor a touch changes which ids there are.
pub id-update_where :
    (test : ApiKey → Bool) (change : ApiKey → ApiKey) (same : (k : ApiKey) → (change k).id ≡ k.id)
    (id : Text) (rows : List ApiKey)
    → count_where (has_key_id id) (update_where test change rows) ≡ count_where (has_key_id id) rows
unfolding count_where update_where
id-update_where test change same id [] = refl
id-update_where test change same id (k ∷ rows) =
    ground (arith, id-update_where test change same id rows, same k)

pub active-touched :
    (test : ApiKey → Bool) (now : ℕ) (m : Text) (rows : List ApiKey)
    → count_where (is_active_of m) (update_where test (touched now) rows)
      ≡ count_where (is_active_of m) rows
unfolding count_where update_where
active-touched test now m [] = refl
active-touched test now m (k ∷ rows) = ground (arith, active-touched test now m rows)

pub revoke_api_key-IsServed :
    (merchant_id key_id : Text) (now : ℕ) (db : Db)
    → 2 ≤ count_active_api_keys db merchant_id
    → IsServed db
    → IsServed (revoke_api_key db merchant_id key_id now).1
unfolding revoke_api_key count_active_api_keys merchant_exists
revoke_api_key-IsServed merchant_id key_id now db two v = record {
  unique = λ id.
      rw (id-update_where (is_target merchant_id key_id) (revoked now) (λ k. refl) id db.api_keys)
        (v.unique id);
  usable = λ m there. ground (
    arith,
    active-revoked merchant_id key_id now m db.api_keys,
    target-le-id merchant_id key_id now db.api_keys,
    v.unique key_id,
    v.usable m there,
    ==_iff m merchant_id,
  );
}

count_where-or {ℓ} :
    {A : Type ℓ} (f g : A → Bool) (rows : List A)
    → count_where (λ a. f a || g a) rows ≡ 0
    → (count_where f rows ≡ 0) × (count_where g rows ≡ 0)
unfolding count_where
count_where-or f g [] h = (refl, refl)
count_where-or f g (r ∷ rows) h = ground (arith, count_where-or f g rows)

insert_api_key-eq_ok :
    (db db' : Db) (key : ApiKey)
    → insert_api_key db key ≡ ok db'
    → (record db { api_keys = db.api_keys ++ key ∷ [] } ≡ db')
      × (count_where (has_key_id key.id) db.api_keys ≡ 0)
unfolding insert_api_key
insert_api_key-eq_ok db db' key h =
    ground (arith, h, count_where-or (has_key_id key.id) (has_hash key.key_hash) db.api_keys)

abbrev has_merchant : Text → List Merchant → Bool
has_merchant m merchants = ltb 0 (count_where (λ n. n.id == m) merchants)

-- With one more key, which no other key shares its id with, and no merchants but those that exist
-- and the owner of the key.
added-IsServed :
    (db : Db) (merchants : List Merchant) (key : ApiKey)
    → count_where (has_key_id key.id) db.api_keys ≡ 0
    → is_unrevoked key ≡ true
    → ((m : Text)
        → has_merchant m merchants ≡ true
        → (merchant_exists db m ≡ true) ⊎ (key.merchant_id ≡ m))
    → IsServed db
    → IsServed (record db { merchants = merchants; api_keys = db.api_keys ++ key ∷ [] })
unfolding count_where count_active_api_keys merchant_exists
added-IsServed db merchants key fresh unrevoked owned v = record {
  unique = λ id.
      rw (count_where-append (has_key_id id) db.api_keys (key ∷ []))
        (elim (Bool-cases (has_key_id id key)) [
          | inl e ↦
              let none_yet : count_where (has_key_id id) db.api_keys ≡ 0 =
                subst (λ i. count_where (has_key_id i) db.api_keys ≡ 0) ((==_iff key.id id).0 e)
                  fresh in
              rw (e, none_yet) (omega arith)
          | inr e ↦ rw e (omega (arith, v.unique id))
        ]);
  usable = λ m there.
      rw (count_where-append (is_active_of m) db.api_keys (key ∷ [])) (elim (owned m there) [
        | inl existed ↦ omega (arith, v.usable m existed)
        | inr owner ↦ ground (arith, ==_iff key.merchant_id m, owner, unrevoked)
      ]);
}

pub create_api_key-IsServed :
    (hash_api_key : Text → Text) (db db' : Db) (id m raw_key prefix : Text) (label : Option Text)
    (now : ℕ)
    → create_api_key hash_api_key db id m raw_key prefix label now ≡ ok db'
    → IsServed db
    → IsServed db'
unfolding create_api_key merchant_exists
create_api_key-IsServed hash_api_key db db' id m raw_key prefix label now h v =
    let key = new_api_key id m (hash_api_key raw_key) prefix label now in
    let (same, fresh) = insert_api_key-eq_ok db db' key h in
    subst IsServed same (added-IsServed db db.merchants key fresh refl (λ n there. inl there) v)

exists-append :
    (m : Text) (merchants : List Merchant) (new : Merchant)
    → has_merchant m (merchants ++ new ∷ []) ≡ true
    → (has_merchant m merchants ≡ true) ⊎ (new.id ≡ m)
unfolding count_where
exists-append m merchants new h = elim (Bool-cases (new.id == m)) [
  | inl e ↦ inr ((==_iff new.id m).0 e)
  | inr e ↦ inl (ground (arith, e, count_where-append (λ n. n.id == m) merchants (new ∷ [])))
]

pub create_merchant-IsServed :
    (hash_api_key : Text → Text) (db db' : Db) (id raw_key prefix key_id : Text) (now : ℕ)
    → create_merchant hash_api_key db id raw_key prefix key_id now ≡ ok db'
    → IsServed db
    → IsServed db'
unfolding create_merchant merchant_exists
create_merchant-IsServed hash_api_key db db' id raw_key prefix key_id now h v =
    let merchant : Merchant = record { id = id; api_key_hash = hash_api_key raw_key } in
    let key = new_api_key key_id id (hash_api_key raw_key) prefix (some (codes "initial")) now in
    let extended = record db { merchants = db.merchants ++ merchant ∷ [] } in
    elim (Bool-cases (
      leb 1
        (count_where (λ n. n.id == id || n.api_key_hash == hash_api_key raw_key) db.merchants))) [
          | inl e ↦ cc (rw e at h)
          | inr e ↦
              let (same, fresh) = insert_api_key-eq_ok extended db' key (rw e at h) in
              subst IsServed same (
                added-IsServed db extended.merchants key fresh refl
                  (λ m there. exists-append m db.merchants merchant there) v)
        ]
