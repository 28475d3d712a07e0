-- ===== src/Api/Payments/Isolation.antt =====
-- src/api/payments.rs, `get_by_id`: who sees what of a payment.
use stellar_gate.Prelude.{
  List, [], ◌∷◌, true, find, ◌⊎◌, and_first, and_second, ℕ, ◌≡◌, refl, sym, ap, ◌∙◌, inl, inr,
  Option, none, some, ◌==◌, ==_iff, list_eq, nat_eq, Bool-cases, Option-cases,
}
use stellar_gate.Text.{Text}
use stellar_gate.Db.{Db, Payment, ApiKey}
use stellar_gate.Db.Payments.{get_payment}
use stellar_gate.Db.ApiKeys.{find_merchant_by_key, is_unrevoked, is_usable}
use stellar_gate.Db.ApiKeys.Revoked.{merchant_of, usable_key, find_merchant_by_key-usable_key}
use stellar_gate.Api.{answer, refuse, not_found_error, payment_not_found}
use stellar_gate.Api.Auth.{bearer_token}
use stellar_gate.Api.Payments.{PaymentJson, full, to_json, get_by_id, seen_by, shown}

abbrev IsAmong : ApiKey → List ApiKey → Type 0
IsAmong key [] = ⊥
IsAmong key (k ∷ rows) = (k ≡ key) ⊎ IsAmong key rows

-- A row of the table has that hash, is not revoked, and is of that merchant.
abbrev HasKey : List ApiKey → Text → Text → Type 0
HasKey rows key_hash merchant_id =
    (row : ApiKey) × IsAmong row rows
    × (row.key_hash ≡ key_hash)
    × (row.revoked_at ≡ none)
    × (row.merchant_id ≡ merchant_id)

unrevoked-none : (key : ApiKey) → is_unrevoked key ≡ true → key.revoked_at ≡ none
unrevoked-none key h = elim (Option-cases key.revoked_at) [
  | inl e ↦ e
  | inr (t, e) ↦ let k = rw e at h in cc
]

find-HasKey :
    (key_hash merchant_id : Text) (rows : List ApiKey)
    → merchant_of (find (is_usable key_hash) rows) ≡ some merchant_id
    → HasKey rows key_hash merchant_id
find-HasKey key_hash merchant_id [] h = cc
find-HasKey key_hash merchant_id (k ∷ rows) h = elim (Bool-cases (is_usable key_hash k)) [
  | inl e ↦
      let owner : merchant_of (some k) ≡ some merchant_id = rw e at h in
      (k, inl refl, (==_iff _ _).0 (and_first _ _ e), unrevoked-none k (and_second _ _ e), cc)
  | inr e ↦
      let (row, among, hash, open_row, owner) = find-HasKey key_hash merchant_id rows (rw e at h) in
      (row, inr among, hash, open_row, owner)
]

-- The full record is shown of a payment that exists, to a caller whose key is a usable one of the
-- payment's merchant.
abbrev pub IsEntitled : (Text → Text) → Option Text → Text → Db → PaymentJson → Type 0
IsEntitled hash_api_key authorization id db json =
    (p : Payment) × (key : Text) × (get_payment db id ≡ some p)
    × (json ≡ to_json p)
    × (bearer_token authorization ≡ some key)
    × (merchant_of (usable_key db (hash_api_key key)) ≡ some p.merchant_id)
    × HasKey db.api_keys (hash_api_key key) p.merchant_id

seen_by-full :
    (p : Payment) (merchant : Option Text) (json : PaymentJson)
    → seen_by p merchant ≡ answer (full json)
    → (json ≡ to_json p) × (merchant ≡ some p.merchant_id)
seen_by-full p none json h = cc
seen_by-full p (some m) json h = elim (Bool-cases (m == p.merchant_id)) [
  | inl e ↦
      let same : m ≡ p.merchant_id = (==_iff m p.merchant_id).0 e in
      let shown_here : answer (full (to_json p)) ≡ answer (full json) = rw e at h in
      (cc, ap some same)
  | inr e ↦
      let no : refuse (not_found_error payment_not_found) ≡ answer (full json) = rw e at h in cc
]

module _ (hash_api_key : Text → Text) (now : ℕ) (db : Db) where
  shown-full :
      (p : Payment) (token : Option Text) (json : PaymentJson)
      → (shown hash_api_key p token now db).0 ≡ answer (full json)
      → (key : Text) × (token ≡ some key)
        × (json ≡ to_json p)
        × (merchant_of (usable_key db (hash_api_key key)) ≡ some p.merchant_id)
  shown-full p none json h = cc
  shown-full p (some key) json h =
      let (same, owner) = seen_by-full p (find_merchant_by_key hash_api_key db key now).0 json h in
      (key, refl, same, sym (find_merchant_by_key-usable_key hash_api_key db key now) ∙ owner)

  -- Whoever is answered with the whole record of a payment asked for a payment that exists, with a
  -- key that is not revoked and belongs to the merchant of that payment.
  pub get_by_id-IsEntitled :
      (authorization : Option Text) (id : Text) (json : PaymentJson)
      → (get_by_id hash_api_key authorization id now db).0 ≡ answer (full json)
      → IsEntitled hash_api_key authorization id db json
  unfolding get_by_id
  get_by_id-IsEntitled authorization id json h = elim (Option-cases (get_payment db id)) [
    | inl e ↦
        let no : refuse (not_found_error payment_not_found) ≡ answer (full json) =
          rw (e, get_by_id) at h in
        cc
    | inr (p, e) ↦
        let here : (shown hash_api_key p (bearer_token authorization) now db).0
            ≡ answer (full json) =
          rw (e, get_by_id) at h in
        let (key, token, same, owner) = shown-full p (bearer_token authorization) json here in
        (
          p,
          key,
          e,
          same,
          token,
          owner,
          find-HasKey (hash_api_key key) p.merchant_id db.api_keys owner,
        )
  ]
