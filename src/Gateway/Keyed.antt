-- ===== src/Gateway/Keyed.antt =====
-- src/api/mod.rs: the requests that touch API keys leave the intents and the ledger alone.
use stellar_gate.Prelude.{ℕ, ◌≡◌, refl, ◌∙◌, inl, inr, Option, find, arith, Option-cases}
use stellar_gate.Text.{Text}
use stellar_gate.Db.{Db, ok}
use stellar_gate.Db.ApiKeys.{
  insert_api_key, create_merchant, create_api_key, find_merchant_by_key, revoke_api_key, is_usable,
}
use stellar_gate.Api.{AppState}
use stellar_gate.Api.Keys.Requests.{KeyRequest, serve}
use stellar_gate.Api.Keys.Frame.{IsFramed, serve-framed}
use stellar_gate.Gateway.Others.{books}

module _ (hash_api_key : Text → Text) where
  create_api_key-books :
      (db : Db) (id merchant_id raw_key prefix : Text) (label : Option Text) (now : ℕ) (db' : Db)
      → create_api_key hash_api_key db id merchant_id raw_key prefix label now ≡ ok db'
      → books db' ≡ books db
  unfolding create_api_key insert_api_key
  create_api_key-books db id merchant_id raw_key prefix label now db' h = ground (arith, h)

  create_merchant-books :
      (db : Db) (id raw_key prefix key_id : Text) (now : ℕ) (db' : Db)
      → create_merchant hash_api_key db id raw_key prefix key_id now ≡ ok db'
      → books db' ≡ books db
  unfolding create_merchant insert_api_key
  create_merchant-books db id raw_key prefix key_id now db' h = ground (arith, h)

  find_merchant_by_key-books :
      (db : Db) (raw_key : Text) (now : ℕ)
      → books (find_merchant_by_key hash_api_key db raw_key now).1 ≡ books db
  unfolding find_merchant_by_key
  find_merchant_by_key-books db raw_key now =
      elim (Option-cases (find (is_usable (hash_api_key raw_key)) db.api_keys)) [
        | inl e ↦ rw e refl
        | inr (key, e) ↦ rw e refl
      ]

  books-IsFramed : (db : Db) → IsFramed hash_api_key (λ db'. books db' ≡ books db)
  unfolding revoke_api_key
  books-IsFramed start = record {
    provisions = λ db id raw_key prefix key_id now db' e h.
        create_merchant-books db id raw_key prefix key_id now db' e ∙ h;
    issues = λ db id merchant_id raw_key prefix label now db' e h.
        create_api_key-books db id merchant_id raw_key prefix label now db' e ∙ h;
    authenticates = λ db raw_key now h. find_merchant_by_key-books db raw_key now ∙ h;
    revokes = λ db merchant_id key_id now h. h;
  }

  pub serve-books :
      (request : KeyRequest) (s : AppState) → books (serve hash_api_key request s).db ≡ books s.db
  serve-books request s =
      serve-framed hash_api_key (λ db. books db ≡ books s.db) (books-IsFramed s.db) request s refl
