-- ===== src/Api/Keys.antt =====
-- src/api/mod.rs: provisioning a merchant, and issuing, listing and revoking its API keys. Fresh ids
-- and random bytes come in as arguments.
pub mod Served
pub mod Requests
pub mod Listed
pub mod Frame
pub mod Carried
use stellar_gate.Prelude.{
  ℕ, Bool, true, false, not, Option, none, some, List, ltb, leb, length, map, filterb,
  if◌then◌else◌,
}
use stellar_gate.Text.{Text, as_bytes}
use stellar_gate.Db.{Db, ApiKey, Result, ok, err}
use stellar_gate.Db.ApiKeys.{
  generate_api_key, create_merchant, create_api_key, revoke_api_key, count_active_api_keys,
  merchant_exists, is_unrevoked,
}
use stellar_gate.Api.{
  Answer, answer, refuse, AppState, AppError, with_db, bad_request, not_found_error, internal,
  internal_error, merchant_not_found, invalid_label, last_active_key, key_not_found,
}

-- What is drawn for a request: a merchant id, a key id and the hex form of 32 random bytes.
pub record Drawn : Type 0 where
  pub merchant_id : Text
  pub key_id : Text
  pub random_hex : Text

-- The id of the new key and the key itself, which is shown this once.
pub record Issued : Type 0 where
  pub merchant_id : Text
  pub key_id : Text
  pub api_key : Text

abbrev pub stored : Result Db → Issued → AppState → Answer Issued × AppState
stored (ok db) issued s = (answer issued, with_db s db)
stored (err e) issued s = (refuse (internal internal_error), s)

abbrev issued_as : Drawn → Text → Issued
issued_as drawn merchant_id = record {
  merchant_id = merchant_id;
  key_id = drawn.key_id;
  api_key = (generate_api_key drawn.random_hex).0;
}

abbrev pub label_too_long : Option Text → Bool
label_too_long none = false
label_too_long (some label) = ltb 100 (length (as_bytes label))

module _ (hash_api_key : Text → Text) where
  unfoldable pub provision_merchant : Drawn → ℕ → AppState → Answer Issued × AppState
  provision_merchant drawn now s =
      let (raw_key, prefix) = generate_api_key drawn.random_hex in
      stored (create_merchant hash_api_key s.db drawn.merchant_id raw_key prefix drawn.key_id now)
        (issued_as drawn drawn.merchant_id) s

  unfoldable pub issue_api_key :
      Drawn → Text → Option Text → ℕ → AppState → Answer Issued × AppState
  issue_api_key drawn merchant_id label now s =
      if not (merchant_exists s.db merchant_id)
      then (refuse (not_found_error merchant_not_found), s)
      else if label_too_long label
      then (refuse (bad_request invalid_label), s)
      else let (raw_key, prefix) = generate_api_key drawn.random_hex in
        stored (create_api_key hash_api_key s.db drawn.key_id merchant_id raw_key prefix label now)
          (issued_as drawn merchant_id) s

abbrev pub removed : Bool × Db → AppState → Answer (Unit {0}) × AppState
removed (true, db) s = (answer tt, with_db s db)
removed (false, db) s = (refuse (not_found_error key_not_found), with_db s db)

unfoldable pub revoke_key : Text → Text → ℕ → AppState → Answer (Unit {0}) × AppState
revoke_key merchant_id key_id now s =
    if not (merchant_exists s.db merchant_id)
    then (refuse (not_found_error merchant_not_found), s)
    else if leb (count_active_api_keys s.db merchant_id) 1
    then (refuse (bad_request last_active_key), s)
    else removed (revoke_api_key s.db merchant_id key_id now) s
