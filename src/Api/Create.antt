-- ===== src/Api/Create.antt =====
-- src/api/payments.rs, `create`: the checks of the body, the idempotency key, the memo and the new
-- payment. Other requests may write to the database between the lookup of the key and its
-- reservation, and in each wait for the winner of a key.
pub mod Replay
pub mod Checks
pub mod Explained
use stellar_gate.Prelude.{
  ℕ, zero, suc, ◌+◌, Bool, true, false, ◌&&◌, not, Option, none, some, List, [], ◌∷◌, ltb, leb,
  ◌==◌, list_eq, nat_eq, filterb, length, if◌then◌else◌,
}
use stellar_gate.Prelude.Int.{ℤ}
use stellar_gate.Text.{Text, codes, trim, as_bytes}
use stellar_gate.Money.{is_valid_amount}
use stellar_gate.Ssrf.{Net, Url, Checked, safe, refused, validate}
use stellar_gate.Config.{Config, AcceptedAsset}
use stellar_gate.Config.Timing.{as_i64}
use stellar_gate.Db.Table.{count_where}
use stellar_gate.Db.{Db, Payment, Result, ok, err}
use stellar_gate.Db.Payments.{NewPayment, get_payment, create_payment, memo_exists}
use stellar_gate.Db.Idempotency.{
  find_payment_id_by_idempotency_key, save_idempotency_key, delete_idempotency_key,
}
use stellar_gate.Api.{
  Answer, answer, refuse, AppError, bad_request, internal, unsupported_asset, ambiguous_asset,
  invalid_amount, invalid_webhook_url, idempotency_conflict, internal_error,
}
use stellar_gate.Api.Payments.{PaymentJson, to_json}

-- The body, where `asset` has its default already, and the header `Idempotency-Key`.
pub record CreatePaymentRequest : Type 0 where
  pub amount : Text
  pub asset : Text
  pub webhook_url : Option Text
  pub idempotency_key : Option Text

-- What one request meets: the URL parser and the resolver, `str::to_uppercase`, the fresh id, the
-- memos that are drawn, the time, and what other requests do to the database meanwhile.
pub record Outside : Type 0 where
  pub net : Net
  pub to_uppercase : Text → Text
  pub payment_id : Text
  pub memo : ℕ → Text
  pub now : ℕ
  pub meanwhile : ℕ → Db → Db

-- The status and the body of an answer.
pub record Created : Type 0 where
  pub status : ℕ
  pub payment : PaymentJson

abbrev pub only : List AcceptedAsset → Answer AcceptedAsset
only [] = refuse (bad_request unsupported_asset)
only (one ∷ []) = answer one
only (one ∷ two ∷ rest) = refuse (bad_request ambiguous_asset)

unfoldable pub accepted_asset : List AcceptedAsset → Text → Answer AcceptedAsset
accepted_asset accepted asset = only (filterb (λ a. a.code == asset) accepted)

abbrev bad_url : Answer (Unit {0})
bad_url = refuse (bad_request invalid_webhook_url)

abbrev pub is_safe : Checked → Bool
is_safe (safe target) = true
is_safe (refused e) = false

-- An empty header counts as absent.
abbrev pub key_of : Option Text → Option Text
key_of none = none
key_of (some value) = if trim value == [] then none else some (trim value)

module _ {N : Type 0} (config : Config N) (outside : Outside) where
  abbrev pub check_parsed : Text → Option Url → Answer (Unit {0})
  check_parsed url none = bad_url
  check_parsed url (some parsed) =
      if leb (count_where (λ s. s == parsed.scheme) config.allowed_webhook_schemes) 0
      then bad_url
      else if config.network == codes "public" && not (parsed.scheme == codes "https")
      then bad_url
      else if not (is_safe (validate outside.net url config.webhook_allow_private_targets))
      then bad_url
      else answer tt

  unfoldable pub check_webhook_url : Option Text → Answer (Unit {0})
  check_webhook_url none = answer tt
  check_webhook_url (some url) =
      if ltb 2048 (length (as_bytes url)) then bad_url else check_parsed url (outside.net.parse url)

  abbrev pub with_url : AcceptedAsset → Answer (Unit {0}) → Answer AcceptedAsset
  with_url asset (refuse e) = refuse e
  with_url asset (answer u) = answer asset

  abbrev pub with_asset : CreatePaymentRequest → Answer AcceptedAsset → Answer AcceptedAsset
  with_asset body (refuse e) = refuse e
  with_asset body (answer asset) =
      if not (is_valid_amount body.amount)
      then refuse (bad_request invalid_amount)
      else with_url asset (check_webhook_url body.webhook_url)

  -- The checks of the body, in their order.
  unfoldable pub check_body : CreatePaymentRequest → Answer AcceptedAsset
  check_body body =
      with_asset body (accepted_asset config.accepted_assets (outside.to_uppercase body.asset))

  -- `for _ in 0..10`
  unfoldable pub unique_memo : Db → ℕ → ℕ → Option Text
  unique_memo db zero i = none
  unique_memo db (suc left) i =
      let later = unique_memo db left (i + 1) in
      if memo_exists db (outside.memo i) then later else some (outside.memo i)

  abbrev pub answer_created : Db → Result (Payment × Db) → Answer Created × Db
  answer_created db (err e) = (refuse (internal internal_error), db)
  answer_created db (ok (p, db')) = (answer (record { status = 201; payment = to_json p }), db')

  abbrev pub new_payment : Text → CreatePaymentRequest → AcceptedAsset → Text → NewPayment
  new_payment merchant_id body asset memo = record {
    id = outside.payment_id;
    merchant_id = merchant_id;
    destination_address = config.gateway_public;
    memo = memo;
    amount = body.amount;
    asset = outside.to_uppercase body.asset;
    asset_issuer = asset.issuer;
    webhook_url = body.webhook_url;
    ttl_secs = as_i64 config.payment_ttl_secs;
  }

  unfoldable pub mint : Text → CreatePaymentRequest → AcceptedAsset → Db → Answer Created × Db
  mint merchant_id body asset db = elim (unique_memo db 10 0) [
    | none ↦ (refuse (internal internal_error), db)
    | some memo ↦
        answer_created db (create_payment db (new_payment merchant_id body asset memo) outside.now)
  ]

  -- `for _ in 0..50`, with a wait behind each look.
  unfoldable pub await_winner : Text → ℕ → ℕ → Db → Answer Created × Db
  await_winner canonical_id zero i db = (refuse (internal idempotency_conflict), db)
  await_winner canonical_id (suc left) i db = elim (get_payment db canonical_id) [
    | some p ↦ (answer (record { status = 200; payment = to_json p }), db)
    | none ↦ await_winner canonical_id left (i + 1) (outside.meanwhile i db)
  ]

  abbrev pub reserved :
      Text → CreatePaymentRequest → AcceptedAsset → Text × Db → Answer Created × Db
  reserved merchant_id body asset (canonical_id, db) =
      if not (canonical_id == outside.payment_id)
      then await_winner canonical_id 50 1 db
      else mint merchant_id body asset db

  -- The key is reserved before the payment is made.
  unfoldable pub reserve :
      Text → CreatePaymentRequest → AcceptedAsset → Text → Db → Answer Created × Db
  reserve merchant_id body asset key db =
      reserved merchant_id body asset
        (save_idempotency_key db merchant_id key outside.payment_id outside.now)

  -- A key that maps to a payment answers with it; a mapping whose payment was never made is dropped.
  abbrev pub mapped :
      Text → CreatePaymentRequest → AcceptedAsset → Text → Db → Option Payment → Answer Created × Db
  mapped merchant_id body asset key db (some p) =
      (answer (record { status = 200; payment = to_json p }), db)
  mapped merchant_id body asset key db none =
      reserve merchant_id body asset key
        (outside.meanwhile 0 (delete_idempotency_key db merchant_id key))

  unfoldable pub create_keyed :
      Text → CreatePaymentRequest → AcceptedAsset → Text → Db → Answer Created × Db
  create_keyed merchant_id body asset key db =
      elim (find_payment_id_by_idempotency_key db merchant_id key) [
        | some existing_id ↦ mapped merchant_id body asset key db (get_payment db existing_id)
        | none ↦ reserve merchant_id body asset key (outside.meanwhile 0 db)
      ]

  abbrev pub keyed :
      Text → CreatePaymentRequest → AcceptedAsset → Db → Option Text → Answer Created × Db
  keyed merchant_id body asset db none = mint merchant_id body asset db
  keyed merchant_id body asset db (some key) = create_keyed merchant_id body asset key db

  abbrev pub behind_checks :
      Text → CreatePaymentRequest → Db → Answer AcceptedAsset → Answer Created × Db
  behind_checks merchant_id body db (refuse e) = (refuse e, db)
  behind_checks merchant_id body db (answer asset) =
      keyed merchant_id body asset db (key_of body.idempotency_key)

  unfoldable pub create : Text → CreatePaymentRequest → Db → Answer Created × Db
  create merchant_id body db = behind_checks merchant_id body db (check_body body)
