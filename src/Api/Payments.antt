-- ===== src/Api/Payments.antt =====
-- src/api/payments.rs: reading payments, one by its id or a page of a merchant's.
pub mod Isolation
use stellar_gate.Prelude.{
  ℕ, Bool, true, false, Option, none, some, List, ◌==◌, list_eq, nat_eq, map, min, max,
  if◌then◌else◌,
}
use stellar_gate.Prelude.Int.{ℤ, pos, negsuc}
use stellar_gate.Text.{Text, codes}
use stellar_gate.Db.{Db, Payment, Status}
use stellar_gate.Db.Payments.{get_payment}
use stellar_gate.Db.ApiKeys.{find_merchant_by_key}
use stellar_gate.Db.Listing.{Key, payment_key, list_payments, list_payments_keyset, count_payments}
use stellar_gate.Db.Listing.Pages.{next_cursor}
use stellar_gate.Webhook.{canonical, canonical_of}
use stellar_gate.Api.{
  Answer, answer, refuse, not_found_error, bad_request, unauthorized_error, payment_not_found,
  invalid_status, invalid_cursor,
}
use stellar_gate.Api.Auth.{bearer_token}
use stellar_gate.Api.Cursor.{Codec, encode_cursor, decode_cursor}

-- The JSON object of a payment.
pub record PaymentJson : Type 0 where
  pub id : Text
  pub merchant_id : Text
  pub destination_address : Text
  pub memo : Text
  pub amount : Text
  pub asset : Text
  pub asset_issuer : Option Text
  pub status : Status
  pub tx_hash : Option Text
  pub paid_amount : Option Text
  pub created_at : ℕ
  pub updated_at : ℕ
  pub expires_at : ℕ

unfoldable pub to_json : Payment → PaymentJson
to_json p = record {
  id = p.id;
  merchant_id = p.merchant_id;
  destination_address = p.destination_address;
  memo = p.memo;
  amount = elim (canonical p.amount) [ none ↦ p.amount | some c ↦ c ];
  asset = p.asset;
  asset_issuer = p.asset_issuer;
  status = p.status;
  tx_hash = p.tx_hash;
  paid_amount = canonical_of p.paid_amount;
  created_at = p.created_at;
  updated_at = p.updated_at;
  expires_at = p.expires_at;
}

-- What a caller without a key sees.
pub record PublicView : Type 0 where
  pub id : Text
  pub status : Status
  pub expires_at : ℕ

abbrev pub public_view : Payment → PublicView
public_view p = record { id = p.id; status = p.status; expires_at = p.expires_at }

pub data View : Type 0 where
  full : PaymentJson → View
  public : PublicView → View

abbrev pub seen_by : Payment → Option Text → Answer View
seen_by p none = refuse unauthorized_error
seen_by p (some merchant_id) =
    if merchant_id == p.merchant_id
    then answer (full (to_json p))
    else refuse (not_found_error payment_not_found)

abbrev pub shown : (Text → Text) → Payment → Option Text → ℕ → Db → Answer View × Db
shown hash_api_key p none now db = (answer (public (public_view p)), db)
shown hash_api_key p (some key) now db =
    let (merchant, db') = find_merchant_by_key hash_api_key db key now in (seen_by p merchant, db')

unfoldable pub get_by_id : (Text → Text) → Option Text → Text → ℕ → Db → Answer View × Db
get_by_id hash_api_key authorization id now db = elim (get_payment db id) [
  | none ↦ (refuse (not_found_error payment_not_found), db)
  | some p ↦ shown hash_api_key p (bearer_token authorization) now db
]

abbrev pub default_limit : ℕ
default_limit = 20

abbrev pub max_limit : ℕ
max_limit = 100

-- `unwrap_or(DEFAULT_LIMIT).clamp(1, MAX_LIMIT)`
unfoldable pub clamped : Option ℤ → ℕ
clamped none = default_limit
clamped (some (pos n)) = max 1 (min n max_limit)
clamped (some (negsuc n)) = 1

-- `unwrap_or(0).max(0)`
abbrev pub from_zero : Option ℤ → ℕ
from_zero none = 0
from_zero (some (pos n)) = n
from_zero (some (negsuc n)) = 0

-- VALID_STATUSES
unfoldable pub status_of : Text → Option Status
status_of s =
    if s == codes "pending"
    then some Status.pending
    else if s == codes "completed"
    then some Status.completed
    else if s == codes "underpaid"
    then some Status.underpaid
    else if s == codes "expired"
    then some Status.expired
    else none

pub record ListQuery : Type 0 where
  pub status : Option Text
  pub limit : Option ℤ
  pub offset : Option ℤ
  pub cursor : Option Text
  pub include_total : Option Bool

pub record PaymentPage : Type 0 where
  pub payments : List PaymentJson
  pub limit : ℕ
  pub offset : Option ℕ
  pub next_cursor : Option Text
  pub total : Option ℕ

abbrev pub encoded : Codec → Option Key → Option Text
encoded codec none = none
encoded codec (some key) = some (encode_cursor codec key)

module _ (codec : Codec) (stamp : ℕ → Text) (merchant_id : Text) (db : Db) where
  abbrev page_of : ℕ → Option ℕ → Option ℕ → List Payment → PaymentPage
  page_of limit offset total payments = record {
    payments = map to_json payments;
    limit = limit;
    offset = offset;
    next_cursor = encoded codec (next_cursor (payment_key stamp) limit payments);
    total = total;
  }

  abbrev keyset_answer : Option Status → ℕ → Option Key → Answer PaymentPage
  keyset_answer status limit none = refuse (bad_request invalid_cursor)
  keyset_answer status limit (some key) =
      answer (
        page_of limit none none (list_payments_keyset stamp db merchant_id status limit (some key)))

  abbrev total_of : Option Status → Option Bool → Option ℕ
  total_of status (some true) = some (count_payments db merchant_id status)
  total_of status _ = none

  abbrev listed : ListQuery → Option Status → Answer PaymentPage
  listed q status = elim q.cursor [
    | some raw ↦ keyset_answer status (clamped q.limit) (decode_cursor codec raw)
    | none ↦ answer (
        page_of (clamped q.limit) (some (from_zero q.offset)) (total_of status q.include_total)
          (list_payments stamp db merchant_id status (clamped q.limit) (from_zero q.offset)))
  ]

  abbrev with_status : ListQuery → Option Status → Answer PaymentPage
  with_status q none = refuse (bad_request invalid_status)
  with_status q (some status) = listed q (some status)

  unfoldable pub list : ListQuery → Answer PaymentPage
  list q = elim q.status [ none ↦ listed q none | some s ↦ with_status q (status_of s) ]
