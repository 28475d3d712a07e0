-- ===== src/Api/Auth.antt =====
-- src/api/mod.rs: the two guards in front of the handlers, for merchants and for the operator.
use stellar_gate.Prelude.{
  ℕ, Bool, ◌||◌, not, Option, none, some, [], ◌∷◌, ◌==◌, list_eq, option_eq, nat_eq, if◌then◌else◌,
}
use stellar_gate.Text.{Text, codes, trim}
use stellar_gate.Db.{Db}
use stellar_gate.Db.ApiKeys.{find_merchant_by_key}
use stellar_gate.Metrics.{
  record_success, record_failure_missing_key, record_failure_invalid_key,
  record_failure_internal_error,
}
use stellar_gate.Api.{
  Answer, answer, refuse, AppState, unauthorized_error, internal, internal_error,
}

unfoldable pub strip_prefix : Text → Text → Option Text
strip_prefix [] s = some s
strip_prefix (c ∷ p) [] = none
strip_prefix (c ∷ p) (d ∷ s) = let rest = strip_prefix p s in if c == d then rest else none

abbrev if_nonempty : Text → Option Text
if_nonempty s = if s == [] then none else some s

abbrev stripped : Option Text → Option Text
stripped none = none
stripped (some key) = if_nonempty (trim key)

abbrev without_prefix : Option Text → Option Text
without_prefix none = none
without_prefix (some value) = strip_prefix (codes "Bearer ") value

-- The key of an `Authorization` header; `none` is a header that is missing or no text.
unfoldable pub bearer_token : Option Text → Option Text
bearer_token authorization = stripped (without_prefix authorization)

abbrev pub authenticated : Option Text × Db → AppState → Answer Text × AppState
authenticated (none, db) s = (
  refuse unauthorized_error,
  record s { db = db; auth_metrics = record_failure_invalid_key s.auth_metrics },
)
authenticated (some merchant_id, db) s =
    (answer merchant_id, record s { db = db; auth_metrics = record_success s.auth_metrics })

-- The merchant that the handler runs for. The flag is a database that fails.
unfoldable pub auth_middleware :
    (Text → Text) → Bool → Option Text → ℕ → AppState → Answer Text × AppState
auth_middleware hash_api_key db_fails authorization now s = elim (bearer_token authorization) [
  | none ↦ (
    refuse unauthorized_error,
    record s { auth_metrics = record_failure_missing_key s.auth_metrics },
  )
  | some key ↦
      if db_fails
      then (
        refuse (internal internal_error),
        record s { auth_metrics = record_failure_internal_error s.auth_metrics },
      )
      else authenticated (find_merchant_by_key hash_api_key s.db key now) s
]

-- Whether the request goes on: a secret that is not configured lets nobody pass.
unfoldable pub require_admin_secret : Text → Option Text → Bool
require_admin_secret configured provided =
    not (configured == [] || not (provided == some configured))
