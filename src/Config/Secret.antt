-- ===== src/Config/Secret.antt =====
-- src/config.rs: the check of the secret that signs the webhooks.
use stellar_gate.Prelude.{
  Bool, ◌||◌, Option, none, some, List, [], ◌∷◌, leb, ltb, ◌==◌, list_eq, nat_eq, length,
}
use stellar_gate.Text.{Text, codes, trim, starts_with, as_bytes}
use stellar_gate.Db.Table.{count_where}
use stellar_gate.Config.{
  Result, ok, err, reject_if, ◌>>◌, missing_secret, empty_secret, blank_secret, placeholder_secret,
  short_secret,
}

abbrev pub webhook_placeholders : List Text
webhook_placeholders =
    codes "default-secret"
    ∷ codes "your_webhook_signing_secret"
    ∷ codes "REPLACE_ME_webhook_signing_secret"
    ∷ []

unfoldable pub is_placeholder : Text → Bool
is_placeholder secret =
    leb 1 (count_where (λ p. p == secret) webhook_placeholders)
    || starts_with (codes "REPLACE_ME_") secret

abbrev pub check_secret : Text → Result Text
check_secret secret = do
  reject_if (secret == []) empty_secret
  reject_if (trim secret == []) blank_secret
  reject_if (is_placeholder secret) placeholder_secret
  reject_if (ltb (length (as_bytes secret)) 32) short_secret
  ok secret

-- The secret as the environment has it; `none` is a variable that is not set.
unfoldable pub validate_webhook_secret : Option Text → Result Text
validate_webhook_secret none = err missing_secret
validate_webhook_secret (some secret) = check_secret secret
