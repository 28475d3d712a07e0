-- ===== src/Tests/Requests.antt =====
-- src/api/payments.rs: creating and reading payments on concrete requests.
use stellar_gate.Prelude.{◌+◌, ◌≡◌, refl, none, some, [], ◌∷◌, list_eq, nat_eq, list_beq}
use stellar_gate.Text.{
  Text, codes, trim, trim_start_matches, trim_end_matches, is_whitespace, split_once,
  is_ascii_digit,
}
use stellar_gate.Db.{Db, Status, empty_db}
use stellar_gate.Db.Table.{count_where}
use stellar_gate.Db.Payments.{get_payment, create_payment, memo_exists}
use stellar_gate.Db.Idempotency.{find_payment_id_by_idempotency_key, save_idempotency_key}
use stellar_gate.Money.{is_valid_amount, parse_stroops, stroops_to_string, push_zeros}
use stellar_gate.Text.Digits.{show, show_fuel, show_padded, value_from}
use stellar_gate.Api.Auth.{bearer_token, strip_prefix}
use stellar_gate.Db.ApiKeys.{find_merchant_by_key}
use stellar_gate.Api.{answer}
use stellar_gate.Api.Payments.{to_json, full, get_by_id}
use stellar_gate.Api.Payments.Isolation.{IsEntitled, get_by_id-IsEntitled}
use stellar_gate.Api.Create.{
  CreatePaymentRequest, Outside, Created, create, key_of, check_body, accepted_asset,
  check_webhook_url, create_keyed, reserve, mint, unique_memo,
}
use stellar_gate.Api.Create.Explained.{IsJudged, create-IsJudged}
use stellar_gate.Api.Create.Replay.{create-create}
use stellar_gate.Tests.Fixtures.{net_to, address, db, intent}
use stellar_gate.Tests.Boot.{default_config}
use stellar_gate.Tests.Keys.{hash, two_keys}

abbrev pub outside : Text → Outside
outside id = record {
  net = net_to address;
  to_uppercase = λ s. s;
  payment_id = id;
  memo = λ i. (65 + i) ∷ [];
  now = 100;
  meanwhile = λ i db. db;
}

abbrev pub body : CreatePaymentRequest
body = record {
  amount = codes "10.50";
  asset = codes "XLM";
  webhook_url = none;
  idempotency_key = some (codes " k ");
}

create-IsJudged_example :
    IsJudged default_config
      (outside (codes "p9"))
      body
      empty_db
      (create default_config (outside (codes "p9")) (codes "m1") body empty_db)
create-IsJudged_example =
    create-IsJudged default_config (outside (codes "p9")) body (codes "m1") empty_db

abbrev created : Created
created = record {
  status = 201;
  payment = to_json (record {
    id = codes "p9";
    merchant_id = codes "m1";
    destination_address = codes "UNCONFIGURED";
    memo = codes "A";
    amount = codes "10.5";
    asset = codes "XLM";
    status = Status.pending;
    webhook_url = none;
    tx_hash = none;
    paid_amount = none;
    created_at = 100;
    updated_at = 100;
    expires_at = 3700;
    asset_issuer = none;
  });
}

abbrev after : Db
after = (create default_config (outside (codes "p9")) (codes "m1") body empty_db).1

creates :
    create default_config (outside (codes "p9")) (codes "m1") body empty_db
    ≡ (answer created, after)
unfolding create check_body accepted_asset check_webhook_url is_valid_amount parse_stroops
    split_once is_ascii_digit push_zeros trim trim_start_matches trim_end_matches is_whitespace
    create_keyed reserve mint unique_memo memo_exists find_payment_id_by_idempotency_key
    save_idempotency_key create_payment get_payment count_where stroops_to_string to_json list_beq
    show_padded show show_fuel value_from
creates = refl

passes_again :
    check_body default_config (outside (codes "p10")) body
    ≡ answer (record { code = codes "XLM"; issuer = none })
unfolding check_body accepted_asset check_webhook_url is_valid_amount parse_stroops split_once
    is_ascii_digit push_zeros trim trim_start_matches trim_end_matches is_whitespace list_beq
    value_from
passes_again = refl

keyed_by : key_of body.idempotency_key ≡ some (codes "k")
unfolding trim trim_start_matches trim_end_matches is_whitespace list_beq
keyed_by = refl

create-create_example :
    create default_config (outside (codes "p10")) (codes "m1") body after
    ≡ (answer (record { status = 200; payment = created.payment }), after)
create-create_example =
    create-create default_config (codes "m1") (codes "k") (outside (codes "p9"))
      (outside (codes "p10")) body body empty_db after created
      (record { code = codes "XLM"; issuer = none }) keyed_by creates refl keyed_by passes_again

abbrev tables : Db
tables = record two_keys { payments = db.payments }

shows_its_owner :
    (get_by_id hash (some (codes "Bearer sg_a")) (codes "p1") 50 tables).0
    ≡ answer (full (to_json intent))
unfolding get_by_id get_payment bearer_token strip_prefix find_merchant_by_key list_beq trim
    trim_start_matches trim_end_matches is_whitespace
shows_its_owner = refl

get_by_id-IsEntitled_example :
    IsEntitled hash (some (codes "Bearer sg_a")) (codes "p1") tables (to_json intent)
get_by_id-IsEntitled_example =
    get_by_id-IsEntitled hash 50 tables (some (codes "Bearer sg_a")) (codes "p1") (to_json intent)
      shows_its_owner
