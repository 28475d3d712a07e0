-- ===== src/Tests/Fixtures.antt =====
-- The concrete inputs that the examples share: a merchant's intent, the payment that answers it, and
-- an outside world with one public host.
use stellar_gate.Prelude.{ℕ, true, false, none, some, [], ◌∷◌, ◌++◌}
use stellar_gate.Text.{Text, codes}
use stellar_gate.Db.{Db, Payment, Status, empty_db}
use stellar_gate.Db.Deliveries.{RedriveLimits}
use stellar_gate.Metrics.{new_webhook_metrics}
use stellar_gate.Ssrf.{Net, v4}
use stellar_gate.Ssrf.Ipv4.{Ipv4Addr}
use stellar_gate.Webhook.{Libs, Config, Env, Outbound, Response}
use stellar_gate.Horizon.{HorizonPayment, TransactionRef}

abbrev pub gateway : Text
gateway = codes "GBBD47IF6LWK7P7MDEVSCWR7DPUWV3NY3DTQEVFL4NAT4AQH3ZLLFLA5"

abbrev pub target : Text
target = codes "https://shop.example/hook"

abbrev pub intent : Payment
intent = record {
  id = codes "p1";
  merchant_id = codes "m1";
  destination_address = gateway;
  memo = codes "SG-1";
  amount = codes "10.5";
  asset = codes "XLM";
  status = Status.pending;
  webhook_url = some target;
  tx_hash = none;
  paid_amount = none;
  created_at = 100;
  updated_at = 100;
  expires_at = 1000;
  asset_issuer = none;
}

abbrev pub transaction : TransactionRef
transaction = record {
  memo = some (codes "SG-1");
  memo_type = some (codes "text");
  successful = some true;
}

-- The first half of the amount.
abbrev pub first : HorizonPayment
first = record {
  kind = codes "payment";
  amount = some (codes "4.0000000");
  asset_type = some (codes "native");
  asset_code = none;
  asset_issuer = none;
  to = some gateway;
  transaction_hash = some (codes "tx1");
  transaction = some transaction;
  paging_token = none;
  created_at = none;
}

-- A second payment operation of the same transaction, with the other half.
abbrev pub second : HorizonPayment
second = record first { amount = some (codes "6.5000000") }

abbrev pub limits : RedriveLimits
limits = record {
  max_attempts = 10;
  grace_secs = 60;
  backoff_initial_secs = 30;
  backoff_max_secs = 3600;
  jitter_secs = 0;
}

abbrev pub config : Config
config = record {
  webhook_secret = codes "secret";
  webhook_retry_attempts = 3;
  webhook_retry_delay_ms = 500;
  webhook_retry_max_delay_ms = 30000;
  webhook_allow_private_targets = false;
  redrive = limits;
}

abbrev pub libs : Libs
libs = record {
  to_vec = λ p. some p.payment_id;
  event_of = λ body. none;
  hmac_sha256_hex = λ secret message. secret ++ message;
}

abbrev pub address : Ipv4Addr
address = record { a = 8; b = 8; c = 8; d = 8 }

abbrev pub loopback : Ipv4Addr
loopback = record { a = 127; b = 0; c = 0; d = 1 }

abbrev pub net_to : Ipv4Addr → Net
net_to ip = record {
  parse = λ url. some (record {
    scheme = codes "https";
    host_str = some (codes "shop.example");
    port_or_known_default = some 443;
  });
  lookup_host = λ host port. some (v4 ip ∷ []);
}

abbrev pub answering : (ℕ → Response) → Env
answering respond = record {
  delivery_id = codes "d1";
  now = 500;
  timestamp = 500;
  net = net_to address;
  client_builds = true;
  respond = respond;
  elapsed_ms = 40;
}

abbrev pub db : Db
db = record empty_db { payments = intent ∷ [] }

abbrev pub outbound : Outbound
outbound = record { db = db; metrics = new_webhook_metrics; sent = [] }
