-- ===== src/Tests/Deliveries.antt =====
-- src/webhook.rs, `dispatch`: deliveries to a receiver that fails twice, one that never answers, and
-- one that the guard refuses.
use stellar_gate.Prelude.{◌↔◌, [], ◌∷◌, some, ℕ, ◌≡◌, refl, none, arith, true, false, list_beq, ltb}
use stellar_gate.Text.{Text, codes}
use stellar_gate.Db.{Db, WebhookDelivery, empty_db, payment_completed, DeliveryStatus}
use stellar_gate.Db.Deliveries.{list_redrivable_deliveries}
use stellar_gate.Db.Deliveries.Redrivable.{Occurs, IsDue, list_redrivable_deliveries-IsDue}
use stellar_gate.Ssrf.{validate, is_blocked_ip, is_blocked_ipv4}
use stellar_gate.Webhook.{
  Env, Response, is_success, safe_client, build_payload, response, send_error,
}
use stellar_gate.Webhook.Attempts.{AllFail}
use stellar_gate.Webhook.Outcome.{Job, IsReady, IsOutcome, run, dispatch-delivered, dispatch-failed}
use stellar_gate.Webhook.Reserved.{IsInside, dispatch-IsInside}
use stellar_gate.Ssrf.Blocklist.{is_reserved}
use stellar_gate.Tests.Fixtures.{
  limits, intent, libs, config, target, answering, net_to, loopback, outbound,
}

abbrev body : Text
body = codes "p1"

abbrev job : Env → Job
job env = record {
  libs = libs;
  config = config;
  env = env;
  payment = intent;
  event = payment_completed;
  delta = none;
  url = target;
  body = body;
}

abbrev ready : (env : Env) → IsReady (job env)
unfolding build_payload
ready env = record { has_url = refl; serialises = refl }

abbrev third_time : Env
third_time = answering (λ n. response (ltb 2 n))

abbrev never : Env
never = answering (λ n. send_error)

abbrev inside : Env
inside = record never { net = net_to loopback }

pinned : (respond : ℕ → Response) → safe_client config (answering respond) target ≡ true
unfolding safe_client validate is_blocked_ip is_blocked_ipv4 list_beq
pinned respond = refl

refused : safe_client config inside target ≡ false
unfolding safe_client validate is_blocked_ip is_blocked_ipv4 list_beq
refused = refl

fails_twice : AllFail third_time 1 2
unfolding is_success
fails_twice j from to = ground arith

succeeds_then : is_success (third_time.respond 3) ≡ true
unfolding is_success
succeeds_then = refl

fails : AllFail never 1 3
unfolding is_success
fails j from to = refl

dispatch-delivered_example :
    IsOutcome (job third_time) DeliveryStatus.delivered 3 outbound (run (job third_time) outbound)
dispatch-delivered_example =
    dispatch-delivered (job third_time) 2 outbound (ready third_time) (pinned third_time.respond)
      fails_twice succeeds_then (omega arith) (omega arith)

dispatch-failed_example :
    IsOutcome (job never) DeliveryStatus.failed 3 outbound (run (job never) outbound)
dispatch-failed_example =
    dispatch-failed (job never) outbound (ready never) (pinned never.respond) fails (omega arith)

resolves_inside : IsInside (job inside) loopback
unfolding is_reserved
resolves_inside = record {
  parsed = record {
    scheme = codes "https";
    host_str = some (codes "shop.example");
    port_or_known_default = some 443;
  };
  host = codes "shop.example";
  port = 443;
  others = [];
  guarded = refl;
  parses = refl;
  has_host = refl;
  has_port = refl;
  resolves = refl;
  is_ip = omega arith;
  reserved = refl;
}

dispatch-IsInside_example :
    IsOutcome (job inside) DeliveryStatus.failed 0 outbound (run (job inside) outbound)
dispatch-IsInside_example =
    dispatch-IsInside (job inside) loopback outbound (ready inside) resolves_inside

abbrev waiting : WebhookDelivery
waiting = record {
  id = codes "d9";
  payment_id = codes "p1";
  url = target;
  payload = body;
  event_type = none;
  status = DeliveryStatus.pending;
  attempts = 2;
  last_attempt = some 100;
  acknowledged_at = none;
  created_at = 90;
}

abbrev waiting_db : Db
waiting_db = record empty_db { webhook_deliveries = waiting ∷ [] }

list_redrivable_deliveries-IsDue_example :
    Occurs waiting (list_redrivable_deliveries waiting_db limits (λ d. 0) 200)
    ↔ (Occurs waiting waiting_db.webhook_deliveries × IsDue limits 0 200 waiting)
list_redrivable_deliveries-IsDue_example =
    list_redrivable_deliveries-IsDue waiting_db limits (λ d. 0) 200 waiting
