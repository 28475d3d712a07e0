-- ===== src/Webhook/Reserved.antt =====
-- src/webhook.rs and src/ssrf.rs: a webhook that points into a reserved network.
use stellar_gate.Prelude.{ℕ, ◌≡◌, refl, sym, ap, subst, ◌∙◌, true, false, some, List, ◌∷◌, arith}
use stellar_gate.Text.{Text}
use stellar_gate.Db.{DeliveryStatus}
use stellar_gate.Metrics.{fetch_add, record_failed}
use stellar_gate.Ssrf.{IpAddr, v4, Url, SafeTarget, Checked, safe, refused, validate, is_blocked_ip}
use stellar_gate.Ssrf.Ipv4.{Ipv4Addr}
use stellar_gate.Ssrf.Blocklist.{IsIpv4, is_reserved, to_bits, is_blocked_ipv4-is_reserved}
use stellar_gate.Ssrf.Pinned.{IsPinned, validate-IsPinned}
use stellar_gate.Webhook.{Outbound, safe_client, deliver, blocked}
use stellar_gate.Webhook.Outcome.{
  Job, IsReady, IsOutcome, run, recorded, stored_row, saved-keeps, dispatch-deliver,
}

blocked-IsOutcome :
    (j : Job) (o : Outbound)
    → IsOutcome j DeliveryStatus.failed 0 o (blocked j.env j.env.delivery_id 0 (recorded j o))
unfolding record_failed
blocked-IsOutcome j o = record {
  sent = (saved-keeps j o).0;
  delivered = ap (λ m. m.delivered) (saved-keeps j o).1;
  failed = ap (λ m. fetch_add m.failed 1) (saved-keeps j o).1;
  retried = omega (arith, ap (λ m. m.retried) (saved-keeps j o).1);
  row = refl;
  stored = stored_row j DeliveryStatus.failed 0 o _ refl;
}

-- The host of the target resolves to an address of a reserved network first, and private targets
-- are not allowed.
pub record IsInside (j : Job) (ip : Ipv4Addr) : Type 0 where
  pub parsed : Url
  pub host : Text
  pub port : ℕ
  pub others : List IpAddr
  pub guarded : j.config.webhook_allow_private_targets ≡ false
  pub parses : j.env.net.parse j.url ≡ some parsed
  pub has_host : parsed.host_str ≡ some host
  pub has_port : parsed.port_or_known_default ≡ some port
  pub resolves : j.env.net.lookup_host host port ≡ some (v4 ip ∷ others)
  pub is_ip : IsIpv4 ip
  pub reserved : is_reserved (to_bits ip) ≡ true

-- The guard looks at that address.
pinned_ip :
    (j : Job) (ip : Ipv4Addr)
    → IsInside j ip
    → (t : SafeTarget) → IsPinned j.env.net j.url t
    → t.ip ≡ v4 ip
pinned_ip j ip h t p =
    let parses = h.parses in
    let has_host = h.has_host in
    let has_port = h.has_port in
    let resolves = h.resolves in
    let parsed = p.parses in let host = p.host in let port = p.port in let first = p.first in cc

blocked_v4 :
    (ip : Ipv4Addr) → IsIpv4 ip → is_reserved (to_bits ip) ≡ true → is_blocked_ip (v4 ip) ≡ true
unfolding is_blocked_ip
blocked_v4 ip v reserved = is_blocked_ipv4-is_reserved ip v ∙ reserved

safe_client-IsInside :
    (j : Job) (ip : Ipv4Addr) → IsInside j ip → safe_client j.config j.env j.url ≡ false
unfolding safe_client
safe_client-IsInside j ip h = rw h.guarded (go (validate j.env.net j.url false) refl)
  where
    go :
        (c : Checked)
        → validate j.env.net j.url false ≡ c
        → (elim c [ safe target ↦ j.env.client_builds | refused e ↦ false ]) ≡ false
    go (refused e) same = refl
    go (safe t) same =
        let p = validate-IsPinned j.env.net j.url t same in
        let blocked : is_blocked_ip t.ip ≡ true =
          ap is_blocked_ip (pinned_ip j ip h t p) ∙ blocked_v4 ip h.is_ip h.reserved in
        let allowed = p.allowed in cc

-- With a webhook URL, a payload that serialises, and private targets not allowed, a target whose
-- host resolves first to an IPv4 address in one of the reserved networks gets no request: there is
-- a row of the delivery, it is failed with no attempt at this time, rows of other deliveries are
-- as before, and one failure is counted.
pub dispatch-IsInside :
    (j : Job) (ip : Ipv4Addr) (o : Outbound)
    → IsReady j
    → IsInside j ip
    → IsOutcome j DeliveryStatus.failed 0 o (run j o)
unfolding deliver
dispatch-IsInside j ip o ready inside =
    subst (IsOutcome j DeliveryStatus.failed 0 o)
      (sym (dispatch-deliver j o ready ∙ rw (safe_client-IsInside j ip inside, deliver)))
      (blocked-IsOutcome j o)
