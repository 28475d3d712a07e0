-- ===== src/Tests/Guard.antt =====
-- src/ssrf.rs on concrete addresses.
use stellar_gate.Prelude.{list_beq, false, ◌≡◌, refl, arith}
use stellar_gate.Text.{codes}
use stellar_gate.Ssrf.{SafeTarget, v4, safe, is_blocked_ipv4, is_blocked_ip, validate}
use stellar_gate.Ssrf.Blocklist.{is_reserved, to_bits, is_blocked_ipv4-is_reserved}
use stellar_gate.Ssrf.Pinned.{IsPinned, validate-IsPinned}
use stellar_gate.Tests.Fixtures.{address, loopback, net_to, target}

is_blocked_ipv4-is_reserved_example : is_blocked_ipv4 loopback ≡ is_reserved (to_bits loopback)
is_blocked_ipv4-is_reserved_example =
    is_blocked_ipv4-is_reserved loopback
      (record { a = omega arith; b = omega arith; c = omega arith; d = omega arith })

abbrev pinned : SafeTarget
pinned = record { host = codes "shop.example"; ip = v4 address; port = 443 }

validated : validate (net_to address) target false ≡ safe pinned
unfolding validate is_blocked_ip is_blocked_ipv4 list_beq
validated = refl

validate-IsPinned_example : IsPinned (net_to address) target pinned
validate-IsPinned_example = validate-IsPinned (net_to address) target pinned validated
