-- ===== src/Ssrf/Ipv4.antt =====
-- The tests of `std::net::Ipv4Addr` that src/ssrf.rs calls.
use stellar_gate.Prelude.{ℕ, Bool, ◌&&◌, ◌||◌, leb, ◌==◌, nat_eq}

pub record Ipv4Addr : Type 0 where
  pub a : ℕ
  pub b : ℕ
  pub c : ℕ
  pub d : ℕ

abbrev pub is_loopback : Ipv4Addr → Bool
is_loopback ip = ip.a == 127

abbrev pub is_link_local : Ipv4Addr → Bool
is_link_local ip = ip.a == 169 && ip.b == 254

abbrev pub is_private : Ipv4Addr → Bool
is_private ip =
    ip.a == 10 || ip.a == 172 && (leb 16 ip.b && leb ip.b 31) || ip.a == 192 && ip.b == 168

abbrev pub is_unspecified : Ipv4Addr → Bool
is_unspecified ip = ip.a == 0 && ip.b == 0 && ip.c == 0 && ip.d == 0

abbrev pub is_broadcast : Ipv4Addr → Bool
is_broadcast ip = ip.a == 255 && ip.b == 255 && ip.c == 255 && ip.d == 255

abbrev pub is_documentation : Ipv4Addr → Bool
is_documentation ip =
    ip.a == 192 && ip.b == 0 && ip.c == 2
    || ip.a == 198 && ip.b == 51 && ip.c == 100
    || ip.a == 203 && ip.b == 0 && ip.c == 113

abbrev pub is_multicast : Ipv4Addr → Bool
is_multicast ip = leb 224 ip.a && leb ip.a 239
