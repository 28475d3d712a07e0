-- ===== src/Ssrf/Ipv6.antt =====
-- The tests of `std::net::Ipv6Addr` that src/ssrf.rs calls.
use Prim.Native.Nat.{bit_and}
use stellar_gate.Prelude.{ℕ, ◌/◌, ◌%◌, Bool, ◌&&◌, Option, none, some, ◌==◌, nat_eq, if◌then◌else◌}
use stellar_gate.Ssrf.Ipv4.{Ipv4Addr}

-- The eight segments, the first one first.
pub record Ipv6Addr : Type 0 where
  pub s0 : ℕ
  pub s1 : ℕ
  pub s2 : ℕ
  pub s3 : ℕ
  pub s4 : ℕ
  pub s5 : ℕ
  pub s6 : ℕ
  pub s7 : ℕ

abbrev high_zero : Ipv6Addr → Bool
high_zero ip = ip.s0 == 0 && ip.s1 == 0 && ip.s2 == 0 && ip.s3 == 0 && ip.s4 == 0

abbrev pub is_loopback : Ipv6Addr → Bool
is_loopback ip = high_zero ip && ip.s5 == 0 && ip.s6 == 0 && ip.s7 == 1

abbrev pub is_unspecified : Ipv6Addr → Bool
is_unspecified ip = high_zero ip && ip.s5 == 0 && ip.s6 == 0 && ip.s7 == 0

abbrev pub is_multicast : Ipv6Addr → Bool
is_multicast ip = bit_and ip.s0 0xff00 == 0xff00

-- ::ffff:a.b.c.d
abbrev pub to_ipv4_mapped : Ipv6Addr → Option Ipv4Addr
to_ipv4_mapped ip =
    if high_zero ip && ip.s5 == 0xffff
    then some (record { a = ip.s6 / 256; b = ip.s6 % 256; c = ip.s7 / 256; d = ip.s7 % 256 })
    else none
