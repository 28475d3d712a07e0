-- ===== src/Ssrf/Blocklist.antt =====
-- src/ssrf.rs, `is_blocked_ipv4`: the guard against a table of reserved networks.
use stellar_gate.Prelude.{
  ℕ, ◌+◌, ◌*◌, ◌/◌, ◌^◌, ◌<◌, ◌≡◌, Bool, ◌&&◌, ◌||◌, arith, ◌==◌, nat_eq, leb,
}
use stellar_gate.Ssrf.Ipv4.{Ipv4Addr}
use stellar_gate.Ssrf.{is_blocked_ipv4}

pub record IsIpv4 (ip : Ipv4Addr) : Type 0 where
  pub a : ip.a < 256
  pub b : ip.b < 256
  pub c : ip.c < 256
  pub d : ip.d < 256

-- The address as a 32-bit number.
abbrev pub to_bits : Ipv4Addr → ℕ
to_bits ip = ((ip.a * 256 + ip.b) * 256 + ip.c) * 256 + ip.d

-- `bits` lies in the network of the address a.b.c.0 and a prefix that leaves `host` bits.
abbrev pub in_network : ℕ → ℕ → ℕ → ℕ → ℕ → Bool
in_network bits a b c host = bits / 2 ^ host == ((a * 256 + b) * 256 + c) * 256 / 2 ^ host

-- The reserved networks of IANA's special-purpose registry that a webhook must not reach.
unfoldable pub is_reserved : ℕ → Bool
is_reserved bits =
    in_network bits 0 0 0 24
    || in_network bits 10 0 0 24
    || in_network bits 100 64 0 22
    || in_network bits 127 0 0 24
    || in_network bits 169 254 0 16
    || in_network bits 172 16 0 20
    || in_network bits 192 0 0 8
    || in_network bits 192 0 2 8
    || in_network bits 192 168 0 16
    || in_network bits 198 18 0 17
    || in_network bits 198 51 100 8
    || in_network bits 203 0 113 8
    || in_network bits 224 0 0 28
    || in_network bits 240 0 0 28

module _ (ip : Ipv4Addr) (v : IsIpv4 ip) where
  net8 : (a : ℕ) → in_network (to_bits ip) a 0 0 24 ≡ (ip.a == a)
  net8 a = ground arith

  net16 : (a b : ℕ) → b < 256 → in_network (to_bits ip) a b 0 16 ≡ (ip.a == a && ip.b == b)
  net16 a b h = ground arith

  net24 :
      (a b c : ℕ)
      → b < 256
      → c < 256
      → in_network (to_bits ip) a b c 8 ≡ (ip.a == a && ip.b == b && ip.c == c)
  net24 a b c h k = ground arith

  shared : in_network (to_bits ip) 100 64 0 22 ≡ (ip.a == 100 && (leb 64 ip.b && leb ip.b 127))
  shared = ground arith

  private : in_network (to_bits ip) 172 16 0 20 ≡ (ip.a == 172 && (leb 16 ip.b && leb ip.b 31))
  private = ground arith

  benchmark : in_network (to_bits ip) 198 18 0 17 ≡ (ip.a == 198 && (leb 18 ip.b && leb ip.b 19))
  benchmark = ground arith

  multicast : in_network (to_bits ip) 224 0 0 28 ≡ (leb 224 ip.a && leb ip.a 239)
  multicast = ground arith

  future : in_network (to_bits ip) 240 0 0 28 ≡ leb 240 ip.a
  future = ground arith

-- The guard blocks an IPv4 address, four octets below 256, exactly when its 32-bit number lies in
-- one of the reserved networks.
pub is_blocked_ipv4-is_reserved :
    (ip : Ipv4Addr) → IsIpv4 ip → is_blocked_ipv4 ip ≡ is_reserved (to_bits ip)
unfolding is_blocked_ipv4 is_reserved
is_blocked_ipv4-is_reserved ip v =
    rw
      (
        net8 ip v 0,
        net8 ip v 10,
        shared ip v,
        net8 ip v 127,
        net16 ip v 169 254 (omega arith),
        private ip v,
        net24 ip v 192 0 0 (omega arith) (omega arith),
        net24 ip v 192 0 2 (omega arith) (omega arith),
        net16 ip v 192 168 (omega arith),
        benchmark ip v,
        net24 ip v 198 51 100 (omega arith) (omega arith),
        net24 ip v 203 0 113 (omega arith) (omega arith),
        multicast ip v,
        future ip v,
      )
      (ground arith)
