-- ===== src/Ssrf.antt =====
-- src/ssrf.rs: the guard on webhook targets. URL parsing (`reqwest::Url`) and the DNS lookup are
-- parameters; the tests of `std::net` that the guard calls are written out.
pub mod Ipv4
pub mod Ipv6
pub mod Blocklist
pub mod Pinned
use Ipv4.{Ipv4Addr}
use Ipv6.{Ipv6Addr}
use Prim.Native.Nat.{bit_and}
use stellar_gate.Prelude.{
  ℕ, ◌+◌, ◌*◌, ◌/◌, ◌%◌, Bool, ◌&&◌, ◌||◌, Option, none, some, List, [], ◌∷◌, leb, ◌==◌, nat_eq,
  list_eq, not, false, if◌then◌else◌,
}
use stellar_gate.Text.{Text, codes}

pub data IpAddr : Type 0 where
  v4 : Ipv4Addr → IpAddr
  v6 : Ipv6Addr → IpAddr

abbrev between : ℕ → ℕ → ℕ → Bool
between lo hi n = leb lo n && leb n hi

unfoldable pub is_blocked_ipv4 : Ipv4Addr → Bool
is_blocked_ipv4 ip =
    Ipv4.is_loopback ip
    || Ipv4.is_link_local ip
    || Ipv4.is_private ip
    || Ipv4.is_unspecified ip
    || Ipv4.is_broadcast ip
    || Ipv4.is_documentation ip
    || Ipv4.is_multicast ip
    || ip.a == 0
    || ip.a == 100 && between 64 127 ip.b
    || ip.a == 192 && ip.b == 0 && ip.c == 0
    || ip.a == 198 && between 18 19 ip.b
    || leb 240 ip.a

abbrev is_blocked_mapped : Option Ipv4Addr → Bool
is_blocked_mapped none = false
is_blocked_mapped (some ip) = is_blocked_ipv4 ip

unfoldable pub is_blocked_ipv6 : Ipv6Addr → Bool
is_blocked_ipv6 ip =
    Ipv6.is_loopback ip
    || Ipv6.is_unspecified ip
    || Ipv6.is_multicast ip
    || bit_and ip.s0 0xfe00 == 0xfc00
    || bit_and ip.s0 0xffc0 == 0xfe80
    || is_blocked_mapped (Ipv6.to_ipv4_mapped ip)

unfoldable pub is_blocked_ip : IpAddr → Bool
is_blocked_ip (v4 ip) = is_blocked_ipv4 ip
is_blocked_ip (v6 ip) = is_blocked_ipv6 ip

pub record Url : Type 0 where
  pub scheme : Text
  pub host_str : Option Text
  pub port_or_known_default : Option ℕ

-- What the guard asks of the outside: the URL parser, and the addresses that a host resolves to
-- (`none` where the lookup fails or times out).
pub record Net : Type 0 where
  pub parse : Text → Option Url
  pub lookup_host : Text → ℕ → Option (List IpAddr)

pub record SafeTarget : Type 0 where
  pub host : Text
  pub ip : IpAddr
  pub port : ℕ

pub data SsrfError : Type 0 where
  invalid_url not_http no_host no_port unresolved no_address disallowed : SsrfError

pub data Checked : Type 0 where
  safe : SafeTarget → Checked
  refused : SsrfError → Checked

-- Only the first address is looked at, and it is the one that the client is pinned to.
abbrev pub check_address : Bool → Text → ℕ → Option (List IpAddr) → Checked
check_address allow_private host port none = refused unresolved
check_address allow_private host port (some []) = refused no_address
check_address allow_private host port (some (ip ∷ rest)) =
    if not allow_private && is_blocked_ip ip
    then refused disallowed
    else safe (record { host = host; ip = ip; port = port })

abbrev pub check_host : Net → Bool → Option Text → Option ℕ → Checked
check_host net allow_private none port = refused no_host
check_host net allow_private (some host) none = refused no_port
check_host net allow_private (some host) (some port) =
    check_address allow_private host port (net.lookup_host host port)

abbrev pub check_url : Net → Bool → Option Url → Checked
check_url net allow_private none = refused invalid_url
check_url net allow_private (some url) =
    if url.scheme == codes "http" || url.scheme == codes "https"
    then check_host net allow_private url.host_str url.port_or_known_default
    else refused not_http

unfoldable pub validate : Net → Text → Bool → Checked
validate net url allow_private = check_url net allow_private (net.parse url)
