-- ===== src/Api/Limits.antt =====
-- src/api/mod.rs: the rate limits, per bucket and client. The limiter itself is the crate `governor`'s,
-- addresses are parsed by `std::net` and networks are `ipnet`'s. A `Duration` is its number of
-- nanoseconds; `as_secs_f64().ceil()` is exact for the waits of a quota per second.
pub mod Clients
pub mod Waits
use stellar_gate.Prelude.{
  ℕ, ◌+◌, ◌-◌, ◌*◌, ◌/◌, ◌^◌, Bool, true, false, ◌&&◌, ◌||◌, not, Option, none, some, List, [], ◌∷◌,
  ◌++◌, leb, ◌==◌, list_eq, nat_eq, min, max, map, if◌then◌else◌,
}
use mathlib.Core.List.{reverse}
use stellar_gate.Text.{Text, codes, trim, split, starts_with}

unfoldable pub ends_with : Text → Text → Bool
ends_with suffix s = starts_with (reverse suffix) (reverse s)

-- The methods that the router knows; only POST matters here.
pub data Method : Type 0 where
  get post delete other : Method

pub data Bucket : Type 0 where
  payments merchants redeliver default : Bucket

abbrev pub post_bucket : Text → Bucket
post_bucket path =
    if path == codes "/payments"
    then payments
    else if path == codes "/merchants"
    then merchants
    else if starts_with (codes "/payments/") path && ends_with (codes "/redeliver") path
    then redeliver
    else default

-- The path is that of the whole request: the layer lies around the routes, with their prefixes.
unfoldable pub rate_limited_bucket : Method → Text → Bucket
rate_limited_bucket post path = post_bucket path
rate_limited_bucket _ path = default

unfoldable pub bucket_rate_multiplier : Bucket → ℕ
bucket_rate_multiplier default = 5
bucket_rate_multiplier _ = 1

-- `saturating_mul` of `u32`, and at least 1.
unfoldable pub effective_rps : ℕ → Bucket → ℕ
effective_rps base_rps bucket = max (min (base_rps * bucket_rate_multiplier bucket) (2 ^ 32 - 1)) 1

abbrev pub nanos_per_sec : ℕ
nanos_per_sec = 1000000000

-- `as_secs_f64().ceil()`
abbrev pub ceil_secs : ℕ → ℕ
ceil_secs nanos = (nanos + (nanos_per_sec - 1)) / nanos_per_sec

unfoldable pub retry_after_secs : ℕ → ℕ
retry_after_secs wait = max (ceil_secs wait) 1

-- A quota: the cells of a full bucket, and the time in which one cell comes back.
pub record Quota : Type 0 where
  pub burst_size : ℕ
  pub replenish_interval : ℕ

unfoldable pub reset_secs : Quota → ℕ → ℕ → ℕ
reset_secs quota remaining wait_for_next =
    ceil_secs (max (quota.replenish_interval * (quota.burst_size - remaining)) wait_for_next)

-- What the limiter says: the cells that are left, or the time until the next one.
pub data Check : Type 0 where
  allowed : ℕ → Check
  rejected : ℕ → Check

pub record RateHeaders : Type 0 where
  pub limit : ℕ
  pub remaining : ℕ
  pub reset : ℕ
  pub retry_after : Option ℕ

-- Whether the request goes on, and the headers of the answer.
unfoldable pub limited : Quota → ℕ → Check → Bool × RateHeaders
limited quota rps (allowed remaining) = (
  true,
  record {
    limit = rps;
    remaining = remaining;
    reset = reset_secs quota remaining 0;
    retry_after = none;
  },
)
limited quota rps (rejected wait) = (
  false,
  record {
    limit = rps;
    remaining = 0;
    reset = reset_secs quota 0 wait;
    retry_after = some (retry_after_secs wait);
  },
)

-- Addresses: their type, their parser and printer, and whether a trusted network has one.
pub record Addresses (Ip : Type 0) : Type 0 where
  pub parse : Text → Option Ip
  pub show : Ip → Text
  pub trusted : Ip → Bool

-- The socket's peer and the two headers, where they are there and are texts.
pub record Origin (Ip : Type 0) : Type 0 where
  pub peer : Option Ip
  pub forwarded_for : Option Text
  pub real_ip : Option Text

abbrev pub client_ip_unknown : Text
client_ip_unknown = codes "unknown"

module _ {Ip : Type 0} (net : Addresses Ip) where
  -- One hop: `none` to walk on.
  abbrev pub client_hop : Text → Option Ip → Option Text
  client_hop hop none = some hop
  client_hop hop (some ip) = if net.trusted ip then none else some (net.show ip)

  abbrev pub hop_client : Text → Option Text
  hop_client hop = if hop == [] then none else client_hop hop (net.parse hop)

  abbrev pub or_next : Option Text → Option Text → Option Text
  or_next none later = later
  or_next (some client) later = some client

  -- The loop over the hops, the rightmost first.
  unfoldable pub walk : List Text → Option Text
  walk [] = none
  walk (hop ∷ hops) = or_next (hop_client hop) (walk hops)

  unfoldable pub forwarded_client : Text → Option Text
  forwarded_client value = walk (reverse (map trim (split b',' value)))

  abbrev from_forwarded : Option Text → Option Text
  from_forwarded none = none
  from_forwarded (some value) = forwarded_client value

  abbrev real_client : Option Ip → Option Text
  real_client none = none
  real_client (some ip) = if net.trusted ip then none else some (net.show ip)

  abbrev from_real : Option Text → Option Text
  from_real none = none
  from_real (some value) = real_client (net.parse (trim value))

  abbrev or_peer : Ip → Option Text → Text
  or_peer ip none = net.show ip
  or_peer ip (some client) = client

  abbrev behind_peer : Origin Ip → Ip → Text
  behind_peer origin ip =
      if not (net.trusted ip)
      then net.show ip
      else or_peer ip (or_next (from_forwarded origin.forwarded_for) (from_real origin.real_ip))

  unfoldable pub client_ip_key : Origin Ip → Text
  client_ip_key origin = elim origin.peer [
    | none ↦ client_ip_unknown
    | some ip ↦ behind_peer origin ip
  ]
