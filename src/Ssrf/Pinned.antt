-- ===== src/Ssrf/Pinned.antt =====
-- src/ssrf.rs, `validate`: which target a client is pinned to.
use stellar_gate.Prelude.{
  ℕ, ◌≡◌, refl, true, false, ◌⊎◌, inl, inr, Option, none, some, List, [], ◌∷◌, arith, ◌==◌, list_eq,
  nat_eq, ==_iff, Bool-cases, ◌||◌,
}
use stellar_gate.Text.{Text, codes}
use stellar_gate.Ssrf.{
  IpAddr, is_blocked_ip, Url, Net, safe, SafeTarget, validate, check_address, check_host, check_url,
}

-- What is known of a target that `validate` let through with the range check on.
pub record IsPinned (net : Net) (url : Text) (t : SafeTarget) : Type 0 where
  pub parsed : Url
  pub others : List IpAddr
  pub parses : net.parse url ≡ some parsed
  pub http : (parsed.scheme ≡ codes "http") ⊎ (parsed.scheme ≡ codes "https")
  pub host : parsed.host_str ≡ some t.host
  pub port : parsed.port_or_known_default ≡ some t.port
  pub first : net.lookup_host t.host t.port ≡ some (t.ip ∷ others)
  pub allowed : is_blocked_ip t.ip ≡ false

check_address-safe :
    (host : Text) (port : ℕ) (found : Option (List IpAddr)) (t : SafeTarget)
    → check_address false host port found ≡ safe t
    → (others : List IpAddr) × (found ≡ some (t.ip ∷ others))
      × (host ≡ t.host)
      × (port ≡ t.port)
      × (is_blocked_ip t.ip ≡ false)
check_address-safe host port none t h = cc
check_address-safe host port (some []) t h = cc
check_address-safe host port (some (ip ∷ rest)) t h = elim (Bool-cases (is_blocked_ip ip)) [
  | inl e ↦ cc (rw e at h)
  | inr e ↦
      let k : safe (record { host = host; ip = ip; port = port }) ≡ safe t = rw e at h in
      (rest, ground arith, ground arith, ground arith, ground arith)
]

module _ (net : Net) (url : Text) (t : SafeTarget) where
  check_host-safe :
      (parsed : Url) (host : Option Text) (port : Option ℕ)
      → net.parse url ≡ some parsed
      → (parsed.scheme ≡ codes "http") ⊎ (parsed.scheme ≡ codes "https")
      → parsed.host_str ≡ host
      → parsed.port_or_known_default ≡ port
      → check_host net false host port ≡ safe t
      → IsPinned net url t
  check_host-safe parsed none port p s eh ep h = cc
  check_host-safe parsed (some host) none p s eh ep h = cc
  check_host-safe parsed (some host) (some port) p s eh ep h =
      let r = check_address-safe host port (net.lookup_host host port) t h in
      record {
        parsed = parsed;
        others = r.0;
        parses = p;
        http = s;
        host = cc (eh, r.2);
        port = cc (ep, r.3);
        first = rw (← r.2, ← r.3) r.1;
        allowed = r.4;
      }

  is_http :
      (scheme : Text)
      → (scheme == codes "http" || scheme == codes "https") ≡ true
      → (scheme ≡ codes "http") ⊎ (scheme ≡ codes "https")
  is_http scheme h = elim (Bool-cases (scheme == codes "http")) [
    | inl e ↦ inl ((==_iff scheme (codes "http")).0 e)
    | inr e ↦ inr ((==_iff scheme (codes "https")).0 (rw e at h))
  ]

  check_url-safe :
      (parsed : Option Url)
      → net.parse url ≡ parsed
      → check_url net false parsed ≡ safe t
      → IsPinned net url t
  check_url-safe none p h = cc
  check_url-safe (some parsed) p h =
      elim (Bool-cases (parsed.scheme == codes "http" || parsed.scheme == codes "https")) [
        | inl e ↦
            check_host-safe parsed parsed.host_str parsed.port_or_known_default p
              (is_http parsed.scheme e) refl refl (rw e at h)
        | inr e ↦ cc (rw e at h)
      ]

  -- With the range check on, a target that is let through is the first address that the URL's host
  -- resolves to, the URL is an http(s) one, and the address is in no blocked range.
  pub validate-IsPinned : validate net url false ≡ safe t → IsPinned net url t
  unfolding validate
  validate-IsPinned h = check_url-safe (net.parse url) refl h
