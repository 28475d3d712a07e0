-- ===== src/Tests/Limits.antt =====
-- src/api/mod.rs: the rate limits on concrete requests. An address is the number of its one digit,
-- and the proxies are the addresses below 3.
use stellar_gate.Prelude.{
  ℕ, ◌+◌, ◌-◌, ◌≡◌, refl, none, some, Option, [], ◌∷◌, ◌++◌, ltb, list_eq, nat_eq, list_beq,
}
use stellar_gate.Text.{
  Text, codes, trim, trim_end_matches, trim_start_matches, is_whitespace, split, starts_with,
}
use stellar_gate.Api.Limits.{
  Addresses, post, payments, merchants, redeliver, default, rate_limited_bucket, ends_with,
  effective_rps, bucket_rate_multiplier, retry_after_secs, client_ip_key, forwarded_client, walk,
}
use stellar_gate.Api.Limits.Clients.{client_ip_key-forged}

abbrev digit : Text → Option ℕ
digit (c ∷ []) = some (c - 48)
digit _ = none

abbrev proxies : Addresses ℕ
proxies = record { parse = digit; show = λ ip. (48 + ip) ∷ []; trusted = λ ip. ltb ip 3 }

-- The rightmost hop that is not a proxy is the client: 7, and not the 9 that stands before it.
rightmost_untrusted :
    client_ip_key proxies (record {
      peer = some 1;
      forwarded_for = some (codes "9, 7 , 2,, 1");
      real_ip = some (codes "8");
    })
    ≡ codes "7"
unfolding client_ip_key forwarded_client walk split trim list_beq trim_end_matches
    trim_start_matches is_whitespace
rightmost_untrusted = refl

-- The header of a peer that is no proxy is not read.
untrusted_peer :
    client_ip_key proxies
      (record { peer = some 5; forwarded_for = some (codes "9"); real_ip = none })
    ≡ codes "5"
unfolding client_ip_key
untrusted_peer = refl

write_bucket : rate_limited_bucket post (codes "/payments/p/webhooks/w/redeliver") ≡ redeliver
unfolding rate_limited_bucket starts_with ends_with list_beq
write_bucket = refl

quotas :
    (effective_rps 10 payments ≡ 10)
    × (effective_rps 10 default ≡ 50)
    × (effective_rps 0 merchants ≡ 1)
unfolding effective_rps bucket_rate_multiplier
quotas = (refl, refl, refl)

-- A wait of 1.4 seconds is told as 2.
rounded_up : retry_after_secs 1400000000 ≡ 2
unfolding retry_after_secs
rounded_up = refl

client_ip_key-forged_example :
    client_ip_key proxies (record {
      peer = some 1;
      forwarded_for = some (codes "9" ++ b',' ∷ codes "7,2");
      real_ip = none;
    })
    ≡ client_ip_key proxies
        (record { peer = some 1; forwarded_for = some (codes "7,2"); real_ip = none })
unfolding forwarded_client walk split trim list_beq trim_end_matches trim_start_matches
    is_whitespace
client_ip_key-forged_example =
    client_ip_key-forged proxies (some 1) none (codes "9") (codes "7,2") (codes "7") refl
