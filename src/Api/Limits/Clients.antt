-- ===== src/Api/Limits/Clients.antt =====
-- src/api/mod.rs: what a client can do about the key that its requests are counted under.
use mathlib.Core.List.{reverse, reverse-append, map-append}
use stellar_gate.Prelude.{
  ◌≡◌, refl, ap, ◌∙◌, Option, none, some, List, [], ◌∷◌, ◌++◌, nat_eq, list_eq, map, Option-cases,
  inl, inr,
}
use stellar_gate.Text.{Text, trim, split}
use stellar_gate.Text.Split.{split-append}
use stellar_gate.Api.Limits.{Addresses, walk, hop_client, forwarded_client, client_ip_key}

module _ {Ip : Type 0} (net : Addresses Ip) where
  walk-append :
      (hops more : List Text) (client : Text)
      → walk net hops ≡ some client
      → walk net (hops ++ more) ≡ some client
  unfolding walk
  walk-append [] more client h = cc
  walk-append (hop ∷ hops) more client h = elim (Option-cases (hop_client net hop)) [
    | inl e ↦ rw e (walk-append hops more client (rw e at h))
    | inr (c, e) ↦ rw e (rw e at h)
  ]

  forwarded_client-append :
      (forged value client : Text)
      → forwarded_client net value ≡ some client
      → forwarded_client net (forged ++ b',' ∷ value) ≡ some client
  unfolding forwarded_client
  forwarded_client-append forged value client h =
      ap (λ (parts : List Text). walk net (reverse (map trim parts)))
        (split-append b',' forged value)
      ∙ ap (λ (parts : List Text). walk net (reverse parts))
          (map-append trim (split b',' forged) (split b',' value))
      ∙ ap (walk net) (reverse-append (map trim (split b',' forged)) (map trim (split b',' value)))
      ∙ walk-append (reverse (map trim (split b',' value))) (reverse (map trim (split b',' forged)))
          client h

  -- Where the hops that the proxies have written in `X-Forwarded-For` name a client, nothing that
  -- stands in front of them in the header changes the key that a request is counted under.
  pub client_ip_key-forged :
      (peer : Option Ip) (real_ip : Option Text) (forged value client : Text)
      → forwarded_client net value ≡ some client
      → client_ip_key net
          (record { peer = peer; forwarded_for = some (forged ++ b',' ∷ value); real_ip = real_ip })
        ≡ client_ip_key net (record { peer = peer; forwarded_for = some value; real_ip = real_ip })
  unfolding client_ip_key
  client_ip_key-forged none real_ip forged value client h = refl
  client_ip_key-forged (some ip) real_ip forged value client h =
      rw (h, forwarded_client-append forged value client h) refl
