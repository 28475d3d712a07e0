-- ===== src/Config/Booted.antt =====
-- src/config.rs: what holds of every configuration that `from_env` returns.
use stellar_gate.Prelude.{
  ◌≤◌, ◌≡◌, ◌≢◌, subst, Option, none, some, false, [], arith, length, ◌&&◌, ◌==◌, list_eq, nat_eq,
  ==_iff, List,
}
use stellar_gate.Text.{Text, codes, as_bytes}
use stellar_gate.Config.{Config, ok, and_then-ok, reject_if-passed, no_origins}
use stellar_gate.Config.Assets.{entries, validate_addresses}
use stellar_gate.Config.Timing.{validate_timing}
use stellar_gate.Config.Secret.{is_placeholder, validate_webhook_secret}
use stellar_gate.Config.Boot.{
  Crates, Vars, unwrap_or, check_origins, parse_vars, read_config, from_env,
}

module _ {N : Type 0} (crates : Crates N) (vars : Vars) (c : Config N) where
  pub from_env-checks :
      from_env crates vars ≡ ok c
      → (validate_addresses c ≡ ok tt)
        × (validate_timing c ≡ ok tt)
        × (read_config crates vars ≡ ok c)
  unfolding from_env
  from_env-checks boots =
      let (r, e, h) = and_then-ok (read_config crates vars) _ boots in
      let (_, addresses, h') = and_then-ok (validate_addresses r) _ h in
      let (_, timing, same) = and_then-ok (validate_timing r) _ h' in
      let there : r ≡ c = cc in
      subst
        (λ x.
          (validate_addresses x ≡ ok tt)
          × (validate_timing x ≡ ok tt)
          × (read_config crates vars ≡ ok x))
        there (addresses, timing, e)

  abbrev IsGuarded : Config N → Type 0
  IsGuarded c =
      (is_placeholder c.webhook_secret ≡ false)
      × (32 ≤ length (as_bytes c.webhook_secret))
      × (c.network ≡ codes "public" → c.cors_allowed_origins ≢ [])

  at_end : (r b : Config N) → IsGuarded r → ok r ≡ ok b → IsGuarded b
  at_end r b guarded e = let same : r ≡ b = cc in subst IsGuarded same guarded

  some_origin :
      (network name : Text) (origins : List Text)
      → (network == name && origins == []) ≡ false
      → network ≡ name
      → origins ≢ []
  some_origin network name origins h same none_there =
      ground (arith, ==_iff network name, ==_iff origins [])

  secret-is_guarded :
      (secret : Option Text) (s : Text)
      → validate_webhook_secret secret ≡ ok s
      → (is_placeholder s ≡ false) × (32 ≤ length (as_bytes s))
  unfolding validate_webhook_secret
  secret-is_guarded none s h = cc
  secret-is_guarded (some t) s h = ground (arith, h)

  -- Whatever the environment, a configuration that boots has a signing secret of at least 32 bytes
  -- that is no placeholder, and on the public network it names an origin for CORS.
  pub from_env-IsGuarded : from_env crates vars ≡ ok c → IsGuarded c
  unfolding read_config
  from_env-IsGuarded boots =
      let read = (from_env-checks boots).2 in
      let (secret, secret_ok, h1) =
        and_then-ok (validate_webhook_secret (vars (codes "WEBHOOK_SECRET"))) _ read in
      let origins = entries (unwrap_or (vars (codes "CORS_ALLOWED_ORIGINS")) []) in
      let (_, _, h2) = and_then-ok (check_origins crates.is_header_value origins) _ h1 in
      let (some_origins, h3) =
        reject_if-passed
          (unwrap_or (vars (codes "STELLAR_NETWORK")) (codes "testnet") == codes "public"
            && origins == [])
          no_origins _ h2 in
      let strong = secret-is_guarded (vars (codes "WEBHOOK_SECRET")) secret secret_ok in
      let public_has_origin = some_origin _ (codes "public") origins some_origins in
      let (_, _, h4) = and_then-ok (parse_vars crates vars) _ h3 in
      at_end _ c (strong.0, strong.1, public_has_origin) h4
