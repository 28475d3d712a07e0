-- ===== src/Config/Issued.antt =====
-- src/config.rs and src/db.rs, `backfill_asset_issuers`: what a configuration that boots gives to the
-- rows without an issuer.
use stellar_gate.Prelude.{
  and_true, ◌≡◌, refl, ap, true, Option, none, some, List, [], ◌∷◌, map, all,
}
use stellar_gate.Text.{Text, as_bytes}
use stellar_gate.Strkey.{is_valid_account_id, validate_account_id}
use stellar_gate.Db.{Db}
use stellar_gate.Db.Backfill.{backfill_asset_issuers}
use stellar_gate.Db.Backfill.Issuers.{is_named, with_issuer, fill_issuers-map}
use stellar_gate.Config.{Config, AcceptedAsset, ok, and_then-ok, reject_if-passed}
use stellar_gate.Config.Assets.{check_issuer, check_issuers, validate_addresses}
use stellar_gate.Config.Boot.{Crates, Vars, from_env}
use stellar_gate.Config.Booted.{from_env-checks}

check_issuer-is_named :
    (code : Text) (issuer : Option Text)
    → check_issuer (record { code = code; issuer = issuer }) ≡ ok tt
    → is_named (record { code = code; issuer = issuer }) ≡ true
unfolding is_valid_account_id validate_account_id as_bytes
check_issuer-is_named code none passed = refl
check_issuer-is_named code (some []) passed = cc
check_issuer-is_named code (some (c ∷ issuer)) passed = refl

check_issuers-is_named :
    (accepted : List AcceptedAsset) → check_issuers accepted ≡ ok tt → all is_named accepted ≡ true
unfolding check_issuers
check_issuers-is_named [] passed = refl
check_issuers-is_named (asset ∷ accepted) passed =
    let (_, first, rest) = and_then-ok (check_issuer asset) _ passed in
    and_true _ _ (check_issuer-is_named asset.code asset.issuer first)
      (check_issuers-is_named accepted rest)

-- With a configuration that boots, the updates of the backfill, one for each accepted asset, give
-- every intent without an issuer the issuer of the first accepted asset that has its code, up to
-- the case of the letters, and an issuer; all other intents and columns are as before.
pub from_env-backfill_asset_issuers :
    {N : Type 0} (crates : Crates N) (vars : Vars) (c : Config N) (db : Db)
    → from_env crates vars ≡ ok c
    → backfill_asset_issuers c.accepted_assets db
      ≡ record db { payments = map (with_issuer c.accepted_assets) db.payments }
unfolding validate_addresses
from_env-backfill_asset_issuers crates vars c db boots =
    let addresses = (from_env-checks crates vars c boots).0 in
    let (_, rest) = reject_if-passed _ _ _ addresses in
    let (_, issuers, _) = and_then-ok (check_issuers c.accepted_assets) _ rest in
    ap (λ rows. record db { payments = rows })
      (fill_issuers-map c.accepted_assets db.payments
        (check_issuers-is_named c.accepted_assets issuers))
