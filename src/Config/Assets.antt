-- ===== src/Config/Assets.antt =====
-- src/config.rs: the list of accepted assets, and the check of the configured addresses.
use stellar_gate.Prelude.{
  Bool, ◌&&◌, not, none, some, List, [], ◌∷◌, ◌==◌, list_eq, nat_eq, filterb, map, leb,
}
use stellar_gate.Text.{
  Text, codes, trim, split, split_once, to_ascii_uppercase, eq_ignore_ascii_case, as_bytes,
}
use stellar_gate.Strkey.{is_valid_account_id}
use stellar_gate.Db.Table.{count_where}
use stellar_gate.Config.{
  AcceptedAsset, Config, Result, ok, reject_if, ◌>>◌, invalid_gateway, invalid_issuer, no_issuer,
  duplicate_code,
}

abbrev pub is_nonempty : Text → Bool
is_nonempty s = not (s == [])

-- `split(',').map(str::trim).filter(|s| !s.is_empty())`
unfoldable pub entries : Text → List Text
entries raw = filterb is_nonempty (map trim (split b',' raw))

-- `upper` is `str::to_uppercase`, which works by the tables of Unicode.
abbrev pub entry_asset : (Text → Text) → Text → AcceptedAsset
entry_asset upper entry = elim (split_once b':' entry) [
  | none ↦ record { code = upper (trim entry); issuer = none }
  | some (code, issuer) ↦ record { code = upper (trim code); issuer = some (trim issuer) }
]

unfoldable pub parse_list : (Text → Text) → Text → List AcceptedAsset
unfolding entries
parse_list upper raw = map (entry_asset upper) (entries raw)

abbrev pub default_list : List AcceptedAsset
default_list =
    record { code = codes "XLM"; issuer = none }
    ∷ record {
      code = codes "USDC";
      issuer = some (codes "GBBD47IF6LWK7P7MDEVSCWR7DPUWV3NY3DTQEVFL4NAT4AQH3ZLLFLA5");
    }
    ∷ []

abbrev pub has_gateway : Text → Bool
has_gateway gateway = is_nonempty gateway && not (gateway == codes "UNCONFIGURED")

unfoldable pub gateway_configured : {N : Type 0} → Config N → Bool
gateway_configured config = has_gateway config.gateway_public

abbrev pub check_issuer : AcceptedAsset → Result (Unit {0})
check_issuer asset = elim asset.issuer [
  | some issuer ↦ reject_if (not (is_valid_account_id (as_bytes issuer))) invalid_issuer
  | none ↦ reject_if (not (eq_ignore_ascii_case asset.code (codes "XLM"))) no_issuer
]

unfoldable pub check_issuers : List AcceptedAsset → Result (Unit {0})
check_issuers [] = ok tt
check_issuers (asset ∷ assets) = do check_issuer asset; check_issuers assets

abbrev pub code_key : AcceptedAsset → Text
code_key asset = map to_ascii_uppercase asset.code

-- The loop over the codes, with the set of the codes that were seen.
unfoldable pub check_codes : List Text → List AcceptedAsset → Result (Unit {0})
check_codes seen [] = ok tt
check_codes seen (asset ∷ assets) = do
  reject_if (leb 1 (count_where (λ code. code == code_key asset) seen)) duplicate_code
  check_codes (code_key asset ∷ seen) assets

unfoldable pub validate_addresses : {N : Type 0} → Config N → Result (Unit {0})
unfolding check_issuers check_codes gateway_configured
validate_addresses config = do
  reject_if
      (gateway_configured config && not (is_valid_account_id (as_bytes config.gateway_public)))
      invalid_gateway
  check_issuers config.accepted_assets
  check_codes [] config.accepted_assets
