-- ===== src/Config/Unambiguous.antt =====
-- src/config.rs, `validate_addresses`: the codes of the accepted assets are unique.
use stellar_gate.Prelude.{
  ℕ, ◌+◌, ◌≤◌, ◌≡◌, refl, ap, subst, Bool, true, false, Bool-cases, inl, inr, List, [], ◌∷◌, arith,
  leb, ◌==◌, ==_iff, list_eq, nat_eq, length, filterb, map,
}
use stellar_gate.Text.{Text, to_ascii_uppercase}
use stellar_gate.Db.Table.{count_where}
use stellar_gate.Config.{AcceptedAsset, Config, ok, reject_if-passed, and_then-ok}
use stellar_gate.Config.Assets.{code_key, check_codes, check_issuers, validate_addresses}
use stellar_gate.Config.Boot.{Crates, Vars, from_env}
use stellar_gate.Config.Booted.{from_env-checks}

abbrev pub has_code : Text → AcceptedAsset → Bool
has_code code asset = asset.code == code

abbrev seen_key : Text → Text → Bool
seen_key code key = key == map to_ascii_uppercase code

first_counts : (n : ℕ) → leb 1 (1 + n) ≡ true
first_counts n = ground arith

-- A code that was seen has no asset in the rest, and any code has one at most.
check_codes_unique :
    (code : Text) (seen : List Text) (assets : List AcceptedAsset)
    → check_codes seen assets ≡ ok tt
    → (leb 1 (count_where (seen_key code) seen) ≡ true
        → length (filterb (has_code code) assets) ≡ 0)
      × (length (filterb (has_code code) assets) ≤ 1)
unfolding check_codes count_where
check_codes_unique code seen [] h = (λ _. refl, omega arith)
check_codes_unique code seen (asset ∷ assets) h =
    let (fresh, rest) = reject_if-passed _ _ _ h in
    let ih = check_codes_unique code (code_key asset ∷ seen) assets rest in
    elim (Bool-cases (has_code code asset)) [
      | inl e ↦
          let same : code_key asset ≡ map to_ascii_uppercase code =
            ap (λ (t : Text). map to_ascii_uppercase t) ((==_iff asset.code code).0 e) in
          let here : seen_key code (code_key asset) ≡ true =
            (==_iff (code_key asset) (map to_ascii_uppercase code)).1 same in
          let none_left = ih.0 (rw here (first_counts (count_where (seen_key code) seen))) in
          let unseen : leb 1 (count_where (seen_key code) seen) ≡ false =
            subst (λ (k : Text). leb 1 (count_where (λ s. s == k) seen) ≡ false) same fresh in
          rw e (λ again. cc, omega (arith, none_left))
      | inr e ↦ rw e (λ again. ih.0 (ground (arith, again)), ih.1)
    ]

-- Whatever the environment, a configuration that boots has one accepted asset at most for a code.
pub from_env-unambiguous :
    {N : Type 0} (crates : Crates N) (vars : Vars) (c : Config N) (code : Text)
    → from_env crates vars ≡ ok c
    → length (filterb (has_code code) c.accepted_assets) ≤ 1
unfolding validate_addresses
from_env-unambiguous crates vars c code boots =
    let addresses = (from_env-checks crates vars c boots).0 in
    let (_, rest) = reject_if-passed _ _ _ addresses in
    let (_, _, codes_ok) = and_then-ok (check_issuers c.accepted_assets) _ rest in
    (check_codes_unique code [] c.accepted_assets codes_ok).1
