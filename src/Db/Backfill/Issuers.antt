-- ===== src/Db/Backfill/Issuers.antt =====
-- src/db.rs, `backfill_asset_issuers`: the updates, one for each accepted asset, give every row the
-- issuer that a search of the list finds for it.
use stellar_gate.Prelude.{
  ◌≡◌, refl, sym, ap, ◌∙◌, inl, inr, Bool, true, false, Option, none, some, List, [], ◌∷◌, map, not,
  all, Bool-cases, if◌then◌else◌, arith,
}
use stellar_gate.Text.{Text}
use stellar_gate.Db.{Payment}
use stellar_gate.Db.Table.{update_where}
use stellar_gate.Db.Backfill.{
  lacks_issuer, has_same_code, wants_issuer, issued, fill_issuer, fill_issuers,
}
use stellar_gate.Config.{AcceptedAsset}

abbrev found : Bool → Option Text → Option Text → Option Text
found same none later = later
found same (some issuer) later = if same then some issuer else later

-- The issuer of the first accepted asset with the code that has one.
unfoldable pub issuer_for : List AcceptedAsset → Text → Option Text
issuer_for [] code = none
issuer_for (asset ∷ accepted) code =
    found (has_same_code code asset.code) asset.issuer (issuer_for accepted code)

abbrev issued_by : Option Text → Payment → Payment
issued_by none p = p
issued_by (some issuer) p = issued issuer p

abbrev pub with_issuer : List AcceptedAsset → Payment → Payment
with_issuer accepted p =
    if lacks_issuer p.asset_issuer then issued_by (issuer_for accepted p.asset) p else p

-- An issuer is no empty text.
abbrev pub is_named : AcceptedAsset → Bool
is_named asset = elim asset.issuer [ none ↦ true | some issuer ↦ not (lacks_issuer (some issuer)) ]

update_where-map :
    {A : Type 0} (test : A → Bool) (change : A → A) (rows : List A)
    → update_where test change rows ≡ map (λ r. if test r then change r else r) rows
unfolding update_where
update_where-map test change [] = refl
update_where-map test change (r ∷ rows) =
    ap (λ rest. (if test r then change r else r) ∷ rest) (update_where-map test change rows)

-- One asset, and then the others.
then_others :
    (code issuer : Text) (accepted : List AcceptedAsset) (p : Payment)
    → lacks_issuer (some issuer) ≡ false
    → with_issuer accepted (if wants_issuer code p then issued issuer p else p)
      ≡ with_issuer (record { code = code; issuer = some issuer } ∷ accepted) p
unfolding issuer_for
then_others code issuer accepted p named = elim (Bool-cases (lacks_issuer p.asset_issuer)) [
  | inl lacks ↦ elim (Bool-cases (has_same_code p.asset code)) [
    | inl same ↦ rw (lacks, same) (rw named refl)
    | inr same ↦ rw (same, lacks) refl
  ]
  | inr lacks ↦ elim (Bool-cases (has_same_code p.asset code)) [
    | inl same ↦ rw (same, lacks) (rw lacks refl)
    | inr same ↦ rw (same, lacks) refl
  ]
]

map-map :
    {A : Type 0} (f g h : A → A) (rows : List A)
    → ((r : A) → f (g r) ≡ h r)
    → map f (map g rows) ≡ map h rows
map-map f g h [] e = refl
map-map f g h (r ∷ rows) e = rw (e r) (ap (λ rest. h r ∷ rest) (map-map f g h rows e))

map-id : {A : Type 0} (f : A → A) (rows : List A) → ((r : A) → f r ≡ r) → map f rows ≡ rows
map-id f [] e = refl
map-id f (r ∷ rows) e = rw (e r) (ap (λ rest. r ∷ rest) (map-id f rows e))

without_assets : (p : Payment) → with_issuer [] p ≡ p
unfolding issuer_for
without_assets p = elim (Bool-cases (lacks_issuer p.asset_issuer)) [
  | inl e ↦ rw e refl
  | inr e ↦ rw e refl
]

not-true : (b : Bool) → not b ≡ true → b ≡ false
not-true true h = sym h
not-true false h = refl

fill_issuer-map :
    (code : Text) (issuer : Option Text) (accepted : List AcceptedAsset) (rows : List Payment)
    → is_named (record { code = code; issuer = issuer }) ≡ true
    → map (with_issuer accepted) (fill_issuer code issuer rows)
      ≡ map (with_issuer (record { code = code; issuer = issuer } ∷ accepted)) rows
unfolding issuer_for
fill_issuer-map code none accepted rows named = refl
fill_issuer-map code (some issuer) accepted rows named =
    ap (map (with_issuer accepted)) (update_where-map (wants_issuer code) (issued issuer) rows)
    ∙ map-map (with_issuer accepted) (λ p. if wants_issuer code p then issued issuer p else p)
        (with_issuer (record { code = code; issuer = some issuer } ∷ accepted)) rows
        (λ p. then_others code issuer accepted p (not-true (lacks_issuer (some issuer)) named))

pub fill_issuers-map :
    (accepted : List AcceptedAsset) (rows : List Payment)
    → all is_named accepted ≡ true
    → fill_issuers accepted rows ≡ map (with_issuer accepted) rows
unfolding fill_issuers
fill_issuers-map [] rows named = sym (map-id (with_issuer []) rows without_assets)
fill_issuers-map (asset ∷ accepted) rows named =
    fill_issuers-map accepted (fill_issuer asset.code asset.issuer rows) (ground (arith, named))
    ∙ fill_issuer-map asset.code asset.issuer accepted rows (ground (arith, named))
