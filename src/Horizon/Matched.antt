-- ===== src/Horizon/Matched.antt =====
-- src/horizon.rs: what `asset_matches` and the comparison at the end of `verify` decide.
use stellar_gate.Prelude.{
  ℕ, ◌-◌, ◌^◌, ◌≤◌, ◌<◌, ◌≡◌, ◌⊎◌, inl, inr, true, Option, none, some, [], ◌∷◌, map, ◌==◌, ==_iff,
  Eq, list_eq, option_eq, nat_eq, arith, and_true, and_first, and_second, refl,
}
use stellar_gate.Prelude.Int.{pos, negsuc, i64_max}
use Prim.Native.Nat.{compare, Ordering}
use stellar_gate.Text.{Text, codes, to_ascii_uppercase, eq_ignore_ascii_case}
use stellar_gate.Money.{stroops_to_string}
use stellar_gate.Db.{Payment}
use stellar_gate.Horizon.{
  HorizonPayment, Verdict, completed, overpaid, underpaid, asset_matches, nonempty, verdict,
}

-- The operation moved the asset that the intent asks for: lumens, for an intent without an issuer
-- in the native asset, or the code of the intent from the issuer of the intent.
pub data IsSameAsset (payment : Payment) (hp : HorizonPayment) : Type 0 where
  is_native :
      (payment.asset_issuer ≡ none) ⊎ (payment.asset_issuer ≡ some [])
      → map to_ascii_uppercase payment.asset ≡ codes "XLM"
      → hp.asset_type ≡ some (codes "native")
      → IsSameAsset payment hp
  is_issued :
      (c : ℕ) (s : Text)
      → payment.asset_issuer ≡ some (c ∷ s)
      → hp.asset_code ≡ some payment.asset
      → hp.asset_issuer ≡ some (c ∷ s)
      → IsSameAsset payment hp

-- The verdict compares the cumulative total with the expected amount; a total past `i64::MAX` has
-- wrapped to a negative number, which is below it.
pub data IsJudged (hash : Text) (total expected : ℕ) : Verdict → Type 0 where
  is_exact :
      total ≤ i64_max
      → total ≡ expected
      → IsJudged hash total expected (completed hash (stroops_to_string (pos total)))
  is_over :
      total ≤ i64_max
      → expected < total
      → IsJudged hash total expected (overpaid hash (stroops_to_string (pos total)))
  is_under :
      total ≤ i64_max
      → total < expected
      → IsJudged hash total expected (underpaid hash (stroops_to_string (pos total)))
  is_wrapped :
      i64_max < total
      → IsJudged hash total expected
          (underpaid hash (stroops_to_string (negsuc (2 ^ 64 - total - 1))))

pub equal {ℓ} : {A : Type ℓ} ⦃e : Eq A⦄ (a b : A) → a ≡ b → (a == b) ≡ true
equal a b = (==_iff a b).1

compare-cases :
    (a b : ℕ)
    → ((compare a b ≡ Ordering.eq) × (a ≡ b))
      ⊎ ((compare a b ≡ Ordering.gt) × (b < a))
      ⊎ ((compare a b ≡ Ordering.lt) × (a < b))
compare-cases a b = ground arith

pub verdict-IsJudged :
    (hash : Text) (total expected : ℕ)
    → total ≤ i64_max
    → IsJudged hash total expected
        (verdict (compare total expected) hash (stroops_to_string (pos total)))
verdict-IsJudged hash total expected fits = elim (compare-cases total expected) [
  | inl c ↦ rw (c.0) (is_exact fits c.1)
  | inr (inl c) ↦ rw (c.0) (is_over fits c.1)
  | inr (inr c) ↦ rw (c.0) (is_under fits c.1)
]

nonempty-cases :
    (o : Option Text)
    → ((nonempty o ≡ none) × ((o ≡ none) ⊎ (o ≡ some [])))
      ⊎ ((c : ℕ) × (s : Text) × (nonempty o ≡ some (c ∷ s)) × (o ≡ some (c ∷ s)))
nonempty-cases none = inl (refl, inl refl)
nonempty-cases (some []) = inl (refl, inr refl)
nonempty-cases (some (c ∷ s)) = inr (c, s, refl, refl)

pub asset_matches-IsSameAsset :
    (payment : Payment) (hp : HorizonPayment)
    → asset_matches payment hp ≡ true
    → IsSameAsset payment hp
unfolding asset_matches eq_ignore_ascii_case to_ascii_uppercase
asset_matches-IsSameAsset payment hp h = elim (nonempty-cases payment.asset_issuer) [
  | inl (e, none_or_empty) ↦
      let b = rw (asset_matches, e) at h in
      is_native none_or_empty ((==_iff _ _).0 (and_first _ _ b)) ((==_iff _ _).0 (and_second _ _ b))
  | inr (c, s, e, own) ↦
      let b = rw (asset_matches, e) at h in
      is_issued c s own ((==_iff _ _).0 (and_first _ _ b)) ((==_iff _ _).0 (and_second _ _ b))
]

pub IsSameAsset-asset_matches :
    (payment : Payment) (hp : HorizonPayment)
    → IsSameAsset payment hp
    → asset_matches payment hp ≡ true
unfolding asset_matches eq_ignore_ascii_case to_ascii_uppercase
IsSameAsset-asset_matches payment hp (is_native (inl e) name native) =
    rw e (and_true _ _ (equal _ _ name) (equal _ _ native))
IsSameAsset-asset_matches payment hp (is_native (inr e) name native) =
    rw e (and_true _ _ (equal _ _ name) (equal _ _ native))
IsSameAsset-asset_matches payment hp (is_issued c s own code issuer) =
    rw own (and_true _ _ (equal _ _ code) (equal _ _ issuer))
