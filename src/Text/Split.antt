-- ===== src/Text/Split.antt =====
-- `str::split` of a text that is put together.
use stellar_gate.Prelude.{
  ℕ, ◌≡◌, refl, List, [], ◌∷◌, ◌++◌, arith, ◌==◌, nat_eq, Bool-cases, inl, inr,
}
use stellar_gate.Text.{Text, split}
use stellar_gate.Text.Trim.{Free}

split-cons :
    (sep : ℕ) (s : Text) → (part : Text) × (parts : List Text) × (split sep s ≡ part ∷ parts)
unfolding split
split-cons sep [] = ([], [], refl)
split-cons sep (c ∷ s) = elim (Bool-cases (c == sep)) [
  | inl e ↦ ([], split sep s, rw e refl)
  | inr e ↦ let (part, parts, h) = split-cons sep s in (c ∷ part, parts, rw e (rw h refl))
]

pub split-append : (sep : ℕ) (s t : Text) → split sep (s ++ sep ∷ t) ≡ split sep s ++ split sep t
unfolding split
split-append sep [] t = ground arith
split-append sep (c ∷ s) t =
    let (part, parts, e) = split-cons sep s in rw (split-append sep s t, e) (ground arith)

pub split-Free : (sep : ℕ) (s : Text) → Free (λ c. c == sep) s → split sep s ≡ s ∷ []
unfolding split
split-Free sep [] h = refl
split-Free sep (c ∷ s) h = rw (h.0, split-Free sep s h.1) refl
