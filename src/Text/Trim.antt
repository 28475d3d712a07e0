-- ===== src/Text/Trim.antt =====
-- When the trimming methods of `str` change nothing, and how a padded text is recovered from a
-- trimmed one.
use stellar_gate.Prelude.{
  ℕ, suc, ◌-◌, ◌≡◌, refl, ap, Bool, false, inl, inr, Bool-cases, Option-cases, nat_beq_iff, [], ◌∷◌,
  ◌++◌, arith, All, length, replicate, ◌==◌, nat_eq, none, some,
}
use stellar_gate.Text.{
  Text, trim_start_matches, trim_end_matches, trim, is_whitespace, split_once, cons_unless_end,
}

suc_sub : (m n : ℕ) → suc m - suc n ≡ m - n
suc_sub m n = omega arith

sub_zero : (n : ℕ) → n - 0 ≡ n
sub_zero n = omega arith

-- No character passes the test.
abbrev pub Free : (ℕ → Bool) → Text → Type 0
Free p s = All (λ c. p c ≡ false) s

pub trim_start_matches-Free : (p : ℕ → Bool) (s : Text) → Free p s → trim_start_matches p s ≡ s
unfolding trim_start_matches
trim_start_matches-Free p [] h = refl
trim_start_matches-Free p (c ∷ s) h = rw (h.0)

pub trim_end_matches-Free : (p : ℕ → Bool) (s : Text) → Free p s → trim_end_matches p s ≡ s
unfolding trim_end_matches
trim_end_matches-Free p [] h = refl
trim_end_matches-Free p (c ∷ []) h = rw (h.0)
trim_end_matches-Free p (c ∷ d ∷ s) h =
    ap (cons_unless_end p c) (trim_end_matches-Free p (d ∷ s) h.1)

pub trim-Free : (s : Text) → Free is_whitespace s → trim s ≡ s
unfolding trim
trim-Free s h =
    rw (trim_start_matches-Free is_whitespace s h) (trim_end_matches-Free is_whitespace s h)

module _ (z c : ℕ) (s : Text) where
  abbrev is_z : ℕ → Bool
  is_z d = d == z

  cons_unless_end-pad :
      (r : Text)
      → r ++ replicate (length s - length r) z ≡ s
      → cons_unless_end is_z c r ++ replicate (suc (length s) - length (cons_unless_end is_z c r)) z
        ≡ c ∷ s
  cons_unless_end-pad [] h = elim (Bool-cases (is_z c)) [
    | inl e ↦
        rw (e, sub_zero (suc (length s)))
          (cc ((nat_beq_iff c z).0 e, rw (sub_zero (length s)) at h))
    | inr e ↦ rw (e, suc_sub (length s) 0) (ap (λ (t : Text). c ∷ t) h)
  ]
  cons_unless_end-pad (d ∷ r) h =
      rw (suc_sub (length s) (suc (length r))) (ap (λ (t : Text). c ∷ t) h)

-- What `trim_end_matches` takes off is a run of the character.
pub trim_end_matches-pad :
    (z : ℕ) (s : Text)
    → trim_end_matches (λ c. c == z) s
        ++ replicate (length s - length (trim_end_matches (λ c. c == z) s)) z
      ≡ s
unfolding trim_end_matches
trim_end_matches-pad z [] = refl
trim_end_matches-pad z (c ∷ s) =
    cons_unless_end-pad z c s (trim_end_matches (λ d. d == z) s) (trim_end_matches-pad z s)

pub split_once-Free :
    (sep : ℕ) (s t : Text) → Free (λ c. c == sep) s → split_once sep (s ++ sep ∷ t) ≡ some (s, t)
unfolding split_once
split_once-Free sep [] t h = ground arith
split_once-Free sep (c ∷ s) t h = rw (split_once-Free sep s t h.1) (ground arith)

pub split_once-none : (sep : ℕ) (s : Text) → Free (λ c. c == sep) s → split_once sep s ≡ none
unfolding split_once
split_once-none sep [] h = refl
split_once-none sep (c ∷ s) h = rw (split_once-none sep s h.1) (ground arith)

-- Where `split_once` finds the separator, it splits the text there.
pub split_once-eq_some :
    (sep : ℕ) (s i f : Text) → split_once sep s ≡ some (i, f) → s ≡ i ++ sep ∷ f
unfolding split_once
split_once-eq_some sep [] i f h = cc
split_once-eq_some sep (c ∷ s) i f h = elim (Option-cases (split_once sep s)) [
  | inl e ↦ ground (arith, e)
  | inr ((i', f'), e) ↦ ground (arith, e, split_once-eq_some sep s i' f' e)
]
