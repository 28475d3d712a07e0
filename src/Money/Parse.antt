-- ===== src/Money/Parse.antt =====
-- src/money.rs, `parse_stroops`: the texts that it accepts are exactly the decimal amounts in range.
use stellar_gate.Prelude.{
  ℕ, ◌+◌, ◌≤◌, ◌<◌, ◌≡◌, refl, false, ◌⊎◌, inl, inr, ◌==◌, nat_eq, ◌&&◌, some, [], ◌∷◌, ◌++◌, arith,
  ltb, all, length, Option-cases, ◌∙◌, ap, sym,
}
use stellar_gate.Prelude.Int.{i64_max}
use stellar_gate.Text.{Text, is_ascii_digit, trim, split_once}
use stellar_gate.Text.Digits.{IsDigits, digits_all}
use stellar_gate.Text.Trim.{Free, split_once-Free, split_once-none, split_once-eq_some}
use stellar_gate.Prelude.Partial.{ensure-eq_some, reject_if-eq_some}
use stellar_gate.Money.{max_decimals, parse_segments, segments, parse_stroops, is_empty}
use stellar_gate.Money.Value.{stroops_of, in_range, parse_segments_lem}

-- `s` is a decimal with the digits `i` before the point and `f` behind it; the point may be left
-- out where `f` is empty.
pub record IsAmount (s i f : Text) : Type 0 where
  pub whole : IsDigits i
  pub decimals : IsDigits f
  pub short : length f ≤ max_decimals
  pub some_digit : 0 < length i + length f
  pub parts : (s ≡ i ++ b'.' ∷ f) ⊎ ((s ≡ i) × (f ≡ []))

IsDigits-no_point : (s : Text) → IsDigits s → Free (λ c. c == b'.') s
IsDigits-no_point [] h = tt
IsDigits-no_point (c ∷ s) h = (ground (arith, h.0), IsDigits-no_point s h.1)

nonempty : (s i f : Text) → IsAmount s i f → is_empty s ≡ false
nonempty [] i f h = absurd (clash i f h.some_digit h.parts)
  where
    clash :
        (i f : Text) → 0 < length i + length f → ([] ≡ i ++ b'.' ∷ f) ⊎ (([] ≡ i) × (f ≡ [])) → ⊥
    clash [] f pos (inl e) = cc
    clash (c ∷ i) f pos (inl e) = cc
    clash i f pos (inr (e, e')) = omega (arith, ap length e, ap length e')
nonempty (c ∷ s) i f h = refl

segments-IsAmount : (s i f : Text) → IsAmount s i f → segments s (split_once b'.' s) ≡ (i, f)
segments-IsAmount s i f h = elim h.parts [
  | inl e ↦ rw (e, split_once-Free b'.' i f (IsDigits-no_point i h.whole))
  | inr (e, e') ↦ rw (e, e', split_once-none b'.' i (IsDigits-no_point i h.whole))
]

-- A text that is, but for blanks around it, a decimal amount of at most seven decimals is read as
-- its exact number of stroops, or refused when that is 0 or past `i64`.
pub parse_stroops-IsAmount :
    (input i f : Text) → IsAmount (trim input) i f → parse_stroops input ≡ in_range (stroops_of i f)
unfolding parse_stroops
parse_stroops-IsAmount input i f h =
    rw (nonempty (trim input) i f h, segments-IsAmount (trim input) i f h)
      (parse_segments_lem i f h.whole h.decimals h.short h.some_digit)

has_digit : (i f : Text) → (is_empty i && is_empty f) ≡ false → 0 < length i + length f
has_digit [] [] h = cc
has_digit [] (c ∷ f) h = omega arith
has_digit (c ∷ i) f h = omega arith

parse_segments-eq_some :
    (i f : Text) {n : ℕ}
    → parse_segments (i, f) ≡ some n
    → IsDigits i × IsDigits f × (length f ≤ max_decimals) × (0 < length i + length f)
parse_segments-eq_some i f h =
    let a = ensure-eq_some (all is_ascii_digit i) _ h in
    let b = ensure-eq_some (all is_ascii_digit f) _ a.1 in
    let c = reject_if-eq_some (is_empty i && is_empty f) _ b.1 in
    let d = reject_if-eq_some (ltb max_decimals (length f)) _ c.1 in
    (digits_all i a.0, digits_all f b.0, ground (arith, d.0), has_digit i f c.0)

segments-parts :
    (s : Text)
    → let (i, f) = segments s (split_once b'.' s) in (s ≡ i ++ b'.' ∷ f) ⊎ ((s ≡ i) × (f ≡ []))
segments-parts s = elim (Option-cases (split_once b'.' s)) [
  | inl e ↦ rw e (inr (refl, refl))
  | inr ((i, f), e) ↦ rw e (inl (split_once-eq_some b'.' s i f e))
]

in_range-eq_some : (m n : ℕ) → in_range m ≡ some n → (n ≡ m) × (0 < n) × (n ≤ i64_max)
in_range-eq_some m n h = ground arith

-- Whatever is accepted is a decimal amount of at most seven decimals, the result is its exact
-- number of stroops, and it is positive and fits an `i64`.
pub parse_stroops-eq_some :
    (input : Text) {n : ℕ}
    → parse_stroops input ≡ some n
    → (i : Text) × (f : Text) × IsAmount (trim input) i f
      × (n ≡ stroops_of i f)
      × (0 < n)
      × (n ≤ i64_max)
unfolding parse_stroops
parse_stroops-eq_some input {n} h = (i, f, amount, r.0, r.1, r.2)
  where
    s : Text
    s = trim input

    i : Text
    i = (segments s (split_once b'.' s)).0

    f : Text
    f = (segments s (split_once b'.' s)).1

    rest : parse_segments (i, f) ≡ some n
    rest = (reject_if-eq_some (is_empty s) (parse_segments (i, f)) h).1

    p : IsDigits i × IsDigits f × (length f ≤ max_decimals) × (0 < length i + length f)
    p = parse_segments-eq_some i f rest

    amount : IsAmount s i f
    amount = record {
      whole = p.0;
      decimals = p.1;
      short = p.2;
      some_digit = p.3;
      parts = segments-parts s;
    }

    r : (n ≡ stroops_of i f) × (0 < n) × (n ≤ i64_max)
    r = in_range-eq_some (stroops_of i f) n (sym (parse_segments_lem i f p.0 p.1 p.2 p.3) ∙ rest)
