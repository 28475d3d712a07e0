-- ===== src/Money/RoundTrip.antt =====
-- src/money.rs: printing an amount and reading it back.
use stellar_gate.Prelude.{
  ℕ, zero, suc, ◌+◌, ◌-◌, ◌*◌, ◌/◌, ◌%◌, ◌^◌, ◌≤◌, ◌<◌, ◌≡◌, refl, inl, inr, ◌==◌, nat_eq, some, [],
  ◌∷◌, ◌++◌, arith, length, length-append, replicate, Bool-cases, nat_beq_iff, ◌∙◌, ap, sym, subst,
}
use native.Mathlib.Nat.{pow-suc}
use stellar_gate.Prelude.Int.{i64_max, pos}
use stellar_gate.Text.{Text, is_whitespace, trim, trim_end_matches}
use stellar_gate.Text.Digits.{
  IsDigits, value, value_from, show, show_padded, value-show, value-show_padded, IsDigits-show,
  IsDigits-show_padded, length-show_padded, length-show_pos, value_from-append,
}
use stellar_gate.Text.Trim.{Free, trim-Free, trim_end_matches-pad}
use stellar_gate.Money.{max_decimals, stroops_per_unit, parse_stroops, stroops_to_string}
use stellar_gate.Money.Value.{stroops_of, in_range, shift}
use stellar_gate.Money.Parse.{IsAmount, parse_stroops-IsAmount}

-- A decimal has no character that `trim` takes off.
no_whitespace_digits : (s : Text) → IsDigits s → Free is_whitespace s
unfolding is_whitespace
no_whitespace_digits [] h = tt
no_whitespace_digits (c ∷ s) h = (ground (arith, h.0), no_whitespace_digits s h.1)

no_whitespace_decimal : (i f : Text) → IsDigits i → IsDigits f → Free is_whitespace (i ++ b'.' ∷ f)
unfolding is_whitespace
no_whitespace_decimal [] f hi hf = (refl, no_whitespace_digits f hf)
no_whitespace_decimal (c ∷ i) f hi hf = (ground (arith, hi.0), no_whitespace_decimal i f hi.1 hf)

abbrev strip_zeros : Text → Text
strip_zeros = trim_end_matches (λ c. c == b'0')

IsDigits-prefix : (s t : Text) → IsDigits (s ++ t) → IsDigits s
IsDigits-prefix [] t h = tt
IsDigits-prefix (c ∷ s) t h = (h.0, IsDigits-prefix s t h.1)

value_from-zeros : (k acc : ℕ) → value_from acc (replicate k b'0') ≡ acc * 10 ^ k
unfolding value_from
value_from-zeros zero acc = omega arith
value_from-zeros (suc k) acc =
    value_from-zeros k (acc * 10 + 0) ∙ shift acc (10 ^ k) ∙ ap (λ t. acc * t) (sym (pow-suc 10 k))

-- The fraction without its trailing zeros, read at its own scale, is the whole fraction.
strip_zeros-value :
    (s : Text)
    → length s ≡ max_decimals
    → value (strip_zeros s) * 10 ^ (max_decimals - length (strip_zeros s)) ≡ value s
strip_zeros-value s full =
    let t = strip_zeros s in
    sym (value_from-zeros (max_decimals - length t) (value t))
    ∙ sym (value_from-append 0 t (replicate (max_decimals - length t) b'0'))
    ∙ ap value (rw full at (trim_end_matches-pad b'0' s))

length-strip_zeros : (s : Text) → length (strip_zeros s) ≤ length s
length-strip_zeros s =
    let t = strip_zeros s in
    omega (
      arith,
      ap length (trim_end_matches-pad b'0' s),
      length-append t (replicate (length s - length t) b'0'),
    )

IsDigits-strip_zeros : (s : Text) → IsDigits s → IsDigits (strip_zeros s)
IsDigits-strip_zeros s h =
    IsDigits-prefix (strip_zeros s) (replicate (length s - length (strip_zeros s)) b'0')
      (subst IsDigits (sym (trim_end_matches-pad b'0' s)) h)

module _ (n : ℕ) (fits : n ≤ i64_max) where
  abbrev whole : Text
  whole = show (n / stroops_per_unit)

  abbrev frac : Text
  frac = show_padded max_decimals (n % stroops_per_unit)

  whole-value : value whole ≡ n / stroops_per_unit
  whole-value = value-show (n / stroops_per_unit) (omega arith)

  frac-length : length frac ≡ max_decimals
  frac-length = length-show_padded 6 (n % stroops_per_unit) (omega arith)

  frac-value :
      value (strip_zeros frac) * 10 ^ (max_decimals - length (strip_zeros frac))
      ≡ n % stroops_per_unit
  frac-value =
      strip_zeros-value frac frac-length
      ∙ value-show_padded max_decimals (n % stroops_per_unit) (omega arith)

  whole-IsAmount : IsAmount whole whole []
  whole-IsAmount = record {
    whole = IsDigits-show (n / stroops_per_unit);
    decimals = tt;
    short = omega arith;
    some_digit = omega (arith, length-show_pos (n / stroops_per_unit));
    parts = inr (refl, refl);
  }

  decimal-IsAmount : IsAmount (whole ++ b'.' ∷ strip_zeros frac) whole (strip_zeros frac)
  decimal-IsAmount = record {
    whole = IsDigits-show (n / stroops_per_unit);
    decimals = IsDigits-strip_zeros frac (IsDigits-show_padded max_decimals (n % stroops_per_unit));
    short = omega (arith, length-strip_zeros frac, frac-length);
    some_digit = omega (arith, length-show_pos (n / stroops_per_unit));
    parts = inl refl;
  }

  trimmed : (i f : Text) (s : Text) → Free is_whitespace s → IsAmount s i f → IsAmount (trim s) i f
  trimmed i f s free h = subst (λ t. IsAmount t i f) (sym (trim-Free s free)) h

  whole-stroops : n % stroops_per_unit ≡ 0 → stroops_of whole [] ≡ n
  unfolding value_from
  whole-stroops e = omega (arith, whole-value)

  decimal-stroops : stroops_of whole (strip_zeros frac) ≡ n
  decimal-stroops = omega (arith, whole-value, frac-value)

  in_range_self : (m : ℕ) → 0 < n → m ≡ n → in_range m ≡ some n
  in_range_self m h e = ground arith

-- Every positive amount that fits an `i64` is read back from what it is printed as.
pub parse_stroops-stroops_to_string :
    (n : ℕ) → 0 < n → n ≤ i64_max → parse_stroops (stroops_to_string (pos n)) ≡ some n
unfolding stroops_to_string
parse_stroops-stroops_to_string n h fits = elim (Bool-cases (n % stroops_per_unit == 0)) [
  | inl e ↦ rw e (
      parse_stroops-IsAmount (whole n fits) (whole n fits) []
        (trimmed n fits _ _ _ (no_whitespace_digits _ (IsDigits-show _)) (whole-IsAmount n fits))
      ∙ in_range_self n fits (stroops_of (whole n fits) []) h
          (whole-stroops n fits ((nat_beq_iff _ 0).0 e)))
  | inr e ↦ rw e (
      parse_stroops-IsAmount _ (whole n fits) (strip_zeros (frac n fits)) (
        trimmed n fits _ _ _
          (no_whitespace_decimal _ _ (IsDigits-show _) (decimal-IsAmount n fits).decimals)
          (decimal-IsAmount n fits))
      ∙ in_range_self n fits (stroops_of (whole n fits) (strip_zeros (frac n fits))) h
          (decimal-stroops n fits))
]
