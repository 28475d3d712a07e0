-- ===== src/Money/Value.antt =====
-- src/money.rs, `parse_stroops`: which texts it accepts, and the number that it reads.
use stellar_gate.Prelude.{
  ℕ, zero, suc, ◌+◌, ◌-◌, ◌*◌, ◌^◌, ◌≤◌, ◌<◌, ◌≡◌, refl, sym, le→ltb, ◌∙◌, ap, false, ◌&&◌, ◌==◌,
  nat_eq, Option, none, some, [], ◌∷◌, ◌++◌, arith, ltb, length, length-append, if◌then◌else◌,
}
use native.Mathlib.Nat.{pow-suc}
use stellar_gate.Prelude.Int.{i64_max}
use stellar_gate.Text.{Text}
use stellar_gate.Text.Digits.{value, value_from, value-append_digit, IsDigits, all_digits}
use stellar_gate.Prelude.Partial.{◌>>=◌}
use stellar_gate.Money.{
  stroops_per_unit, max_decimals, push_zeros, parse_segments, is_empty, checked, parse_int,
}

-- The stroops that an integer part and a fractional part stand for.
abbrev pub stroops_of : Text → Text → ℕ
stroops_of i f = value i * stroops_per_unit + value f * 10 ^ (max_decimals - length f)

-- A number that `parse_stroops` can return.
abbrev pub in_range : ℕ → Option ℕ
in_range n = if n == 0 then none else if ltb i64_max n then none else some n

pub shift : (a b : ℕ) → (a * 10 + 0) * b ≡ a * (b * 10)
shift a b = omega arith

value-push_zeros : (k : ℕ) (f : Text) → value (push_zeros k f) ≡ value f * 10 ^ k
unfolding push_zeros
value-push_zeros zero f = omega arith
value-push_zeros (suc k) f =
    value-push_zeros k (f ++ b'0' ∷ [])
    ∙ ap (λ t. t * 10 ^ k) (value-append_digit f 0)
    ∙ (shift (value f) (10 ^ k) ∙ ap (λ t. value f * t) (sym (pow-suc 10 k)))

push_zeros-nonempty : (k : ℕ) (f : Text) → 0 < k + length f → is_empty (push_zeros k f) ≡ false
unfolding push_zeros
push_zeros-nonempty zero [] h = absurd (omega arith)
push_zeros-nonempty zero (c ∷ f) h = refl
push_zeros-nonempty (suc k) f h =
    push_zeros-nonempty k (f ++ b'0' ∷ []) (omega (arith, length-append f (b'0' ∷ [])))

some_segment : (i f : Text) → 0 < length i + length f → (is_empty i && is_empty f) ≡ false
some_segment [] [] h = absurd (omega arith)
some_segment [] (c ∷ f) h = refl
some_segment (c ∷ i) f h = refl

parse_int_lem : (i : Text) → parse_int i ≡ checked (value i)
unfolding value_from
parse_int_lem [] = refl
parse_int_lem (c ∷ i) = refl

-- The checked arithmetic fails exactly when the exact result is out of range.
checked_arithmetic :
    (a b : ℕ)
    → (do
      int_val ← checked a
      frac_val ← checked b
      scaled ← checked (int_val * stroops_per_unit)
      stroops ← checked (scaled + frac_val)
      if stroops == 0 then none else some stroops)
      ≡ in_range (a * stroops_per_unit + b)
checked_arithmetic a b = ground arith

pub parse_segments_lem :
    (i f : Text)
    → IsDigits i
    → IsDigits f
    → length f ≤ max_decimals
    → 0 < length i + length f
    → parse_segments (i, f) ≡ in_range (stroops_of i f)
parse_segments_lem i f hi hf short some_digit =
    let k = max_decimals - length f in
    rw
      (
        all_digits i hi,
        all_digits f hf,
        some_segment i f some_digit,
        le→ltb (length f) 7 short,
        parse_int_lem i,
        push_zeros-nonempty k f (omega arith),
        value-push_zeros k f,
      )
      (checked_arithmetic (value i) (value f * 10 ^ k))
