-- ===== src/Money.antt =====
-- src/money.rs: amounts of a Stellar asset as integer numbers of stroops.

use stellar_gate.Prelude.{
  ℕ, zero, suc, ◌+◌, ◌-◌, ◌*◌, ◌/◌, ◌%◌, Bool, ◌&&◌, Option, none, some, [], ◌∷◌, ◌++◌, ltb, ◌==◌,
  nat_eq, true, false, length, all, if◌then◌else◌,
}
pub mod Value
pub mod Parse
pub mod RoundTrip
use stellar_gate.Prelude.Partial.{ensure, reject_if, ◌>>=◌, ◌>>◌}
use stellar_gate.Prelude.Int.{ℤ, pos, negsuc, i64_max}
use stellar_gate.Text.{Text, codes, is_ascii_digit, trim, trim_end_matches, split_once}
use stellar_gate.Text.Digits.{value, show, show_padded}

abbrev pub stroops_per_unit : ℕ
stroops_per_unit = 10000000

abbrev pub max_decimals : ℕ
max_decimals = 7

abbrev pub is_empty : Text → Bool
is_empty [] = true
is_empty (c ∷ s) = false

-- A result of `i64` arithmetic, `None` past `i64::MAX`.
abbrev pub checked : ℕ → Option ℕ
checked n = if ltb i64_max n then none else some n

-- `str::parse::<i64>` on a text that holds digits only.
abbrev pub parse_i64 : Text → Option ℕ
parse_i64 s = if is_empty s then none else checked (value s)

-- `while frac.len() < MAX_DECIMALS { frac.push('0') }`, by the rounds that are left.
unfoldable pub push_zeros : ℕ → Text → Text
push_zeros zero frac = frac
push_zeros (suc k) frac = push_zeros k (frac ++ b'0' ∷ [])

abbrev pub segments : Text → Option (Text × Text) → Text × Text
segments s none = (s, [])
segments s (some parts) = parts

abbrev pub parse_int : Text → Option ℕ
parse_int int_part = if is_empty int_part then some 0 else parse_i64 int_part

abbrev pub parse_segments : Text × Text → Option ℕ
parse_segments (int_part, frac_part) = do
  ensure (all is_ascii_digit int_part)
  ensure (all is_ascii_digit frac_part)
  reject_if (is_empty int_part && is_empty frac_part)
  reject_if (ltb max_decimals (length frac_part))
  int_val ← parse_int int_part
  frac_val ← parse_i64 (push_zeros (max_decimals - length frac_part) frac_part)
  scaled ← checked (int_val * stroops_per_unit)
  stroops ← checked (scaled + frac_val)
  if stroops == 0 then none else some stroops

unfoldable pub parse_stroops : Text → Option ℕ
parse_stroops input = do
  let s = trim input
  reject_if (is_empty s)
  parse_segments (segments s (split_once b'.' s))

unfoldable pub is_valid_amount : Text → Bool
is_valid_amount input = elim (parse_stroops input) [ none ↦ false | some _ ↦ true ]

abbrev pub format_decimal : Text → ℕ → Text → Text
format_decimal whole frac padded =
    if frac == 0 then whole else whole ++ b'.' ∷ trim_end_matches (λ c. c == b'0') padded

-- Rust truncates `/` and `%` towards zero. A negative `whole` prints its sign, -0 prints none, and
-- `{frac:07}` counts the sign of a negative `frac` in its width.
unfoldable pub stroops_to_string : ℤ → Text
stroops_to_string (pos n) =
    format_decimal (show (n / stroops_per_unit)) (n % stroops_per_unit)
      (show_padded max_decimals (n % stroops_per_unit))
stroops_to_string (negsuc m) =
    let n = m + 1 in
    let whole = n / stroops_per_unit in
    format_decimal (if whole == 0 then show 0 else b'-' ∷ show whole) (n % stroops_per_unit)
      (b'-' ∷ show_padded 6 (n % stroops_per_unit))
