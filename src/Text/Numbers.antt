-- ===== src/Text/Numbers.antt =====
-- `str::parse` of Rust's integer types, over decimal digits with an optional sign.
use stellar_gate.Prelude.{
  ℕ, ◌-◌, ◌^◌, Option, none, some, [], ◌∷◌, leb, ◌==◌, nat_eq, all, if◌then◌else◌,
}
use stellar_gate.Prelude.Int.{ℤ, pos, negsuc, i64_max}
use stellar_gate.Text.{Text, is_ascii_digit}
use stellar_gate.Text.Digits.{value}

-- A number of at least one digit, and nothing else.
unfoldable pub digits : Text → Option ℕ
digits [] = none
digits (c ∷ s) = if all is_ascii_digit (c ∷ s) then some (value (c ∷ s)) else none

abbrev unsigned_digits : Text → Option ℕ
unsigned_digits [] = none
unsigned_digits (c ∷ s) = if c == b'+' then digits s else digits (c ∷ s)

abbrev up_to : ℕ → Option ℕ → Option ℕ
up_to bound none = none
up_to bound (some n) = if leb n bound then some n else none

-- `u16`, `u32`, `u64` and `usize`, by their width.
unfoldable pub parse_unsigned : ℕ → Text → Option ℕ
unfolding digits
parse_unsigned width s = up_to (2 ^ width - 1) (unsigned_digits s)

abbrev positive : Option ℕ → Option ℤ
positive none = none
positive (some n) = some (pos n)

abbrev negative : Option ℕ → Option ℤ
negative none = none
negative (some n) = some (if n == 0 then pos 0 else negsuc (n - 1))

unfoldable pub parse_signed : Text → Option ℤ
unfolding digits
parse_signed [] = none
parse_signed (c ∷ s) =
    if c == b'-'
    then negative (up_to (2 ^ 63) (digits s))
    else positive (up_to i64_max (unsigned_digits (c ∷ s)))
