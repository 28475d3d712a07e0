-- ===== src/Tests/Amounts.antt =====
-- src/money.rs, src/webhook.rs (`retry_delay`) and src/metrics.rs on concrete inputs.
use stellar_gate.Prelude.{ℕ, List, ◌≤◌, ◌<◌, ◌≡◌, refl, ◌∷◌, [], some, inl, arith}
use stellar_gate.Prelude.Int.{pos, i64_max}
use stellar_gate.Text.{
  Text, codes, trim, trim_end_matches, trim_start_matches, is_whitespace, split_once,
  is_ascii_digit,
}
use stellar_gate.Text.Digits.{value_from}
use stellar_gate.Money.{push_zeros, parse_stroops, stroops_to_string}
use stellar_gate.Money.Value.{stroops_of, in_range}
use stellar_gate.Money.Parse.{IsAmount, parse_stroops-IsAmount, parse_stroops-eq_some}
use stellar_gate.Money.RoundTrip.{parse_stroops-stroops_to_string}

abbrev ten_and_a_half : Text
ten_and_a_half = codes " 10.5 "

ten_and_a_half-IsAmount : IsAmount (trim ten_and_a_half) (codes "10") (codes "5")
unfolding trim trim_end_matches trim_start_matches is_whitespace
ten_and_a_half-IsAmount = record {
  whole = ((omega arith, omega arith), ((omega arith, omega arith), tt));
  decimals = ((omega arith, omega arith), tt);
  short = omega arith;
  some_digit = omega arith;
  parts = inl refl;
}

parse_stroops-IsAmount_example :
    parse_stroops ten_and_a_half ≡ in_range (stroops_of (codes "10") (codes "5"))
parse_stroops-IsAmount_example =
    parse_stroops-IsAmount ten_and_a_half (codes "10") (codes "5") ten_and_a_half-IsAmount

parsed : parse_stroops ten_and_a_half ≡ some 105000000
unfolding parse_stroops trim trim_end_matches trim_start_matches is_whitespace split_once
    is_ascii_digit value_from push_zeros
parsed = refl

parse_stroops-eq_some_example :
    (i : Text) × (f : Text) × IsAmount (trim ten_and_a_half) i f
    × (105000000 ≡ stroops_of i f)
    × (0 < 105000000)
    × (105000000 ≤ i64_max)
parse_stroops-eq_some_example = parse_stroops-eq_some ten_and_a_half parsed

parse_stroops-stroops_to_string_example :
    parse_stroops (stroops_to_string (pos 105000000)) ≡ some 105000000
parse_stroops-stroops_to_string_example =
    parse_stroops-stroops_to_string 105000000 (omega arith) (omega arith)

abbrev history : List ℕ
history = 40 ∷ 12000 ∷ 300 ∷ []
