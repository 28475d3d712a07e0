-- ===== src/Text/Digits.antt =====
-- Decimal numbers: `str::parse::<i64>` on digits, `{n}` and `{n:07}` of `format!`.
use stellar_gate.Prelude.{
  ℕ, zero, suc, ◌+◌, ◌-◌, ◌*◌, ◌/◌, ◌%◌, ◌^◌, ◌≤◌, ◌<◌, ◌≡◌, refl, ◌∙◌, inl, inr, Bool-cases,
  lt→ltb, true, [], ◌∷◌, ◌++◌, arith, ltb, all, length, length-append, length-replicate, replicate,
  All, if◌then◌else◌,
}
use native.Mathlib.Nat.{pow-suc}
use stellar_gate.Text.{Text, is_ascii_digit}

-- The number that digits read after `acc` stand for.
unfoldable pub value_from : ℕ → Text → ℕ
value_from acc [] = acc
value_from acc (c ∷ s) = value_from (acc * 10 + (c - b'0')) s

abbrev pub value : Text → ℕ
value = value_from 0

-- The digits of `n`, with fuel for as many digits.
unfoldable pub show_fuel : ℕ → ℕ → Text
show_fuel zero n = []
show_fuel (suc f) n =
    let rest = show_fuel f (n / 10) ++ (b'0' + n % 10) ∷ [] in
    if ltb n 10 then (b'0' + n) ∷ [] else rest

-- `format!("{n}")`: an `i64` has at most 19 digits.
unfoldable pub show : ℕ → Text
show n = show_fuel 20 n

-- `format!("{n:0w}")`.
unfoldable pub show_padded : ℕ → ℕ → Text
show_padded w n = replicate (w - length (show n)) b'0' ++ show n

pub value_from-append :
    (acc : ℕ) (s t : Text) → value_from acc (s ++ t) ≡ value_from (value_from acc s) t
unfolding value_from
value_from-append acc [] t = refl
value_from-append acc (c ∷ s) t = value_from-append (acc * 10 + (c - 48)) s t

pub value-append_digit : (s : Text) (d : ℕ) → value (s ++ (b'0' + d) ∷ []) ≡ value s * 10 + d
unfolding value_from
value-append_digit s d = value_from-append 0 s ((48 + d) ∷ []) ∙ omega arith

pub value-zeros : (n : ℕ) (s : Text) → value (replicate n b'0' ++ s) ≡ value s
unfolding value_from
value-zeros zero s = refl
value-zeros (suc n) s = value-zeros n s

abbrev pub IsDigits : Text → Type 0
IsDigits s = All (λ c. (b'0' ≤ c) × (c ≤ b'9')) s

pub IsDigits-append : (s t : Text) → IsDigits s → IsDigits t → IsDigits (s ++ t)
IsDigits-append [] t hs ht = ht
IsDigits-append (c ∷ s) t hs ht = (hs.0, IsDigits-append s t hs.1 ht)

pub IsDigits-zeros : (n : ℕ) → IsDigits (replicate n b'0')
IsDigits-zeros zero = tt
IsDigits-zeros (suc n) = ((omega arith, omega arith), IsDigits-zeros n)

pub all_digits : (s : Text) → IsDigits s → all is_ascii_digit s ≡ true
unfolding is_ascii_digit
all_digits [] h = refl
all_digits (c ∷ s) h = ground (arith, all_digits s h.1)

pub value-show_fuel : (f n : ℕ) → n < 10 ^ f → value (show_fuel f n) ≡ n
unfolding show_fuel value_from
value-show_fuel zero n h = omega arith
value-show_fuel (suc f) n h = elim (Bool-cases (ltb n 10)) [
  | inl small ↦ rw small (omega arith)
  | inr large ↦ rw large (
      value-append_digit (show_fuel f (n / 10)) (n % 10)
      ∙ omega (arith, pow-suc 10 f, value-show_fuel f (n / 10)))
]

pub IsDigits-show_fuel : (f n : ℕ) → IsDigits (show_fuel f n)
unfolding show_fuel
IsDigits-show_fuel zero n = tt
IsDigits-show_fuel (suc f) n = ground (
  arith,
  IsDigits-append (show_fuel f (n / 10)) ((b'0' + n % 10) ∷ []),
  IsDigits-show_fuel f (n / 10),
)

pub length-show_fuel : (f k n : ℕ) → n < 10 ^ suc k → length (show_fuel f n) ≤ suc k
unfolding show_fuel
length-show_fuel zero k n h = omega arith
length-show_fuel (suc f) zero n h = rw (lt→ltb n 10 (omega arith)) (omega arith)
length-show_fuel (suc f) (suc k) n h = ground (
  arith,
  pow-suc 10 (suc k),
  length-append (show_fuel f (n / 10)) ((b'0' + n % 10) ∷ []),
  length-show_fuel f k (n / 10),
)

-- Printed and read back, an `i64` is itself.
pub value-show : (n : ℕ) → n < 10 ^ 20 → value (show n) ≡ n
unfolding show
value-show n h = value-show_fuel 20 n h

pub value-show_padded : (w n : ℕ) → n < 10 ^ 20 → value (show_padded w n) ≡ n
unfolding show_padded
value-show_padded w n h = value-zeros (w - length (show n)) (show n) ∙ value-show n h

pub IsDigits-show : (n : ℕ) → IsDigits (show n)
unfolding show
IsDigits-show n = IsDigits-show_fuel 20 n

pub IsDigits-show_padded : (w n : ℕ) → IsDigits (show_padded w n)
unfolding show_padded
IsDigits-show_padded w n =
    IsDigits-append (replicate (w - length (show n)) b'0') (show n)
      (IsDigits-zeros (w - length (show n))) (IsDigits-show n)

-- A number of at most `suc k` digits fills its width exactly.
pub length-show_padded : (k n : ℕ) → n < 10 ^ suc k → length (show_padded (suc k) n) ≡ suc k
unfolding show_padded show
length-show_padded k n h = omega (
  arith,
  length-append (replicate (suc k - length (show n)) b'0') (show n),
  length-replicate {A = ℕ} (suc k - length (show n)) b'0',
  length-show_fuel 20 k n h,
)

pub length-show_pos : (n : ℕ) → 0 < length (show n)
unfolding show show_fuel
length-show_pos n = ground (arith, length-append (show_fuel 19 (n / 10)) ((b'0' + n % 10) ∷ []))

pub digits_all : (s : Text) → all is_ascii_digit s ≡ true → IsDigits s
unfolding is_ascii_digit
digits_all [] h = tt
digits_all (c ∷ s) h = ground (arith, digits_all s)
