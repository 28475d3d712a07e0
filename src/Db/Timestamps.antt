-- ===== src/Db/Timestamps.antt =====
-- src/db.rs, `normalize_ts` and the repair of timestamps in `migrate`: texts as rows of older versions
-- have them. Everywhere else a timestamp is its number of seconds.
pub mod Stamps
pub mod Repaired
use stellar_gate.Prelude.{
  ℕ, Bool, true, false, ◌||◌, List, [], ◌∷◌, ◌++◌, map, length, ◌==◌, nat_eq, if◌then◌else◌,
}
use stellar_gate.Text.{Text, trim, as_bytes}

-- str::ends_with of one character
unfoldable pub ends_with : ℕ → Text → Bool
ends_with z [] = false
ends_with z (c ∷ []) = c == z
ends_with z (c ∷ d ∷ s) = ends_with z (d ∷ s)

-- str::contains of one character
unfoldable pub contains_char : ℕ → Text → Bool
contains_char z [] = false
contains_char z (c ∷ s) = c == z || contains_char z s

-- str::replacen(.., 1)
unfoldable pub replace_first : ℕ → ℕ → Text → Text
replace_first a b [] = []
replace_first a b (c ∷ s) = let rest = c ∷ replace_first a b s in if c == a then b ∷ s else rest

unfoldable pub normalize_ts : Text → Text
normalize_ts raw =
    let s = trim raw in
    if ends_with b'Z' s || contains_char b'+' s
    then s
    else if length (as_bytes s) == 19
    then replace_first b' ' b'T' s ++ b'Z' ∷ []
    else s

-- SQLite's replace
abbrev pub replace : ℕ → ℕ → Text → Text
replace a b s = map (λ c. if c == a then b else c) s

-- LIKE '%T%', which takes small letters too
abbrev pub like_t : Text → Bool
like_t s = contains_char b'T' s || contains_char b't' s

-- SET col = replace(col, ' ', 'T') || 'Z' WHERE col NOT LIKE '%T%'
unfoldable pub repair : Text → Text
repair s = if like_t s then s else replace b' ' b'T' s ++ b'Z' ∷ []
