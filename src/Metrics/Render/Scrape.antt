-- ===== src/Metrics/Render/Scrape.antt =====
-- src/metrics.rs, `render`: what a scraper reads off the text. It takes the first line that starts
-- with a key and a space, and reads what follows.
pub mod Lines
pub mod Found
use stellar_gate.Prelude.{
  ℕ, ◌≡◌, refl, sym, ap, ◌∙◌, Bool, true, false, not, ◌&&◌, Option, none, some, List, [], ◌∷◌, ◌++◌,
  map, all, arith, All, ◌==◌, list_eq, nat_eq, list_beq, if◌then◌else◌,
}
use mathlib.Core.List.{append_assoc}
use stellar_gate.Text.{Text, codes, split}
use stellar_gate.Text.Trim.{Free}
use stellar_gate.Text.Split.{split-append, split-Free}
use stellar_gate.Text.Digits.{show, IsDigits, IsDigits-show}
use stellar_gate.Horizon.Sse.{strip_prefix}
use stellar_gate.Metrics.Render.{Sample, Family, sample_line, family_lines, all_lines, text_of}

abbrev pub or_later : Option Text → Option Text → Option Text
or_later none later = later
or_later (some value) later = some value

unfoldable pub first_value : Text → List Text → Option Text
first_value key [] = none
first_value key (line ∷ lines) =
    or_later (strip_prefix (key ++ b' ' ∷ []) line) (first_value key lines)

unfoldable pub scrape : Text → Text → Option Text
scrape key text = first_value key (split b'\n' text)

-- What the samples say.
abbrev pub reading : Text → List Sample → Option Text
reading key [] = none
reading key (s ∷ samples) =
    let later = reading key samples in if s.key == key then some (show s.value) else later

unfoldable pub all_samples : List Family → List Sample
all_samples [] = []
all_samples (f ∷ families) = f.samples ++ all_samples families

abbrev pub IsLine : Text → Type 0
IsLine s = Free (λ c. c == b'\n') s

-- No space and no line end.
abbrev pub is_plain : Text → Bool
is_plain s = all (λ c. not (c == b' ') && not (c == b'\n')) s

-- A key is plain, and is no comment.
abbrev pub is_key : Text → Bool
is_key [] = false
is_key (c ∷ s) = not (c == b'#') && is_plain (c ∷ s)

abbrev pub IsKey : Text → Type 0
IsKey s = is_key s ≡ true

-- The lines of a family can be told apart.
abbrev pub IsFamily : Family → Type 0
IsFamily f = IsLine f.name × IsLine f.help × IsLine f.kind × All (λ s. IsKey s.key) f.samples

abbrev pub is_line : Text → Bool
is_line s = all (λ c. not (c == b'\n')) s

abbrev pub has_keys : List Sample → Bool
has_keys samples = all (λ s. is_key s.key) samples

abbrev pub is_family : Family → Bool
is_family f = is_line f.name && is_line f.help && is_line f.kind && has_keys f.samples
