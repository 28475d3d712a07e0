-- ===== src/Metrics/Render/Scrape/Found.antt =====
-- src/metrics.rs, `render`: the first line of a key is that of the first sample of it.
use stellar_gate.Prelude.{
  ◌≡◌, refl, sym, ap, ◌∙◌, true, List, [], ◌∷◌, ◌++◌, map, all, arith, All, list_eq, nat_eq,
}
use mathlib.Core.List.{append_assoc}
use stellar_gate.Text.{Text, codes}
use stellar_gate.Text.Digits.{show, IsDigits-show}
use stellar_gate.Metrics.Render.{Sample, Family, sample_line, family_lines, all_lines, text_of}
use stellar_gate.Metrics.Render.Scrape.{
  or_later, first_value, scrape, reading, all_samples, IsLine, is_key, IsKey, IsFamily, has_keys,
  is_family,
}
use stellar_gate.Metrics.Render.Scrape.Lines.{
  plain, Free-append, IsLine-IsDigits, split-text_of, strip_prefix-key, strip_prefix-comment,
  strip_prefix-empty, IsKey-space, IsKey-IsLine,
}

reading-append :
    (key : Text) (samples more : List Sample)
    → reading key (samples ++ more) ≡ or_later (reading key samples) (reading key more)
reading-append key [] more = refl
reading-append key (s ∷ samples) more = ground (arith, reading-append key samples more)

module _ (key : Text) (is_key : IsKey key) where
  first_value-samples :
      (samples : List Sample) (rest : List Text)
      → All (λ s. IsKey s.key) samples
      → first_value key (map sample_line samples ++ rest)
        ≡ or_later (reading key samples) (first_value key rest)
  unfolding first_value
  first_value-samples [] rest h = refl
  first_value-samples (s ∷ samples) rest h =
      rw
        (strip_prefix-key key s.key (show s.value) (IsKey-space key is_key) (IsKey-space s.key h.0))
        (ground (arith, first_value-samples samples rest h.1))

  first_value-family :
      (f : Family) (rest : List Text)
      → IsFamily f
      → first_value key (family_lines f ++ rest)
        ≡ or_later (reading key f.samples) (first_value key rest)
  unfolding first_value
  first_value-family f rest h =
      rw
        (
          strip_prefix-comment key (codes " HELP " ++ f.name ++ b' ' ∷ f.help) is_key,
          strip_prefix-comment key (codes " TYPE " ++ f.name ++ b' ' ∷ f.kind) is_key,
        )
        (first_value-samples f.samples rest h.3)

  first_value-all_lines :
      (families : List Family)
      → All IsFamily families
      → first_value key (all_lines families ++ [] ∷ []) ≡ reading key (all_samples families)
  unfolding first_value all_lines all_samples
  first_value-all_lines [] h = rw (strip_prefix-empty key is_key) refl
  first_value-all_lines (f ∷ families) h =
      ap (first_value key) (append_assoc (family_lines f) (all_lines families) ([] ∷ []))
      ∙ first_value-family f (all_lines families ++ [] ∷ []) h.0
      ∙ ap (or_later (reading key f.samples)) (first_value-all_lines families h.1)
      ∙ sym (reading-append key f.samples (all_samples families))

IsLine-samples :
    (samples : List Sample) → All (λ s. IsKey s.key) samples → All IsLine (map sample_line samples)
IsLine-samples [] h = tt
IsLine-samples (s ∷ samples) h = (
  Free-append _ s.key (b' ' ∷ show s.value) (IsKey-IsLine s.key h.0)
      (refl, IsLine-IsDigits (show s.value) (IsDigits-show s.value)),
  IsLine-samples samples h.1,
)

All-append :
    (lines more : List Text) → All IsLine lines → All IsLine more → All IsLine (lines ++ more)
All-append [] more h k = k
All-append (line ∷ lines) more h k = (h.0, All-append lines more h.1 k)

IsLine-comment :
    (word name rest : Text)
    → IsLine word
    → IsLine name
    → IsLine rest
    → IsLine (word ++ name ++ b' ' ∷ rest)
IsLine-comment word name rest hw hn hr =
    Free-append _ (word ++ name) (b' ' ∷ rest) (Free-append _ word name hw hn) (refl, hr)

IsLine-all_lines :
    (families : List Family) → All IsFamily families → All IsLine (all_lines families)
unfolding all_lines
IsLine-all_lines [] h = tt
IsLine-all_lines (f ∷ families) h =
    All-append (family_lines f) (all_lines families)
      (
        IsLine-comment (codes "# HELP ") f.name f.help (plain (codes "# HELP ") refl) h.0.0 h.0.1,
        (
          IsLine-comment (codes "# TYPE ") f.name f.kind (plain (codes "# TYPE ") refl) h.0.0 h.0.2,
          IsLine-samples f.samples h.0.3,
        ),
      )
      (IsLine-all_lines families h.1)

keys_of : (samples : List Sample) → has_keys samples ≡ true → All (λ s. IsKey s.key) samples
keys_of [] h = tt
keys_of (s ∷ samples) h = ground (arith, keys_of samples)

family_of : (f : Family) → is_family f ≡ true → IsFamily f
family_of f h = (
  plain f.name (ground (arith, h)),
  plain f.help (ground (arith, h)),
  plain f.kind (ground (arith, h)),
  keys_of f.samples (ground (arith, h)),
)

families_of : (families : List Family) → all is_family families ≡ true → All IsFamily families
families_of [] h = tt
families_of (f ∷ families) h =
    (family_of f (ground (arith, h)), families_of families (ground (arith, h)))

-- Reading a key off the lines of some families gives what the first sample of that key says.
pub scrape-text_of :
    (key : Text) (families : List Family)
    → IsKey key
    → all is_family families ≡ true
    → scrape key (text_of (all_lines families)) ≡ reading key (all_samples families)
unfolding scrape
scrape-text_of key families is_key h =
    let plainly = families_of families h in
    ap (first_value key) (split-text_of (all_lines families) (IsLine-all_lines families plainly))
    ∙ first_value-all_lines key is_key families plainly
