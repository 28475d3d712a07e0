-- ===== src/Metrics/Render/Scrape/Lines.antt =====
-- src/metrics.rs, `render`: the lines of the text, and a key against a line.
use stellar_gate.Prelude.{
  ℕ, ◌≡◌, refl, ap, ◌∙◌, Bool, true, not, none, some, List, [], ◌∷◌, ◌++◌, all, arith, All, ◌==◌,
  list_eq, nat_eq, list_beq, if◌then◌else◌,
}
use stellar_gate.Text.{Text, split}
use stellar_gate.Text.Trim.{Free}
use stellar_gate.Text.Split.{split-append, split-Free}
use stellar_gate.Text.Digits.{IsDigits}
use stellar_gate.Horizon.Sse.{strip_prefix}
use stellar_gate.Metrics.Render.{text_of}
use stellar_gate.Metrics.Render.Scrape.{IsLine, is_plain, IsKey}

-- A text is a line if a look at each character says so.
pub plain : (s : Text) → all (λ c. not (c == b'\n')) s ≡ true → IsLine s
plain [] h = tt
plain (c ∷ s) h = ground (arith, plain s)

pub Free-append : (p : ℕ → Bool) (s t : Text) → Free p s → Free p t → Free p (s ++ t)
Free-append p [] t hs ht = ht
Free-append p (c ∷ s) t hs ht = (hs.0, Free-append p s t hs.1 ht)

pub IsLine-IsDigits : (s : Text) → IsDigits s → IsLine s
IsLine-IsDigits [] h = tt
IsLine-IsDigits (c ∷ s) h = (ground (arith, h.0), IsLine-IsDigits s h.1)

pub split-text_of :
    (lines : List Text) → All IsLine lines → split b'\n' (text_of lines) ≡ lines ++ [] ∷ []
unfolding text_of split
split-text_of [] h = refl
split-text_of (line ∷ lines) h =
    split-append b'\n' line (text_of lines)
    ∙ rw (split-Free b'\n' line h.0) (ap (λ rest. line ∷ rest) (split-text_of lines h.1))

-- A key against a sample's line.
pub strip_prefix-key :
    (key other value : Text)
    → Free (λ d. d == b' ') key
    → Free (λ d. d == b' ') other
    → strip_prefix (key ++ b' ' ∷ []) (other ++ b' ' ∷ value)
      ≡ (if other == key then some value else none)
unfolding strip_prefix list_beq
strip_prefix-key [] [] value hk ho = refl
strip_prefix-key [] (d ∷ other) value hk ho = ground (arith, ho.0)
strip_prefix-key (c ∷ key) [] value hk ho = ground (arith, hk.0)
strip_prefix-key (c ∷ key) (d ∷ other) value hk ho =
    ground (arith, strip_prefix-key key other value hk.1 ho.1)

pub strip_prefix-comment :
    (key rest : Text) → IsKey key → strip_prefix (key ++ b' ' ∷ []) (b'#' ∷ rest) ≡ none
unfolding strip_prefix
strip_prefix-comment [] rest h = cc
strip_prefix-comment (c ∷ key) rest h = ground (arith, h)

pub strip_prefix-empty : (key : Text) → IsKey key → strip_prefix (key ++ b' ' ∷ []) [] ≡ none
unfolding strip_prefix
strip_prefix-empty [] h = cc
strip_prefix-empty (c ∷ key) h = refl

spaceless : (s : Text) → is_plain s ≡ true → Free (λ d. d == b' ') s
spaceless [] h = tt
spaceless (c ∷ s) h = ground (arith, spaceless s)

endless : (s : Text) → is_plain s ≡ true → IsLine s
endless [] h = tt
endless (c ∷ s) h = ground (arith, endless s)

IsKey-is_plain : (key : Text) → IsKey key → is_plain key ≡ true
IsKey-is_plain [] h = refl
IsKey-is_plain (c ∷ key) h = ground (arith, h)

pub IsKey-space : (key : Text) → IsKey key → Free (λ d. d == b' ') key
IsKey-space key h = spaceless key (IsKey-is_plain key h)

pub IsKey-IsLine : (key : Text) → IsKey key → IsLine key
IsKey-IsLine key h = endless key (IsKey-is_plain key h)
