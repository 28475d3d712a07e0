-- ===== src/Db/Timestamps/Stamps.antt =====
-- Texts of digits, hyphens and colons under the methods of `str` that `normalize_ts` calls.
use stellar_gate.Prelude.{
  ℕ, ◌+◌, ◌≡◌, refl, ap, ◌∙◌, Bool, true, false, ◌&&◌, ◌||◌, [], ◌∷◌, ◌++◌, length, leb, All, arith,
  ◌==◌, nat_eq,
}
use stellar_gate.Text.{
  Text, trim, trim_start_matches, trim_end_matches, cons_unless_end, is_whitespace, as_bytes,
}
use stellar_gate.Text.Trim.{Free, trim_end_matches-Free}
use stellar_gate.Db.Timestamps.{ends_with, contains_char, replace_first, replace}

-- A digit, a hyphen or a colon.
abbrev pub is_stamp_char : ℕ → Bool
is_stamp_char c = leb b'0' c && leb c b':' || c == b'-'

abbrev pub IsStamp : Text → Type 0
IsStamp s = All (λ c. is_stamp_char c ≡ true) s

-- "2026-04-29 15:00:00" and "2026-04-29T15:00:00Z"
abbrev pub legacy_stamp : Text → Text → Text
legacy_stamp date time = date ++ b' ' ∷ time

abbrev pub compliant_stamp : Text → Text → Text
compliant_stamp date time = date ++ b'T' ∷ (time ++ b'Z' ∷ [])

length-as_bytes : (s : Text) → IsStamp s → length (as_bytes s) ≡ length s
unfolding as_bytes
length-as_bytes [] h = refl
length-as_bytes (c ∷ s) h = ground (arith, length-as_bytes s h.1, h.0)

pub length-as_bytes-legacy :
    (date time : Text)
    → IsStamp date
    → IsStamp time
    → length (as_bytes (legacy_stamp date time)) ≡ length date + 1 + length time
unfolding as_bytes
length-as_bytes-legacy [] time hd ht = ground (arith, length-as_bytes time ht)
length-as_bytes-legacy (c ∷ date) time hd ht =
    ground (arith, length-as_bytes-legacy date time hd.1 ht, hd.0)

IsStamp-Free : (s : Text) → IsStamp s → Free is_whitespace s
unfolding is_whitespace
IsStamp-Free [] h = tt
IsStamp-Free (c ∷ s) h = (ground (arith, h.0), IsStamp-Free s h.1)

-- The end of a text stays, and with it what stands before.
trim_end_matches-append :
    (p : ℕ → Bool) (s : Text) (d : ℕ) (t : Text)
    → trim_end_matches p (d ∷ t) ≡ d ∷ t
    → trim_end_matches p (s ++ d ∷ t) ≡ s ++ d ∷ t
unfolding trim_end_matches
trim_end_matches-append p [] d t h = h
trim_end_matches-append p (c ∷ []) d t h =
    ap (cons_unless_end p c) (trim_end_matches-append p [] d t h)
trim_end_matches-append p (c ∷ e ∷ s) d t h =
    ap (cons_unless_end p c) (trim_end_matches-append p (e ∷ s) d t h)

trim-append :
    (c : ℕ) (s : Text) (d : ℕ) (t : Text)
    → is_whitespace c ≡ false
    → trim_end_matches is_whitespace (d ∷ t) ≡ d ∷ t
    → trim ((c ∷ s) ++ d ∷ t) ≡ (c ∷ s) ++ d ∷ t
unfolding trim trim_start_matches
trim-append c s d t hc ht = rw hc (trim_end_matches-append is_whitespace (c ∷ s) d t ht)

pub trim-legacy :
    (c : ℕ) (date : Text) (d : ℕ) (time : Text)
    → IsStamp (c ∷ date)
    → IsStamp (d ∷ time)
    → trim (legacy_stamp (c ∷ date) (d ∷ time)) ≡ legacy_stamp (c ∷ date) (d ∷ time)
unfolding trim_end_matches
trim-legacy c date d time hd ht =
    trim-append c date b' ' (d ∷ time) (IsStamp-Free (c ∷ date) hd).0 (
      ap (cons_unless_end is_whitespace b' ')
        (trim_end_matches-Free is_whitespace (d ∷ time) (IsStamp-Free (d ∷ time) ht)))

pub trim-compliant :
    (c : ℕ) (date time : Text)
    → IsStamp (c ∷ date)
    → trim (compliant_stamp (c ∷ date) time) ≡ compliant_stamp (c ∷ date) time
unfolding is_whitespace
trim-compliant c date time hd =
    trim-append c date b'T' (time ++ b'Z' ∷ []) (IsStamp-Free (c ∷ date) hd).0 (
      trim_end_matches-append is_whitespace (b'T' ∷ time) b'Z' []
        (trim_end_matches-Free is_whitespace (b'Z' ∷ []) (refl, tt)))

other_char : (c z : ℕ) → is_stamp_char c ≡ true → is_stamp_char z ≡ false → (c == z) ≡ false
other_char c z hc hz = ground arith

pub contains_char-append :
    (z : ℕ) (s t : Text)
    → is_stamp_char z ≡ false
    → IsStamp s
    → contains_char z (s ++ t) ≡ contains_char z t
unfolding contains_char
contains_char-append z [] t hz hs = refl
contains_char-append z (c ∷ s) t hz hs =
    rw (other_char c z hs.0 hz) (contains_char-append z s t hz hs.1)

contains_char-IsStamp :
    (z : ℕ) (s : Text) → is_stamp_char z ≡ false → IsStamp s → contains_char z s ≡ false
unfolding contains_char
contains_char-IsStamp z [] hz hs = refl
contains_char-IsStamp z (c ∷ s) hz hs =
    rw (other_char c z hs.0 hz) (contains_char-IsStamp z s hz hs.1)

pub ends_with-append :
    (z : ℕ) (s : Text) (d : ℕ) (t : Text) → ends_with z (s ++ d ∷ t) ≡ ends_with z (d ∷ t)
unfolding ends_with
ends_with-append z [] d t = refl
ends_with-append z (c ∷ []) d t = refl
ends_with-append z (c ∷ e ∷ s) d t = ends_with-append z (e ∷ s) d t

pub ends_with-IsStamp :
    (z : ℕ) (s : Text) → is_stamp_char z ≡ false → IsStamp s → ends_with z s ≡ false
unfolding ends_with
ends_with-IsStamp z [] hz hs = refl
ends_with-IsStamp z (c ∷ []) hz hs = other_char c z hs.0 hz
ends_with-IsStamp z (c ∷ d ∷ s) hz hs = ends_with-IsStamp z (d ∷ s) hz hs.1

pub replace_first-legacy :
    (date time : Text)
    → IsStamp date
    → replace_first b' ' b'T' (legacy_stamp date time) ≡ date ++ b'T' ∷ time
unfolding replace_first
replace_first-legacy [] time hd = refl
replace_first-legacy (c ∷ date) time hd = ground (arith, replace_first-legacy date time hd.1, hd.0)

replace-IsStamp : (s : Text) → IsStamp s → replace b' ' b'T' s ≡ s
replace-IsStamp [] h = refl
replace-IsStamp (c ∷ s) h = ground (arith, replace-IsStamp s h.1, h.0)

pub replace-legacy :
    (date time : Text)
    → IsStamp date
    → IsStamp time
    → replace b' ' b'T' (legacy_stamp date time) ≡ date ++ b'T' ∷ time
replace-legacy [] time hd ht = ap (λ rest. b'T' ∷ rest) (replace-IsStamp time ht)
replace-legacy (c ∷ date) time hd ht = ground (arith, replace-legacy date time hd.1 ht, hd.0)

-- Neither a mark of the zone nor a letter is in an old text.
pub contains_char-legacy :
    (z : ℕ) (date time : Text)
    → is_stamp_char z ≡ false
    → (b' ' == z) ≡ false
    → IsStamp date
    → IsStamp time
    → contains_char z (legacy_stamp date time) ≡ false
unfolding contains_char
contains_char-legacy z date time hz blank hd ht =
    contains_char-append z date (b' ' ∷ time) hz hd
    ∙ rw (blank, contains_char-IsStamp z time hz ht) refl
