-- ===== src/Db/Timestamps/Repaired.antt =====
-- src/db.rs: what the repair in `migrate` writes is what `normalize_ts` reads, and both leave it so.
use stellar_gate.Prelude.{
  ℕ, ◌≡◌, refl, ap, ◌∙◌, Bool, true, false, ◌||◌, [], ◌∷◌, ◌++◌, length, arith, ◌==◌, nat_eq,
  if◌then◌else◌,
}
use mathlib.Core.List.{append_assoc}
use stellar_gate.Text.{Text, trim, as_bytes}
use stellar_gate.Db.Timestamps.{
  ends_with, contains_char, replace_first, normalize_ts, replace, like_t, repair,
}
use stellar_gate.Db.Timestamps.Stamps.{
  IsStamp, legacy_stamp, compliant_stamp, length-as_bytes-legacy, trim-legacy, trim-compliant,
  contains_char-append, contains_char-legacy, ends_with-append, ends_with-IsStamp,
  replace_first-legacy, replace-legacy,
}

-- By the facts that the function asks for.
normalize_ts_by :
    (raw : Text) (marked : Bool) (n : ℕ)
    → trim raw ≡ raw
    → (ends_with b'Z' raw || contains_char b'+' raw) ≡ marked
    → length (as_bytes raw) ≡ n
    → normalize_ts raw
      ≡ (if marked then raw else if n == 19 then replace_first b' ' b'T' raw ++ b'Z' ∷ [] else raw)
unfolding normalize_ts
normalize_ts_by raw marked n trimmed mark bytes = rw (trimmed, mark, bytes, normalize_ts) refl

repair_by :
    (s : Text) (marked : Bool)
    → like_t s ≡ marked
    → repair s ≡ (if marked then s else replace b' ' b'T' s ++ b'Z' ∷ [])
unfolding repair
repair_by s marked h = rw (h, repair) refl

appended :
    (date time s : Text) → s ≡ date ++ b'T' ∷ time → s ++ b'Z' ∷ [] ≡ compliant_stamp date time
appended date time s e = ap (λ x. x ++ b'Z' ∷ []) e ∙ append_assoc date (b'T' ∷ time) (b'Z' ∷ [])

normalize_ts-legacy :
    (c : ℕ) (date : Text) (d : ℕ) (time : Text)
    → IsStamp (c ∷ date)
    → IsStamp (d ∷ time)
    → length date ≡ 9
    → length time ≡ 7
    → normalize_ts (legacy_stamp (c ∷ date) (d ∷ time)) ≡ compliant_stamp (c ∷ date) (d ∷ time)
unfolding ends_with
normalize_ts-legacy c date d time hd ht ld lt =
    normalize_ts_by (legacy_stamp (c ∷ date) (d ∷ time)) false 19 (trim-legacy c date d time hd ht)
      (rw
        (
          ends_with-append b'Z' (c ∷ date) b' ' (d ∷ time),
          ends_with-IsStamp b'Z' (d ∷ time) refl ht,
        )
        (contains_char-legacy b'+' (c ∷ date) (d ∷ time) refl refl hd ht))
      (length-as_bytes-legacy (c ∷ date) (d ∷ time) hd ht ∙ omega arith)
    ∙ appended (c ∷ date) (d ∷ time) _ (replace_first-legacy (c ∷ date) (d ∷ time) hd)

repair-legacy :
    (date time : Text)
    → IsStamp date
    → IsStamp time
    → repair (legacy_stamp date time) ≡ compliant_stamp date time
repair-legacy date time hd ht =
    repair_by (legacy_stamp date time) false (
      rw (contains_char-legacy b'T' date time refl refl hd ht)
        (contains_char-legacy b't' date time refl refl hd ht))
    ∙ appended date time _ (replace-legacy date time hd ht)

normalize_ts-compliant :
    (c : ℕ) (date time : Text)
    → IsStamp (c ∷ date)
    → normalize_ts (compliant_stamp (c ∷ date) time) ≡ compliant_stamp (c ∷ date) time
unfolding ends_with
normalize_ts-compliant c date time hd =
    normalize_ts_by (compliant_stamp (c ∷ date) time) true _ (trim-compliant c date time hd)
      (rw
        (
          ends_with-append b'Z' (c ∷ date) b'T' (time ++ b'Z' ∷ []),
          ends_with-append b'Z' (b'T' ∷ time) b'Z' [],
        )
        refl)
      refl

repair-compliant :
    (date time : Text)
    → IsStamp date
    → repair (compliant_stamp date time) ≡ compliant_stamp date time
unfolding contains_char
repair-compliant date time hd =
    repair_by (compliant_stamp date time) true
      (rw (contains_char-append b'T' date (b'T' ∷ (time ++ b'Z' ∷ [])) refl hd) refl)

-- For a date of ten and a time of eight characters that are digits, hyphens or colons, the repair
-- at the start turns the old text of the two into the strict one, which is what `normalize_ts`
-- reads the old text as; and both leave the strict text as it is.
pub normalize_ts-repair :
    (date time : Text)
    → IsStamp date
    → IsStamp time
    → length date ≡ 10
    → length time ≡ 8
    → (repair (legacy_stamp date time) ≡ compliant_stamp date time)
      × (normalize_ts (legacy_stamp date time) ≡ compliant_stamp date time)
      × (repair (compliant_stamp date time) ≡ compliant_stamp date time)
      × (normalize_ts (compliant_stamp date time) ≡ compliant_stamp date time)
normalize_ts-repair [] time hd ht ld lt = ground (arith, ld)
normalize_ts-repair (c ∷ date) [] hd ht ld lt = ground (arith, lt)
normalize_ts-repair (c ∷ date) (d ∷ time) hd ht ld lt = (
  repair-legacy (c ∷ date) (d ∷ time) hd ht,
  normalize_ts-legacy c date d time hd ht (omega (arith, ld)) (omega (arith, lt)),
  repair-compliant (c ∷ date) (d ∷ time) hd,
  normalize_ts-compliant c date (d ∷ time) hd,
)
