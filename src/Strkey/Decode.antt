-- ===== src/Strkey/Decode.antt =====
-- src/strkey.rs, `base32_decode`: how many bytes come out, and what that means for the checks.
use stellar_gate.Prelude.{
  ℕ, ◌+◌, ◌*◌, ◌-◌, ◌/◌, ◌%◌, ◌^◌, ◌<◌, ◌≡◌, ◌≢◌, ◌↔◌, refl, ap, ◌∙◌, sym, inl, inr, Bool, true,
  false, not, Option, none, some, List, [], ◌∷◌, arith, leb, leb→le, ◌==◌, ==_iff, nat_eq,
  Bool-cases, Option-cases, take, length, length-append, if◌then◌else◌,
}
use stellar_gate.Strkey.{
  valid, invalid, wrong_length, wrong_version, wrong_checksum, byte_at, stored_checksum,
  ed25519_public_key_version, alphabet, position, shifted, emit, decode_from, base32_decode,
  check_decoded, validate_account_id, account_strkey_len, account_decoded_len, crc16_xmodem,
}

some_injective : {a b : List ℕ} → some a ≡ some b → a ≡ b
some_injective e = cc

-- Between two bytes at most seven bits wait, and all bits are waiting or have gone out.
length-emit :
    (buffer bits : ℕ) (out : List ℕ)
    → bits < 13
    → let e = emit buffer bits out in (e.0.1 < 8) × (length e.1 * 8 + e.0.1 ≡ length out * 8 + bits)
length-emit buffer bits out small = elim (Bool-cases (leb 8 bits)) [
  | inl e ↦
      let wide = leb→le 8 bits e in
      rw e (omega arith, omega (arith, length-append out (buffer / 2 ^ (bits - 8) % 2 ^ 8 ∷ [])))
  | inr e ↦ let narrow : bits < 8 = ground arith in rw e (narrow, refl)
]

length-decode_from :
    (s : List ℕ) (buffer bits : ℕ) (out d : List ℕ)
    → bits < 8
    → decode_from s buffer bits out ≡ some d
    → length d ≡ (length out * 8 + bits + 5 * length s) / 8
unfolding decode_from
length-decode_from [] buffer bits out d small h = ap length (some_injective (sym h)) ∙ omega arith
length-decode_from (c ∷ s) buffer bits out d small h = elim (Option-cases (position 0 alphabet c)) [
  | inl e ↦ let none_some : none ≡ some d = rw (e, decode_from) at h in cc
  | inr (value, e) ↦
      let e' = emit (shifted buffer value) (bits + 5) out in
      let balance = length-emit (shifted buffer value) (bits + 5) out (omega arith) in
      length-decode_from s e'.0.0 e'.0.1 e'.1 d balance.0 (rw (e, decode_from) at h)
      ∙ ap (λ n. n / 8) (omega (arith, balance.1))
]

-- A text of 56 characters that decodes at all decodes to 35 bytes, so that the second length check
-- never fails and every index into the bytes lies inside.
pub length-base32_decode : (s d : List ℕ) → base32_decode s ≡ some d → length d ≡ 5 * length s / 8
unfolding base32_decode
length-base32_decode s d h =
    length-decode_from s 0 0 [] d (omega arith) h ∙ ap (λ n. n / 8) (omega arith)

later :
    (version checksum : Bool)
    → (if not version
        then invalid wrong_version
        else if not checksum
        then invalid wrong_checksum
        else valid)
      ≢ invalid wrong_length
later false checksum e = cc
later true false e = cc
later true true e = cc

decoded_length :
    (s : List ℕ) (d : Option (List ℕ))
    → base32_decode s ≡ d
    → length s ≡ account_strkey_len
    → check_decoded d ≢ invalid wrong_length
decoded_length s none e h bad = cc
decoded_length s (some d) e h bad =
    let whole : length d ≡ account_decoded_len =
      length-base32_decode s d e ∙ ap (λ n. 5 * n / 8) h in
    later (byte_at d 0 == ed25519_public_key_version)
      (crc16_xmodem (take (length d - 2) d) == stored_checksum d)
      (rw ((==_iff (length d) account_decoded_len).1 whole) at bad)

-- The length error means exactly that the text does not have 56 characters.
pub validate_account_id-wrong_length :
    (s : List ℕ) → (validate_account_id s ≡ invalid wrong_length) ↔ (length s ≢ account_strkey_len)
unfolding validate_account_id
validate_account_id-wrong_length s = (
  λ h e.
      decoded_length s (base32_decode s) refl e
        (rw ((==_iff (length s) account_strkey_len).1 e) at h),
  λ ne. elim (Bool-cases (length s == account_strkey_len)) [
    | inl e ↦ absurd (ne ((==_iff _ _).0 e))
    | inr e ↦ rw e
  ],
)
