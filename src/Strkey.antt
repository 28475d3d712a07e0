-- ===== src/Strkey.antt =====
-- src/strkey.rs: Stellar account addresses. A text is its UTF-8 bytes here, and a byte, a `u16` and a
-- `u32` are natural numbers with their widths written out.
pub mod Decode
use Prim.Native.Nat.{bit_and, bit_xor, bit_or}
use stellar_gate.Prelude.{
  ℕ, zero, suc, ◌+◌, ◌-◌, ◌*◌, ◌/◌, ◌%◌, ◌^◌, Bool, true, false, not, Option, none, some, List, [],
  ◌∷◌, ◌++◌, leb, ◌==◌, nat_eq, length, take, if◌then◌else◌,
}
use stellar_gate.Text.{Text, codes}

abbrev pub ed25519_public_key_version : ℕ
ed25519_public_key_version = 48

abbrev pub account_strkey_len : ℕ
account_strkey_len = 56

abbrev pub account_decoded_len : ℕ
account_decoded_len = 35

pub data StrkeyError : Type 0 where
  wrong_length wrong_alphabet wrong_version wrong_checksum : StrkeyError

pub data Validity : Type 0 where
  valid : Validity
  invalid : StrkeyError → Validity

abbrev pub alphabet : List ℕ
alphabet = codes "ABCDEFGHIJKLMNOPQRSTUVWXYZ234567"

-- `ALPHABET.iter().position(|&a| a == c)`, from index `i` on.
unfoldable pub position : ℕ → List ℕ → ℕ → Option ℕ
position i [] c = none
position i (a ∷ rest) c = let later = position (i + 1) rest c in if a == c then some i else later

-- `buffer << 5 | value` in 32 bits.
abbrev pub shifted : ℕ → ℕ → ℕ
shifted buffer value = bit_or (buffer * 2 ^ 5 % 2 ^ 32) value

-- One byte of the text: with eight bits or more in the buffer, the top eight go out.
abbrev pub emit : ℕ → ℕ → List ℕ → (ℕ × ℕ) × List ℕ
emit buffer bits out =
    if leb 8 bits
    then (
      (bit_and buffer (2 ^ (bits - 8) - 1), bits - 8),
      out ++ buffer / 2 ^ (bits - 8) % 2 ^ 8 ∷ [],
    )
    else ((buffer, bits), out)

-- The loop over the bytes; `position` is asked before anything else.
unfoldable pub decode_from : List ℕ → ℕ → ℕ → List ℕ → Option (List ℕ)
unfolding position
decode_from [] buffer bits out = some out
decode_from (c ∷ s) buffer bits out = elim (position 0 alphabet c) [
  | none ↦ none
  | some value ↦ let e = emit (shifted buffer value) (bits + 5) out in decode_from s e.0.0 e.0.1 e.1
]

unfoldable pub base32_decode : List ℕ → Option (List ℕ)
unfolding decode_from
base32_decode s = decode_from s 0 0 []

-- One bit of the CRC, in 16 bits.
abbrev pub crc_bit : ℕ → ℕ
crc_bit crc =
    if bit_and crc 0x8000 == 0 then crc * 2 % 2 ^ 16 else bit_xor (crc * 2 % 2 ^ 16) 0x1021

unfoldable pub crc_bits : ℕ → ℕ → ℕ
crc_bits zero crc = crc
crc_bits (suc k) crc = crc_bits k (crc_bit crc)

unfoldable pub crc_from : ℕ → List ℕ → ℕ
unfolding crc_bits
crc_from crc [] = crc
crc_from crc (byte ∷ data_left) =
    crc_from (crc_bits 8 (bit_xor crc (byte * 2 ^ 8 % 2 ^ 16))) data_left

unfoldable pub crc16_xmodem : List ℕ → ℕ
unfolding crc_from
crc16_xmodem bytes = crc_from 0 bytes

-- `bytes[i]`; an index past the end panics in the source, and `Strkey/Decode` shows that the indices
-- that are used lie inside.
abbrev pub byte_at : List ℕ → ℕ → ℕ
byte_at [] i = 0
byte_at (b ∷ bytes) zero = b
byte_at (b ∷ bytes) (suc i) = byte_at bytes i

-- `u16::from_le_bytes` of the last two bytes.
abbrev pub stored_checksum : List ℕ → ℕ
stored_checksum decoded =
    byte_at decoded (length decoded - 2) + byte_at decoded (length decoded - 1) * 2 ^ 8

abbrev pub check_decoded : Option (List ℕ) → Validity
check_decoded none = invalid wrong_alphabet
check_decoded (some decoded) =
    if not (length decoded == account_decoded_len)
    then invalid wrong_length
    else if not (byte_at decoded 0 == ed25519_public_key_version)
    then invalid wrong_version
    else if not (crc16_xmodem (take (length decoded - 2) decoded) == stored_checksum decoded)
    then invalid wrong_checksum
    else valid

unfoldable pub validate_account_id : List ℕ → Validity
validate_account_id s =
    if not (length s == account_strkey_len)
    then invalid wrong_length
    else check_decoded (base32_decode s)

unfoldable pub is_valid_account_id : List ℕ → Bool
is_valid_account_id s = elim (validate_account_id s) [ valid ↦ true | invalid e ↦ false ]
