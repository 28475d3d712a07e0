-- ===== src/Api/Cursor.antt =====
-- src/api/payments.rs: the cursors of the listings. The hex form is the crate `hex`'s, and reading
-- bytes as UTF-8 is `String::from_utf8`.
use stellar_gate.Prelude.{ℕ, ◌≡◌, ◌++◌, ◌∷◌, Option, none, some, List, ◌==◌, nat_eq}
use stellar_gate.Text.{Text, as_bytes, split_once}
use stellar_gate.Text.Trim.{Free, split_once-Free}
use stellar_gate.Db.Listing.{Key}

pub record Codec : Type 0 where
  pub hex_encode : List ℕ → Text
  pub hex_decode : Text → Option (List ℕ)
  pub from_utf8 : List ℕ → Option Text

-- What their documentation says, at one text: its bytes come back from their hex form, and the text
-- from its bytes.
pub record IsFaithful (codec : Codec) (s : Text) : Type 0 where
  pub decodes : codec.hex_decode (codec.hex_encode (as_bytes s)) ≡ some (as_bytes s)
  pub reads : codec.from_utf8 (as_bytes s) ≡ some s

module _ (codec : Codec) where
  unfoldable pub encode_cursor : Key → Text
  encode_cursor (ts, id) = codec.hex_encode (as_bytes (ts ++ 9 ∷ id))

  abbrev text_of : Option (List ℕ) → Option Text
  text_of none = none
  text_of (some bytes) = codec.from_utf8 bytes

  abbrev split_of : Option Text → Option Key
  split_of none = none
  split_of (some s) = split_once 9 s

  unfoldable pub decode_cursor : Text → Option Key
  decode_cursor raw = split_of (text_of (codec.hex_decode raw))

  -- Where the hex form and the UTF-8 bytes of its text read back, a cursor reads back as the time
  -- and the id that it was made of, whatever the id; the text of a time has no tab.
  pub decode_cursor-encode_cursor :
      (ts id : Text)
      → IsFaithful codec (ts ++ 9 ∷ id)
      → Free (λ c. c == 9) ts
      → decode_cursor (encode_cursor (ts, id)) ≡ some (ts, id)
  unfolding encode_cursor decode_cursor
  decode_cursor-encode_cursor ts id faithful no_tab =
      rw (faithful.decodes, faithful.reads) (split_once-Free 9 ts id no_tab)
