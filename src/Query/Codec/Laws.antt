-- ===== src/Query/Codec/Laws.antt =====
-- llquery.c: the decoder undoes the encoder, and the space that the two ask for.
use lhttp_parser.Prelude.{
  ℕ, ◌+◌, ◌*◌, ◌/◌, ◌%◌, ◌≤◌, ◌<◌, ◌≡◌, refl, ap, ◌∙◌, Bool, true, false, [], ◌∷◌, ◌++◌, Option,
  none, some, inl, inr, arith, ◌==◌, if◌then◌else◌, Bytes, length, length-append, All, take,
  Bool-cases, ==_iff, table_holds, table_entry,
}
use lhttp_parser.Query.Chars.{hex_lookup}
use lhttp_parser.Query.Chars.Hex.{is_alnum_range}
use lhttp_parser.Query.Codec.{
  text_of, is_plain, hex_char, encode_needed, encode_byte, encode, url_encode, plus_to_space,
  hex_pair, decode, decode_needed, url_decode,
}

abbrev pub IsByte : ℕ → Type 0
IsByte c = c < 256

decode_step :
    (c : ℕ) (s : Bytes) → (c == b'%') ≡ false → decode (c ∷ s) ≡ plus_to_space c ∷ decode s
unfolding decode
decode_step c [] h = refl
decode_step c (a ∷ []) h = refl
decode_step c (a ∷ b ∷ s) h = rw h

decode_escape :
    (a b h : ℕ) (s : Bytes) → hex_pair a b ≡ some h → decode (b'%' ∷ a ∷ b ∷ s) ≡ h ∷ decode s
unfolding decode
decode_escape a b h s e = ground arith

abbrev is_value : ℕ → Option ℕ → Bool
is_value c none = false
is_value c (some v) = v == c

pair_table :
    table_holds 256 (λ c. is_value c (hex_pair (hex_char (c / 16)) (hex_char (c % 16)))) ≡ true
unfolding table_holds hex_lookup
pair_table = refl

hex_pair-hex_char : (c : ℕ) → c < 256 → hex_pair (hex_char (c / 16)) (hex_char (c % 16)) ≡ some c
hex_pair-hex_char c h =
    go (hex_pair (hex_char (c / 16)) (hex_char (c % 16))) (table_entry 256 _ c pair_table h)
  where
    go : (o : Option ℕ) → is_value c o ≡ true → o ≡ some c
    go none e = cc
    go (some v) e = ap some ((==_iff v c).0 e)

plain_byte : (c : ℕ) → is_plain c ≡ true → ((c == b'%') ≡ false) × (plus_to_space c ≡ c)
plain_byte c h = ground (arith, is_alnum_range c)

decode-encode_byte : (c : ℕ) (s : Bytes) → IsByte c → decode (encode_byte c ++ s) ≡ c ∷ decode s
unfolding encode_byte
decode-encode_byte c s byte = elim (Bool-cases (is_plain c)) [
  | inl plain ↦ let (other, same) = plain_byte c plain in rw plain (decode_step c s other ∙ rw same)
  | inr special ↦ rw special (elim (Bool-cases (c == b' ')) [
    | inl space ↦ rw space (decode_step b'+' s refl ∙ ground arith)
    | inr other ↦ rw other (decode_escape _ _ c s (hex_pair-hex_char c byte))
  ])
]

-- For every text of bytes, decoding its encoding gives the text back.
pub decode-encode : (s : Bytes) → All IsByte s → decode (encode s) ≡ s
unfolding encode
decode-encode [] _ = unfold decode in refl
decode-encode (c ∷ s) (byte, bytes) =
    decode-encode_byte c (encode s) byte ∙ ap (◌∷◌ c) (decode-encode s bytes)

-- The number of spaces of a text.
abbrev pub spaces : Bytes → ℕ
spaces [] = 0
spaces (c ∷ s) = (if c == b' ' then 1 else 0) + spaces s

space_not_plain : (c : ℕ) → is_plain c ≡ true → (c == b' ') ≡ false
space_not_plain c h = ground (arith, is_alnum_range c)

encode_byte-length :
    (c : ℕ)
    → (if is_plain c then 1 else 3) ≡ length (encode_byte c) + 2 * (if c == b' ' then 1 else 0)
unfolding encode_byte
encode_byte-length c = ground (arith, space_not_plain c)

-- For every text: the space that the encoder asks for is the length of what it writes and two
-- bytes more for each space, since a space is counted as an escape and written as one byte.
pub encode_needed-length : (s : Bytes) → encode_needed s ≡ length (encode s) + 2 * spaces s
unfolding encode_needed encode
encode_needed-length [] = omega arith
encode_needed-length (c ∷ s) = omega (
  arith,
  encode_needed-length s,
  encode_byte-length c,
  length-append {0} (encode_byte c) (encode s),
)

-- For every text: the space that the decoder asks for is exactly the length of what it writes.
pub decode_needed-length : (s : Bytes) → decode_needed s ≡ length (decode s)
unfolding decode_needed decode
decode_needed-length [] = refl
decode_needed-length (c ∷ []) = refl
decode_needed-length (c ∷ a ∷ []) = ground (arith, decode_needed-length (a ∷ []))
decode_needed-length (c ∷ a ∷ b ∷ s) =
    ground (arith, decode_needed-length (a ∷ b ∷ s), decode_needed-length s)

-- Decoding does not lengthen a text.
pub length-decode-le : (s : Bytes) → length (decode s) ≤ length s
unfolding decode
length-decode-le [] = omega arith
length-decode-le (c ∷ []) = omega arith
length-decode-le (c ∷ a ∷ []) = ground (arith, length-decode-le (a ∷ []))
length-decode-le (c ∷ a ∷ b ∷ s) = ground (arith, length-decode-le (a ∷ b ∷ s), length-decode-le s)

take-length : (s : Bytes) → take (length s) s ≡ s
take-length [] = refl
take-length (c ∷ s) = ap (◌∷◌ c) (take-length s)

pub text_of-length : (s : Bytes) → 0 < length s → text_of s (length s) ≡ s
unfolding text_of
text_of-length s h = ground (arith, take-length s)

length-le-encode : (s : Bytes) → length s ≤ length (encode s)
unfolding encode encode_byte
length-le-encode [] = omega arith
length-le-encode (c ∷ s) =
    ground (arith, length-le-encode s, length-append {0} (encode_byte c) (encode s))

-- For every text of at least one byte and every output size above the space that the encoder asks
-- for: the call writes the whole encoding and returns its length; and for every output size above
-- the length of the text, decoding what was written returns and writes the text.
pub url_decode-url_encode :
    (s : Bytes) (size back : ℕ)
    → All IsByte s
    → 0 < length s
    → encode_needed s < size
    → length s < back
    → (url_encode s (length s) size ≡ (length (encode s), some (encode s)))
      × (url_decode (encode s) (length (encode s)) back ≡ (length s, some s))
unfolding url_encode url_decode
url_decode-url_encode s size back bytes some_bytes room room' = (
  rw (text_of-length s some_bytes) (ground arith),
  rw
      (
        text_of-length (encode s) (omega (arith, length-le-encode s)),
        decode_needed-length (encode s),
        decode-encode s bytes,
      )
      (ground arith),
)
