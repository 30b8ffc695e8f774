-- ===== src/Query/Codec.antt =====
-- llquery.c: `llquery_url_encode` and `llquery_url_decode`. A text is the list of its bytes, with a
-- terminating NUL behind them in memory; what a call writes is `none` where it writes nothing.
pub mod Laws
use lhttp_parser.Prelude.{
  ℕ, zero, suc, ◌+◌, ◌-◌, ◌*◌, ◌/◌, ◌%◌, Bool, true, false, ◌&&◌, ◌||◌, List, [], ◌∷◌, ◌++◌, Option,
  none, some, ◌==◌, ltb, if◌then◌else◌, Bytes, length, get_or, take, codes, bit_or,
}
use lhttp_parser.Query.Chars.{hex_lookup, is_alnum}

-- `strlen`: the bytes up to the first NUL.
unfoldable pub until_nul : Bytes → Bytes
until_nul [] = []
until_nul (c ∷ s) = if c == 0 then [] else c ∷ until_nul s

-- The text of `(input, input_len)`: a length of 0 stands for `strlen(input)`.
unfoldable pub text_of : Bytes → ℕ → Bytes
unfolding until_nul
text_of s len = if len == 0 then until_nul s else take len s

-- `strchr("-_.~", c)`, which finds the terminating NUL too
abbrev pub is_unreserved : ℕ → Bool
is_unreserved c = c == b'-' || c == b'_' || c == b'.' || c == b'~' || c == 0

abbrev pub is_plain : ℕ → Bool
is_plain c = is_alnum c || is_unreserved c

-- `hex[k]` of `"0123456789ABCDEF"`
abbrev pub hex_char : ℕ → ℕ
hex_char k = get_or (codes "0123456789ABCDEF") k 0

-- The first loop of the encoder: the space that it asks for.
unfoldable pub encode_needed : Bytes → ℕ
encode_needed [] = 0
encode_needed (c ∷ s) = (if is_plain c then 1 else 3) + encode_needed s

-- What the second loop writes for one byte.
unfoldable pub encode_byte : ℕ → Bytes
encode_byte c =
    if is_plain c
    then c ∷ []
    else if c == b' '
    then b'+' ∷ []
    else b'%' ∷ hex_char (c / 16) ∷ hex_char (c % 16) ∷ []

unfoldable pub encode : Bytes → Bytes
unfolding encode_byte
encode [] = []
encode (c ∷ s) = encode_byte c ++ encode s

-- The result of a call: the returned length, and the text written before the terminating NUL.
abbrev pub Written : Type 0
Written = ℕ × Option Bytes

-- `llquery_url_encode`; a null `output` is a size of 0.
unfoldable pub url_encode : Bytes → ℕ → ℕ → Written
unfolding text_of encode_needed encode
url_encode input input_len output_size =
    let text = text_of input input_len in
    let needed = encode_needed text + 1 in
    if output_size == 0 || ltb output_size needed
    then (needed - 1, none)
    else (length (encode text), some (encode text))

-- A byte that is not part of an escape.
abbrev pub plus_to_space : ℕ → ℕ
plus_to_space c = if c == b'+' then b' ' else c

-- `(char)((h1 << 4) | h2)` where both bytes are hexadecimal digits
abbrev pub hex_pair : ℕ → ℕ → Option ℕ
hex_pair a b = elim (hex_lookup a) [
  | none ↦ none
  | some h1 ↦ elim (hex_lookup b) [ none ↦ none | some h2 ↦ some (bit_or (h1 * 16) h2) ]
]

-- The second loop of the decoder; an escape wants two bytes behind its `%`.
unfoldable pub decode : Bytes → Bytes
decode [] = []
decode (c ∷ []) = plus_to_space c ∷ []
decode (c ∷ a ∷ []) = plus_to_space c ∷ decode (a ∷ [])
decode (c ∷ a ∷ b ∷ s) =
    let skip = decode s in
    let step = decode (a ∷ b ∷ s) in
    if c == b'%'
    then (elim (hex_pair a b) [ some h ↦ h ∷ skip | none ↦ c ∷ step ])
    else plus_to_space c ∷ step

-- The first loop of the decoder.
unfoldable pub decode_needed : Bytes → ℕ
decode_needed [] = 0
decode_needed (c ∷ []) = 1
decode_needed (c ∷ a ∷ []) = 1 + decode_needed (a ∷ [])
decode_needed (c ∷ a ∷ b ∷ s) =
    let skip = decode_needed s in
    let step = decode_needed (a ∷ b ∷ s) in
    if c == b'%' then (elim (hex_pair a b) [ some h ↦ 1 + skip | none ↦ 1 + step ]) else 1 + step

-- `llquery_url_decode`; a null `output` is a size of 0.
unfoldable pub url_decode : Bytes → ℕ → ℕ → Written
unfolding text_of decode_needed decode
url_decode input input_len output_size =
    let text = text_of input input_len in
    let needed = decode_needed text + 1 in
    if output_size == 0 || ltb output_size needed
    then (needed - 1, none)
    else (length (decode text), some (decode text))
