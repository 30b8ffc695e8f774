-- ===== src/Query/Strings.antt =====
-- llquery.c: the helpers that rewrite a string in place. A C string is the list of its bytes up to
-- the terminating NUL, but a decoded one may hold NULs, which its length covers.
pub mod Laws
use lhttp_parser.Prelude.{
  ℕ, zero, suc, ◌+◌, ◌*◌, Bool, true, false, not, ◌&&◌, ◌||◌, List, [], ◌∷◌, map, Option, none,
  some, ◌==◌, if◌then◌else◌, Bytes, bit_or,
}
use lhttp_parser.Query.Chars.{is_encoded, is_space, is_upper, hex_lookup}
use lhttp_parser.Query.Codec.{hex_pair}

unfoldable pub has_encoded_chars : Bytes → Bool
has_encoded_chars [] = false
has_encoded_chars (c ∷ s) = is_encoded c || has_encoded_chars s

-- `+` becomes a space; any other byte that is no escape stays.
abbrev plain_byte : ℕ → ℕ
plain_byte c = if c == b'+' then b' ' else c

-- The loop of `decode_in_place`, up to the first NUL; an escape wants two bytes that are not NUL.
unfoldable pub decode_in_place : Bytes → Bytes
decode_in_place [] = []
decode_in_place (c ∷ []) = if c == 0 then [] else plain_byte c ∷ []
decode_in_place (c ∷ a ∷ []) =
    let step = decode_in_place (a ∷ []) in if c == 0 then [] else plain_byte c ∷ step
decode_in_place (c ∷ a ∷ b ∷ s) =
    let skip = decode_in_place s in
    let step = decode_in_place (a ∷ b ∷ s) in
    if c == 0
    then []
    else if c == b'+'
    then b' ' ∷ step
    else if c == b'%' && (not (a == 0) && not (b == 0))
    then (elim (hex_pair a b) [ some h ↦ h ∷ skip | none ↦ c ∷ step ])
    else c ∷ step

unfoldable pub skip_spaces : Bytes → Bytes
skip_spaces [] = []
skip_spaces (c ∷ s) = if is_space c then skip_spaces s else c ∷ s

-- The trailing white space goes: a byte stays if a byte that stays follows, or if it is no space.
unfoldable pub drop_trailing_spaces : Bytes → Bytes
drop_trailing_spaces [] = []
drop_trailing_spaces (c ∷ s) = elim (drop_trailing_spaces s) [
  | [] ↦ if is_space c then [] else c ∷ []
  | d ∷ t ↦ c ∷ d ∷ t
]

-- `trim_string`: the leading and then the trailing white space.
unfoldable pub trim_string : Bytes → Bytes
unfolding skip_spaces drop_trailing_spaces
trim_string s = drop_trailing_spaces (skip_spaces s)

abbrev lowercase_byte : ℕ → ℕ
lowercase_byte c = if is_upper c then c + 32 else c

unfoldable pub lowercase_string : Bytes → Bytes
lowercase_string s = map lowercase_byte s
