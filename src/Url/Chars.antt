-- ===== src/Url/Chars.antt =====
-- llurl.c: the flag bits, the table `char_flags` and the tests that read it.
pub mod Ranges
use lhttp_parser.Prelude.{ℕ, Bool, not, ◌&&◌, List, [], ◌∷◌, ◌==◌, Bytes, get_or, bit_and, bit_or}

abbrev char_alpha : ℕ
char_alpha = 0x01

abbrev pub char_digit : ℕ
char_digit = 0x02

abbrev char_hex : ℕ
char_hex = 0x04

abbrev char_unreserved : ℕ
char_unreserved = 0x08

abbrev char_subdelim : ℕ
char_subdelim = 0x10

abbrev char_userinfo : ℕ
char_userinfo = 0x20

-- The combinations of bits that the table's entries write out.
abbrev alpha : ℕ
alpha = bit_or char_alpha char_userinfo

abbrev hex : ℕ
hex = bit_or (bit_or char_alpha char_hex) char_userinfo

abbrev digit : ℕ
digit = bit_or (bit_or char_digit char_hex) char_userinfo

abbrev mark : ℕ
mark = bit_or char_unreserved char_userinfo

abbrev delim : ℕ
delim = bit_or char_subdelim char_userinfo

-- Eight entries to a row, as in the source.
unfoldable pub char_flags_table : Bytes
char_flags_table =
    0 ∷ 0 ∷ 0 ∷ 0 ∷ 0 ∷ 0 ∷ 0 ∷ 0 ∷ 0 ∷ 0 ∷ 0 ∷ 0 ∷ 0 ∷ 0 ∷ 0 ∷ 0 ∷ 0 ∷ 0 ∷ 0 ∷ 0 ∷ 0 ∷ 0 ∷ 0 ∷ 0
    ∷ 0 ∷ 0 ∷ 0 ∷ 0 ∷ 0 ∷ 0 ∷ 0 ∷ 0 ∷ 0 ∷ delim ∷ 0 ∷ 0 ∷ delim ∷ char_userinfo ∷ delim ∷ delim
    ∷ delim ∷ delim ∷ delim ∷ delim ∷ delim ∷ mark ∷ mark ∷ 0 ∷ digit ∷ digit ∷ digit ∷ digit
    ∷ digit ∷ digit ∷ digit ∷ digit ∷ digit ∷ digit ∷ char_userinfo ∷ delim ∷ 0 ∷ delim ∷ 0 ∷ 0 ∷ 0
    ∷ hex ∷ hex ∷ hex ∷ hex ∷ hex ∷ hex ∷ alpha ∷ alpha ∷ alpha ∷ alpha ∷ alpha ∷ alpha ∷ alpha
    ∷ alpha ∷ alpha ∷ alpha ∷ alpha ∷ alpha ∷ alpha ∷ alpha ∷ alpha ∷ alpha ∷ alpha ∷ alpha ∷ alpha
    ∷ alpha ∷ 0 ∷ 0 ∷ 0 ∷ 0 ∷ mark ∷ 0 ∷ hex ∷ hex ∷ hex ∷ hex ∷ hex ∷ hex ∷ alpha ∷ alpha ∷ alpha
    ∷ alpha ∷ alpha ∷ alpha ∷ alpha ∷ alpha ∷ alpha ∷ alpha ∷ alpha ∷ alpha ∷ alpha ∷ alpha ∷ alpha
    ∷ alpha ∷ alpha ∷ alpha ∷ alpha ∷ alpha ∷ 0 ∷ 0 ∷ 0 ∷ char_unreserved ∷ 0 ∷ 0 ∷ 0 ∷ 0 ∷ 0 ∷ 0
    ∷ 0 ∷ 0 ∷ 0 ∷ 0 ∷ 0 ∷ 0 ∷ 0 ∷ 0 ∷ 0 ∷ 0 ∷ 0 ∷ 0 ∷ 0 ∷ 0 ∷ 0 ∷ 0 ∷ 0 ∷ 0 ∷ 0 ∷ 0 ∷ 0 ∷ 0 ∷ 0 ∷ 0
    ∷ 0 ∷ 0 ∷ 0 ∷ 0 ∷ 0 ∷ 0 ∷ 0 ∷ 0 ∷ 0 ∷ 0 ∷ 0 ∷ 0 ∷ 0 ∷ 0 ∷ 0 ∷ 0 ∷ 0 ∷ 0 ∷ 0 ∷ 0 ∷ 0 ∷ 0 ∷ 0 ∷ 0
    ∷ 0 ∷ 0 ∷ 0 ∷ 0 ∷ 0 ∷ 0 ∷ 0 ∷ 0 ∷ 0 ∷ 0 ∷ 0 ∷ 0 ∷ 0 ∷ 0 ∷ 0 ∷ 0 ∷ 0 ∷ 0 ∷ 0 ∷ 0 ∷ 0 ∷ 0 ∷ 0 ∷ 0
    ∷ 0 ∷ 0 ∷ 0 ∷ 0 ∷ 0 ∷ 0 ∷ 0 ∷ 0 ∷ 0 ∷ 0 ∷ 0 ∷ 0 ∷ 0 ∷ 0 ∷ 0 ∷ 0 ∷ 0 ∷ 0 ∷ 0 ∷ 0 ∷ 0 ∷ 0 ∷ 0 ∷ 0
    ∷ 0 ∷ 0 ∷ 0 ∷ 0 ∷ 0 ∷ 0 ∷ 0 ∷ 0 ∷ 0 ∷ 0 ∷ 0 ∷ 0 ∷ 0 ∷ 0 ∷ 0 ∷ 0 ∷ 0 ∷ 0 ∷ 0 ∷ 0 ∷ 0 ∷ 0 ∷ 0 ∷ 0
    ∷ 0 ∷ 0 ∷ 0 ∷ []

-- `char_flags[c]`, with no bit outside of the table, which no `unsigned char` reaches.
unfoldable pub char_flags : ℕ → ℕ
unfolding char_flags_table
char_flags c = get_or char_flags_table c 0

-- `flags & bit` as a condition.
abbrev pub has_flag : ℕ → ℕ → Bool
has_flag flags bit = not (bit_and flags bit == 0)

unfoldable pub is_alpha : ℕ → Bool
is_alpha c = has_flag (char_flags c) char_alpha

unfoldable pub is_digit : ℕ → Bool
is_digit c = has_flag (char_flags c) char_digit

unfoldable pub is_hex : ℕ → Bool
is_hex c = has_flag (char_flags c) char_hex

unfoldable pub is_alphanum : ℕ → Bool
is_alphanum c = has_flag (char_flags c) (bit_or char_alpha char_digit)

unfoldable pub is_unreserved : ℕ → Bool
is_unreserved c = has_flag (char_flags c) char_unreserved

unfoldable pub is_subdelim : ℕ → Bool
is_subdelim c = has_flag (char_flags c) char_subdelim

unfoldable pub is_userinfo_char : ℕ → Bool
is_userinfo_char c = has_flag (char_flags c) char_userinfo

-- The fused tests.
unfoldable pub is_userinfo_alphanum : ℕ → Bool
unfolding is_userinfo_char is_alphanum
is_userinfo_alphanum c = is_userinfo_char c && is_alphanum c

unfoldable pub is_hex_userinfo : ℕ → Bool
unfolding is_hex is_userinfo_char
is_hex_userinfo c = is_hex c && is_userinfo_char c

unfoldable pub is_alphanum_or_unreserved : ℕ → Bool
is_alphanum_or_unreserved c =
    has_flag (char_flags c) (bit_or (bit_or char_alpha char_digit) char_unreserved)
