-- ===== src/Url/Chars/Ranges.antt =====
-- llurl.c: what the table `char_flags` says of each byte, as ranges of byte values.
use lhttp_parser.Prelude.{
  ℕ, ◌≤◌, ◌≡◌, refl, Bool, true, ◌||◌, inl, inr, arith, ltb, ◌==◌, within, ltb→lt, Bool-cases, eqb,
  eqb→eq, table_holds, table_entry, get_or_out_of_range,
}
use lhttp_parser.Url.Chars.{
  char_flags_table, char_flags, is_alpha, is_digit, is_hex, is_alphanum, is_unreserved, is_subdelim,
  is_userinfo_char,
}

abbrev pub digit_range : ℕ → Bool
digit_range c = within b'0' b'9' c

abbrev pub alpha_range : ℕ → Bool
alpha_range c = within b'a' b'z' c || within b'A' b'Z' c

abbrev pub hex_range : ℕ → Bool
hex_range c = digit_range c || within b'a' b'f' c || within b'A' b'F' c

abbrev subdelim_byte : ℕ → Bool
subdelim_byte c = c == b'!' || c == b'$' || within b'&' b',' c || c == b';' || c == b'='

pub char_flags_above : (c : ℕ) → 256 ≤ c → char_flags c ≡ 0
unfolding char_flags
char_flags_above c h = get_or_out_of_range char_flags_table c 0 h

-- A test of the table is settled by its 256 entries, where the range it is compared with is below.
by_table :
    (p q : ℕ → Bool)
    → table_holds 256 (λ c. eqb (p c) (q c)) ≡ true
    → (c : ℕ) → (256 ≤ c → p c ≡ q c)
    → p c ≡ q c
by_table p q table c above = elim (Bool-cases (ltb c 256)) [
  | inl below ↦ eqb→eq _ _ (table_entry 256 _ c table (ltb→lt c 256 below))
  | inr far ↦ above (ground arith)
]

pub is_digit_range : (c : ℕ) → is_digit c ≡ digit_range c
unfolding is_digit table_holds char_flags
is_digit_range c =
    by_table is_digit digit_range refl c λ far. ground (arith, char_flags_above c far)

pub is_hex_range : (c : ℕ) → is_hex c ≡ hex_range c
unfolding is_hex table_holds char_flags
is_hex_range c = by_table is_hex hex_range refl c λ far. ground (arith, char_flags_above c far)

pub is_alpha_range : (c : ℕ) → is_alpha c ≡ alpha_range c
unfolding is_alpha table_holds char_flags
is_alpha_range c =
    by_table is_alpha alpha_range refl c λ far. ground (arith, char_flags_above c far)

is_subdelim_range : (c : ℕ) → is_subdelim c ≡ subdelim_byte c
unfolding is_subdelim table_holds char_flags
is_subdelim_range c =
    by_table is_subdelim subdelim_byte refl c λ far. ground (arith, char_flags_above c far)

abbrev unreserved_mark : ℕ → Bool
unreserved_mark c = c == b'-' || c == b'.' || c == b'_' || c == b'~'

is_unreserved_range : (c : ℕ) → is_unreserved c ≡ unreserved_mark c
unfolding is_unreserved table_holds char_flags
is_unreserved_range c =
    by_table is_unreserved unreserved_mark refl c λ far. ground (arith, char_flags_above c far)

abbrev pub userinfo_range : ℕ → Bool
userinfo_range c =
    alpha_range c
    || digit_range c
    || within b'&' b'.' c
    || c == b'!'
    || c == b'$'
    || c == b'%'
    || c == b':'
    || c == b';'
    || c == b'='
    || c == b'_'

pub is_userinfo_char_range : (c : ℕ) → is_userinfo_char c ≡ userinfo_range c
unfolding is_userinfo_char table_holds char_flags
is_userinfo_char_range c =
    by_table is_userinfo_char userinfo_range refl c λ far. ground (arith, char_flags_above c far)

is_alphanum_range : (c : ℕ) → is_alphanum c ≡ (alpha_range c || digit_range c)
unfolding is_alphanum table_holds char_flags
is_alphanum_range c =
    by_table is_alphanum (λ b. alpha_range b || digit_range b) refl c
      λ far. ground (arith, char_flags_above c far)

-- What each test of the table is to say of a byte, by the values of bytes.
abbrev pub FlagsSay : ℕ → Type 0
FlagsSay c =
    (is_digit c ≡ digit_range c)
    × (is_hex c ≡ hex_range c)
    × (is_alpha c ≡ alpha_range c)
    × (is_alphanum c ≡ (alpha_range c || digit_range c))
    × (is_subdelim c ≡ subdelim_byte c)
    × (is_unreserved c ≡ unreserved_mark c)
    × (is_userinfo_char c ≡ userinfo_range c)

-- For every number c: the table marks as digits exactly the bytes 0-9, as hexadecimal exactly 0-9,
-- a-f and A-F, as letters exactly a-z and A-Z, as alphanumeric exactly these and the digits, as
-- sub-delimiters exactly ! $ & ' ( ) * + , ; and =, as unreserved marks exactly - . _ and ~, and as
-- bytes of userinfo exactly the alphanumeric ones, the sub-delimiters, % : - . and _, but not ~.
pub char_flags-FlagsSay : (c : ℕ) → FlagsSay c
char_flags-FlagsSay c = (
  is_digit_range c,
  is_hex_range c,
  is_alpha_range c,
  is_alphanum_range c,
  is_subdelim_range c,
  is_unreserved_range c,
  is_userinfo_char_range c,
)
