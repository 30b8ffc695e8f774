-- ===== src/Query/Chars/Hex.antt =====
-- llquery.c: what the two tables say of the bytes that an encoder writes.
use lhttp_parser.Prelude.{
  ℕ, ◌≤◌, ◌≡◌, refl, Bool, true, ◌||◌, inl, inr, arith, ltb, ◌==◌, within, ltb→lt, Bool-cases, eqb,
  eqb→eq, table_holds, table_entry, get_or_out_of_range,
}
use lhttp_parser.Query.Chars.{
  char_flags_table, char_flags, is_separator, is_equal, is_encoded, is_alnum, is_space, is_upper,
}

flags_above : (c : ℕ) → 256 ≤ c → char_flags c ≡ 0
unfolding char_flags
flags_above c h = get_or_out_of_range char_flags_table c 0 h

-- A test of the table is settled by its 256 entries, where the range it is compared with is below.
by_table :
    (p q : ℕ → Bool)
    → table_holds 256 (λ c. eqb (p c) (q c)) ≡ true
    → (c : ℕ) → (256 ≤ c → p c ≡ q c)
    → p c ≡ q c
by_table p q table c above = elim (Bool-cases (ltb c 256)) [
  | inl below ↦ eqb→eq _ _ (table_entry 256 _ c table (ltb→lt c 256 below))
  | inr far ↦ above (ground arith)
]

abbrev pub alnum_range : ℕ → Bool
alnum_range c = within b'0' b'9' c || within b'a' b'z' c || within b'A' b'Z' c

pub is_alnum_range : (c : ℕ) → is_alnum c ≡ alnum_range c
unfolding is_alnum table_holds char_flags
is_alnum_range c = by_table is_alnum alnum_range refl c λ far. ground (arith, flags_above c far)

pub is_separator_lem : (c : ℕ) → is_separator c ≡ (c == b'&')
unfolding is_separator table_holds char_flags
is_separator_lem c =
    by_table is_separator (λ b. b == b'&') refl c λ far. ground (arith, flags_above c far)

pub is_equal_lem : (c : ℕ) → is_equal c ≡ (c == b'=')
unfolding is_equal table_holds char_flags
is_equal_lem c = by_table is_equal (λ b. b == b'=') refl c λ far. ground (arith, flags_above c far)

pub is_encoded_lem : (c : ℕ) → is_encoded c ≡ (c == b'%' || c == b'+')
unfolding is_encoded table_holds char_flags
is_encoded_lem c =
    by_table is_encoded (λ b. b == b'%' || b == b'+') refl c
      λ far. ground (arith, flags_above c far)

abbrev pub space_range : ℕ → Bool
space_range c = within 9 13 c || c == b' '

pub is_space_range : (c : ℕ) → is_space c ≡ space_range c
unfolding is_space table_holds char_flags
is_space_range c = by_table is_space space_range refl c λ far. ground (arith, flags_above c far)

pub is_upper_range : (c : ℕ) → is_upper c ≡ within b'A' b'Z' c
unfolding is_upper table_holds char_flags
is_upper_range c =
    by_table is_upper (within b'A' b'Z') refl c λ far. ground (arith, flags_above c far)
