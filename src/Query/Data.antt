-- ===== src/Query/Data.antt =====
-- llquery.h: the options, the error codes and the pairs of a query.
use lhttp_parser.Prelude.{ℕ, Bool, not, ◌==◌, Bytes, bit_and}

-- `enum llquery_option_flags`
abbrev pub auto_decode : ℕ
auto_decode = 1

abbrev pub merge_duplicates : ℕ
merge_duplicates = 2

abbrev pub keep_empty : ℕ
keep_empty = 4

abbrev pub strict : ℕ
strict = 8

abbrev pub sort_keys : ℕ
sort_keys = 16

abbrev pub lowercase_keys : ℕ
lowercase_keys = 32

abbrev pub trim_values : ℕ
trim_values = 64

-- `flags & option`
abbrev pub has_option : ℕ → ℕ → Bool
has_option flags option = not (bit_and flags option == 0)

-- `enum llquery_error`
pub data Error : Type 0 where
  ok null_input empty_string invalid_hex buffer_too_small memory_error : Error
  too_many_pairs invalid_format internal_error : Error

-- `struct llquery_kv`
pub record Kv : Type 0 where
  pub key : Bytes
  pub value : Bytes
  pub is_encoded : Bool
