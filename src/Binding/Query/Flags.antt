-- ===== src/Binding/Query/Flags.antt =====
-- lhttp_url.c: the flags that the options of `parse_query` stand for.
use lhttp_parser.Prelude.{ℕ, ◌≡◌, Bool, true, false, arith}
use lhttp_parser.Binding.Query.{
  Options, opt_bool_field, clear_unless, set_if, default_flags, option_flags,
}
use lhttp_parser.Query.Data.{
  auto_decode, merge_duplicates, keep_empty, strict, lowercase_keys, trim_values, has_option,
}

-- The flags of six Booleans, in the order in which the code reads the options.
abbrev flags_of : Bool → Bool → Bool → Bool → Bool → Bool → ℕ
flags_of decode merge keep lower trim strictly = set_if strictly strict (
    set_if trim trim_values (
      set_if lower lowercase_keys (
        clear_unless keep keep_empty
          (clear_unless merge merge_duplicates (clear_unless decode auto_decode default_flags)))))

abbrev Bits : Bool → Bool → Bool → Bool → Bool → Bool → Type 0
Bits decode merge keep lower trim strictly =
    let flags = flags_of decode merge keep lower trim strictly in
    (has_option flags auto_decode ≡ decode)
    × (has_option flags merge_duplicates ≡ merge)
    × (has_option flags keep_empty ≡ keep)
    × (has_option flags lowercase_keys ≡ lower)
    × (has_option flags trim_values ≡ trim)
    × (has_option flags strict ≡ strictly)

flags_of-Bits : (a b c d e f : Bool) → Bits a b c d e f
flags_of-Bits a b c d e f = ground arith

-- For all options: the flags hold exactly the options that are true, where `decode`,
-- `merge_duplicates` and `keep_empty` count as true if they are left out, and the others as false.
pub option_flags-options :
    (o : Options)
    → (has_option (option_flags o) auto_decode ≡ opt_bool_field o.decode true)
      × (has_option (option_flags o) merge_duplicates ≡ opt_bool_field o.merge_duplicates true)
      × (has_option (option_flags o) keep_empty ≡ opt_bool_field o.keep_empty true)
      × (has_option (option_flags o) lowercase_keys ≡ opt_bool_field o.lowercase_keys false)
      × (has_option (option_flags o) trim_values ≡ opt_bool_field o.trim_values false)
      × (has_option (option_flags o) strict ≡ opt_bool_field o.strict false)
unfolding option_flags
option_flags-options o =
    flags_of-Bits (opt_bool_field o.decode true) (opt_bool_field o.merge_duplicates true)
      (opt_bool_field o.keep_empty true) (opt_bool_field o.lowercase_keys false)
      (opt_bool_field o.trim_values false) (opt_bool_field o.strict false)
