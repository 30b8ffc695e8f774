-- ===== src/Binding/Url/Absolute/Tests.antt =====
-- lhttp_url.c: `parse` of a URL that has every part.
use lhttp_parser.Prelude.{◌≡◌, refl, false, some, arith, length, codes, memory}
use lhttp_parser.Binding.Url.{parse_url}
use lhttp_parser.Binding.Url.Absolute.{Parts, url_text, IsParts, table_of}
use lhttp_parser.Binding.Url.Absolute.Whole.{parse_url-table_of}
use lhttp_parser.Url.Automaton.{is_invalid, char_class_table, url_state_table}
use lhttp_parser.Url.Chars.{char_flags, is_alpha, is_userinfo_char}

-- `http://u:p@a.b:80/p?q#f`
abbrev every_part : Parts
every_part = record {
  initial = b'h';
  schema_rest = codes "ttp";
  user = some (codes "u:p");
  host = codes "a.b";
  port = some (codes "80");
  path_rest = codes "p";
  query = some (codes "q");
  fragment = some (codes "f");
}

every_part-text : url_text every_part ≡ codes "http://u:p@a.b:80/p?q#f"
every_part-text = refl

every_part-IsParts : IsParts every_part
unfolding is_alpha char_flags url_state_table char_class_table is_userinfo_char is_invalid
every_part-IsParts = record {
  starts = refl;
  schema = (refl, (refl, (refl, (refl, tt))));
  user = (refl, (refl, (refl, tt)));
  host = (
    (
      (refl, refl, λ e. omega arith),
      ((refl, refl, λ e. omega arith), ((refl, refl, λ e. omega arith), tt)),
    ),
    omega arith,
  );
  port = ((refl, (refl, tt)), omega arith, omega arith, omega arith);
  path = ((refl, refl), ((refl, refl), tt));
  query = ((λ e. omega arith, refl), tt);
  fragment = (refl, tt);
  short = omega arith;
}

every_part_example :
    parse_url (memory (url_text every_part)) (length (url_text every_part)) false
    ≡ some (table_of every_part)
every_part_example = parse_url-table_of every_part every_part-IsParts
