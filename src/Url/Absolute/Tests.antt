-- ===== src/Url/Absolute/Tests.antt =====
-- llurl.c: the parse of an absolute URL, and of a schema that fills the buffer, on small inputs.
use lhttp_parser.Prelude.{
  zero, suc, ◌≡◌, refl, true, false, some, arith, Memory, LacksByte, LacksByte-cons, codes, memory,
  all_from,
}
use lhttp_parser.Url.Absolute.{IsAbsolute, place}
use lhttp_parser.Url.Absolute.Found.{ParsesTo}
use lhttp_parser.Url.Absolute.Parse.{http_parser_parse_url-absolute}
use lhttp_parser.Url.Automaton.{is_invalid, char_class_table, url_state_table}
use lhttp_parser.Url.Chars.{char_flags, is_alpha, is_userinfo_char}
use lhttp_parser.Url.Fields.{url_init}
use lhttp_parser.Url.Locality.{Agree}
use lhttp_parser.Url.Locality.Parse.{http_parser_parse_url-local}
use lhttp_parser.Url.Parse.{http_parser_parse_url}
use lhttp_parser.Url.ReadAhead.{automaton_parse_url, http_parser_parse_url-automaton_parse_url}

-- The schema ends at 4, userinfo at 10, the host at 14, the port at 17, the path at 19, the query at 21.
abbrev whole : Memory
whole = memory (codes "http://u:p@a.b:80/p?q#f")

no_percent : LacksByte whole b'%' 11 3
no_percent = LacksByte-cons whole b'%' 11 2 (omega arith) (
    LacksByte-cons whole b'%' 12 1 (omega arith)
      (LacksByte-cons whole b'%' 13 0 (omega arith) λ i le lt e. omega arith))

no_hash : LacksByte whole b'#' 20 1
no_hash = LacksByte-cons whole b'#' 20 0 (omega arith) λ i le lt e. omega arith

whole-IsAbsolute : IsAbsolute whole 23 4 (some 11) 14 17 19 21 (some 80) true true
unfolding is_alpha char_flags url_state_table char_class_table is_userinfo_char is_invalid all_from
whole-IsAbsolute = record {
  starts = refl;
  schema = ((((tt, refl), refl), refl), refl);
  colon = refl;
  slashes = (refl, refl);
  userinfo = (omega arith, refl, refl);
  host = (((refl, refl), ((refl, refl), ((refl, refl), tt))), omega arith);
  plain = no_percent;
  port_part = (refl, omega arith, refl);
  path = (refl, ((refl, refl), ((refl, refl), tt)), omega arith);
  query_part = (refl, omega arith, no_hash, refl);
  fragment_part = (refl, omega arith, refl);
}

absolute_example :
    ParsesTo
      (http_parser_parse_url whole 23 false url_init)
      (place 23 4 (some 11) 14 17 19 21 (some 80) true true)
      80
absolute_example =
    http_parser_parse_url-absolute whole 23 4 (some 11) 14 17 19 21 (some 80) true true
      (omega arith) whole-IsAbsolute

automaton_example :
    http_parser_parse_url whole 23 false url_init ≡ automaton_parse_url whole 23 false url_init
automaton_example = http_parser_parse_url-automaton_parse_url whole 23 false

-- `ws:` in a buffer of three bytes, with a slash or a NUL behind it.
edge-Agree : Agree (memory (codes "ws:")) (memory (codes "ws:/")) 3
edge-Agree zero lt = refl
edge-Agree (suc zero) lt = refl
edge-Agree (suc (suc zero)) lt = refl
edge-Agree (suc (suc (suc i))) lt = absurd (omega arith)

local_example :
    http_parser_parse_url (memory (codes "ws:")) 3 false url_init
    ≡ http_parser_parse_url (memory (codes "ws:/")) 3 false url_init
local_example =
    http_parser_parse_url-local (memory (codes "ws:")) (memory (codes "ws:/")) 3 false (omega arith)
      edge-Agree
