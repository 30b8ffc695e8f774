-- ===== src/Url/Tests.antt =====
-- llurl.c: runs of the parser on small inputs.
use Prim.Native.String.{String}
use mathlib.Core.Option.{get_or}
use lhttp_parser.Prelude.{
  Memory, ℕ, zero, suc, ◌+◌, LacksByte, ◌≤◌, ◌≢◌, ◌↔◌, arith, Bytes, ◌≡◌, refl, Bool, true, false,
  Option, none, some, List, [], ◌∷◌, map, codes, length, memory, memchr, all_from,
}
use lhttp_parser.Url.Automaton.{State, char_class_table, is_invalid, url_state_table}
use lhttp_parser.Url.Chars.{char_flags, is_alpha, is_digit, is_hex, is_userinfo_char}
use lhttp_parser.Url.Bounds.Parse.{http_parser_parse_url-in_bounds}
use lhttp_parser.Url.Chars.Ranges.{FlagsSay, char_flags-FlagsSay}
use lhttp_parser.Url.Connect.{http_parser_parse_url-connect}
use lhttp_parser.Url.Fields.{Field, Url, url_init}
use lhttp_parser.Url.Host.{
  finalize_bracket, finalize_fields, finalize_host_with_port, validate_host_percent_encoding,
}
use lhttp_parser.Url.Host.Percent.{PercentsPaired, validate_host_percent_encoding_iff}
use lhttp_parser.Url.Port.Reference.{port_of, parse_port-port_of}
use lhttp_parser.Url.PortField.Parse.{http_parser_parse_url-port_number}
use lhttp_parser.Url.Target.{target, http_parser_parse_url-target}
use lhttp_parser.Url.Termination.{loop-ne-out_of_fuel}
use lhttp_parser.Url.Parse.{
  out_of_fuel, enough, locals, common_schema, first_round, loop, finish_exit, parse_from,
  http_parser_parse_url,
}
use lhttp_parser.Url.Port.{parse_port}
use lhttp_parser.Url.Round.{
  slash_state, path_state, query_or_fragment_state, query_state, fragment_state, round,
}
use lhttp_parser.Url.Scan.{scan_path, scan_server}
use lhttp_parser.Url.Server.{
  server_start_state, server_state, server_byte, colon, at_sign, end_host, open_bracket,
  close_bracket,
}

abbrev text : Bytes
text = codes "http://u:p@a.b:80/p?q#f"

parse_text : Bool → Bytes → Option Url
unfolding http_parser_parse_url parse_from common_schema first_round loop finish_exit round
    parse_port finalize_host_with_port finalize_fields finalize_bracket
    validate_host_percent_encoding memchr all_from scan_path scan_server is_alpha is_digit is_hex
    is_userinfo_char char_flags is_invalid char_class_table url_state_table open_bracket slash_state
    server_start_state server_state server_byte colon at_sign end_host close_bracket path_state
    query_or_fragment_state query_state fragment_state
parse_text conn s = http_parser_parse_url (memory s) (length s) conn url_init

sample : Url
unfolding parse_text
sample = get_or (parse_text false text) url_init

sample_parsed : http_parser_parse_url (memory text) (length text) false url_init ≡ some sample
unfolding sample
sample_parsed = refl

in_bounds_example : sample.off Field.port + sample.len Field.port ≤ 23
in_bounds_example =
    http_parser_parse_url-in_bounds (memory text) 23 false (omega arith) sample_parsed Field.port

port_number_example :
    port_of (memory text) (sample.off Field.port) (sample.len Field.port) ≡ some sample.port_number
port_number_example =
    http_parser_parse_url-port_number (memory text) 23 false (omega arith) sample_parsed
      (unfold sample in refl)

loop_example : loop (memory text) 23 (enough 23) (locals url_init State.schema 0) ≢ out_of_fuel
loop_example = loop-ne-out_of_fuel (memory text) 23 (locals url_init State.schema 0)

parse_port_example : parse_port (memory text) 15 2 ≡ port_of (memory text) 15 2
parse_port_example = parse_port-port_of (memory text) 15 2

no_colon : LacksByte (memory (codes "a%41")) b':' 0 4
no_colon zero le lt e = omega arith
no_colon (suc zero) le lt e = omega arith
no_colon (suc (suc zero)) le lt e = omega arith
no_colon (suc (suc (suc zero))) le lt e = omega arith
no_colon (suc (suc (suc (suc q)))) le lt e = omega arith

percent_example :
    (validate_host_percent_encoding (memory (codes "a%41")) 0 4 ≡ true)
    ↔ PercentsPaired (memory (codes "a%41")) 0 4
percent_example = validate_host_percent_encoding_iff (memory (codes "a%41")) 0 4 no_colon

flags_example : FlagsSay b'%'
flags_example = char_flags-FlagsSay b'%'

abbrev request : Memory
request = memory (codes "/p?q")

no_hash : LacksByte request b'#' 3 1
no_hash zero le lt e = omega arith
no_hash (suc zero) le lt e = omega arith
no_hash (suc (suc zero)) le lt e = omega arith
no_hash (suc (suc (suc zero))) le lt e = omega arith
no_hash (suc (suc (suc (suc k)))) le lt e = omega arith

target_example : http_parser_parse_url request 4 false url_init ≡ some (target 2 4)
unfolding all_from is_invalid char_class_table
target_example =
    http_parser_parse_url-target request 4 2 (omega arith) refl (omega arith)
      ((refl, refl), ((refl, refl), tt)) refl (omega arith) no_hash refl

abbrev authority : Bytes
authority = codes "a:1"

tunnel : Url
unfolding parse_text
tunnel = get_or (parse_text true authority) url_init

tunnel_parsed : http_parser_parse_url (memory authority) 3 true url_init ≡ some tunnel
unfolding tunnel
tunnel_parsed = refl

connect_example :
    (tunnel.field_set Field.host ≡ true)
    × (tunnel.field_set Field.port ≡ true)
    × (tunnel.field_set Field.path ≡ false)
connect_example =
    http_parser_parse_url-connect (memory authority) 3 Field.path
      (omega arith, omega arith, omega arith) tunnel_parsed

-- A field that is set, with its offset and length.
abbrev found : Url → Field → Option (ℕ × ℕ)
found u f = elim (u.field_set f) [ true ↦ some (u.off f, u.len f) | false ↦ none ]

abbrev parts : Option Url → Option (List (Option (ℕ × ℕ)) × ℕ)
parts none = none
parts (some u) = some (
  map (found u) (
      Field.schema ∷ Field.host ∷ Field.port ∷ Field.path ∷ Field.query ∷ Field.fragment
      ∷ Field.userinfo ∷ []),
  u.port_number,
)

run_url : Bool → String → Option (List (Option (ℕ × ℕ)) × ℕ)
unfolding http_parser_parse_url parse_from common_schema first_round loop finish_exit round
    parse_port finalize_host_with_port finalize_fields finalize_bracket
    validate_host_percent_encoding memchr all_from scan_path scan_server is_alpha is_digit is_hex
    is_userinfo_char char_flags is_invalid char_class_table url_state_table open_bracket slash_state
    server_start_state server_state server_byte colon at_sign end_host close_bracket path_state
    query_or_fragment_state query_state fragment_state
run_url conn s = parts (http_parser_parse_url (memory (codes s)) (length (codes s)) conn url_init)

full_url :
    run_url false "http://u:p@a.b:80/p?q#f"
    ≡ some (
      some (0, 4)
          ∷ some (11, 3)
          ∷ some (15, 2)
          ∷ some (17, 2)
          ∷ some (20, 1)
          ∷ some (22, 1)
          ∷ some (7, 3)
          ∷ [],
      80,
    )
unfolding run_url
full_url = refl
