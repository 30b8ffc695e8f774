-- ===== src/Url/Scan.antt =====
-- llurl.c: the scanning loops of `http_parser_parse_url`.
use lhttp_parser.Prelude.{
  ℕ, zero, suc, ◌+◌, Bool, not, ◌||◌, Option, none, some, ◌==◌, if◌then◌else◌, Memory,
}
use lhttp_parser.Url.Automaton.{is_invalid}
use lhttp_parser.Url.Chars.{is_hex, is_userinfo_char}

-- `c == '?' || c == '#'`
abbrev pub ends_path : ℕ → Bool
ends_path c = c == b'?' || c == b'#'

-- The path scan: from `j` on, with `n` bytes left, to the first `?` or `#` or the end of the
-- buffer; `none` at an invalid byte before it.
unfoldable pub scan_path : Memory → ℕ → ℕ → Option ℕ
scan_path m j zero = some j
scan_path m j (suc n) =
    if ends_path (m j) then some j else if is_invalid (m j) then none else scan_path m (j + 1) n

-- The bytes at which the server scan stops.
abbrev pub is_server_delim : ℕ → Bool
is_server_delim c = c == b'@' || c == b'[' || c == b':' || c == b'/' || c == b'?' || c == b'#'

-- The server scan: to the first delimiter or the end; `none` at a byte that userinfo lacks.
unfoldable pub scan_server : Memory → ℕ → ℕ → Option ℕ
scan_server m j zero = some j
scan_server m j (suc n) =
    if is_server_delim (m j)
    then some j
    else if not (is_userinfo_char (m j))
    then none
    else scan_server m (j + 1) n

-- What an address between brackets may hold, before a zone.
abbrev pub is_ipv6_char : ℕ → Bool
is_ipv6_char c = is_hex c || c == b':' || c == b'.'

abbrev pub is_valid_char : ℕ → Bool
is_valid_char c = not (is_invalid c)
