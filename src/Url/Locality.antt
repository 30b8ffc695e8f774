-- ===== src/Url/Locality.antt =====
-- llurl.c: what `http_parser_parse_url` returns depends on the bytes of the buffer alone. Two
-- memories that agree below `n` are compared, function by function.
pub mod Scan
pub mod Host
pub mod Round
pub mod Parse
use lhttp_parser.Prelude.{ℕ, ◌<◌, ◌≡◌, Memory}

-- The memories agree on the buffer; past its end they are arbitrary.
abbrev pub Agree : Memory → Memory → ℕ → Type 0
Agree m m' n = (i : ℕ) → i < n → m i ≡ m' i
