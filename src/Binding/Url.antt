-- ===== src/Binding/Url.antt =====
-- lhttp_url.c: `lhttp_parser_parse_url`, the function `parse` of the module.
pub mod Target
pub mod Absolute
use lhttp_parser.Prelude.{
  ℕ, Bool, Option, none, some, if◌then◌else◌, Bytes, Memory, shift, bytes_at,
}
use lhttp_parser.Url.Fields.{Field, Url, url_init}
use lhttp_parser.Url.Parse.{http_parser_parse_url}

-- The keys of the table that `parse` returns.
pub data Component : Type 0 where
  protocol auth hostname port pathname query hash : Component

abbrev pub field_of : Component → Field
field_of protocol = Field.schema
field_of auth = Field.userinfo
field_of hostname = Field.host
field_of port = Field.port
field_of pathname = Field.path
field_of query = Field.query
field_of hash = Field.fragment

-- What the table holds for a field: `lua_pushlstring` of its bytes, where the field is set.
abbrev pub field_text : Memory → Url → Field → Option Bytes
field_text url u f = if u.field_set f then some (bytes_at (shift (u.off f) url) (u.len f)) else none

-- `lhttp_parser_parse_url` on a structure of zeros; `none` where it returns no value.
unfoldable pub parse_url : Memory → ℕ → Bool → Option (Component → Option Bytes)
parse_url url len is_connect = elim (http_parser_parse_url url len is_connect url_init) [
  | none ↦ none
  | some u ↦ some (λ c. field_text url u (field_of c))
]
