-- ===== src/Binding/Url/Absolute.antt =====
-- lhttp_url.c: an absolute URL that is given by its parts, as a text and as what `parse` returns.
pub mod Places
pub mod Whole
pub mod Tests
use lhttp_parser.Prelude.{
  ℕ, zero, suc, ◌+◌, ◌*◌, ◌≤◌, ◌<◌, ◌≡◌, ◌≢◌, Bool, true, false, List, [], ◌∷◌, ◌++◌, Option, none,
  some, Bytes, length, All,
}
use lhttp_parser.Binding.Url.{Component, protocol, auth, hostname, port, pathname, query, hash}
use lhttp_parser.Binding.Url.Target.{PathByte, QueryByte}
use lhttp_parser.Url.Automaton.{stay, schema, char_class_table, url_state_table}
use lhttp_parser.Url.Chars.{is_alpha, is_userinfo_char}
use lhttp_parser.Url.Chars.Ranges.{digit_range}
use lhttp_parser.Url.Port.{digit_value}
use lhttp_parser.Url.Scan.{is_server_delim, is_valid_char}

-- The texts of the fields; the schema and the path are given with their first bytes.
pub record Parts : Type 0 where
  pub initial : ℕ
  pub schema_rest : Bytes
  pub user : Option Bytes
  pub host : Bytes
  pub port : Option Bytes
  pub path_rest : Bytes
  pub query : Option Bytes
  pub fragment : Option Bytes

-- A part that may be missing, behind its mark.
abbrev pub marked : ℕ → Option Bytes → Bytes
marked mark none = []
marked mark (some s) = mark ∷ s

-- Userinfo that may be missing, before its mark.
abbrev pub user_text : Option Bytes → Bytes
user_text none = []
user_text (some s) = s ++ (b'@' ∷ [])

abbrev pub schema_text : Parts → Bytes
schema_text p = p.initial ∷ p.schema_rest

abbrev pub path_text : Parts → Bytes
path_text p = b'/' ∷ p.path_rest

abbrev pub slashes_text : Bytes
slashes_text = b':' ∷ b'/' ∷ b'/' ∷ []

-- `schema://user@host:port/path?query#fragment`
abbrev pub url_text : Parts → Bytes
url_text p =
    schema_text p
    ++ (slashes_text
        ++ (user_text p.user
            ++ (p.host
                ++ (marked b':' p.port
                    ++ (path_text p ++ (marked b'?' p.query ++ marked b'#' p.fragment))))))

-- The number that digits spell behind `acc`.
abbrev pub digits_value : ℕ → Bytes → ℕ
digits_value acc [] = acc
digits_value acc (c ∷ s) = digits_value (acc * 10 + digit_value c) s

abbrev pub SchemaByte : ℕ → Type 0
SchemaByte c = url_state_table schema (char_class_table c) ≡ stay

-- A byte of a host name: it may stand in userinfo, and it is no delimiter and no percent sign.
abbrev pub HostByte : ℕ → Type 0
HostByte c = (is_server_delim c ≡ false) × (is_userinfo_char c ≡ true) × (c ≢ b'%')

-- One to five digits for at most 65535.
abbrev pub PortText : Option Bytes → Type 0
PortText none = Unit
PortText (some s) =
    All (λ c. digit_range c ≡ true) s × (1 ≤ length s) × (length s ≤ 5) × (digits_value 0 s ≤ 65535)

abbrev pub AllIf : (ℕ → Type 0) → Option Bytes → Type 0
AllIf P none = Unit
AllIf P (some s) = All P s

pub record IsParts (p : Parts) : Type 0 where
  pub starts : is_alpha p.initial ≡ true
  pub schema : All SchemaByte (schema_text p)
  pub user : AllIf (λ c. is_userinfo_char c ≡ true) p.user
  pub host : All HostByte p.host × (1 ≤ length p.host)
  pub port : PortText p.port
  pub path : All PathByte (path_text p)
  pub query : AllIf QueryByte p.query
  pub fragment : AllIf (λ c. is_valid_char c ≡ true) p.fragment
  pub short : length (url_text p) < 65536

-- The table that `parse` returns.
abbrev pub table_of : Parts → Component → Option Bytes
table_of p Component.protocol = some (schema_text p)
table_of p Component.auth = p.user
table_of p Component.hostname = some p.host
table_of p Component.port = p.port
table_of p Component.pathname = some (path_text p)
table_of p Component.query = p.query
table_of p Component.hash = p.fragment
