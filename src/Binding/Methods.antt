-- ===== src/Binding/Methods.antt =====
-- lhttp_parser.c: the methods that read a parser. The members of `llhttp_t` and the functions of
-- llhttp that they call are parameters.
use lhttp_parser.Prelude.{ℕ, Bool, not, List, [], ◌∷◌, ◌++◌, Option, none, some, ◌==◌, Bytes, codes}
use lhttp_parser.Binding.Callbacks.{FieldValue, text, number, boolean}

-- What the methods read. A reason that is a null pointer is `none`.
pub record Readers (P : Type 0) : Type 0 where
  pub http_major : P → ℕ
  pub http_minor : P → ℕ
  pub status_code : P → ℕ
  pub method : P → ℕ
  pub upgrade : P → ℕ
  pub llhttp_method_name : ℕ → Bytes
  pub llhttp_get_errno : P → ℕ
  pub llhttp_errno_name : ℕ → Bytes
  pub llhttp_get_error_reason : P → Option Bytes
  pub llhttp_should_keep_alive : P → Bool

-- A method that reads the parser; `tostring` is given what `%p` prints for the userdata.
pub data Reading : Type 0 where
  http_version status_code method http_errno upgrade should_keep_alive : Reading
  tostring : Bytes → Reading

-- A pushed value; `none` is nil.
abbrev pub Pushed : Type 0
Pushed = Option FieldValue

-- `lua_pushstring`, which pushes nil for a null pointer.
abbrev pushstring : Option Bytes → Pushed
pushstring none = none
pushstring (some s) = some (text s)

-- `lhttp_parser_tostring`
abbrev lhttp_parser_tostring : Bytes → List Pushed
lhttp_parser_tostring address = some (text (codes "lhttp_parser " ++ address)) ∷ []

module _ {P : Type 0} (r : Readers P) where
  -- The results of a method, the first one first.
  abbrev readings : P → Reading → List Pushed
  readings p Reading.http_version =
      some (number (r.http_major p)) ∷ some (number (r.http_minor p)) ∷ []
  readings p Reading.status_code = some (number (r.status_code p)) ∷ []
  readings p Reading.method = some (text (r.llhttp_method_name (r.method p))) ∷ []
  readings p Reading.http_errno =
      let http_errno = r.llhttp_get_errno p in
      some (number http_errno)
      ∷ some (text (r.llhttp_errno_name http_errno))
      ∷ pushstring (r.llhttp_get_error_reason p)
      ∷ []
  readings p Reading.upgrade = some (boolean (not (r.upgrade p == 0))) ∷ []
  readings p Reading.should_keep_alive = some (boolean (r.llhttp_should_keep_alive p)) ∷ []
  readings p (Reading.tostring address) = lhttp_parser_tostring address

  -- A method: its results, and the parser behind it. The functions of llhttp take a `const llhttp_t *`,
  -- and the methods assign to no member.
  unfoldable pub read_parser : P → Reading → List Pushed × P
  read_parser p reading = (readings p reading, p)
