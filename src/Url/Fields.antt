-- ===== src/Url/Fields.antt =====
-- llurl.h: the fields of a URL and the result structure; llurl.c: `mark_field` and the
-- initialisation. The bit set `field_set` is the function that says whether bit `1 << f` is set.
use lhttp_parser.Prelude.{ℕ, ◌%◌, Bool, true, false, ◌==◌, if◌then◌else◌}

-- `enum http_parser_url_fields`; `max` is `UF_MAX`, the field that is none.
pub data Field : Type 0 where
  schema host port path query fragment userinfo max : Field

abbrev pub field_index : Field → ℕ
field_index schema = 0
field_index host = 1
field_index port = 2
field_index path = 3
field_index query = 4
field_index fragment = 5
field_index userinfo = 6
field_index max = 7

abbrev pub is_field : Field → Field → Bool
is_field f g = field_index f == field_index g

-- `struct http_parser_url`: `off` and `len` are the `uint16_t` members of `field_data`.
pub record Url : Type 0 where
  pub field_set : Field → Bool
  pub port_number : ℕ
  pub off : Field → ℕ
  pub len : Field → ℕ

abbrev pub update {ℓ} : {A : Type ℓ} → (Field → A) → Field → A → Field → A
update g f v f' = if is_field f f' then v else g f'

-- `http_parser_url_init`
abbrev pub url_init : Url
url_init = record { field_set = λ _. false; port_number = 0; off = λ _. 0; len = λ _. 0 }

abbrev pub mark_field : Url → Field → Url
mark_field u f = record u { field_set = update u.field_set f true }

-- `u->field_set &= ~(1 << f)`
abbrev pub unmark_field : Url → Field → Url
unmark_field u f = record u { field_set = update u.field_set f false }

abbrev pub uint16 : ℕ → ℕ
uint16 n = n % 65536

-- `u->field_data[f].off = off; u->field_data[f].len = len`, both stored in 16 bits
abbrev pub set_field_data : Url → Field → ℕ → ℕ → Url
set_field_data u f off len = record u {
  off = update u.off f (uint16 off);
  len = update u.len f (uint16 len);
}
