-- ===== src/Url/Bounds/Parse.antt =====
-- llurl.c: `http_parser_parse_url` returns fields that lie inside the buffer.
use mathlib.Core.Path.{subst}
use lhttp_parser.Prelude.{
  ℕ, ◌+◌, ◌≤◌, ◌<◌, ◌≡◌, Bool, true, false, Option, none, some, inl, inr, arith, ◌==◌, Memory,
  Bool-cases,
}
use lhttp_parser.Url.Bounds.Host.{WithinOption, finalize_host-Within}
use lhttp_parser.Url.Bounds.Round.{Safe, Ready, round-Safe}
use lhttp_parser.Url.Fields.{Field, Url, url_init}
use lhttp_parser.Url.Invariant.{ExitAll, loop_inv}
use lhttp_parser.Url.Locals.{Parser}
use lhttp_parser.Url.Parse.{
  common_schema, fast_schema, generic_schema, first_round, Exit, returned, left, out_of_fuel, loop,
  final_field, finish, finish_exit, enough, parse_from, http_parser_parse_url,
}

module _ (m : Memory) (n : ℕ) (g : Field) (short : n < 65536) where
  pub loop-Safe :
      (fuel : ℕ) (p : Parser) → Ready m n g short p → ExitAll (Safe n g) (loop m n fuel p)
  loop-Safe =
      loop_inv m n (Ready m n g short) (Safe n g) (round-Safe m n g short)
        (λ q s inside. (s.0, s.1, inl inside))

  pub final_field-Within : (p : Parser) → Safe n g p → WithinOption n g (final_field m p)
  unfolding final_field
  final_field-Within p (h, order, inr none_open) = rw none_open h
  final_field-Within p (h, order, inl inside) = ground (
    arith,
    finalize_host-Within m n g short p.url p.field_start p.index p.port_start p.found_colon,
  )

  finish-Within : (conn : Bool) (p : Parser) → Safe n g p → WithinOption n g (finish m conn p)
  unfolding finish
  finish-Within conn p s = ground (arith, final_field-Within p s)

  abbrev pub ReadyOption : Option Parser → Type 0
  ReadyOption none = Unit
  ReadyOption (some p) = Ready m n g short p

  -- A schema that is read ahead lies inside the buffer.
  abbrev SchemaFits : Option (ℕ × ℕ) → Type 0
  SchemaFits none = Unit
  SchemaFits (some (len, i)) = len ≤ n

  common_schema-SchemaFits : SchemaFits (common_schema m n)
  unfolding common_schema
  common_schema-SchemaFits = ground arith

  schema-Ready :
      (o : Option (ℕ × ℕ))
      → SchemaFits o
      → 0 < n
      → ReadyOption (elim o [
        | some (len, i) ↦ some (fast_schema m n url_init len i)
        | none ↦ some (generic_schema m n url_init)
      ])
  schema-Ready none h pos = ground arith
  schema-Ready (some (len, i)) h pos = ground arith

  -- Where a call enters the loop, the one field that may be written lies inside the buffer.
  pub first_round-Ready : (conn : Bool) → 0 < n → ReadyOption (first_round m n conn url_init)
  unfolding first_round
  first_round-Ready true pos = ground arith
  first_round-Ready false pos =
      ground (arith, schema-Ready (common_schema m n) common_schema-SchemaFits pos)

  exit-Within :
      (conn : Bool) (e : Exit) → ExitAll (Safe n g) e → WithinOption n g (finish_exit m conn e)
  unfolding finish_exit
  exit-Within conn returned s = tt
  exit-Within conn out_of_fuel s = tt
  exit-Within conn (left p) s = finish-Within conn p s

  parse_from-Within :
      (conn : Bool) (o : Option Parser) → ReadyOption o → WithinOption n g (parse_from m n conn o)
  unfolding parse_from
  parse_from-Within conn none r = tt
  parse_from-Within conn (some p) r = exit-Within conn _ (loop-Safe (enough n) p r)

  call-Within : (conn : Bool) → WithinOption n g (http_parser_parse_url m n conn url_init)
  unfolding http_parser_parse_url
  call-Within conn = elim (Bool-cases (n == 0)) [
    | inl empty ↦ rw empty tt
    | inr bytes ↦ rw bytes (parse_from-Within conn _ (first_round-Ready conn (ground arith)))
  ]

-- For every memory and every buffer of fewer than 65536 bytes: where `http_parser_parse_url`
-- succeeds on an initialised structure, the offset and the length of every field, set or not, add
-- up to at most the length of the buffer.
pub http_parser_parse_url-in_bounds :
    (m : Memory) (n : ℕ) (conn : Bool) {u : Url}
    → n < 65536
    → http_parser_parse_url m n conn url_init ≡ some u
    → (f : Field) → u.off f + u.len f ≤ n
http_parser_parse_url-in_bounds m n conn {u} short ok f =
    subst (WithinOption n f) ok (call-Within m n f short conn)
