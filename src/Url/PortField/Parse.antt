-- ===== src/Url/PortField/Parse.antt =====
-- llurl.c: the port number that `http_parser_parse_url` returns.
use mathlib.Core.Path.{subst}
use lhttp_parser.Prelude.{
  ℕ, ◌<◌, ◌≡◌, Bool, true, Option, none, some, inl, inr, arith, ◌==◌, Memory, Bool-cases,
}
use lhttp_parser.Url.Bounds.Parse.{ReadyOption, first_round-Ready}
use lhttp_parser.Url.Bounds.Round.{Safe, Ready, round-Safe}
use lhttp_parser.Url.Fields.{Field, Url, url_init}
use lhttp_parser.Url.Invariant.{OutcomeAll, ExitAll, loop_inv}
use lhttp_parser.Url.Locals.{Parser, Outcome, fail, continue, break}
use lhttp_parser.Url.Parse.{
  first_round, Exit, returned, left, out_of_fuel, loop, final_field, finish, finish_exit, enough,
  parse_from, http_parser_parse_url,
}
use lhttp_parser.Url.PortField.Host.{PortExactOption, finalize_host-PortExact}
use lhttp_parser.Url.PortField.Round.{Exact, round-Exact}
use lhttp_parser.Url.Port.Reference.{port_of}
use lhttp_parser.Url.Round.{round}

-- One field stands for all in the bounds, which are wanted here of the cursor alone.
abbrev g : Field
g = Field.port

module _ (m : Memory) (n : ℕ) (short : n < 65536) where
  abbrev Before : Parser → Type 0
  Before p = Ready m n g short p × Exact m p

  abbrev Behind : Parser → Type 0
  Behind q = Safe n g q × Exact m q

  both : (o : Outcome) → OutcomeAll (Safe n g) o → OutcomeAll (Exact m) o → OutcomeAll Behind o
  both fail s e = tt
  both (continue q) s e = (s, e)
  both (break q) s e = (s, e)

  keep : (p : Parser) → Before p → OutcomeAll Behind (round m n p)
  keep p (ready, exact) =
      both (round m n p) (round-Safe m n g short p ready)
        (round-Exact m n short p exact ready.1 ready.2)

  loop-Behind : (fuel : ℕ) (p : Parser) → Before p → ExitAll Behind (loop m n fuel p)
  loop-Behind =
      loop_inv m n Before Behind keep
        (λ q (safe, exact) inside. ((safe.0, safe.1, inl inside), exact))

  final_field-Exact : (p : Parser) → Behind p → PortExactOption m (final_field m p)
  unfolding final_field
  final_field-Exact p ((h, order, inr none_open), exact) = rw none_open exact.0
  final_field-Exact p ((h, order, inl inside), exact) = ground (
    arith,
    finalize_host-PortExact m n short p.url p.field_start p.index p.port_start p.found_colon
        exact.0,
  )

  exit-Exact :
      (conn : Bool) (e : Exit) → ExitAll Behind e → PortExactOption m (finish_exit m conn e)
  unfolding finish_exit finish
  exit-Exact conn returned b = tt
  exit-Exact conn out_of_fuel b = tt
  exit-Exact conn (left p) b = ground (arith, final_field-Exact p b)

  -- No way into the loop has set the PORT field.
  abbrev Entered : Option Parser → Type 0
  Entered none = Unit
  Entered (some p) = Exact m p

  first_round-Entered : (conn : Bool) → Entered (first_round m n conn url_init)
  unfolding first_round
  first_round-Entered conn = ground arith

  parse_from-Exact :
      (conn : Bool) (o : Option Parser)
      → ReadyOption m n g short o
      → Entered o
      → PortExactOption m (parse_from m n conn o)
  unfolding parse_from
  parse_from-Exact conn none r e = tt
  parse_from-Exact conn (some p) r e = exit-Exact conn _ (loop-Behind (enough n) p (r, e))

  call-Exact : (conn : Bool) → PortExactOption m (http_parser_parse_url m n conn url_init)
  unfolding http_parser_parse_url
  call-Exact conn = elim (Bool-cases (n == 0)) [
    | inl empty ↦ rw empty tt
    | inr bytes ↦ rw bytes (
        parse_from-Exact conn _ (first_round-Ready m n g short conn (ground arith))
          (first_round-Entered conn))
  ]

-- For every memory and every buffer of fewer than 65536 bytes: where `http_parser_parse_url`
-- succeeds on an initialised structure and the PORT field is set, that field is one to five digits
-- of the buffer, and the port number is the number that they spell, at most 65535.
pub http_parser_parse_url-port_number :
    (m : Memory) (n : ℕ) (conn : Bool) {u : Url}
    → n < 65536
    → http_parser_parse_url m n conn url_init ≡ some u
    → u.field_set Field.port ≡ true
    → port_of m (u.off Field.port) (u.len Field.port) ≡ some u.port_number
http_parser_parse_url-port_number m n conn {u} short ok has =
    subst (PortExactOption m) ok (call-Exact m n short conn) has
