-- ===== src/Url/Locality/Parse.antt =====
-- llurl.c: `http_parser_parse_url` reads the buffer alone. The comparison goes by the entry without
-- the read-ahead, the loop and the checks at the end.
use lhttp_parser.Prelude.{
  ℕ, zero, suc, ◌≤◌, ◌<◌, ◌≡◌, refl, sym, ap, ◌∙◌, Bool, Option, none, some, inl, inr, arith, ◌==◌,
  ltb, leb, if◌then◌else◌, ◌&&◌, Memory, Bool-cases, ltb→lt,
}
use lhttp_parser.Url.Bounds.Host.{Within, WithinOption}
use lhttp_parser.Url.Bounds.Parse.{loop-Safe, final_field-Within}
use lhttp_parser.Url.Bounds.Round.{Safe, round-Safe}
use lhttp_parser.Url.Fields.{Field, Url, url_init}
use lhttp_parser.Url.Invariant.{OutcomeAll, ExitAll}
use lhttp_parser.Url.Locality.{Agree}
use lhttp_parser.Url.Locality.Host.{finalize_host_local}
use lhttp_parser.Url.Locality.Round.{round_local}
use lhttp_parser.Url.Locality.Scan.{validate_host_local}
use lhttp_parser.Url.Locals.{Parser, Outcome, fail, continue, break}
use lhttp_parser.Url.Parse.{
  Exit, returned, left, out_of_fuel, loop, final_field, is_complete, is_host_valid, finish,
  finish_exit, enough, parse_from, http_parser_parse_url,
}
use lhttp_parser.Url.ReadAhead.{
  by_automaton, automaton_parse_url, http_parser_parse_url-automaton_parse_url,
}
use lhttp_parser.Url.Round.{round}
use lhttp_parser.Url.Termination.Fuel.{after}

module _ (m m' : Memory) (n : ℕ) (same : Agree m m' n) (short : n < 65536) where
  -- The host, which is checked last, lies inside the buffer.
  abbrev HostSafe : Parser → Type 0
  HostSafe = Safe n Field.host

  abbrev Inside : Parser → Type 0
  Inside p = Within n Field.host p.url × (p.field_start ≤ p.index) × (p.index < n)

  after_local :
      (o : Outcome) (rest rest' : Parser → Exit)
      → OutcomeAll HostSafe o
      → ((q : Parser) → Inside q → rest q ≡ rest' q)
      → after m n o rest ≡ after m' n o rest'
  after_local fail rest rest' s ih = refl
  after_local (break q) rest rest' s ih = refl
  after_local (continue q) rest rest' s ih = elim (Bool-cases (ltb q.index n)) [
    | inl more ↦ rw more (ih q (s.0, s.1, ltb→lt _ _ more))
    | inr over ↦ rw over refl
  ]

  loop_local : (fuel : ℕ) (p : Parser) → Inside p → loop m n fuel p ≡ loop m' n fuel p
  unfolding loop
  loop_local zero p h = refl
  loop_local (suc fuel) p (within, order, inside) =
      ap (λ o. after m n o (loop m n fuel)) (round_local m m' n same p order inside)
      ∙ after_local (round m' n p) (loop m n fuel) (loop m' n fuel)
          (round-Safe m' n Field.host short p (within, order, inl inside)) (loop_local fuel)

  final_field_local : (p : Parser) → HostSafe p → final_field m p ≡ final_field m' p
  unfolding final_field
  final_field_local p (within, order, inr none_open) = rw none_open refl
  final_field_local p (within, order, inl inside) = ground (
    arith,
    finalize_host_local m m' n same p.url p.field_start p.index p.port_start p.found_colon order
        inside,
  )

  is_host_valid_local : (u : Url) → Within n Field.host u → is_host_valid m u ≡ is_host_valid m' u
  unfolding is_host_valid
  is_host_valid_local u within =
      ground (arith, validate_host_local m m' n same (u.off Field.host) (u.len Field.host) within)

  -- The last two checks, on what the final field leaves.
  abbrev checked : Memory → Bool → Parser → Option Url → Option Url
  checked b conn p none = none
  checked b conn p (some u) =
      if is_complete conn p.state u && is_host_valid b u then some u else none

  checked_local :
      (conn : Bool) (p : Parser) (o : Option Url)
      → WithinOption n Field.host o
      → checked m conn p o ≡ checked m' conn p o
  checked_local conn p none within = refl
  checked_local conn p (some u) within = rw (is_host_valid_local u within) refl

  finish_local : (conn : Bool) (p : Parser) → HostSafe p → finish m conn p ≡ finish m' conn p
  unfolding finish
  finish_local conn p s =
      ap (checked m conn p) (final_field_local p s)
      ∙ checked_local conn p (final_field m' p) (final_field-Within m' n Field.host short p s)

  exit_local :
      (conn : Bool) (e : Exit) → ExitAll HostSafe e → finish_exit m conn e ≡ finish_exit m' conn e
  unfolding finish_exit
  exit_local conn returned s = refl
  exit_local conn out_of_fuel s = refl
  exit_local conn (left p) s = finish_local conn p s

  abbrev InsideOption : Option Parser → Type 0
  InsideOption none = Unit
  InsideOption (some p) = Inside p

  by_automaton-InsideOption :
      (b : Memory) (conn : Bool) → 0 < n → InsideOption (by_automaton b n conn url_init)
  unfolding by_automaton
  by_automaton-InsideOption b conn pos = ground arith

  by_automaton_local :
      (conn : Bool) → 0 < n → by_automaton m n conn url_init ≡ by_automaton m' n conn url_init
  unfolding by_automaton
  by_automaton_local conn pos =
      let first : m 0 ≡ m' 0 = same 0 pos in
      elim (Bool-cases (leb 2 n)) [
        | inl two ↦ let second : m 1 ≡ m' 1 = same 1 (ground arith) in ground (arith, first, second)
        | inr one ↦ ground (arith, first)
      ]

  parse_from_local :
      (conn : Bool) (o : Option Parser)
      → InsideOption o
      → parse_from m n conn o ≡ parse_from m' n conn o
  unfolding parse_from
  parse_from_local conn none h = refl
  parse_from_local conn (some p) h =
      ap (finish_exit m conn) (loop_local (enough n) p h)
      ∙ exit_local conn (loop m' n (enough n) p)
          (loop-Safe m' n Field.host short (enough n) p (h.0, h.1, inl h.2))

  automaton_local :
      (conn : Bool) → automaton_parse_url m n conn url_init ≡ automaton_parse_url m' n conn url_init
  unfolding automaton_parse_url
  automaton_local conn = elim (Bool-cases (n == 0)) [
    | inl empty ↦ rw empty refl
    | inr bytes ↦
        let pos : 0 < n = ground arith in
        rw bytes (
          ap (parse_from m n conn) (by_automaton_local conn pos)
          ∙ parse_from_local conn (by_automaton m' n conn url_init)
              (by_automaton-InsideOption m' conn pos))
  ]

-- For every two memories that agree on a buffer of fewer than 65536 bytes, whatever stands behind
-- it, and for each kind of request: `http_parser_parse_url` returns the same on an initialised
-- structure. So no byte past the end of the buffer has a part in its result, although a
-- `ws:`, `wss:` or `ftp:` that fills the buffer makes it read one.
pub http_parser_parse_url-local :
    (m m' : Memory) (n : ℕ) (conn : Bool)
    → n < 65536
    → Agree m m' n
    → http_parser_parse_url m n conn url_init ≡ http_parser_parse_url m' n conn url_init
http_parser_parse_url-local m m' n conn short same =
    http_parser_parse_url-automaton_parse_url m n conn
    ∙ automaton_local m m' n same short conn
    ∙ sym (http_parser_parse_url-automaton_parse_url m' n conn)
