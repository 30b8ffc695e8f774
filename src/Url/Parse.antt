-- ===== src/Url/Parse.antt =====
-- llurl.c: `http_parser_parse_url`: the first state, the loop, and the checks at its end. The
-- result is the structure where the call returns 0, and `none` where it returns 1; what a failed
-- call leaves in the structure is not modelled.
use lhttp_parser.Prelude.{
  ℕ, zero, suc, ◌+◌, ◌*◌, Bool, true, false, not, ◌&&◌, ◌||◌, Option, none, some, ◌==◌, ltb, leb,
  if◌then◌else◌, Memory,
}
use lhttp_parser.Url.Automaton.{
  State, schema, schema_slash, server_start, server, server_with_at, path,
}
use lhttp_parser.Url.Chars.{is_alpha}
use lhttp_parser.Url.Fields.{Field, Url, is_field, mark_field, set_field_data}
use lhttp_parser.Url.Host.{finalize_host_with_port, validate_host_percent_encoding}
use lhttp_parser.Url.Locals.{Parser, fail, continue, break, enter, close_field}
use lhttp_parser.Url.Round.{round}

-- The locals as they are declared; every way in sets `state` and `index`.
abbrev pub locals : Url → State → ℕ → Parser
locals u s i = record {
  state = s;
  field = Field.max;
  field_start = 0;
  index = i;
  port_start = 0;
  found_colon = false;
  bracket_depth = 0;
  url = u;
}

module _ (m : Memory) (n : ℕ) where
  -- The schemas read without the automaton: the length of the name, and the index behind its `:`.
  unfoldable pub common_schema : Option (ℕ × ℕ)
  common_schema =
      if leb 7 n && (m 0 == b'h' && m 1 == b't' && m 2 == b't' && m 3 == b'p')
      then (if leb 8 n && (m 4 == b's' && m 5 == b':')
          then some (5, 6)
          else if m 4 == b':'
          then some (4, 5)
          else none)
      else if leb 4 n && (m 0 == b'f' && m 1 == b't' && m 2 == b'p' && m 3 == b':')
      then some (3, 4)
      else if leb 3 n && (m 0 == b'w' && m 1 == b's')
      then (if leb 4 n && (m 2 == b's' && m 3 == b':')
          then some (3, 4)
          else if m 2 == b':'
          then some (2, 3)
          else none)
      else none

  -- The generic way into a schema.
  abbrev pub generic_schema : Url → Parser
  generic_schema u = enter (locals u schema 0) schema Field.schema 0

  -- The way in behind a common schema; `field` stays `UF_MAX`.
  abbrev pub fast_schema : Url → ℕ → ℕ → Parser
  fast_schema u len i =
      locals (mark_field (set_field_data u Field.schema 0 len) Field.schema) schema_slash i

  -- What stands before the loop; `none` where it returns 1.
  unfoldable pub first_round : Bool → Url → Option Parser
  first_round is_connect u =
      if is_connect
      then some (enter (locals u server_start 0) server_start Field.host 0)
      else if m 0 == b'/'
      then (if leb 2 n && m 1 == b'/'
          then (if leb n 2
              then none
              else some (enter (locals u server_start 2) server_start Field.host 2))
          else some (enter (locals u path 0) path Field.path 0))
      else if m 0 == b'*'
      then some (enter (locals u path 0) path Field.path 0)
      else if is_alpha (m 0)
      then (elim common_schema [
        | some (len, i) ↦ some (fast_schema u len i)
        | none ↦ some (generic_schema u)
      ])
      else none

-- How the loop ends: by `return 1`, or with the locals behind it.
pub data Exit : Type 0 where
  returned : Exit
  left : Parser → Exit
  out_of_fuel : Exit

module _ (m : Memory) (n : ℕ) where
  -- The loop from `start_parsing:` on, with fuel for its rounds.
  unfoldable pub loop : ℕ → Parser → Exit
  loop zero p = out_of_fuel
  loop (suc fuel) p = elim (round m n p) [
    | fail ↦ returned
    | break q ↦ left q
    | continue q ↦ let rest = loop fuel q in if ltb q.index n then rest else left q
  ]

-- `state == s_server || state == s_server_with_at`
abbrev pub in_server : State → Bool
in_server server = true
in_server server_with_at = true
in_server _ = false

-- The checks on what was found.
unfoldable pub is_complete : Bool → State → Url → Bool
is_complete is_connect s u =
    if is_connect
    then in_server s && u.field_set Field.port
    else not (u.field_set Field.schema && not (u.field_set Field.host))

module _ (m : Memory) where
  -- `Handle final field`
  unfoldable pub final_field : Parser → Option Url
  final_field p =
      if is_field p.field Field.max
      then some p.url
      else if is_field p.field Field.host
      then finalize_host_with_port p.url m p.field_start p.index p.port_start p.found_colon
      else if is_field p.field Field.path
          || is_field p.field Field.query
          || is_field p.field Field.fragment
          || not (p.url.field_set p.field)
      then some (close_field p p.index)
      else some p.url

  unfoldable pub is_host_valid : Url → Bool
  is_host_valid u =
      not (u.field_set Field.host)
      || validate_host_percent_encoding m (u.off Field.host) (u.len Field.host)

  unfoldable pub finish : Bool → Parser → Option Url
  unfolding final_field is_complete is_host_valid
  finish is_connect p = elim (final_field p) [
    | none ↦ none
    | some u ↦ if is_complete is_connect p.state u && is_host_valid u then some u else none
  ]

  -- What a call makes of the way the loop ends.
  unfoldable pub finish_exit : Bool → Exit → Option Url
  unfolding finish
  finish_exit is_connect returned = none
  finish_exit is_connect out_of_fuel = none
  finish_exit is_connect (left p) = finish is_connect p

-- Rounds that are enough for `n` bytes.
abbrev pub enough : ℕ → ℕ
enough n = 2 * n + 2

-- The loop and what follows it, from where a call enters.
unfoldable pub parse_from : Memory → ℕ → Bool → Option Parser → Option Url
parse_from m n is_connect none = none
parse_from m n is_connect (some p) = finish_exit m is_connect (loop m n (enough n) p)

unfoldable pub http_parser_parse_url : Memory → ℕ → Bool → Url → Option Url
http_parser_parse_url m n is_connect u =
    if n == 0 then none else parse_from m n is_connect (first_round m n is_connect u)
