-- ===== src/Url/Locals.antt =====
-- llurl.c: the local variables of `http_parser_parse_url`, and the ways a round of its loop ends.
use lhttp_parser.Prelude.{ℕ, ◌+◌, ◌-◌, Bool}
use lhttp_parser.Url.Automaton.{State}
use lhttp_parser.Url.Fields.{Field, Url, mark_field, set_field_data}

-- The locals of `http_parser_parse_url`, and the structure behind `u`.
pub record Parser : Type 0 where
  pub state : State
  pub field : Field
  pub field_start : ℕ
  pub index : ℕ
  pub port_start : ℕ
  pub found_colon : Bool
  pub bracket_depth : ℕ
  pub url : Url

-- How a round ends: `return 1`; on to the test of the `for` at `index` (after its `i++`); or
-- out of the loop with `index`.
pub data Outcome : Type 0 where
  fail : Outcome
  continue : Parser → Outcome
  break : Parser → Outcome

-- `continue`, and `break` out of the `switch`: `i++` follows.
abbrev pub advance : Parser → Outcome
advance p = continue (record p { index = p.index + 1 })

-- `field = f; field_start = at; mark_field(u, f); state = s`
abbrev pub enter : Parser → State → Field → ℕ → Parser
enter p s f at = record p { state = s; field = f; field_start = at; url = mark_field p.url f }

-- `u->field_data[field]` from `field_start` up to `end`
abbrev pub close_field : Parser → ℕ → Url
close_field p end = set_field_data p.url p.field p.field_start (end - p.field_start)
