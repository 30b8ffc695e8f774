-- ===== src/Url/Round.antt =====
-- llurl.c: one round of the parsing loop of `http_parser_parse_url`, by state.
use lhttp_parser.Prelude.{
  ℕ, ◌+◌, ◌-◌, true, false, ◌||◌, none, some, ◌==◌, ltb, if◌then◌else◌, Memory, memchr, all_from,
}
use lhttp_parser.Url.Automaton.{
  State, dead, start, schema, schema_slash, schema_slash_slash, server_start, server,
  server_with_at, path, query_or_fragment, query, fragment, char_class_table, Cell, stay,
  url_state_table,
}
use lhttp_parser.Url.Chars.{is_alpha}
use lhttp_parser.Url.Fields.{Field}
use lhttp_parser.Url.Scan.{ends_path, scan_path, is_valid_char}
use lhttp_parser.Url.Locals.{Parser, Outcome, fail, continue, break, advance, enter, close_field}
use lhttp_parser.Url.Server.{server_start_state, server_state}

-- `n` is `buflen` from here on.
module _ (m : Memory) (n : ℕ) where
  -- `i = j - 1; continue` where the scan moved; at a delimiter `i--; continue`, so that the same
  -- byte is read in the next state.
  unfoldable pub path_state : Parser → Outcome
  path_state p = elim (scan_path m p.index (n - p.index)) [
    | none ↦ fail
    | some j ↦
        if ltb p.index j
        then (if ltb j n then continue (record p { index = j }) else break (record p { index = n }))
        else if ends_path (m p.index)
        then continue (record p { url = close_field p p.index; state = query_or_fragment })
        else advance p
  ]

  unfoldable pub query_state : Parser → Outcome
  query_state p = elim (memchr m b'#' p.index (n - p.index)) [
    | some hash ↦
        if all_from is_valid_char m p.index (hash - p.index)
        then (let closed = record p { url = close_field p hash; index = hash } in
            advance (enter closed fragment Field.fragment (hash + 1)))
        else fail
    | none ↦
        if all_from is_valid_char m p.index (n - p.index)
        then break (record p { index = n })
        else fail
  ]

  unfoldable pub fragment_state : Parser → Outcome
  fragment_state p =
      if all_from is_valid_char m p.index (n - p.index)
      then continue (record p { index = n - 1 + 1 })
      else fail

  unfoldable pub start_state : Parser → ℕ → Outcome
  start_state p ch =
      if ch == b'/' || ch == b'*'
      then advance (enter p path Field.path p.index)
      else if is_alpha ch
      then advance (enter p schema Field.schema p.index)
      else fail

  unfoldable pub slash_state : Parser → ℕ → State → Outcome
  slash_state p ch s = if ch == b'/' then advance (record p { state = s }) else fail

  unfoldable pub query_or_fragment_state : Parser → ℕ → Outcome
  query_or_fragment_state p ch =
      if ch == b'?'
      then advance (enter p query Field.query (p.index + 1))
      else if ch == b'#'
      then advance (enter p fragment Field.fragment (p.index + 1))
      else fail

  -- the `switch`
  unfoldable pub switch_state : State → Parser → ℕ → Outcome
  switch_state start p ch = start_state p ch
  switch_state schema_slash p ch = slash_state p ch schema_slash_slash
  switch_state schema_slash_slash p ch = slash_state p ch server_start
  switch_state server_start p ch = server_start_state m n p ch
  switch_state server p ch = server_state m n p ch false
  switch_state server_with_at p ch = server_state m n p ch true
  switch_state query_or_fragment p ch = query_or_fragment_state p ch
  switch_state _ p ch = advance p

  -- `if (state == s_schema)`; any state but two falls through to the `switch`.
  unfoldable pub schema_exit : State → Parser → ℕ → Outcome
  schema_exit dead p ch = fail
  schema_exit schema_slash p ch =
      advance (record p { url = close_field p p.index; state = schema_slash })
  schema_exit s p ch = switch_state s (record p { state = s }) ch

  unfoldable pub schema_state : Parser → ℕ → Outcome
  schema_state p ch = elim (url_state_table schema (char_class_table ch)) [
    | stay ↦ advance p
    | Cell.next s ↦ schema_exit s p ch
  ]

  unfoldable pub round_in : State → Parser → Outcome
  round_in path p = path_state p
  round_in query p = query_state p
  round_in fragment p = fragment_state p
  round_in schema p = schema_state p (m p.index)
  round_in s p = switch_state s p (m p.index)

  -- One round, from `start_parsing:` on.
  unfoldable pub round : Parser → Outcome
  unfolding round_in schema_state schema_exit switch_state
  round p = round_in p.state p
