-- ===== src/Url/Server.antt =====
-- llurl.c: the server states of the parsing loop of `http_parser_parse_url`.
use mathlib.Core.Option.{get_or}
use lhttp_parser.Prelude.{
  ℕ, ◌+◌, ◌-◌, Bool, true, false, not, ◌&&◌, ◌||◌, none, some, ◌==◌, ltb, leb, if◌then◌else◌,
  Memory, memchr, all_from,
}
use lhttp_parser.Url.Automaton.{State, server, server_with_at, path, query}
use lhttp_parser.Url.Chars.{is_userinfo_char}
use lhttp_parser.Url.Fields.{Field, is_field, mark_field, unmark_field, set_field_data}
use lhttp_parser.Url.Host.{finalize_host_with_port}
use lhttp_parser.Url.Scan.{is_server_delim, scan_server, is_ipv6_char}
use lhttp_parser.Url.Locals.{Parser, Outcome, fail, continue, advance, enter}

-- `n` is `buflen` from here on.
module _ (m : Memory) (n : ℕ) where
  -- `[`: the whole address up to its `]`, validated up to a zone.
  unfoldable pub open_bracket : Parser → Outcome
  open_bracket p =
      let i = p.index + 1 in
      elim (memchr m b']' i (n - i)) [
        | none ↦ fail
        | some bracket ↦
            let checked = get_or (memchr m b'%' i (bracket - i)) bracket in
            if all_from is_ipv6_char m i (checked - i)
            then advance (record p { index = bracket; bracket_depth = 0 })
            else fail
      ]

  -- `@`: what was read so far is userinfo.
  unfoldable pub at_sign : Parser → Bool → Outcome
  at_sign p with_at =
      if with_at
      then fail
      else (let u =
            (if is_field p.field Field.host
              then unmark_field
                  (mark_field
                    (set_field_data p.url Field.userinfo p.field_start (p.index - p.field_start))
                    Field.userinfo)
                  Field.host
              else p.url) in
          advance (record p {
            state = server_with_at;
            field = Field.host;
            field_start = p.index + 1;
            url = mark_field u Field.host;
            found_colon = false;
            port_start = 0;
            bracket_depth = 0;
          }))

  -- `/` and `?`: the host ends.
  unfoldable pub end_host : Parser → State → Field → ℕ → Outcome
  end_host p s f at =
      elim (finalize_host_with_port p.url m p.field_start p.index p.port_start p.found_colon) [
        | none ↦ fail
        | some u ↦ advance (enter (record p { url = u }) s f at)
      ]

  -- `]`: the depth falls below zero where no bracket is open.
  unfoldable pub close_bracket : Parser → Outcome
  close_bracket p =
      if p.bracket_depth == 0
      then fail
      else advance (record p { bracket_depth = p.bracket_depth - 1 })

  -- `:`: the first one outside of brackets starts a port.
  unfoldable pub colon : Parser → Outcome
  colon p =
      if p.bracket_depth == 0 && not p.found_colon
      then advance (record p { found_colon = true; port_start = p.index + 1 })
      else advance p

  unfoldable pub server_byte : Parser → ℕ → Bool → Outcome
  server_byte p ch with_at =
      if ch == b'/'
      then end_host p path Field.path p.index
      else if ch == b'?'
      then end_host p query Field.query (p.index + 1)
      else if ch == b'@'
      then at_sign p with_at
      else if ch == b'['
      then open_bracket p
      else if ch == b']'
      then close_bracket p
      else if ch == b':'
      then colon p
      else if not (is_userinfo_char ch)
      then fail
      else advance p

  -- `case s_server` and `case s_server_with_at`, with the batch scan in front
  unfoldable pub server_state : Parser → ℕ → Bool → Outcome
  server_state p ch with_at =
      if p.bracket_depth == 0 && (not (is_server_delim ch) && is_userinfo_char ch)
      then (elim (scan_server m (p.index + 1) (n - (p.index + 1))) [
        | none ↦ fail
        | some j ↦
            if ltb (p.index + 1) j
            then continue (record p { index = j })
            else server_byte p ch with_at
      ])
      else server_byte p ch with_at

  unfoldable pub server_start_state : Parser → ℕ → Outcome
  server_start_state p ch =
      let p' = record (enter p server Field.host p.index) {
        found_colon = false;
        port_start = 0;
        bracket_depth = 0;
      } in
      if leb n p.index || (m p.index == b'/' || m p.index == b'?' || m p.index == b'#')
      then fail
      else server_state p' ch false
