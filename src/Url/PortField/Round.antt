-- ===== src/Url/PortField/Round.antt =====
-- llurl.c: a round of the parsing loop leaves the port as `finalize_host_with_port` stores it.
use lhttp_parser.Prelude.{
  ℕ, ◌+◌, ◌≤◌, ◌<◌, ◌≡◌, ◌≢◌, Bool, true, false, ◌⊎◌, inl, inr, arith, Memory,
}
use lhttp_parser.Url.Automaton.{
  State, dead, schema, schema_slash, server_start, server, server_with_at, path, query, fragment,
  Cell, url_state_table, char_class_table,
}
use lhttp_parser.Url.Fields.{Field, field_index}
use lhttp_parser.Url.Invariant.{OutcomeAll}
use lhttp_parser.Url.Locals.{Parser, Outcome, advance, enter}
use lhttp_parser.Url.Round.{
  path_state, query_state, fragment_state, start_state, slash_state, query_or_fragment_state,
  switch_state, schema_exit, schema_state, round_in, round,
}
use lhttp_parser.Url.Server.{
  open_bracket, at_sign, end_host, close_bracket, colon, server_byte, server_state,
  server_start_state,
}
use lhttp_parser.Url.PortField.Host.{PortExact, finalize_host-PortExact}

module _ (m : Memory) where
  -- What holds behind a round, past the end of the buffer too; the open field is not the port.
  abbrev pub Exact : Parser → Type 0
  Exact q = PortExact m q.url × (field_index q.field ≢ 2)

  abbrev pub ExactOutcome : Outcome → Type 0
  ExactOutcome = OutcomeAll Exact

module _ (m : Memory) (n : ℕ) (short : n < 65536) where
  -- `finalize_host_with_port` is called on a range of the buffer alone.
  abbrev Inside : Parser → Type 0
  Inside p =
      PortExact m p.url × (field_index p.field ≢ 2) × (p.field_start ≤ p.index) × (p.index ≤ n)

  path_state-Exact : (p : Parser) → Inside p → ExactOutcome m (path_state m n p)
  unfolding path_state
  path_state-Exact p h = ground arith

  query_state-Exact : (p : Parser) → Inside p → ExactOutcome m (query_state m n p)
  unfolding query_state
  query_state-Exact p h = ground arith

  fragment_state-Exact : (p : Parser) → Inside p → ExactOutcome m (fragment_state m n p)
  unfolding fragment_state
  fragment_state-Exact p h = ground arith

  end_host-Exact :
      (p : Parser) (s : State) (f : Field) (at : ℕ)
      → Inside p
      → field_index f ≢ 2
      → ExactOutcome m (end_host m n p s f at)
  unfolding end_host
  end_host-Exact p s f at h other = ground (
    arith,
    finalize_host-PortExact m n short p.url p.field_start p.index p.port_start p.found_colon h.0,
  )

  open_bracket-Exact : (p : Parser) → Inside p → ExactOutcome m (open_bracket m n p)
  unfolding open_bracket
  open_bracket-Exact p h = ground arith

  at_sign-Exact : (p : Parser) (with_at : Bool) → Inside p → ExactOutcome m (at_sign m n p with_at)
  unfolding at_sign
  at_sign-Exact p with_at h = ground arith

  server_byte-Exact :
      (p : Parser) (ch : ℕ) (with_at : Bool)
      → Inside p
      → ExactOutcome m (server_byte m n p ch with_at)
  unfolding server_byte colon close_bracket
  server_byte-Exact p ch with_at h = ground (
    arith,
    end_host-Exact p path Field.path p.index h (omega arith),
    end_host-Exact p query Field.query (p.index + 1) h (omega arith),
    open_bracket-Exact p h,
    at_sign-Exact p with_at h,
  )

  server_state-Exact :
      (p : Parser) (ch : ℕ) (with_at : Bool)
      → Inside p
      → ExactOutcome m (server_state m n p ch with_at)
  unfolding server_state
  server_state-Exact p ch with_at h = ground (arith, server_byte-Exact p ch with_at h)

  server_start-Exact :
      (p : Parser) (ch : ℕ) → Inside p → ExactOutcome m (server_start_state m n p ch)
  unfolding server_start_state
  server_start-Exact p ch h =
      let entered = enter p server Field.host p.index in
      let p' = record entered { found_colon = false; port_start = 0; bracket_depth = 0 } in
      ground (arith, server_state-Exact p' ch false (h.0, omega arith, omega arith, omega arith))

  switch_state-Exact :
      (s : State) (p : Parser) (ch : ℕ) → Inside p → ExactOutcome m (switch_state m n s p ch)
  unfolding switch_state start_state slash_state query_or_fragment_state
  switch_state-Exact server_start p ch h = server_start-Exact p ch h
  switch_state-Exact server p ch h = server_state-Exact p ch false h
  switch_state-Exact server_with_at p ch h = server_state-Exact p ch true h
  switch_state-Exact _ p ch h = ground arith

  schema_exit-Exact :
      (s : State) (p : Parser) (ch : ℕ) → Inside p → ExactOutcome m (schema_exit m n s p ch)
  unfolding schema_exit
  schema_exit-Exact dead p ch h = tt
  schema_exit-Exact schema_slash p ch h = ground arith
  schema_exit-Exact s p ch h = switch_state-Exact s (record p { state = s }) ch h

  cell-Exact :
      (c : Cell) (p : Parser) (ch : ℕ)
      → Inside p
      → ExactOutcome m (elim c [ Cell.stay ↦ advance p | Cell.next s ↦ schema_exit m n s p ch ])
  cell-Exact Cell.stay p ch h = ground arith
  cell-Exact (Cell.next s) p ch h = schema_exit-Exact s p ch h

  round_in-Exact : (s : State) (p : Parser) → Inside p → ExactOutcome m (round_in m n s p)
  unfolding round_in schema_state
  round_in-Exact path p h = path_state-Exact p h
  round_in-Exact query p h = query_state-Exact p h
  round_in-Exact fragment p h = fragment_state-Exact p h
  round_in-Exact schema p h =
      cell-Exact (url_state_table schema (char_class_table (m p.index))) p (m p.index) h
  round_in-Exact s p h = switch_state-Exact s p (m p.index) h

  schema_end-Exact :
      (p : Parser)
      → PortExact m p.url
      → p.field ≡ Field.max
      → ExactOutcome m (round_in m n schema_slash p)
  unfolding round_in switch_state slash_state
  schema_end-Exact p h none_open = ground arith

  pub round-Exact :
      (p : Parser)
      → Exact m p
      → (p.field_start ≤ p.index)
      → (p.index < n) ⊎ ((p.state ≡ schema_slash) × (p.field ≡ Field.max))
      → ExactOutcome m (round m n p)
  unfolding round
  round-Exact p h order (inl inside) = round_in-Exact p.state p (h.0, h.1, order, omega arith)
  round-Exact p h order (inr (at_end, none_open)) = simp at_end (schema_end-Exact p h.0 none_open)
