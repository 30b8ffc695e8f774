-- ===== src/Url/Bounds/Round.antt =====
-- llurl.c: a round of the parsing loop keeps the fields and the cursor inside the buffer.
use lhttp_parser.Prelude.{
  ℕ, zero, suc, ◌+◌, ◌-◌, ◌≤◌, ◌<◌, ◌≡◌, Bool, true, false, ◌⊎◌, inl, inr, arith, Memory,
  memchr_range, FoundIn,
}
use lhttp_parser.Url.Automaton.{
  State, dead, start, schema, schema_slash, schema_slash_slash, server_start, server,
  server_with_at, path, query_or_fragment, query, fragment, Cell, url_state_table, char_class_table,
}
use lhttp_parser.Url.Bounds.Host.{Within, finalize_host-Within}
use lhttp_parser.Url.Fields.{Field}
use lhttp_parser.Url.Invariant.{OutcomeAll}
use lhttp_parser.Url.Locals.{Parser, Outcome, advance, enter}
use lhttp_parser.Url.Round.{
  path_state, query_state, fragment_state, start_state, slash_state, query_or_fragment_state,
  switch_state, schema_exit, schema_state, round_in, round,
}
use lhttp_parser.Url.Scan.{scan_path, scan_server}
use lhttp_parser.Url.Server.{
  open_bracket, at_sign, end_host, close_bracket, colon, server_byte, server_state,
  server_start_state,
}

pub scan_path_range : (m : Memory) (j k : ℕ) → FoundIn j (j + k + 1) (scan_path m j k)
unfolding scan_path
scan_path_range m j zero = omega arith
scan_path_range m j (suc k) = ground (arith, scan_path_range m (j + 1) k)

pub scan_server_range : (m : Memory) (j k : ℕ) → FoundIn j (j + k + 1) (scan_server m j k)
unfolding scan_server
scan_server_range m j zero = omega arith
scan_server_range m j (suc k) = ground (arith, scan_server_range m (j + 1) k)

module _ (n : ℕ) (g : Field) where
  -- What holds behind a round. Past the end of the buffer no field is open.
  abbrev pub Safe : Parser → Type 0
  Safe q = Within n g q.url × (q.field_start ≤ q.index) × ((q.index ≤ n) ⊎ (q.field ≡ Field.max))

  abbrev pub SafeOutcome : Outcome → Type 0
  SafeOutcome = OutcomeAll Safe

module _ (m : Memory) (n : ℕ) (g : Field) (short : n < 65536) where
  -- What holds where a round reads a byte of the buffer.
  abbrev Inside : Parser → Type 0
  Inside p = Within n g p.url × (p.field_start ≤ p.index) × (p.index < n)

  path_state-Safe : (p : Parser) → Inside p → SafeOutcome n g (path_state m n p)
  unfolding path_state
  path_state-Safe p h = ground (arith, scan_path_range m p.index (n - p.index))

  query_state-Safe : (p : Parser) → Inside p → SafeOutcome n g (query_state m n p)
  unfolding query_state
  query_state-Safe p h = ground (arith, memchr_range m b'#' p.index (n - p.index))

  fragment_state-Safe : (p : Parser) → Inside p → SafeOutcome n g (fragment_state m n p)
  unfolding fragment_state
  fragment_state-Safe p h = ground arith

  end_host-Safe :
      (p : Parser) (s : State) (f : Field) (at : ℕ)
      → Inside p
      → at ≤ p.index + 1
      → SafeOutcome n g (end_host m n p s f at)
  unfolding end_host
  end_host-Safe p s f at h order = ground (
    arith,
    finalize_host-Within m n g short p.url p.field_start p.index p.port_start p.found_colon,
  )

  open_bracket-Safe : (p : Parser) → Inside p → SafeOutcome n g (open_bracket m n p)
  unfolding open_bracket
  open_bracket-Safe p h = ground (arith, memchr_range m b']' (p.index + 1) (n - (p.index + 1)))

  at_sign-Safe : (p : Parser) (with_at : Bool) → Inside p → SafeOutcome n g (at_sign m n p with_at)
  unfolding at_sign
  at_sign-Safe p with_at h = ground arith

  server_byte-Safe :
      (p : Parser) (ch : ℕ) (with_at : Bool)
      → Inside p
      → SafeOutcome n g (server_byte m n p ch with_at)
  unfolding server_byte colon close_bracket
  server_byte-Safe p ch with_at h = ground (
    arith,
    end_host-Safe p path Field.path p.index h (omega arith),
    end_host-Safe p query Field.query (p.index + 1) h (omega arith),
    open_bracket-Safe p h,
    at_sign-Safe p with_at h,
  )

  server_state-Safe :
      (p : Parser) (ch : ℕ) (with_at : Bool)
      → Inside p
      → SafeOutcome n g (server_state m n p ch with_at)
  unfolding server_state
  server_state-Safe p ch with_at h = ground (
    arith,
    server_byte-Safe p ch with_at h,
    scan_server_range m (p.index + 1) (n - (p.index + 1)),
  )

  server_start-Safe :
      (p : Parser) (ch : ℕ) → Inside p → SafeOutcome n g (server_start_state m n p ch)
  unfolding server_start_state
  server_start-Safe p ch h =
      let entered = enter p server Field.host p.index in
      let p' = record entered { found_colon = false; port_start = 0; bracket_depth = 0 } in
      ground (arith, server_state-Safe p' ch false (h.0, omega arith, h.2))

  switch_state-Safe :
      (s : State) (p : Parser) (ch : ℕ) → Inside p → SafeOutcome n g (switch_state m n s p ch)
  unfolding switch_state start_state slash_state query_or_fragment_state
  switch_state-Safe start p ch h = ground arith
  switch_state-Safe schema_slash p ch h = ground arith
  switch_state-Safe schema_slash_slash p ch h = ground arith
  switch_state-Safe server_start p ch h = server_start-Safe p ch h
  switch_state-Safe server p ch h = server_state-Safe p ch false h
  switch_state-Safe server_with_at p ch h = server_state-Safe p ch true h
  switch_state-Safe query_or_fragment p ch h = ground arith
  switch_state-Safe _ p ch h = ground arith

  schema_exit-Safe :
      (s : State) (p : Parser) (ch : ℕ) → Inside p → SafeOutcome n g (schema_exit m n s p ch)
  unfolding schema_exit
  schema_exit-Safe dead p ch h = tt
  schema_exit-Safe schema_slash p ch h = ground arith
  schema_exit-Safe s p ch h = switch_state-Safe s (record p { state = s }) ch h

  cell-Safe :
      (c : Cell) (p : Parser) (ch : ℕ)
      → Inside p
      → SafeOutcome n g (elim c [ Cell.stay ↦ advance p | Cell.next s ↦ schema_exit m n s p ch ])
  cell-Safe Cell.stay p ch h = ground arith
  cell-Safe (Cell.next s) p ch h = schema_exit-Safe s p ch h

  round_in-Safe : (s : State) (p : Parser) → Inside p → SafeOutcome n g (round_in m n s p)
  unfolding round_in schema_state
  round_in-Safe path p h = path_state-Safe p h
  round_in-Safe query p h = query_state-Safe p h
  round_in-Safe fragment p h = fragment_state-Safe p h
  round_in-Safe schema p h =
      cell-Safe (url_state_table schema (char_class_table (m p.index))) p (m p.index) h
  round_in-Safe s p h = switch_state-Safe s p (m p.index) h

  -- Where a round may start: at a byte of the buffer, or behind a schema that ends it.
  abbrev pub Ready : Parser → Type 0
  Ready p =
      Within n g p.url
      × (p.field_start ≤ p.index)
      × ((p.index < n) ⊎ ((p.state ≡ schema_slash) × (p.field ≡ Field.max)))

  schema_end-Safe :
      (p : Parser)
      → Within n g p.url
      → p.field_start ≤ p.index
      → p.field ≡ Field.max
      → SafeOutcome n g (round_in m n schema_slash p)
  unfolding round_in switch_state slash_state
  schema_end-Safe p h order none_open = ground arith

  pub round-Safe : (p : Parser) → Ready p → SafeOutcome n g (round m n p)
  unfolding round
  round-Safe p (h, order, inl inside) = round_in-Safe p.state p (h, order, inside)
  round-Safe p (h, order, inr (at_end, none_open)) =
      simp at_end (schema_end-Safe p h order none_open)
