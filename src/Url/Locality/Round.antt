-- ===== src/Url/Locality/Round.antt =====
-- llurl.c: a round of the parsing loop that starts inside the buffer reads the buffer alone.
use mathlib.Core.Option.{get_or}
use lhttp_parser.Prelude.{
  ℕ, ◌+◌, ◌-◌, ◌≤◌, ◌<◌, ◌≡◌, refl, ap, Bool, true, false, Option, none, some, arith, Memory,
  memchr, memchr_range, all_from, FoundIn,
}
use lhttp_parser.Url.Automaton.{
  State, dead, schema, schema_slash, server_start, server, server_with_at, path, query, fragment,
  Cell, url_state_table, char_class_table,
}
use lhttp_parser.Url.Fields.{Field}
use lhttp_parser.Url.Locals.{Parser, advance, enter}
use lhttp_parser.Url.Locality.{Agree}
use lhttp_parser.Url.Locality.Host.{finalize_host_local}
use lhttp_parser.Url.Locality.Scan.{
  memchr_local, all_from_local, scan_path_local, scan_server_local,
}
use lhttp_parser.Url.Round.{
  path_state, query_state, fragment_state, start_state, slash_state, query_or_fragment_state,
  switch_state, schema_exit, schema_state, round_in, round,
}
use lhttp_parser.Url.Scan.{is_valid_char, is_ipv6_char}
use lhttp_parser.Url.Server.{
  open_bracket, at_sign, end_host, close_bracket, colon, server_byte, server_state,
  server_start_state,
}

module _ (m m' : Memory) (n : ℕ) (same : Agree m m' n) where
  abbrev Inside : Parser → Type 0
  Inside p = (p.field_start ≤ p.index) × (p.index < n)

  path_state_local : (p : Parser) → Inside p → path_state m n p ≡ path_state m' n p
  unfolding path_state
  path_state_local p h =
      ground
        (arith, scan_path_local m m' n same p.index (n - p.index) (omega arith), same p.index h.1)

  -- The bytes up to `hash`, or to the end, are valid in both or in neither.
  abbrev ValidTo : ℕ → Option ℕ → Type 0
  ValidTo i none = all_from is_valid_char m i (n - i) ≡ all_from is_valid_char m' i (n - i)
  ValidTo i (some hash) =
      all_from is_valid_char m i (hash - i) ≡ all_from is_valid_char m' i (hash - i)

  -- The query up to its end, and up to a `#`.
  query_rest_local :
      (p : Parser) (o : Option ℕ)
      → p.index ≤ n
      → FoundIn p.index (p.index + (n - p.index)) o
      → ValidTo p.index o
  query_rest_local p none le h =
      all_from_local m m' n same is_valid_char p.index (n - p.index) (omega arith)
  query_rest_local p (some hash) le h =
      all_from_local m m' n same is_valid_char p.index (hash - p.index) (omega arith)

  query_state_local : (p : Parser) → Inside p → query_state m n p ≡ query_state m' n p
  unfolding query_state
  query_state_local p h =
      let found = memchr m b'#' p.index (n - p.index) in
      let range = memchr_range m b'#' p.index (n - p.index) in
      ground (
        arith,
        memchr_local m m' n same b'#' p.index (n - p.index) (omega arith),
        query_rest_local p found (omega arith) range,
      )

  fragment_state_local : (p : Parser) → Inside p → fragment_state m n p ≡ fragment_state m' n p
  unfolding fragment_state
  fragment_state_local p h =
      rw (all_from_local m m' n same is_valid_char p.index (n - p.index) (omega arith)) refl

  end_host_local :
      (p : Parser) (s : State) (f : Field) (at : ℕ)
      → Inside p
      → end_host m n p s f at ≡ end_host m' n p s f at
  unfolding end_host
  end_host_local p s f at h =
      let ends =
        finalize_host_local m m' n same p.url p.field_start p.index p.port_start p.found_colon h.0
          (omega arith) in
      ground (arith, ends)

  -- The address up to the bracket, or up to its zone.
  abbrev checked_to : Memory → ℕ → ℕ → ℕ
  checked_to b i q = get_or (memchr b b'%' i (q - i)) q

  checked_to-le : (i q : ℕ) → i ≤ q → checked_to m i q ≤ q
  checked_to-le i q le = ground (arith, memchr_range m b'%' i (q - i))

  abbrev AddressAgrees : ℕ → Option ℕ → Type 0
  AddressAgrees i none = Unit
  AddressAgrees i (some q) =
      (checked_to m i q ≡ checked_to m' i q)
      × (all_from is_ipv6_char m i (checked_to m i q - i)
          ≡ all_from is_ipv6_char m' i (checked_to m i q - i))

  address_local : (i : ℕ) (o : Option ℕ) → i ≤ n → FoundIn i (i + (n - i)) o → AddressAgrees i o
  address_local i none le h = tt
  address_local i (some q) le h = (
    ap (λ o. get_or o q) (memchr_local m m' n same b'%' i (q - i) (omega arith)),
    all_from_local m m' n same is_ipv6_char i (checked_to m i q - i)
        (omega (arith, checked_to-le i q (omega arith))),
  )

  open_bracket_local : (p : Parser) → Inside p → open_bracket m n p ≡ open_bracket m' n p
  unfolding open_bracket
  open_bracket_local p h =
      let i = p.index + 1 in
      let found = memchr m b']' i (n - i) in
      ground (
        arith,
        memchr_local m m' n same b']' i (n - i) (omega arith),
        address_local i found (omega arith) (memchr_range m b']' i (n - i)),
      )

  server_byte_local :
      (p : Parser) (ch : ℕ) (with_at : Bool)
      → Inside p
      → server_byte m n p ch with_at ≡ server_byte m' n p ch with_at
  unfolding server_byte colon close_bracket at_sign
  server_byte_local p ch with_at h =
      rw
        (
          end_host_local p path Field.path p.index h,
          end_host_local p query Field.query (p.index + 1) h,
          open_bracket_local p h,
        )
        refl

  server_state_local :
      (p : Parser) (ch : ℕ) (with_at : Bool)
      → Inside p
      → server_state m n p ch with_at ≡ server_state m' n p ch with_at
  unfolding server_state
  server_state_local p ch with_at h = ground (
    arith,
    server_byte_local p ch with_at h,
    scan_server_local m m' n same (p.index + 1) (n - (p.index + 1)) (omega arith),
  )

  server_start_local :
      (p : Parser) (ch : ℕ) → Inside p → server_start_state m n p ch ≡ server_start_state m' n p ch
  unfolding server_start_state
  server_start_local p ch h =
      let entered = enter p server Field.host p.index in
      let p' = record entered { found_colon = false; port_start = 0; bracket_depth = 0 } in
      rw (same p.index h.1, server_state_local p' ch false (omega arith, h.1)) refl

  switch_state_local :
      (s : State) (p : Parser) (ch : ℕ)
      → Inside p
      → switch_state m n s p ch ≡ switch_state m' n s p ch
  unfolding switch_state start_state slash_state query_or_fragment_state
  switch_state_local server_start p ch h = server_start_local p ch h
  switch_state_local server p ch h = server_state_local p ch false h
  switch_state_local server_with_at p ch h = server_state_local p ch true h
  switch_state_local _ p ch h = refl

  schema_exit_local :
      (s : State) (p : Parser) (ch : ℕ)
      → Inside p
      → schema_exit m n s p ch ≡ schema_exit m' n s p ch
  unfolding schema_exit
  schema_exit_local dead p ch h = refl
  schema_exit_local schema_slash p ch h = refl
  schema_exit_local s p ch h = switch_state_local s (record p { state = s }) ch h

  cell_local :
      (c : Cell) (p : Parser) (ch : ℕ)
      → Inside p
      → (elim c [ Cell.stay ↦ advance p | Cell.next s ↦ schema_exit m n s p ch ])
        ≡ (elim c [ Cell.stay ↦ advance p | Cell.next s ↦ schema_exit m' n s p ch ])
  cell_local Cell.stay p ch h = refl
  cell_local (Cell.next s) p ch h = schema_exit_local s p ch h

  round_in_local : (s : State) (p : Parser) → Inside p → round_in m n s p ≡ round_in m' n s p
  unfolding round_in schema_state
  round_in_local path p h = path_state_local p h
  round_in_local query p h = query_state_local p h
  round_in_local fragment p h = fragment_state_local p h
  round_in_local schema p h =
      rw (same p.index h.1)
        (cell_local (url_state_table schema (char_class_table (m' p.index))) p (m' p.index) h)
  round_in_local s p h = rw (same p.index h.1) (switch_state_local s p (m' p.index) h)

  pub round_local :
      (p : Parser) → p.field_start ≤ p.index → p.index < n → round m n p ≡ round m' n p
  unfolding round
  round_local p order inside = round_in_local p.state p (order, inside)
