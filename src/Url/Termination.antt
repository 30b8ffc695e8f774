-- ===== src/Url/Termination.antt =====
-- llurl.c: the parsing loop of `http_parser_parse_url` ends. A round moves the cursor on, but for
-- the one that leaves the path at a delimiter, which reads the same byte again in another state.
pub mod Fuel
use lhttp_parser.Prelude.{
  ℕ, zero, suc, ◌+◌, ◌-◌, ◌*◌, ◌≤◌, ◌<◌, ◌≡◌, ◌≢◌, refl, Bool, true, false, inl, inr, arith, ltb,
  if◌then◌else◌, Memory, memchr_range, Bool-cases, ltb→lt,
}
use lhttp_parser.Url.Automaton.{
  State, dead, schema, schema_slash, server_start, server, server_with_at, path, query, fragment,
  Cell, url_state_table, char_class_table,
}
use lhttp_parser.Url.Bounds.Round.{scan_path_range, scan_server_range}
use lhttp_parser.Url.Fields.{Field}
use lhttp_parser.Url.Locals.{Parser, Outcome, fail, continue, break, advance, enter}
use lhttp_parser.Url.Parse.{Exit, returned, left, out_of_fuel, loop, enough}
use lhttp_parser.Url.Round.{
  path_state, query_state, fragment_state, start_state, slash_state, query_or_fragment_state,
  switch_state, schema_exit, schema_state, round_in, round,
}
use lhttp_parser.Url.Server.{
  open_bracket, at_sign, end_host, close_bracket, colon, server_byte, server_state,
  server_start_state,
}

-- Twice the bytes left, and one more in the path, where one byte may be read twice.
path_bonus : State → ℕ
path_bonus path = 1
path_bonus _ = 0

module _ (m : Memory) (n : ℕ) where
  measure : Parser → ℕ
  measure p = 2 * (n - p.index) + path_bonus p.state

  -- A round from index `i` in a state that is not the path moves on, or leaves the loop.
  abbrev Moves : ℕ → Outcome → Type 0
  Moves i (continue q) = q.index < n → i < q.index
  Moves i _ = Unit

  end_host-Moves :
      (p : Parser) (s : State) (f : Field) (at : ℕ) → Moves p.index (end_host m n p s f at)
  unfolding end_host
  end_host-Moves p s f at = ground arith

  open_bracket-Moves : (p : Parser) → Moves p.index (open_bracket m n p)
  unfolding open_bracket
  open_bracket-Moves p = ground (arith, memchr_range m b']' (p.index + 1) (n - (p.index + 1)))

  server_byte-Moves :
      (p : Parser) (ch : ℕ) (with_at : Bool) → Moves p.index (server_byte m n p ch with_at)
  unfolding server_byte colon close_bracket at_sign
  server_byte-Moves p ch with_at = ground (
    arith,
    end_host-Moves p path Field.path p.index,
    end_host-Moves p query Field.query (p.index + 1),
    open_bracket-Moves p,
  )

  server_state-Moves :
      (p : Parser) (ch : ℕ) (with_at : Bool) → Moves p.index (server_state m n p ch with_at)
  unfolding server_state
  server_state-Moves p ch with_at =
      ground (
        arith,
        server_byte-Moves p ch with_at,
        scan_server_range m (p.index + 1) (n - (p.index + 1)),
      )

  server_start-Moves : (p : Parser) (ch : ℕ) → Moves p.index (server_start_state m n p ch)
  unfolding server_start_state
  server_start-Moves p ch =
      let entered = enter p server Field.host p.index in
      let p' = record entered { found_colon = false; port_start = 0; bracket_depth = 0 } in
      ground (arith, server_state-Moves p' ch false)

  switch_state-Moves : (s : State) (p : Parser) (ch : ℕ) → Moves p.index (switch_state m n s p ch)
  unfolding switch_state start_state slash_state query_or_fragment_state
  switch_state-Moves server_start p ch = server_start-Moves p ch
  switch_state-Moves server p ch = server_state-Moves p ch false
  switch_state-Moves server_with_at p ch = server_state-Moves p ch true
  switch_state-Moves _ p ch = ground arith

  schema_exit-Moves : (s : State) (p : Parser) (ch : ℕ) → Moves p.index (schema_exit m n s p ch)
  unfolding schema_exit
  schema_exit-Moves dead p ch = tt
  schema_exit-Moves schema_slash p ch = ground arith
  schema_exit-Moves s p ch = switch_state-Moves s (record p { state = s }) ch

  cell-Moves :
      (c : Cell) (p : Parser) (ch : ℕ)
      → Moves p.index (elim c [ Cell.stay ↦ advance p | Cell.next s ↦ schema_exit m n s p ch ])
  cell-Moves Cell.stay p ch = ground arith
  cell-Moves (Cell.next s) p ch = schema_exit-Moves s p ch

  -- The measure falls in every round after which the loop goes on.
  abbrev Falls : ℕ → Outcome → Type 0
  Falls k (continue q) = q.index < n → measure q < k
  Falls k _ = Unit

  path-Falls : (p : Parser) (k : ℕ) → k ≡ 2 * (n - p.index) + 1 → Falls k (path_state m n p)
  unfolding path_state measure path_bonus
  path-Falls p k e = ground (arith, scan_path_range m p.index (n - p.index))

  path_bonus-le : (s : State) → path_bonus s ≤ 1
  unfolding path_bonus
  path_bonus-le path = omega arith
  path_bonus-le _ = omega arith

  Moves-Falls : (o : Outcome) (i k : ℕ) → Moves i o → 2 * (n - i) ≤ k → Falls k o
  unfolding measure
  Moves-Falls fail i k h le = tt
  Moves-Falls (break q) i k h le = tt
  Moves-Falls (continue q) i k h le =
      λ inside. let order : i < q.index = h inside in omega (arith, order, path_bonus-le q.state)

  query-Moves : (p : Parser) → Moves p.index (query_state m n p)
  unfolding query_state
  query-Moves p = ground (arith, memchr_range m b'#' p.index (n - p.index))

  fragment-Moves : (p : Parser) → Moves p.index (fragment_state m n p)
  unfolding fragment_state
  fragment-Moves p = ground arith

  round_in-Falls :
      (s : State) (p : Parser) → Falls (2 * (n - p.index) + path_bonus s) (round_in m n s p)
  unfolding round_in schema_state path_bonus
  round_in-Falls path p = path-Falls p _ refl
  round_in-Falls query p = Moves-Falls _ p.index _ (query-Moves p) (omega arith)
  round_in-Falls fragment p = Moves-Falls _ p.index _ (fragment-Moves p) (omega arith)
  round_in-Falls schema p =
      let cell = url_state_table schema (char_class_table (m p.index)) in
      Moves-Falls _ p.index _ (cell-Moves cell p (m p.index)) (omega arith)
  round_in-Falls s p = Moves-Falls _ p.index _ (switch_state-Moves s p (m p.index)) (omega arith)

  round-Falls : (p : Parser) → Falls (measure p) (round m n p)
  unfolding round measure
  round-Falls p = round_in-Falls p.state p

  outcome-ends :
      (k : ℕ) (o : Outcome) (rest : Parser → Exit)
      → Falls k o
      → ((q : Parser) → measure q < k → rest q ≢ out_of_fuel)
      → (elim o [
        | fail ↦ returned
        | break q ↦ left q
        | continue q ↦ if ltb q.index n then rest q else left q
      ])
        ≢ out_of_fuel
  outcome-ends k fail rest h ih = cc
  outcome-ends k (break q) rest h ih = cc
  outcome-ends k (continue q) rest h ih = elim (Bool-cases (ltb q.index n)) [
    | inl more ↦ rw more (ih q (h (ltb→lt _ _ more)))
    | inr over ↦ rw over (cc)
  ]

  loop-ends : (fuel : ℕ) (p : Parser) → measure p < fuel → loop m n fuel p ≢ out_of_fuel
  unfolding loop
  loop-ends zero p h = absurd (omega arith)
  loop-ends (suc fuel) p h =
      outcome-ends (measure p) (round m n p) (loop m n fuel) (round-Falls p)
        λ q falls. loop-ends fuel q (omega (arith, falls))

-- For every memory, buffer length and parser state, from whichever state the loop starts, twice
-- the length and two rounds are enough: the parsing loop ends by a return or by leaving it.
pub loop-ne-out_of_fuel : (m : Memory) (n : ℕ) (p : Parser) → loop m n (enough n) p ≢ out_of_fuel
unfolding measure
loop-ne-out_of_fuel m n p = loop-ends m n (enough n) p (omega (arith, path_bonus-le m n p.state))
