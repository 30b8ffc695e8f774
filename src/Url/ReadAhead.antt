-- ===== src/Url/ReadAhead.antt =====
-- llurl.c: the schemas that `http_parser_parse_url` reads without its automaton, compared with the
-- automaton.
use lhttp_parser.Prelude.{
  ℕ, zero, suc, ◌+◌, ◌-◌, ◌≤◌, ◌<◌, ◌≡◌, refl, sym, ap, ◌∙◌, Bool, true, false, Option, none, some,
  inl, inr, arith, ◌==◌, ltb, leb, ltb→lt, ◌&&◌, if◌then◌else◌, Memory, Bool-cases, lt→ltb,
}
use lhttp_parser.Url.Automaton.{
  State, server_start, schema, schema_slash, schema_slash_slash, path, stay, url_state_table,
  char_class_table,
}
use lhttp_parser.Url.Chars.{is_alpha}
use lhttp_parser.Url.Fields.{Field, Url, url_init}
use lhttp_parser.Url.Locals.{Parser, continue, enter, close_field}
use lhttp_parser.Url.Parse.{
  locals, common_schema, fast_schema, generic_schema, first_round, left, final_field, is_complete,
  finish, finish_exit, parse_from, http_parser_parse_url,
}
use lhttp_parser.Url.Round.{slash_state, switch_state, schema_exit, schema_state, round_in, round}
use lhttp_parser.Url.Server.{server_start_state}
use lhttp_parser.Url.Termination.Fuel.{after, run, run-round}

module _ (m : Memory) (n : ℕ) where
  -- The way in without the read-ahead: every schema is left to the automaton.
  unfoldable pub by_automaton : Bool → Url → Option Parser
  by_automaton is_connect u =
      if is_connect
      then some (enter (locals u server_start 0) server_start Field.host 0)
      else if m 0 == b'/'
      then (if leb 2 n && m 1 == b'/'
          then (if leb n 2
              then none
              else some (enter (locals u server_start 2) server_start Field.host 2))
          else some (enter (locals u path 0) path Field.path 0))
      else if m 0 == b'*'
      then some (enter (locals u path 0) path Field.path 0)
      else if is_alpha (m 0)
      then some (generic_schema m n u)
      else none

  -- A byte that stays in the schema.
  abbrev pub Stays : ℕ → Type 0
  Stays c = url_state_table schema (char_class_table c) ≡ stay

  -- The first bytes of the buffer stay in the schema.
  abbrev pub AllStay : ℕ → Type 0
  AllStay zero = Unit
  AllStay (suc k) = AllStay k × Stays (m k)

  -- What a schema that was read ahead is: a name, its colon, and the index behind it.
  abbrev IsSchema : Option (ℕ × ℕ) → Type 0
  IsSchema none = Unit
  IsSchema (some (len, i)) = AllStay len × (m len ≡ b':') × (i ≡ len + 1) × (len < n)

  letters-Stays : Stays b'h' × Stays b't' × Stays b'p' × Stays b's' × Stays b'f' × Stays b'w'
  unfolding url_state_table char_class_table
  letters-Stays = (refl, refl, refl, refl, refl, refl)

  common_schema-IsSchema : IsSchema (common_schema m n)
  unfolding common_schema
  common_schema-IsSchema = ground (arith, letters-Stays)

  -- The automaton within a schema, at index `i`, and behind its colon at index `k`.
  abbrev pub within : ℕ → Parser
  within i = record (generic_schema m n url_init) { index = i }

  abbrev pub behind : ℕ → Parser
  behind k = record (within k) {
    url = close_field (within k) k;
    state = schema_slash;
    index = k + 1;
  }

  Stays-round : (i : ℕ) → Stays (m i) → round m n (within i) ≡ continue (within (i + 1))
  unfolding round round_in schema_state url_state_table char_class_table
  Stays-round i h = rw h refl

  pub colon-round : (i : ℕ) → m i ≡ b':' → round m n (within i) ≡ continue (behind i)
  unfolding round round_in schema_state schema_exit url_state_table char_class_table
  colon-round i h = rw h refl

  pub run_continue : (p q : Parser) → round m n p ≡ continue q → q.index < n → run m n p ≡ run m n q
  run_continue p q e inside = run-round m n p ∙ (rw (e, lt→ltb _ _ inside) refl)

  pub run-within : (k : ℕ) → AllStay k → k < n → run m n (within 0) ≡ run m n (within k)
  run-within zero h inside = refl
  run-within (suc k) h inside =
      run-within k h.0 (omega arith)
      ∙ run_continue (within k) _ (Stays-round k h.1) (omega arith)
      ∙ ap (λ i. run m n (within i)) (omega arith)

  -- Behind the slash of a schema the open field is not read until the host opens.
  abbrev at_slash : State → Field → ℕ → ℕ → Parser
  at_slash s f k i = record (behind k) { state = s; field = f; index = i }

  -- The two fields that may be open there: the one of the read-ahead and the automaton's.
  left_none :
      (s : State) (k i : ℕ)
      → (finish m false (at_slash s Field.max k i) ≡ none)
        × (finish m false (at_slash s Field.schema k i) ≡ none)
  unfolding finish final_field is_complete
  left_none s k i = (refl, refl)

  -- What the call makes of a run from there.
  abbrev result : State → Field → ℕ → ℕ → Option Url
  result s f k i = finish_exit m false (run m n (at_slash s f k i))

  abbrev Agree : State → ℕ → ℕ → Type 0
  Agree s k i = result s Field.max k i ≡ result s Field.schema k i

  -- The host opens in both.
  server_start-Agree : (k i : ℕ) → Agree server_start k i
  unfolding round round_in switch_state server_start_state
  server_start-Agree k i = ap (finish_exit m false) (
      run-round m n (at_slash server_start Field.max k i)
      ∙ sym (run-round m n (at_slash server_start Field.schema k i)))

  -- What follows a slash state, with the run that it hands over to.
  abbrev slash_result : State → State → Field → ℕ → ℕ → Option Url
  slash_result s s' f k i =
      finish_exit m false (after m n (slash_state m n (at_slash s f k i) (m i) s') (run m n))

  slash_result_lem :
      (s s' : State) (k i : ℕ)
      → (i + 1 < n → Agree s' k (i + 1))
      → slash_result s s' Field.max k i ≡ slash_result s s' Field.schema k i
  unfolding slash_state finish_exit
  slash_result_lem s s' k i next = ground (arith, next, left_none s' k (i + 1))

  slash_none : (s s' : State) (k i : ℕ) → n ≤ i + 1 → slash_result s s' Field.max k i ≡ none
  unfolding slash_state finish_exit
  slash_none s s' k i over = ground (arith, left_none s' k (i + 1))

  slash_slash-Agree : (k i : ℕ) → Agree schema_slash_slash k i
  unfolding round round_in switch_state
  slash_slash-Agree k i =
      ap (finish_exit m false) (run-round m n (at_slash schema_slash_slash Field.max k i))
      ∙ slash_result_lem schema_slash_slash server_start k i (λ _. server_start-Agree k (i + 1))
      ∙ ap (finish_exit m false)
          (sym (run-round m n (at_slash schema_slash_slash Field.schema k i)))

  slash-Agree : (k i : ℕ) → Agree schema_slash k i
  unfolding round round_in switch_state
  slash-Agree k i =
      ap (finish_exit m false) (run-round m n (at_slash schema_slash Field.max k i))
      ∙ slash_result_lem schema_slash schema_slash_slash k i (λ _. slash_slash-Agree k (i + 1))
      ∙ ap (finish_exit m false) (sym (run-round m n (at_slash schema_slash Field.schema k i)))

  -- A schema whose colon ends the buffer: the read-ahead reads the byte behind it, and fails too.
  edge_ahead : (k i : ℕ) → n ≤ i + 1 → result schema_slash Field.max k i ≡ none
  unfolding round round_in switch_state
  edge_ahead k i over =
      ap (finish_exit m false) (run-round m n (at_slash schema_slash Field.max k i))
      ∙ slash_none schema_slash schema_slash_slash k i over

  -- The run of the automaton from the start of a schema.
  abbrev generic_result : Option Url
  generic_result = finish_exit m false (run m n (within 0))

  edge_generic : (k : ℕ) → AllStay k → m k ≡ b':' → k + 1 ≡ n → generic_result ≡ none
  unfolding finish_exit
  edge_generic k h colon e =
      let closes : run m n (within k) ≡ left (behind k) =
        run-round m n (within k) ∙ (rw (colon-round k colon) (ground arith)) in
      ap (finish_exit m false) (run-within k h (omega arith) ∙ closes)
      ∙ (left_none schema_slash k (k + 1)).1

  generic_behind :
      (k : ℕ)
      → AllStay k
      → m k ≡ b':'
      → k + 1 < n
      → generic_result ≡ result schema_slash Field.schema k (k + 1)
  generic_behind k h colon inside =
      ap (finish_exit m false)
        (run-within k h (omega arith) ∙ run_continue (within k) _ (colon-round k colon) inside)

  read_ahead :
      (k : ℕ)
      → AllStay k
      → m k ≡ b':'
      → k < n
      → result schema_slash Field.max k (k + 1) ≡ generic_result
  read_ahead k h colon inside = elim (Bool-cases (ltb (k + 1) n)) [
    | inl more ↦ slash-Agree k (k + 1) ∙ sym (generic_behind k h colon (ltb→lt _ _ more))
    | inr over ↦ edge_ahead k (k + 1) (ground arith) ∙ sym (edge_generic k h colon (ground arith))
  ]

  schema_agrees :
      (o : Option (ℕ × ℕ))
      → IsSchema o
      → parse_from m n false (elim o [
        | some (len, i) ↦ some (fast_schema m n url_init len i)
        | none ↦ some (generic_schema m n url_init)
      ])
        ≡ generic_result
  unfolding parse_from
  schema_agrees none h = refl
  schema_agrees (some (len, i)) (h, colon, e, inside) =
      let named : ℕ → Option Url =
        λ l. finish_exit m false (run m n (fast_schema m n url_init l (len + 1))) in
      let whole : len ≡ len - 0 = omega arith in
      rw e (ap named whole ∙ read_ahead len h colon inside)

  by_automaton-first_round :
      (conn : Bool)
      → parse_from m n conn (by_automaton conn url_init)
        ≡ parse_from m n conn (first_round m n conn url_init)
  unfolding by_automaton first_round parse_from
  by_automaton-first_round true = refl
  by_automaton-first_round false =
      ground (arith, schema_agrees (common_schema m n) common_schema-IsSchema)

-- `http_parser_parse_url` without the read-ahead.
unfoldable pub automaton_parse_url : Memory → ℕ → Bool → Url → Option Url
automaton_parse_url m n is_connect u =
    if n == 0 then none else parse_from m n is_connect (by_automaton m n is_connect u)

-- For every memory, buffer length and kind of request, on an initialised structure:
-- `http_parser_parse_url` returns what it would return if it left every schema to the automaton.
-- Reading `http:`, `https:`, `ftp:`, `ws:` and `wss:` ahead changes neither the verdict nor any
-- field, also where the colon is the last byte of the buffer.
pub http_parser_parse_url-automaton_parse_url :
    (m : Memory) (n : ℕ) (conn : Bool)
    → http_parser_parse_url m n conn url_init ≡ automaton_parse_url m n conn url_init
unfolding http_parser_parse_url automaton_parse_url
http_parser_parse_url-automaton_parse_url m n conn = rw (by_automaton-first_round m n conn) refl
