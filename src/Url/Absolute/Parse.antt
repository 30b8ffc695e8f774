-- ===== src/Url/Absolute/Parse.antt =====
-- llurl.c: what `http_parser_parse_url` makes of an absolute URL.
use mathlib.Core.Path.{subst}
use lhttp_parser.Prelude.{
  ℕ, zero, all_from, ◌||◌, suc, ◌+◌, ◌-◌, ◌<◌, ◌≡◌, refl, sym, ap, ◌∙◌, Bool, true, false, Option,
  none, some, arith, ◌==◌, Memory, lt→ltb,
}
use lhttp_parser.Url.Absolute.{HostBytes, InPath, host_at, is_some, IsUser, IsAbsolute, place}
use lhttp_parser.Url.Absolute.Found.{
  number_of, IsAbsolute-InOrder, at_authority, host_parser, start_of, end_of, absolute_url,
  finish-end_of, host-valid, shows, number, ParsesTo,
}
use lhttp_parser.Url.Absolute.Host.{in_host, host_first, arrive_start, arrive_authority}
use lhttp_parser.Url.Absolute.Tail.{arrive, arrive_continue, arrive_path}
use lhttp_parser.Url.Absolute.User.{arrive_userinfo}
use lhttp_parser.Url.Automaton.{State, server_start}
use lhttp_parser.Url.Chars.{is_alpha, is_userinfo_char}
use lhttp_parser.Url.Chars.Ranges.{is_alpha_range, is_userinfo_char_range}
use lhttp_parser.Url.Fields.{url_init}
use lhttp_parser.Url.Locals.{Parser}
use lhttp_parser.Url.Parse.{generic_schema, left, finish_exit, parse_from, http_parser_parse_url}
use lhttp_parser.Url.ReadAhead.{
  AllStay, within, behind, colon-round, run-within, by_automaton, automaton_parse_url,
  http_parser_parse_url-automaton_parse_url,
}
use lhttp_parser.Url.Round.{slash_state, switch_state, round_in, round}
use lhttp_parser.Url.Termination.Fuel.{run}

module _ (m : Memory) (n : ℕ) where
  -- Userinfo up to its `@` begins with no delimiter of the whole host.
  user_first :
      (i k : ℕ)
      → all_from is_userinfo_char m i k ≡ true
      → m (i + k) ≡ b'@'
      → (m i == b'/' || m i == b'?' || m i == b'#') ≡ false
  unfolding all_from
  user_first i zero user mark = ground arith
  user_first i (suc k) user mark = ground (arith, is_userinfo_char_range (m i))

  to_arrive : (p : Parser) → p.index < n → run m n p ≡ arrive m n p
  to_arrive p inside = rw (lt→ltb _ _ inside) refl

  run_schema :
      (k : ℕ)
      → AllStay m n k
      → m k ≡ b':'
      → m (k + 1) ≡ b'/'
      → m (k + 2) ≡ b'/'
      → k + 3 < n
      → run m n (within m n 0) ≡ arrive m n (at_authority m n k)
  unfolding round round_in switch_state slash_state
  run_schema k stay colon slash1 slash2 inside =
      run-within m n k stay (omega arith)
      ∙ to_arrive (within m n k) (omega arith)
      ∙ arrive_continue m n (within m n k) (behind m n k) (omega arith) (colon-round m n k colon)
      ∙ arrive_continue m n (behind m n k)
          (record (behind m n k) { state = State.schema_slash_slash; index = k + 1 + 1 })
          (omega arith) (ground (arith, slash1))
      ∙ ap (λ i. arrive m n (record (behind m n k) { state = State.schema_slash_slash; index = i }))
          (omega arith)
      ∙ arrive_continue m n
          (record (behind m n k) { state = State.schema_slash_slash; index = k + 2 })
          (record (behind m n k) { state = server_start; index = k + 2 + 1 }) (omega arith)
          (ground (arith, slash2))
      ∙ ap (λ i. arrive m n (record (behind m n k) { state = server_start; index = i }))
          (omega arith)

  arrive_at_host :
      (k : ℕ) (user : Option ℕ) (b : ℕ)
      → IsUser m n k user
      → host_at k user < b
      → b < n
      → HostBytes m (host_at k user) (b - host_at k user)
      → arrive m n (at_authority m n k)
        ≡ arrive m n
            (in_host m n (is_some user) (host_parser m n k user) (host_at k user) (host_at k user))
  arrive_at_host k none b w order inside bytes =
      let first = host_first m n (k + 3) (b - (k + 3)) (omega arith) bytes in
      arrive_start m n (at_authority m n k) (k + 3) (omega arith) (ground (arith, first))
  arrive_at_host k (some a) b (before, mark, user) order inside bytes =
      let end : a - 1 + 1 ≡ a = omega arith in
      arrive_start m n (at_authority m n k) (k + 3) (omega arith)
        (user_first (k + 3) (a - 1 - (k + 3)) user (ap m (omega arith) ∙ mark))
      ∙ arrive_userinfo m n (at_authority m n k) (k + 3) (a - 1) (omega arith) (omega arith) user
          mark
      ∙ ap (λ j. arrive m n (in_host m n true (host_parser m n k (some a)) j j)) end

  run_absolute :
      (k : ℕ) (user : Option ℕ) (b c q r : ℕ) (port : Option ℕ) (has_query has_fragment : Bool)
      → IsAbsolute m n k user b c q r port has_query has_fragment
      → run m n (within m n 0) ≡ left (end_of m n k user b c q r port has_query has_fragment)
  run_absolute k user b c q r port has_query has_fragment w =
      let order = IsAbsolute-InOrder m n k user b c q r port has_query has_fragment w in
      let start = start_of m n k user port b c in
      let first : q - c ≡ suc (q - (c + 1)) = omega (arith, order) in
      run_schema k w.schema w.colon w.slashes.0 w.slashes.1 (omega (arith, order))
      ∙ arrive_at_host k user b w.userinfo w.host.1 (omega (arith, order)) w.host.0
      ∙ arrive_authority m n (is_some user) port (host_parser m n k user) (host_at k user) b c
          (omega (arith, order)) (omega (arith, order)) w.host.0 w.port_part w.path.0
      ∙ arrive_path m n has_query has_fragment start (c + 1) q r (omega (arith, order))
          (subst (InPath m c) first w.path.1).1 w.query_part w.fragment_part

  by_automaton-alpha :
      is_alpha (m 0) ≡ true → by_automaton m n false url_init ≡ some (generic_schema m n url_init)
  unfolding by_automaton
  by_automaton-alpha starts = ground (arith, starts, is_alpha_range (m 0))

  automaton_parse_url-absolute :
      (k : ℕ) (user : Option ℕ) (b c q r : ℕ) (port : Option ℕ) (has_query has_fragment : Bool)
      → n < 65536
      → IsAbsolute m n k user b c q r port has_query has_fragment
      → automaton_parse_url m n false url_init
        ≡ some (absolute_url m n k user b c q r port has_query has_fragment)
  unfolding automaton_parse_url parse_from finish_exit
  automaton_parse_url-absolute k user b c q r port has_query has_fragment short w =
      let order = IsAbsolute-InOrder m n k user b c q r port has_query has_fragment w in
      let bytes : (n == 0) ≡ false = ground (arith, order) in
      let valid =
        host-valid m n (host_at k user) (b - host_at k user) (omega (arith, order)) w.plain in
      rw (bytes, by_automaton-alpha w.starts)
        (ap (finish_exit m false) (run_absolute k user b c q r port has_query has_fragment w)
          ∙ finish-end_of m n k user b c q r port has_query has_fragment valid)

-- For every memory and buffer of fewer than 65536 bytes that holds an absolute URL, `schema://`,
-- userinfo and its `@` or none, a host that is not empty, without brackets and percent signs, a port
-- of one to five digits up to 65535 or none, a path that begins with `/`, a query or none, and a
-- fragment or none, where userinfo, the query and the fragment may be empty:
-- `http_parser_parse_url` succeeds, not in CONNECT mode, and sets exactly the fields that are there,
-- each with its offset and length, and the port number, which is 0 without a port.
pub http_parser_parse_url-absolute :
    (m : Memory) (n k : ℕ) (user : Option ℕ) (b c q r : ℕ) (port : Option ℕ)
    (has_query has_fragment : Bool)
    → n < 65536
    → IsAbsolute m n k user b c q r port has_query has_fragment
    → ParsesTo
        (http_parser_parse_url m n false url_init)
        (place n k user b c q r port has_query has_fragment)
        (number_of port)
http_parser_parse_url-absolute m n k user b c q r port has_query has_fragment short w =
    let order = IsAbsolute-InOrder m n k user b c q r port has_query has_fragment w in
    let parsed =
      http_parser_parse_url-automaton_parse_url m n false
      ∙ automaton_parse_url-absolute m n k user b c q r port has_query has_fragment short w in
    subst (λ o. ParsesTo o (place n k user b c q r port has_query has_fragment) (number_of port))
      (sym parsed)
      (
        λ f.
            shows m n k user b c q r port has_query has_fragment f short order w.port_part
              w.query_part w.fragment_part,
        number m n k user b c q r port has_query has_fragment,
      )
