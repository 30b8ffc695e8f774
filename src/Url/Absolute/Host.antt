-- ===== src/Url/Absolute/Host.antt =====
-- llurl.c: the run of `http_parser_parse_url` over a host and its port.
use mathlib.Core.Path.{subst}
use lhttp_parser.Prelude.{
  Bool, false, true, ◌==◌, ◌||◌, ℕ, zero, suc, ◌+◌, ◌-◌, ◌<◌, ◌≡◌, refl, sym, ap, ◌∙◌, Option, none,
  some, arith, Memory, all_from,
}
use lhttp_parser.Url.Absolute.{HostBytes, IsPort}
use lhttp_parser.Url.Absolute.Tail.{arrive, arrive_continue, arrive_same}
use lhttp_parser.Url.Automaton.{State, server_start, server, server_with_at, path}
use lhttp_parser.Url.Chars.{is_userinfo_char}
use lhttp_parser.Url.Chars.Ranges.{digit_range, is_userinfo_char_range}
use lhttp_parser.Url.Fields.{Field, Url, mark_field, set_field_data}
use lhttp_parser.Url.Host.{store_host, finalize_fields, finalize_host_with_port}
use lhttp_parser.Url.Locals.{Parser, continue, advance, enter}
use lhttp_parser.Url.Port.{parse_port}
use lhttp_parser.Url.Port.Reference.{port_of, parse_port-port_of}
use lhttp_parser.Url.Round.{switch_state, round_in, round}
use lhttp_parser.Url.Scan.{is_server_delim, scan_server}
use lhttp_parser.Url.Server.{end_host, colon, server_byte, server_state, server_start_state}

-- The scan of a host stops at its end.
scan_server-HostBytes :
    (m : Memory) (p k n : ℕ)
    → HostBytes m p k
    → k < n
    → is_server_delim (m (p + k)) ≡ true
    → scan_server m p n ≡ some (p + k)
unfolding scan_server
scan_server-HostBytes m p k zero bytes lt stop = absurd (omega arith)
scan_server-HostBytes m p zero (suc n) bytes lt stop = ground arith
scan_server-HostBytes m p (suc k) (suc n) bytes lt stop =
    ground (arith, scan_server-HostBytes m (p + 1) k n bytes.1)

-- A digit can stand in a host.
digits-HostBytes : (m : Memory) (p k : ℕ) → all_from digit_range m p k ≡ true → HostBytes m p k
unfolding all_from
digits-HostBytes m p zero h = tt
digits-HostBytes m p (suc k) h =
    let first : digit_range (m p) ≡ true = ground arith in
    let rest : all_from digit_range m (p + 1) k ≡ true = ground arith in
    let user = is_userinfo_char_range (m p) in
    ((ground arith, ground (arith, user)), digits-HostBytes m (p + 1) k rest)

module _ (m : Memory) (n : ℕ) where
  -- A byte of the host that is read alone is no bracket.
  server_byte-host :
      (p : Parser) (ch : ℕ) (w : Bool)
      → is_server_delim ch ≡ false
      → is_userinfo_char ch ≡ true
      → server_byte m n p ch w ≡ advance p
  unfolding server_byte
  server_byte-host p ch w no_delim user = ground (arith, is_userinfo_char_range ch)

  -- A server state passes over a name of `k` bytes and one up to the delimiter behind it.
  server_state-scan :
      (w : Bool) (p : Parser) (i k : ℕ)
      → i + 1 + k < n
      → p.bracket_depth ≡ 0
      → HostBytes m i (suc k)
      → is_server_delim (m (i + 1 + k)) ≡ true
      → server_state m n (record p { index = i }) (m i) w
        ≡ continue (record p { index = i + 1 + k })
  unfolding server_state
  server_state-scan w p i k inside depth (first, bytes) stop =
      let scanned = scan_server-HostBytes m (i + 1) k (n - (i + 1)) bytes (omega arith) stop in
      let byte = server_byte-host (record p { index = i }) (m i) w first.0 first.1 in
      let alone : k ≡ 0
          → advance (record p { index = i }) ≡ continue (record p { index = i + 1 + k }) =
        λ e. ap (λ j. continue (record p { index = j })) (omega (arith, e)) in
      ground (arith, scanned, byte, first, alone)

  -- The state before a `@`, and behind one.
  abbrev pub host_state : Bool → State
  host_state false = server
  host_state true = server_with_at

  -- In a server state outside of brackets, with the cursor at `i`.
  abbrev pub at_name : Bool → Parser → ℕ → Parser
  at_name w q i = record q { state = host_state w; bracket_depth = 0; index = i }

  pub arrive_name :
      (w : Bool) (q : Parser) (i k : ℕ)
      → i + 1 + k < n
      → HostBytes m i (suc k)
      → is_server_delim (m (i + 1 + k)) ≡ true
      → arrive m n (at_name w q i) ≡ arrive m n (at_name w q (i + 1 + k))
  unfolding round round_in switch_state
  arrive_name false q i k inside bytes stop =
      arrive_continue m n (at_name false q i) (at_name false q (i + 1 + k)) (omega arith)
        (server_state-scan false (at_name false q i) i k inside refl bytes stop)
  arrive_name true q i k inside bytes stop =
      arrive_continue m n (at_name true q i) (at_name true q (i + 1 + k)) (omega arith)
        (server_state-scan true (at_name true q i) i k inside refl bytes stop)

  -- The host, from `a` on.
  abbrev pub in_host : Bool → Parser → ℕ → ℕ → Parser
  in_host w p a i = record (enter p (host_state w) Field.host a) {
    found_colon = false;
    port_start = 0;
    bracket_depth = 0;
    index = i;
  }

  -- Behind the colon of a port.
  abbrev pub in_port : Bool → Parser → ℕ → ℕ → ℕ → Parser
  in_port w p a b i = record (in_host w p a i) { found_colon = true; port_start = b + 1 }

  -- What may begin a host or userinfo: no `/`, `?` or `#`.
  pub arrive_start :
      (p : Parser) (s : ℕ)
      → s < n
      → (m s == b'/' || m s == b'?' || m s == b'#') ≡ false
      → arrive m n (record p { state = server_start; index = s }) ≡ arrive m n (in_host false p s s)
  unfolding round round_in switch_state server_start_state
  arrive_start p s inside first =
      arrive_same m n (record p { state = server_start; index = s }) (in_host false p s s) inside
        inside (ground (arith, first))

  arrive_colon :
      (w : Bool) (p : Parser) (a b : ℕ)
      → b < n
      → m b ≡ b':'
      → arrive m n (in_host w p a b) ≡ arrive m n (in_port w p a b (b + 1))
  unfolding round round_in switch_state server_state server_byte colon
  arrive_colon false p a b inside mark =
      arrive_continue m n (in_host false p a b) (in_port false p a b (b + 1)) inside (ground arith)
  arrive_colon true p a b inside mark =
      arrive_continue m n (in_host true p a b) (in_port true p a b (b + 1)) inside (ground arith)

  -- Behind the slash that ends the host.
  abbrev pub in_first : Parser → Url → ℕ → Parser
  in_first q u c = record (enter (record q { url = u }) path Field.path c) { index = c + 1 }

  arrive_slash :
      (w : Bool) (q : Parser) (c : ℕ) (u : Url)
      → c < n
      → m c ≡ b'/'
      → finalize_host_with_port q.url m q.field_start c q.port_start q.found_colon ≡ some u
      → arrive m n (record q { state = host_state w; index = c }) ≡ arrive m n (in_first q u c)
  unfolding round round_in switch_state server_state server_byte end_host
  arrive_slash false q c u inside mark ends =
      arrive_continue m n (record q { state = server; index = c }) (in_first q u c) inside
        (ground (arith, ends))
  arrive_slash true q c u inside mark ends =
      arrive_continue m n (record q { state = server_with_at; index = c }) (in_first q u c) inside
        (ground (arith, ends))

  -- The structure behind the host.
  abbrev host_url : Option ℕ → Url → ℕ → ℕ → ℕ → Url
  host_url none u a b c = store_host (mark_field u Field.host) a (b - a)
  host_url (some v) u a b c =
      store_host
        (mark_field
          (set_field_data (record (mark_field u Field.host) { port_number = v }) Field.port (b + 1)
            (c - (b + 1)))
          Field.port)
        a (b - a)

  finalize-plain :
      (u : Url) (a b : ℕ)
      → is_server_delim (m a) ≡ false
      → finalize_host_with_port u m a b 0 false ≡ some (store_host u a (b - a))
  unfolding finalize_host_with_port finalize_fields
  finalize-plain u a b first = ground arith

  finalize-port :
      (u : Url) (a b c v : ℕ)
      → a < b
      → b + 1 < c
      → is_server_delim (m a) ≡ false
      → port_of m (b + 1) (c - (b + 1)) ≡ some v
      → finalize_host_with_port u m a c (b + 1) true
        ≡ some (
            store_host
              (mark_field
                (set_field_data (record u { port_number = v }) Field.port (b + 1) (c - (b + 1)))
                Field.port)
              a
              (b - a))
  unfolding finalize_host_with_port finalize_fields
  finalize-port u a b c v order order' first spells =
      let parsed : parse_port m (b + 1) (c - (b + 1)) ≡ some v =
        parse_port-port_of m (b + 1) (c - (b + 1)) ∙ spells in
      let width : b + 1 - a - 1 ≡ b - a = omega arith in ground (arith, parsed, width)

  -- The first byte of the host, and the whole host up to `b`.
  pub host_first : (a k : ℕ) → 0 < k → HostBytes m a k → is_server_delim (m a) ≡ false
  host_first a zero pos bytes = absurd (omega arith)
  host_first a (suc k) pos bytes = bytes.0.0

  arrive_name_end :
      (w : Bool) (q : Parser) (a b : ℕ)
      → a < b
      → b < n
      → HostBytes m a (b - a)
      → is_server_delim (m b) ≡ true
      → arrive m n (at_name w q a) ≡ arrive m n (at_name w q b)
  arrive_name_end w q a b order inside bytes stop =
      let k = b - a - 1 in
      let end : a + 1 + k ≡ b = omega arith in
      let count : b - a ≡ suc k = omega arith in
      arrive_name w q a k (omega arith) (subst (HostBytes m a) count bytes)
        (subst (λ j. is_server_delim (m j) ≡ true) (sym end) stop)
      ∙ ap (λ j. arrive m n (at_name w q j)) end

  arrive_port_end :
      (w : Bool) (p : Parser) (a b c v : ℕ)
      → b + 1 < c
      → c < n
      → m b ≡ b':'
      → port_of m (b + 1) (c - (b + 1)) ≡ some v
      → is_server_delim (m c) ≡ true
      → arrive m n (in_host w p a b) ≡ arrive m n (in_port w p a b c)
  arrive_port_end w p a b c v order inside mark spells stop =
      let digits : all_from digit_range m (b + 1) (c - (b + 1)) ≡ true = ground (arith, spells) in
      let bytes = digits-HostBytes m (b + 1) (c - (b + 1)) digits in
      arrive_colon w p a b (omega arith) mark
      ∙ arrive_name_end w (in_port w p a b (b + 1)) (b + 1) c order inside bytes stop

  -- Where the path starts, behind the host and the port.
  abbrev authority_end : Bool → Option ℕ → Parser → ℕ → ℕ → ℕ → Parser
  authority_end w none p a b c = in_host w p a b
  authority_end w (some v) p a b c = in_port w p a b c

  abbrev pub path_start : Bool → Option ℕ → Parser → ℕ → ℕ → ℕ → Parser
  path_start w port p a b c = in_first (authority_end w port p a b c) (host_url port p.url a b c) c

  pub arrive_authority :
      (w : Bool) (port : Option ℕ) (p : Parser) (a b c : ℕ)
      → a < b
      → c < n
      → HostBytes m a (b - a)
      → IsPort m n port b c
      → m c ≡ b'/'
      → arrive m n (in_host w p a a) ≡ arrive m n (path_start w port p a b c)
  arrive_authority w none p a b c order inside bytes e mark =
      let mark' : m b ≡ b'/' = ground arith in
      let first = host_first a (b - a) (omega arith) bytes in
      let url = finalize-plain (mark_field p.url Field.host) a b first in
      arrive_name_end w (in_host w p a a) a b order (omega arith) bytes (ground arith)
      ∙ arrive_slash w (in_host w p a b) b _ (omega arith) mark' url
      ∙ ap (λ j. arrive m n (in_first (in_host w p a b) (host_url none p.url a b c) j)) (sym e)
  arrive_authority w (some v) p a b c order inside bytes (mark', order', spells) mark =
      let first = host_first a (b - a) (omega arith) bytes in
      let url = finalize-port (mark_field p.url Field.host) a b c v order order' first spells in
      arrive_name_end w (in_host w p a a) a b order (omega arith) bytes (ground arith)
      ∙ arrive_port_end w p a b c v order' inside mark' spells (ground arith)
      ∙ arrive_slash w (in_port w p a b c) c _ inside mark url
