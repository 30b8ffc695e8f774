-- ===== src/Url/Connect.antt =====
-- llurl.c: what `http_parser_parse_url` accepts in CONNECT mode: a host and a port, and no more.
use mathlib.Core.Path.{subst}
use lhttp_parser.Prelude.{
  ℕ, ◌+◌, ◌-◌, ◌≡◌, ◌≢◌, refl, Bool, true, false, inl, inr, arith, Memory, Bool-cases, Option, none,
  some, leb, ◌==◌, ◌&&◌, if◌then◌else◌,
}
use lhttp_parser.Url.Automaton.{
  State, server_start, server, server_with_at, path, query_or_fragment, query, fragment,
}
use lhttp_parser.Url.Fields.{Field, Url, field_index, url_init}
use lhttp_parser.Url.Host.{has_port, finalize_bracket, finalize_fields, finalize_host_with_port}
use lhttp_parser.Url.Invariant.{OutcomeAll, ExitAll, loop_inv}
use lhttp_parser.Url.Locals.{Parser, enter}
use lhttp_parser.Url.Parse.{
  locals, in_server, Exit, returned, left, out_of_fuel, loop, enough, parse_from, first_round,
  final_field, is_complete, finish, finish_exit, http_parser_parse_url,
}
use lhttp_parser.Url.Round.{
  path_state, query_state, fragment_state, query_or_fragment_state, switch_state, round_in, round,
}
use lhttp_parser.Url.Server.{
  open_bracket, at_sign, end_host, close_bracket, colon, server_byte, server_state,
  server_start_state,
}

-- `g` is a field that is no part of a host, a port or userinfo.
abbrev pub Beyond : Field → Type 0
Beyond g = (field_index g ≢ 1) × (field_index g ≢ 2) × (field_index g ≢ 6)

module _ (m : Memory) (g : Field) (beyond : Beyond g) where
  abbrev UnsetOption : Option Url → Type 0
  UnsetOption none = Unit
  UnsetOption (some u) = (u.field_set g ≡ false) × (u.field_set Field.host ≡ true)

  abbrev UnsetBracket : Option (Url × ℕ × ℕ) → Type 0
  UnsetBracket none = Unit
  UnsetBracket (some (u, off, len)) = u.field_set g ≡ false

  finalize_fields-Unset :
      (with_port : Bool) (e s : ℕ) (u : Url) (off len : ℕ)
      → u.field_set g ≡ false
      → UnsetOption (finalize_fields m with_port e s u off len)
  unfolding finalize_fields
  finalize_fields-Unset with_port e s u off len h = ground arith

  finalize_bracket-Unset :
      (u : Url) (off len : ℕ) → u.field_set g ≡ false → UnsetBracket (finalize_bracket m u off len)
  unfolding finalize_bracket
  finalize_bracket-Unset u off len h = ground arith

  bracket_fields-Unset :
      (with_port : Bool) (e s : ℕ) (r : Option (Url × ℕ × ℕ))
      → UnsetBracket r
      → UnsetOption (elim r [
        | none ↦ none
        | some (u', off, len) ↦ finalize_fields m with_port e s u' off len
      ])
  bracket_fields-Unset with_port e s none w = tt
  bracket_fields-Unset with_port e s (some (u, off, len)) h =
      finalize_fields-Unset with_port e s u off len h

  finalize_host-Unset :
      (u : Url) (s e p : ℕ) (c : Bool)
      → u.field_set g ≡ false
      → UnsetOption (finalize_host_with_port u m s e p c)
  unfolding finalize_host_with_port
  finalize_host-Unset u s e p c h =
      let with_port = has_port s e p c in
      let len = if with_port then p - s - 1 else e - s in
      let open_case =
        bracket_fields-Unset with_port e p (finalize_bracket m u s len)
          (finalize_bracket-Unset u s len h) in
      let plain_case = finalize_fields-Unset with_port e p u s len h in
      elim (Bool-cases (leb 2 len && m s == b'[')) [
        | inl bracket ↦ rw bracket open_case
        | inr plain ↦ rw plain plain_case
      ]

  -- In a server state the field is the host, and `g` is not set; no state before one is entered.
  abbrev Tunnel : Parser → Type 0
  Tunnel p = (field_index p.field ≡ 1) × (p.url.field_set g ≡ false)

  abbrev Route : State → Parser → Type 0
  Route server_start p = Tunnel p
  Route server p = Tunnel p
  Route server_with_at p = Tunnel p
  Route path p = Unit
  Route query_or_fragment p = Unit
  Route query p = Unit
  Route fragment p = Unit
  Route _ p = ⊥

  abbrev OnRoute : Parser → Type 0
  OnRoute p = Route p.state p

  module _ (n : ℕ) where
    path_state-Route : (p : Parser) → p.state ≡ path → OutcomeAll OnRoute (path_state m n p)
    unfolding path_state
    path_state-Route p e = ground arith

    query_state-Route : (p : Parser) → p.state ≡ query → OutcomeAll OnRoute (query_state m n p)
    unfolding query_state
    query_state-Route p e = ground arith

    fragment_state-Route :
        (p : Parser) → p.state ≡ fragment → OutcomeAll OnRoute (fragment_state m n p)
    unfolding fragment_state
    fragment_state-Route p e = ground arith

    end_host-Route :
        (p : Parser) (f : Field) (at : ℕ)
        → OutcomeAll OnRoute (end_host m n p path f at)
          × OutcomeAll OnRoute (end_host m n p query f at)
    unfolding end_host
    end_host-Route p f at = ground arith

    open_bracket-Route : (p : Parser) → OnRoute p → OutcomeAll OnRoute (open_bracket m n p)
    unfolding open_bracket
    open_bracket-Route p h = ground arith

    at_sign-Route :
        (p : Parser) (with_at : Bool) → Tunnel p → OutcomeAll OnRoute (at_sign m n p with_at)
    unfolding at_sign
    at_sign-Route p with_at h = ground arith

    server_byte-Route :
        (p : Parser) (ch : ℕ) (with_at : Bool)
        → OnRoute p
        → Tunnel p
        → OutcomeAll OnRoute (server_byte m n p ch with_at)
    unfolding server_byte colon close_bracket
    server_byte-Route p ch with_at on h = ground (
      arith,
      end_host-Route p Field.path p.index,
      end_host-Route p Field.query (p.index + 1),
      open_bracket-Route p on,
      at_sign-Route p with_at h,
    )

    server_state-Route :
        (p : Parser) (ch : ℕ) (with_at : Bool)
        → OnRoute p
        → Tunnel p
        → OutcomeAll OnRoute (server_state m n p ch with_at)
    unfolding server_state
    server_state-Route p ch with_at on h = ground (arith, server_byte-Route p ch with_at on h)

    server_start-Route :
        (p : Parser) (ch : ℕ) → Tunnel p → OutcomeAll OnRoute (server_start_state m n p ch)
    unfolding server_start_state
    server_start-Route p ch h =
        let entered = enter p server Field.host p.index in
        let p' = record entered { found_colon = false; port_start = 0; bracket_depth = 0 } in
        let fresh : Tunnel p' = (refl, (ground (arith, beyond, h))) in
        ground (arith, server_state-Route p' ch false fresh fresh)

    round_in-Route :
        (s : State) (p : Parser) → p.state ≡ s → Route s p → OutcomeAll OnRoute (round_in m n s p)
    unfolding round_in switch_state query_or_fragment_state
    round_in-Route server_start p e h = server_start-Route p (m p.index) h
    round_in-Route server p e h = server_state-Route p (m p.index) false (simp e h) h
    round_in-Route server_with_at p e h = server_state-Route p (m p.index) true (simp e h) h
    round_in-Route path p e h = path_state-Route p e
    round_in-Route query p e h = query_state-Route p e
    round_in-Route fragment p e h = fragment_state-Route p e
    round_in-Route query_or_fragment p e h = ground arith
    round_in-Route _ p e h = absurd h

    round-Route : (p : Parser) → OnRoute p → OutcomeAll OnRoute (round m n p)
    unfolding round
    round-Route p h = round_in-Route p.state p refl h

    loop-Route : (fuel : ℕ) (p : Parser) → OnRoute p → ExitAll OnRoute (loop m n fuel p)
    loop-Route = loop_inv m n OnRoute OnRoute round-Route (λ q on inside. on)

    -- What a successful call in CONNECT mode leaves.
    abbrev Authority : Option Url → Type 0
    Authority none = Unit
    Authority (some u) =
        (u.field_set Field.host ≡ true) × (u.field_set Field.port ≡ true) × (u.field_set g ≡ false)

    final_field-Unset : (p : Parser) → Tunnel p → UnsetOption (final_field m p)
    unfolding final_field
    final_field-Unset p h =
        ground
          (arith, finalize_host-Unset p.url p.field_start p.index p.port_start p.found_colon h.1)

    checked :
        (s : State) (p : Parser) → Route s p → (in_server s ≡ true → UnsetOption (final_field m p))
    checked server p h e = final_field-Unset p h
    checked server_with_at p h e = final_field-Unset p h
    checked _ p h e = cc

    finish-Authority : (p : Parser) → OnRoute p → Authority (finish m true p)
    unfolding finish is_complete
    finish-Authority p h = ground (arith, checked p.state p h)

    exit-Authority : (e : Exit) → ExitAll OnRoute e → Authority (finish_exit m true e)
    unfolding finish_exit
    exit-Authority returned h = tt
    exit-Authority out_of_fuel h = tt
    exit-Authority (left p) h = finish-Authority p h

    call-Authority : Authority (http_parser_parse_url m n true url_init)
    unfolding http_parser_parse_url parse_from first_round
    call-Authority =
        let p = enter (locals url_init server_start 0) server_start Field.host 0 in
        let fresh : OnRoute p = (refl, (ground (arith, beyond))) in
        ground (arith, exit-Authority (loop m n (enough n) p) (loop-Route (enough n) p fresh))

-- For every memory, buffer length and field other than HOST, PORT and USERINFO: where
-- `http_parser_parse_url` succeeds in CONNECT mode on an initialised structure, HOST and PORT are
-- set, and that field is not.
pub http_parser_parse_url-connect :
    (m : Memory) (n : ℕ) (g : Field) {u : Url}
    → Beyond g
    → http_parser_parse_url m n true url_init ≡ some u
    → (u.field_set Field.host ≡ true) × (u.field_set Field.port ≡ true) × (u.field_set g ≡ false)
http_parser_parse_url-connect m n g {u} beyond ok =
    subst (Authority m g beyond n) ok (call-Authority m g beyond n)
