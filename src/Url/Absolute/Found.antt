-- ===== src/Url/Absolute/Found.antt =====
-- llurl.c: where the loop of `http_parser_parse_url` is left for an absolute URL, and the structure
-- that is returned.
use lhttp_parser.Prelude.{
  ℕ, ◌+◌, ◌-◌, ◌≤◌, ◌<◌, ◌≡◌, Bool, true, false, Option, none, some, arith, Memory, LacksByte,
  memchr_lacks,
}
use lhttp_parser.Url.Absolute.{
  host_at, is_some, IsUser, IsPort, IsQuery, IsFragment, IsAbsolute, place, Shows,
}
use lhttp_parser.Url.Absolute.Host.{path_start}
use lhttp_parser.Url.Absolute.Tail.{tail_left}
use lhttp_parser.Url.Absolute.User.{user_url}
use lhttp_parser.Url.Automaton.{server_start}
use lhttp_parser.Url.Fields.{Field, Url, uint16}
use lhttp_parser.Url.Host.{validate_host_percent_encoding}
use lhttp_parser.Url.Locals.{Parser, close_field}
use lhttp_parser.Url.Parse.{final_field, is_complete, is_host_valid, finish}
use lhttp_parser.Url.ReadAhead.{behind}

-- The port number that is stored: 0 without a port.
abbrev pub number_of : Option ℕ → ℕ
number_of none = 0
number_of (some v) = v

module _ (m : Memory) (n : ℕ) where
  -- The order of the places.
  user-le : (k : ℕ) (user : Option ℕ) → IsUser m n k user → k + 3 ≤ host_at k user
  user-le k none w = omega arith
  user-le k (some a) w = omega (arith, w)

  port-le : (port : Option ℕ) (b c : ℕ) → IsPort m n port b c → b ≤ c
  port-le none b c e = omega arith
  port-le (some v) b c w = omega (arith, w)

  query-le : (has_query : Bool) (q r : ℕ) → IsQuery m n has_query q r → q ≤ r
  query-le false q r e = omega arith
  query-le true q r w = omega (arith, w)

  fragment-le : (has_fragment : Bool) (r : ℕ) → IsFragment m n has_fragment r → r ≤ n
  fragment-le false r e = omega arith
  fragment-le true r w = omega (arith, w)

  abbrev pub InOrder : (k : ℕ) (user : Option ℕ) (b c q r : ℕ) → Type 0
  InOrder k user b c q r =
      (k + 3 ≤ host_at k user) × (host_at k user < b) × (b ≤ c) × (c < q) × (q ≤ r) × (r ≤ n)

  pub IsAbsolute-InOrder :
      (k : ℕ) (user : Option ℕ) (b c q r : ℕ) (port : Option ℕ) (has_query has_fragment : Bool)
      → IsAbsolute m n k user b c q r port has_query has_fragment
      → InOrder k user b c q r
  IsAbsolute-InOrder k user b c q r port has_query has_fragment w = (
    user-le k user w.userinfo,
    w.host.1,
    port-le port b c w.port_part,
    w.path.2,
    query-le has_query q r w.query_part,
    fragment-le has_fragment r w.fragment_part,
  )

  -- Where the host may start, behind a schema and its slashes.
  abbrev pub at_authority : ℕ → Parser
  at_authority k = record (behind m n k) { state = server_start; index = k + 3 }

  -- What is known where the host starts, with and without userinfo.
  abbrev pub host_parser : ℕ → Option ℕ → Parser
  host_parser k none = at_authority k
  host_parser k (some a) = record (at_authority k) {
    url = user_url m n (at_authority k).url (k + 3) (a - 1);
  }

  abbrev pub start_of : ℕ → Option ℕ → Option ℕ → ℕ → ℕ → Parser
  start_of k user port b c =
      path_start m n (is_some user) port (host_parser k user) (host_at k user) b c

  -- Where the loop is left.
  abbrev pub end_of : ℕ → Option ℕ → ℕ → ℕ → ℕ → ℕ → Option ℕ → Bool → Bool → Parser
  end_of k user b c q r port has_query has_fragment =
      tail_left m n has_query has_fragment (start_of k user port b c) q r

  -- The structure that is returned.
  abbrev pub absolute_url : ℕ → Option ℕ → ℕ → ℕ → ℕ → ℕ → Option ℕ → Bool → Bool → Url
  absolute_url k user b c q r port has_query has_fragment =
      close_field (end_of k user b c q r port has_query has_fragment) n

  pub finish-end_of :
      (k : ℕ) (user : Option ℕ) (b c q r : ℕ) (port : Option ℕ) (has_query has_fragment : Bool)
      → validate_host_percent_encoding m (uint16 (host_at k user)) (uint16 (b - host_at k user))
        ≡ true
      → finish m false (end_of k user b c q r port has_query has_fragment)
        ≡ some (absolute_url k user b c q r port has_query has_fragment)
  unfolding finish final_field is_complete is_host_valid
  finish-end_of k user b c q r port x y valid = ground arith

  pub host-valid :
      (a k : ℕ)
      → a + k < 65536
      → LacksByte m b'%' a k
      → validate_host_percent_encoding m (uint16 a) (uint16 k) ≡ true
  unfolding validate_host_percent_encoding
  host-valid a k short lacks =
      let at_a : uint16 a ≡ a = omega arith in
      let of_k : uint16 k ≡ k = omega arith in
      rw (at_a, of_k) (ground (arith, memchr_lacks m b'%' a k lacks))

  pub shows :
      (k : ℕ) (user : Option ℕ) (b c q r : ℕ) (port : Option ℕ) (has_query has_fragment : Bool)
      (f : Field)
      → n < 65536
      → InOrder k user b c q r
      → IsPort m n port b c
      → IsQuery m n has_query q r
      → IsFragment m n has_fragment r
      → Shows
          (absolute_url k user b c q r port has_query has_fragment)
          f
          (place n k user b c q r port has_query has_fragment f)
  shows k user b c q r port x y f short order p v w = ground arith

  pub number :
      (k : ℕ) (user : Option ℕ) (b c q r : ℕ) (port : Option ℕ) (has_query has_fragment : Bool)
      → (absolute_url k user b c q r port has_query has_fragment).port_number ≡ number_of port
  number k user b c q r port x y = ground arith

-- A call succeeds with fields at their places, and the port number.
abbrev pub ParsesTo : Option Url → (Field → Option (ℕ × ℕ)) → ℕ → Type 0
ParsesTo none places stored = ⊥
ParsesTo (some u) places stored = ((f : Field) → Shows u f (places f)) × (u.port_number ≡ stored)
