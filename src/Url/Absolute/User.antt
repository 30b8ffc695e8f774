-- ===== src/Url/Absolute/User.antt =====
-- llurl.c: the run of `http_parser_parse_url` over userinfo, up to its `@`.
use mathlib.Core.Path.{subst}
use lhttp_parser.Prelude.{
  ℕ, zero, suc, ◌+◌, ◌-◌, ◌≤◌, ◌<◌, ◌≡◌, ap, ◌∙◌, Bool, true, false, ◌⊎◌, inl, inr, arith, ◌==◌,
  Memory, all_from, Bool-cases, if◌then◌else◌,
}
use lhttp_parser.Url.Absolute.{HostBytes}
use lhttp_parser.Url.Absolute.Host.{arrive_name, in_host}
use lhttp_parser.Url.Absolute.Tail.{arrive, arrive_continue}
use lhttp_parser.Url.Chars.{is_userinfo_char}
use lhttp_parser.Url.Chars.Ranges.{is_userinfo_char_range}
use lhttp_parser.Url.Fields.{Field, Url, mark_field, unmark_field, set_field_data}
use lhttp_parser.Url.Locals.{Parser}
use lhttp_parser.Url.Round.{switch_state, round_in, round}
use lhttp_parser.Url.Scan.{is_server_delim}
use lhttp_parser.Url.Server.{at_sign, colon, server_byte, server_state}

-- A byte of userinfo is a colon, or can stand in a host.
user_byte : (c : ℕ) → is_userinfo_char c ≡ true → (c ≡ b':') ⊎ (is_server_delim c ≡ false)
user_byte c user = elim (Bool-cases (c == b':')) [
  | inl here ↦ inl (ground arith)
  | inr other ↦ inr (ground (arith, is_userinfo_char_range c))
]

module _ (m : Memory) where
  -- Bytes that can stand in userinfo.
  abbrev UserBytes : ℕ → ℕ → Type 0
  UserBytes i k = all_from is_userinfo_char m i k ≡ true

  moved : {i j k l : ℕ} → UserBytes i k → i ≡ j → k ≡ l → UserBytes j l
  moved {i} {j} {k} {l} h e e' = subst (UserBytes j) e' (subst (λ x. UserBytes x k) e h)

  -- Some bytes of userinfo, up to its first colon or its end.
  record Name (i k : ℕ) : Type 0 where
    width : ℕ
    inside : width ≤ k
    bytes : HostBytes m i width
    stop : is_server_delim (m (i + width)) ≡ true
    rest : UserBytes (i + width) (k - width)

  no-Name : (i k : ℕ) → UserBytes i k → is_server_delim (m i) ≡ true → Name i k
  no-Name i k user stop = record {
    width = 0;
    inside = omega arith;
    bytes = tt;
    stop = subst (λ j. is_server_delim (m j) ≡ true) (omega arith) stop;
    rest = moved user (omega arith) (omega arith);
  }

  longer-Name :
      (i k : ℕ)
      → (is_server_delim (m i) ≡ false) × (is_userinfo_char (m i) ≡ true)
      → Name (i + 1) k
      → Name i (suc k)
  longer-Name i k byte later = record {
    width = suc later.width;
    inside = omega (arith, later.inside);
    bytes = (byte, later.bytes);
    stop = subst (λ j. is_server_delim (m j) ≡ true) (omega arith) later.stop;
    rest = moved later.rest (omega arith) (omega arith);
  }

  name : (i k : ℕ) → UserBytes i k → m (i + k) ≡ b'@' → Name i k
  unfolding all_from
  name i zero user mark = no-Name i zero user (ground arith)
  name i (suc k) user mark =
      let first : is_userinfo_char (m i) ≡ true = ground arith in
      let others : UserBytes (i + 1) k = ground arith in
      elim (user_byte (m i) first) [
        | inl sep ↦ no-Name i (suc k) user (ground arith)
        | inr byte ↦
            longer-Name i k (byte, first) (name (i + 1) k others (ap m (omega arith) ∙ mark))
      ]

module _ (m : Memory) (n : ℕ) where
  -- In userinfo from `s` on, with what the colons of it have left.
  abbrev in_user : Parser → ℕ → Bool → ℕ → ℕ → Parser
  in_user p s found start i = record (in_host m n false p s i) {
    found_colon = found;
    port_start = start;
  }

  -- The structure behind the `@` at `e`.
  abbrev pub user_url : Url → ℕ → ℕ → Url
  user_url u s e =
      unmark_field
        (mark_field (set_field_data (mark_field u Field.host) Field.userinfo s (e - s))
          Field.userinfo)
        Field.host

  abbrev pub behind_at : Parser → ℕ → ℕ → Parser
  behind_at p s e = in_host m n true (record p { url = user_url p.url s e }) (e + 1) (e + 1)

  at_mark :
      (p : Parser) (s i : ℕ) (found : Bool) (start : ℕ)
      → i < n
      → m i ≡ b'@'
      → arrive m n (in_user p s found start i) ≡ arrive m n (behind_at p s i)
  unfolding round round_in switch_state server_state server_byte at_sign
  at_mark p s i found start inside mark =
      arrive_continue m n (in_user p s found start i) (behind_at p s i) inside (ground arith)

  -- A colon of userinfo is taken for the one of a port, until the `@`.
  abbrev port_at : Bool → ℕ → ℕ → ℕ
  port_at found start i = if found then start else i + 1

  at_colon :
      (p : Parser) (s i : ℕ) (found : Bool) (start : ℕ)
      → i < n
      → m i ≡ b':'
      → arrive m n (in_user p s found start i)
        ≡ arrive m n (in_user p s true (port_at found start i) (i + 1))
  unfolding round round_in switch_state server_state server_byte colon
  at_colon p s i true start inside mark =
      arrive_continue m n (in_user p s true start i) (in_user p s true start (i + 1)) inside
        (ground arith)
  at_colon p s i false start inside mark =
      arrive_continue m n (in_user p s false start i) (in_user p s true (i + 1) (i + 1)) inside
        (ground arith)

  -- The run over `k` bytes of userinfo up to the `@` at `e`.
  arrive_user :
      (fuel k : ℕ) (p : Parser) (s i e : ℕ) (found : Bool) (start : ℕ)
      → k ≤ fuel
      → i + k ≡ e
      → e < n
      → UserBytes m i k
      → m e ≡ b'@'
      → arrive m n (in_user p s found start i) ≡ arrive m n (behind_at p s e)
  unfolding all_from
  arrive_user fuel zero p s i e found start le end inside user mark =
      ap (λ j. arrive m n (in_user p s found start j)) (omega (arith, end))
      ∙ at_mark p s e found start inside mark
  arrive_user zero (suc k) p s i e found start le end inside user mark = absurd (omega arith)
  arrive_user (suc fuel) (suc k) p s i e found start le end inside user mark =
      let first : is_userinfo_char (m i) ≡ true = ground arith in
      let others : UserBytes m (i + 1) k = ground arith in
      elim (user_byte (m i) first) [
        | inl sep ↦
            at_colon p s i found start (omega arith) sep
            ∙ arrive_user fuel k p s (i + 1) e true (port_at found start i) (omega arith)
                (omega arith) inside others mark
        | inr byte ↦
            let ends : i + 1 + k ≡ e = omega arith in
            let part = name m (i + 1) k others (ap m ends ∙ mark) in
            arrive_name m n false (in_user p s found start i) i part.width
              (omega (arith, part.inside)) ((byte, first), part.bytes) part.stop
            ∙ arrive_user fuel (k - part.width) p s (i + 1 + part.width) e found start
                (omega (arith, part.inside)) (omega (arith, part.inside)) inside part.rest mark
      ]

  -- The whole of the userinfo, from `s` on.
  pub arrive_userinfo :
      (p : Parser) (s e : ℕ)
      → s ≤ e
      → e < n
      → UserBytes m s (e - s)
      → m e ≡ b'@'
      → arrive m n (in_host m n false p s s) ≡ arrive m n (behind_at p s e)
  arrive_userinfo p s e order inside user mark =
      arrive_user (e - s) (e - s) p s s e false 0 (omega arith) (omega arith) inside user mark
