-- ===== src/Url/Absolute.antt =====
-- llurl.c: what an absolute URL is, for `http_parser_parse_url`: a schema, a host, a port or none, a
-- path, a query or none, and a fragment or none, by their places in the buffer.
pub mod Tail
pub mod Host
pub mod User
pub mod Found
pub mod Parse
pub mod Tests
use lhttp_parser.Prelude.{
  ℕ, zero, suc, ◌+◌, ◌-◌, ◌<◌, ◌≡◌, Bool, true, false, Option, none, some, Memory, LacksByte,
  all_from,
}
use lhttp_parser.Url.Chars.{is_alpha, is_userinfo_char}
use lhttp_parser.Url.Fields.{Field, Url}
use lhttp_parser.Url.Port.Reference.{port_of}
use lhttp_parser.Url.ReadAhead.{AllStay}
use lhttp_parser.Url.Scan.{ends_path, is_server_delim, is_valid_char}

-- The bytes of `buf[p .. p + k)` can stand in a host: the server scan passes over them.
abbrev pub HostBytes : Memory → ℕ → ℕ → Type 0
HostBytes m p zero = Unit
HostBytes m p (suc k) =
    ((is_server_delim (m p) ≡ false) × (is_userinfo_char (m p) ≡ true)) × HostBytes m (p + 1) k

-- The bytes of `buf[p .. p + k)` can stand in a path.
abbrev pub InPath : Memory → ℕ → ℕ → Type 0
InPath m p zero = Unit
InPath m p (suc k) = ((ends_path (m p) ≡ false) × (is_valid_char (m p) ≡ true)) × InPath m (p + 1) k

-- Where the host begins: behind the slashes of the schema, or at `a`, behind userinfo and its `@`.
abbrev pub host_at : ℕ → Option ℕ → ℕ
host_at k none = k + 3
host_at k (some a) = a

module _ (m : Memory) (n : ℕ) where
  -- Userinfo, which may be empty and may hold colons.
  abbrev pub IsUser : ℕ → Option ℕ → Type 0
  IsUser k none = Unit
  IsUser k (some a) =
      (k + 3 < a)
      × (m (a - 1) ≡ b'@')
      × (all_from is_userinfo_char m (k + 3) (a - 1 - (k + 3)) ≡ true)

  -- Behind a host that ends at `b`: the port and its colon, up to `c`.
  abbrev pub IsPort : Option ℕ → ℕ → ℕ → Type 0
  IsPort none b c = c ≡ b
  IsPort (some v) b c = (m b ≡ b':') × (b + 1 < c) × (port_of m (b + 1) (c - (b + 1)) ≡ some v)

  -- Behind a path that ends at `q`: the query and its mark, up to `r`.
  abbrev pub IsQuery : Bool → ℕ → ℕ → Type 0
  IsQuery false q r = r ≡ q
  IsQuery true q r =
      (m q ≡ b'?')
      × (q < r)
      × LacksByte m b'#' (q + 1) (r - (q + 1))
      × (all_from is_valid_char m (q + 1) (r - (q + 1)) ≡ true)

  -- Behind them: the fragment and its mark, up to the end of the buffer.
  abbrev pub IsFragment : Bool → ℕ → Type 0
  IsFragment false r = r ≡ n
  IsFragment true r =
      (m r ≡ b'#') × (r < n) × (all_from is_valid_char m (r + 1) (n - (r + 1)) ≡ true)

  -- The schema ends at `k`, userinfo as above, the host at `b`, the port at `c`, the path at `q` and the query at `r`.
  pub record IsAbsolute (k : ℕ) (user : Option ℕ) (b c q r : ℕ) (port : Option ℕ)
      (has_query has_fragment : Bool) : Type 0 where
    pub starts : is_alpha (m 0) ≡ true
    pub schema : AllStay m n k
    pub colon : m k ≡ b':'
    pub slashes : (m (k + 1) ≡ b'/') × (m (k + 2) ≡ b'/')
    pub userinfo : IsUser k user
    pub host : HostBytes m (host_at k user) (b - host_at k user) × (host_at k user < b)
    pub plain : LacksByte m b'%' (host_at k user) (b - host_at k user)
    pub port_part : IsPort port b c
    pub path : (m c ≡ b'/') × InPath m c (q - c) × (c < q)
    pub query_part : IsQuery has_query q r
    pub fragment_part : IsFragment has_fragment r

-- Where each field of such a URL begins and ends, if it is there.
abbrev pub place_if : Bool → ℕ → ℕ → Option (ℕ × ℕ)
place_if false s e = none
place_if true s e = some (s, e)

abbrev pub is_some {ℓ} : {A : Type ℓ} → Option A → Bool
is_some none = false
is_some (some a) = true

-- Userinfo is followed by one byte, its `@`.
abbrev pub user_place : ℕ → Option ℕ → Option (ℕ × ℕ)
user_place k none = none
user_place k (some a) = some (k + 3, a - 1)

abbrev pub place :
    (n k : ℕ) → Option ℕ → (b c q r : ℕ) → Option ℕ → Bool → Bool → Field → Option (ℕ × ℕ)
place n k user b c q r port has_query has_fragment Field.schema = some (0, k)
place n k user b c q r port has_query has_fragment Field.host = some (host_at k user, b)
place n k user b c q r port has_query has_fragment Field.port = place_if (is_some port) (b + 1) c
place n k user b c q r port has_query has_fragment Field.path = some (c, q)
place n k user b c q r port has_query has_fragment Field.query = place_if has_query (q + 1) r
place n k user b c q r port has_query has_fragment Field.fragment = place_if has_fragment (r + 1) n
place n k user b c q r port has_query has_fragment Field.userinfo = user_place k user
place n k user b c q r port has_query has_fragment Field.max = none

-- A field is set, with the offset and the length of its place, or it is not set.
abbrev pub Shows : Url → Field → Option (ℕ × ℕ) → Type 0
Shows u f none = u.field_set f ≡ false
Shows u f (some (s, e)) = (u.field_set f ≡ true) × (u.off f ≡ s) × (u.len f ≡ e - s)
