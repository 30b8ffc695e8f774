-- ===== src/Binding/Url/Absolute/Whole.antt =====
-- lhttp_url.c: what `parse` makes of an absolute URL that is given by its parts.
use mathlib.Core.Path.{subst, fun_ext}
use lhttp_parser.Prelude.{
  ℕ, ◌+◌, ◌-◌, ◌≡◌, refl, sym, ap, ◌∙◌, false, [], ◌∷◌, ◌++◌, Option, none, some, arith, Bytes,
  length, length-append, Memory, memory, Reads, Reads-tail, Reads-left, Reads-right, Reads-memory,
}
use lhttp_parser.Binding.Url.{
  Component, protocol, auth, hostname, port, pathname, query, hash, field_of, field_text, parse_url,
}
use lhttp_parser.Binding.Url.Absolute.{
  Parts, marked, user_text, schema_text, path_text, slashes_text, url_text, IsParts, table_of,
}
use lhttp_parser.Binding.Url.Absolute.Places.{
  AllStay-Reads, IsUser-Reads, HostBytes-Reads, LacksByte-HostByte, InPath-Reads, IsPort-Reads,
  IsQuery-Reads, IsFragment-Reads, number, is_some, user_end,
}
use lhttp_parser.Binding.Url.Target.{first_byte, text_at}
use lhttp_parser.Url.Absolute
use lhttp_parser.Url.Absolute.{
  host_at, user_place, place_if, HostBytes, InPath, IsFragment, IsAbsolute, place, Shows,
}
use lhttp_parser.Url.Absolute.Found.{ParsesTo, number_of}
use lhttp_parser.Url.Absolute.Parse.{http_parser_parse_url-absolute}
use lhttp_parser.Url.Fields.{Field, Url, url_init}
use lhttp_parser.Url.Parse.{http_parser_parse_url}

module _ (p : Parts) where
  -- The places of the parts in the text.
  abbrev m : Memory
  m = memory (url_text p)

  abbrev after_path : Bytes
  after_path = marked b'?' p.query ++ marked b'#' p.fragment

  abbrev after_port : Bytes
  after_port = path_text p ++ after_path

  abbrev after_host : Bytes
  after_host = marked b':' p.port ++ after_port

  abbrev after_user : Bytes
  after_user = p.host ++ after_host

  abbrev after_slashes : Bytes
  after_slashes = user_text p.user ++ after_user

  abbrev k : ℕ
  k = length (schema_text p)

  abbrev user : Option ℕ
  user = user_end k p.user

  abbrev a : ℕ
  a = host_at k user

  abbrev b : ℕ
  b = a + length p.host

  abbrev c : ℕ
  c = b + length (marked b':' p.port)

  abbrev q : ℕ
  q = c + length (path_text p)

  abbrev r : ℕ
  r = q + length (marked b'?' p.query)

  host_begins_at : (o : Option Bytes) → host_at k (user_end k o) ≡ k + 3 + length (user_text o)
  host_begins_at none = omega arith
  host_begins_at (some s) = omega (arith, length-append {0} s (b'@' ∷ []))

  host_begins : a ≡ k + 3 + length (user_text p.user)
  host_begins = host_begins_at p.user

  url_text-length : length (url_text p) ≡ r + length (marked b'#' p.fragment)
  url_text-length = omega (
    arith,
    length-append {0} (schema_text p) (slashes_text ++ after_slashes),
    length-append {0} slashes_text after_slashes,
    length-append {0} (user_text p.user) after_user,
    length-append {0} p.host after_host,
    host_begins,
    length-append {0} (marked b':' p.port) after_port,
    length-append {0} (path_text p) after_path,
    length-append {0} (marked b'?' p.query) (marked b'#' p.fragment),
  )

  -- What is read at each place.
  schema-Reads : Reads m 0 (schema_text p)
  schema-Reads =
      Reads-left m 0 (schema_text p) (slashes_text ++ after_slashes) (Reads-memory (url_text p))

  slashes-Reads : Reads m k (slashes_text ++ after_slashes)
  slashes-Reads =
      subst (λ i. Reads m i (slashes_text ++ after_slashes)) (omega arith)
        (Reads-right m 0 (schema_text p) (slashes_text ++ after_slashes)
          (Reads-memory (url_text p)))

  after_slashes-Reads : Reads m (k + 3) after_slashes
  after_slashes-Reads = Reads-right m k slashes_text after_slashes slashes-Reads

  after_user-Reads : Reads m a after_user
  after_user-Reads =
      subst (λ i. Reads m i after_user) (sym host_begins)
        (Reads-right m (k + 3) (user_text p.user) after_user after_slashes-Reads)

  after_host-Reads : Reads m b after_host
  after_host-Reads = Reads-right m a p.host after_host after_user-Reads

  after_port-Reads : Reads m c after_port
  after_port-Reads = Reads-right m b (marked b':' p.port) after_port after_host-Reads

  after_path-Reads : Reads m q after_path
  after_path-Reads = Reads-right m c (path_text p) after_path after_port-Reads

  user-Reads : Reads m (k + 3) (user_text p.user)
  user-Reads = Reads-left m (k + 3) (user_text p.user) after_user after_slashes-Reads

  host-Reads : Reads m a p.host
  host-Reads = Reads-left m a p.host after_host after_user-Reads

  port-Reads : Reads m b (marked b':' p.port)
  port-Reads = Reads-left m b (marked b':' p.port) after_port after_host-Reads

  path-Reads : Reads m c (path_text p)
  path-Reads = Reads-left m c (path_text p) after_path after_port-Reads

  query-Reads : Reads m q (marked b'?' p.query)
  query-Reads = Reads-left m q (marked b'?' p.query) (marked b'#' p.fragment) after_path-Reads

  fragment-Reads : Reads m r (marked b'#' p.fragment)
  fragment-Reads = Reads-right m q (marked b'?' p.query) (marked b'#' p.fragment) after_path-Reads

  parts-IsAbsolute :
      IsParts p
      → IsAbsolute m
          (length (url_text p))
          k
          user
          b
          c
          q
          r
          (number p.port)
          (is_some p.query)
          (is_some p.fragment)
  parts-IsAbsolute w =
      let n = length (url_text p) in
      let slashes = Reads-left m k slashes_text after_slashes slashes-Reads in
      let host_width : b - a ≡ length p.host = omega arith in
      let path_width : q - c ≡ length (path_text p) = omega arith in
      record {
        starts = w.starts;
        schema = AllStay-Reads m n (schema_text p) k schema-Reads w.schema (omega arith);
        colon = first_byte m k b':' (b'/' ∷ b'/' ∷ []) slashes;
        slashes = (ap m (omega arith) ∙ slashes 1 (omega arith), slashes 2 (omega arith));
        userinfo = IsUser-Reads m n k p.user user-Reads w.user;
        host = (
          subst (HostBytes m a) (sym host_width) (HostBytes-Reads m a p.host host-Reads w.host.0),
          omega (arith, w.host.1),
        );
        plain = rw host_width (LacksByte-HostByte m a p.host host-Reads w.host.0);
        port_part = IsPort-Reads m n b p.port port-Reads w.port;
        path = (
          first_byte m c b'/' p.path_rest path-Reads,
          subst (InPath m c) (sym path_width) (InPath-Reads m c (path_text p) path-Reads w.path),
          omega arith,
        );
        query_part = IsQuery-Reads m n q p.query query-Reads w.query;
        fragment_part =
            subst (λ e. IsFragment m e (is_some p.fragment) r) (sym url_text-length)
              (IsFragment-Reads m r p.fragment fragment-Reads w.fragment);
      }

  -- What the table holds for a field that is shown at a place, or that is missing.
  shown :
      (u : Url) (f : Field) (s e : ℕ) (text : Bytes)
      → Shows u f (some (s, e))
      → Reads m s text
      → e - s ≡ length text
      → field_text m u f ≡ some text
  shown u f s e text (set, off, len) reads width =
      rw (set, off) (ap some (text_at m s (u.len f) text reads (len ∙ width)))

  missing : (u : Url) (f : Field) → Shows u f none → field_text m u f ≡ none
  missing u f unset = rw unset refl

  abbrev places : Field → Option (ℕ × ℕ)
  places =
      place (length (url_text p)) k user b c q r (number p.port) (is_some p.query)
        (is_some p.fragment)

  -- The same of a part that may be missing, behind its mark at `a`.
  shown_if :
      (u : Url) (f : Field) (mark a e : ℕ) (o : Option Bytes)
      → Shows u f (place_if (is_some o) (a + 1) e)
      → Reads m a (marked mark o)
      → e ≡ a + length (marked mark o)
      → field_text m u f ≡ o
  shown_if u f mark a e none h reads width = missing u f h
  shown_if u f mark a e (some s) h reads width =
      shown u f (a + 1) e s h (Reads-tail m a mark s reads) (omega arith)

  shown_user :
      (u : Url) (o : Option Bytes)
      → Shows u Field.userinfo (user_place k (user_end k o))
      → Reads m (k + 3) (user_text o)
      → field_text m u Field.userinfo ≡ o
  shown_user u none h reads = missing u Field.userinfo h
  shown_user u (some s) h reads =
      shown u Field.userinfo (k + 3) _ s h (Reads-left m (k + 3) s (b'@' ∷ []) reads) (omega arith)

  has_number : (o : Option Bytes) → Absolute.is_some (number o) ≡ is_some o
  has_number none = refl
  has_number (some s) = refl

  shown_parts :
      (u : Url)
      → ((f : Field) → Shows u f (places f))
      → (x : Component) → field_text m u (field_of x) ≡ table_of p x
  shown_parts u h protocol =
      shown u Field.schema 0 k (schema_text p) (h Field.schema) schema-Reads (omega arith)
  shown_parts u h auth = shown_user u p.user (h Field.userinfo) user-Reads
  shown_parts u h hostname = shown u Field.host a b p.host (h Field.host) host-Reads (omega arith)
  shown_parts u h port =
      shown_if u Field.port b':' b c p.port
        (subst (λ t. Shows u Field.port (place_if t (b + 1) c)) (has_number p.port) (h Field.port))
        port-Reads refl
  shown_parts u h pathname =
      shown u Field.path c q (path_text p) (h Field.path) path-Reads (omega arith)
  shown_parts u h query = shown_if u Field.query b'?' q r p.query (h Field.query) query-Reads refl
  shown_parts u h hash =
      shown_if u Field.fragment b'#' r (length (url_text p)) p.fragment (h Field.fragment)
        fragment-Reads url_text-length

  table_found :
      (o : Option Url)
      → ParsesTo o places (number_of (number p.port))
      → (elim o [ none ↦ none | some u ↦ some (λ x. field_text m u (field_of x)) ])
        ≡ some (table_of p)
  table_found none h = absurd h
  table_found (some u) h = ap some (fun_ext (shown_parts u h.0))

-- For all texts of a schema, a host and a path, and of userinfo, a port, a query and a fragment that
-- may each be missing, of bytes that these may hold, where the schema begins with a letter, the host
-- is not empty and has no percent sign, the port is one to five digits for at most 65535, the path
-- begins with `/`, the query holds no `#`, and the whole is shorter than 65536 bytes: `parse` of the
-- text `schema://user@host:port/path?query#fragment`, not in CONNECT mode, with the marks of the
-- parts that are there, returns the texts under their keys, and nothing under the others.
pub parse_url-table_of :
    (p : Parts)
    → IsParts p
    → parse_url (memory (url_text p)) (length (url_text p)) false ≡ some (table_of p)
unfolding parse_url
parse_url-table_of p w =
    table_found p (http_parser_parse_url (memory (url_text p)) (length (url_text p)) false url_init)
      (http_parser_parse_url-absolute (memory (url_text p)) (length (url_text p)) (k p) (user p)
        (b p) (c p) (q p) (r p) (number p.port) (is_some p.query) (is_some p.fragment) w.short
        (parts-IsAbsolute p w))
