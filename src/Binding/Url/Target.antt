-- ===== src/Binding/Url/Target.antt =====
-- lhttp_url.c: what `parse` makes of a request target that is given as a text.
use mathlib.Core.Path.{fun_ext}
use lhttp_parser.Prelude.{
  ℕ, ◌+◌, ◌-◌, ◌<◌, ◌≡◌, ◌≢◌, refl, ap, sym, ◌∙◌, true, false, [], ◌∷◌, ◌++◌, Option, none, some,
  arith, Bytes, length, length-append, All, Memory, memory, shift, bytes_at, Reads, Reads-tail,
  bytes_at-Reads, Reads-shift, Reads-append, Reads-prefix, LacksByte, LacksByte-cons, all_from,
}
use lhttp_parser.Binding.Url.{
  Component, protocol, auth, hostname, port, pathname, query, hash, field_of, field_text, parse_url,
}
use lhttp_parser.Url.Automaton.{is_invalid}
use lhttp_parser.Url.Fields.{uint16, url_init}
use lhttp_parser.Url.Parse.{http_parser_parse_url}
use lhttp_parser.Url.Scan.{ends_path, is_valid_char}
use lhttp_parser.Url.Target.{PathBytes, target, http_parser_parse_url-target}

-- A byte of a path: valid, and neither `?` nor `#`.
abbrev pub PathByte : ℕ → Type 0
PathByte c = (ends_path c ≡ false) × (is_invalid c ≡ false)

-- A byte of a query: valid, and not `#`.
abbrev pub QueryByte : ℕ → Type 0
QueryByte c = (c ≢ b'#') × (is_valid_char c ≡ true)

module _ (m : Memory) where
  pub first_byte : (p c : ℕ) (s : Bytes) → Reads m p (c ∷ s) → m p ≡ c
  first_byte p c s h = ground (arith, h 0)

  PathBytes-Reads : (p : ℕ) (s : Bytes) → Reads m p s → All PathByte s → PathBytes m p (length s)
  PathBytes-Reads p [] h bytes = tt
  PathBytes-Reads p (c ∷ s) h bytes =
      (rw (first_byte p c s h) bytes.0, PathBytes-Reads (p + 1) s (Reads-tail m p c s h) bytes.1)

  pub all_from-Reads :
      (p : ℕ) (s : Bytes)
      → Reads m p s
      → All QueryByte s
      → all_from is_valid_char m p (length s) ≡ true
  unfolding all_from
  all_from-Reads p [] h bytes = refl
  all_from-Reads p (c ∷ s) h bytes =
      ground (arith, first_byte p c s h, all_from-Reads (p + 1) s (Reads-tail m p c s h) bytes.1)

  pub LacksByte-Reads :
      (p : ℕ) (s : Bytes) → Reads m p s → All QueryByte s → LacksByte m b'#' p (length s)
  LacksByte-Reads p [] h bytes = λ q le lt e. omega arith
  LacksByte-Reads p (c ∷ s) h bytes =
      LacksByte-cons m b'#' p (length s) (λ e. bytes.0.0 (sym (first_byte p c s h) ∙ e))
        (LacksByte-Reads (p + 1) s (Reads-tail m p c s h) bytes.1)

  -- The text of a field that is set.
  pub text_at :
      (off len : ℕ) (s : Bytes) → Reads m off s → len ≡ length s → bytes_at (shift off m) len ≡ s
  text_at off len s h e = rw e (bytes_at-Reads (shift off m) s (Reads-shift m off s h))

-- The components of a request target.
abbrev pub target_parts : Bytes → Bytes → Component → Option Bytes
target_parts path q pathname = some path
target_parts path q query = some q
target_parts path q protocol = none
target_parts path q auth = none
target_parts path q hostname = none
target_parts path q port = none
target_parts path q hash = none

-- The second byte of a path is no `/`.
abbrev pub OneSlash : Bytes → Type 0
OneSlash [] = Unit
OneSlash (c ∷ s) = c ≢ b'/'

module _ (p q : Bytes) (short : length ((b'/' ∷ p) ++ (b'?' ∷ q)) < 65536) where
  abbrev url : Bytes
  url = (b'/' ∷ p) ++ (b'?' ∷ q)

  abbrev at_mark : ℕ
  at_mark = length (b'/' ∷ p)

  url-length : length url ≡ at_mark + 1 + length q
  url-length = omega (arith, length-append {0} p (b'?' ∷ q))

  url-mark : memory url at_mark ≡ b'?'
  url-mark = ground (arith, Reads-append (b'/' ∷ p) (b'?' ∷ q) 0 (omega arith))

  url-query : Reads (memory url) (at_mark + 1) q
  url-query = Reads-tail (memory url) at_mark b'?' q (Reads-append (b'/' ∷ p) (b'?' ∷ q))

  second_byte : OneSlash p → memory url 1 ≢ b'/'
  second_byte one = go p one
    where
      go : (s : Bytes) → OneSlash s → memory (s ++ (b'?' ∷ q)) 0 ≢ b'/'
      go [] h e = omega (arith, e)
      go (c ∷ s) h e = h e

  parts_of_target :
      (c : Component)
      → field_text (memory url) (target at_mark (length url)) (field_of c)
        ≡ target_parts (b'/' ∷ p) q c
  parts_of_target pathname = ap some (
      text_at (memory url) 0 (uint16 at_mark) (b'/' ∷ p) (Reads-prefix (b'/' ∷ p) (b'?' ∷ q))
        (omega (arith, url-length)))
  parts_of_target query =
      let place : uint16 (at_mark + 1) ≡ at_mark + 1 = omega (arith, url-length) in
      ap some (
        text_at (memory url) (uint16 (at_mark + 1)) (uint16 (length url - (at_mark + 1))) q
          (rw place url-query) (omega (arith, url-length)))
  parts_of_target protocol = refl
  parts_of_target auth = refl
  parts_of_target hostname = refl
  parts_of_target port = refl
  parts_of_target hash = refl

-- For all texts `path` and `query` of valid bytes, where `path` begins with one `/` and holds no `?`
-- or `#`, `query` is not empty and holds no `#`, and the target is shorter than 65536 bytes: `parse`
-- of the target, `path?query`, returns the two texts under `pathname` and `query`, and nothing under
-- the other keys.
pub parse_url-target :
    (p q : Bytes)
    → length ((b'/' ∷ p) ++ (b'?' ∷ q)) < 65536
    → All PathByte (b'/' ∷ p)
    → OneSlash p
    → All QueryByte q
    → 0 < length q
    → parse_url (memory ((b'/' ∷ p) ++ (b'?' ∷ q))) (length ((b'/' ∷ p) ++ (b'?' ∷ q))) false
      ≡ some (target_parts (b'/' ∷ p) q)
unfolding parse_url
parse_url-target p q short path_bytes one query_bytes pos =
    let s = (b'/' ∷ p) ++ (b'?' ∷ q) in
    let at = length (b'/' ∷ p) in
    let size : length s ≡ at + 1 + length q = url-length p q short in
    let rest : length s - (at + 1) ≡ length q = omega (arith, size) in
    let parsed : http_parser_parse_url (memory s) (length s) false url_init
        ≡ some (target at (length s)) =
      http_parser_parse_url-target (memory s) (length s) at short refl (second_byte p q short one)
        (PathBytes-Reads (memory s) 0 (b'/' ∷ p) (Reads-prefix (b'/' ∷ p) (b'?' ∷ q)) path_bytes)
        (url-mark p q short) (omega (arith, size))
        (rw rest (LacksByte-Reads (memory s) (at + 1) q (url-query p q short) query_bytes))
        (rw rest (all_from-Reads (memory s) (at + 1) q (url-query p q short) query_bytes)) in
    rw (parsed, parse_url) (ap some (fun_ext (parts_of_target p q short)))
