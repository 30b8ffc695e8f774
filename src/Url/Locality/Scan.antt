-- ===== src/Url/Locality/Scan.antt =====
-- llurl.c: the scans and the validators of the parser read the bytes that they are given alone.
use lhttp_parser.Prelude.{
  ℕ, zero, suc, ◌+◌, ◌-◌, ◌≤◌, ◌≡◌, refl, sym, ◌∙◌, Bool, true, Option, none, some, arith, Memory,
  memchr, memchr_range, FoundIn, all_from,
}
use lhttp_parser.Url.Chars.Ranges.{digit_range}
use lhttp_parser.Url.Host.{percent_loop, validate_host_percent_encoding}
use lhttp_parser.Url.Locality.{Agree}
use lhttp_parser.Url.Port.{parse_port}
use lhttp_parser.Url.Port.Reference.{decimal, port_of, parse_port-port_of}
use lhttp_parser.Url.Scan.{scan_path, scan_server}

module _ (m m' : Memory) (n : ℕ) (same : Agree m m' n) where
  pub memchr_local : (c p k : ℕ) → p + k ≤ n → memchr m c p k ≡ memchr m' c p k
  unfolding memchr
  memchr_local c p zero fits = refl
  memchr_local c p (suc k) fits =
      rw (same p (omega arith), memchr_local c (p + 1) k (omega arith)) refl

  pub all_from_local : (f : ℕ → Bool) (p k : ℕ) → p + k ≤ n → all_from f m p k ≡ all_from f m' p k
  unfolding all_from
  all_from_local f p zero fits = refl
  all_from_local f p (suc k) fits =
      rw (same p (omega arith), all_from_local f (p + 1) k (omega arith)) refl

  pub scan_path_local : (p k : ℕ) → p + k ≤ n → scan_path m p k ≡ scan_path m' p k
  unfolding scan_path
  scan_path_local p zero fits = refl
  scan_path_local p (suc k) fits =
      rw (same p (omega arith), scan_path_local (p + 1) k (omega arith)) refl

  pub scan_server_local : (p k : ℕ) → p + k ≤ n → scan_server m p k ≡ scan_server m' p k
  unfolding scan_server
  scan_server_local p zero fits = refl
  scan_server_local p (suc k) fits =
      rw (same p (omega arith), scan_server_local (p + 1) k (omega arith)) refl

  decimal_local : (p k acc : ℕ) → p + k ≤ n → decimal m p k acc ≡ decimal m' p k acc
  decimal_local p zero acc fits = refl
  decimal_local p (suc k) acc fits =
      rw (same p (omega arith)) (decimal_local (p + 1) k _ (omega arith))

  port_of_local : (p len : ℕ) → p + len ≤ n → port_of m p len ≡ port_of m' p len
  port_of_local p len fits =
      rw (all_from_local digit_range p len fits, decimal_local p len 0 fits) refl

  pub parse_port_local : (p len : ℕ) → p + len ≤ n → parse_port m p len ≡ parse_port m' p len
  parse_port_local p len fits =
      parse_port-port_of m p len ∙ port_of_local p len fits ∙ sym (parse_port-port_of m' p len)

  percent_loop_local : (p k : ℕ) → p + k ≤ n → percent_loop m p k ≡ percent_loop m' p k
  unfolding percent_loop
  percent_loop_local p zero fits = refl
  percent_loop_local p (suc zero) fits = rw (same p (omega arith)) refl
  percent_loop_local p (suc (suc zero)) fits =
      rw (same p (omega arith), percent_loop_local (p + 1) (suc zero) (omega arith)) refl
  percent_loop_local p (suc (suc (suc k))) fits =
      rw
        (
          same p (omega arith),
          same (p + 1) (omega arith),
          same (p + 2) (omega arith),
          percent_loop_local (p + 3) k (omega arith),
          percent_loop_local (p + 1) (suc (suc k)) (omega arith),
        )
        refl

  -- The loop from the first percent sign on.
  percents_local :
      (off len : ℕ) (o : Option ℕ)
      → FoundIn off (off + len) o
      → off + len ≤ n
      → (elim o [ none ↦ true | some q ↦ percent_loop m q (off + len - q) ])
        ≡ (elim o [ none ↦ true | some q ↦ percent_loop m' q (off + len - q) ])
  percents_local off len none h fits = refl
  percents_local off len (some q) h fits = percent_loop_local q (off + len - q) (omega arith)

  pub validate_host_local :
      (off len : ℕ)
      → off + len ≤ n
      → validate_host_percent_encoding m off len ≡ validate_host_percent_encoding m' off len
  unfolding validate_host_percent_encoding
  validate_host_local off len fits = ground (
    arith,
    memchr_local b'%' off len fits,
    memchr_local b':' off len fits,
    percents_local off len (memchr m b'%' off len) (memchr_range m b'%' off len) fits,
  )
