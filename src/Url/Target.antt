-- ===== src/Url/Target.antt =====
-- llurl.c: what `http_parser_parse_url` makes of a request target, a path with a query behind it.
use lhttp_parser.Prelude.{
  ℕ, zero, suc, ◌+◌, ◌-◌, ◌*◌, ◌<◌, ◌≡◌, ◌≢◌, true, false, some, arith, Memory, LacksByte,
  memchr_lacks, all_from, ◌∙◌, ap,
}
use lhttp_parser.Url.Automaton.{is_invalid, path, query, query_or_fragment}
use lhttp_parser.Url.Fields.{Field, Url, url_init, mark_field, set_field_data}
use lhttp_parser.Url.Locals.{Parser, continue, break, enter}
use lhttp_parser.Url.Parse.{
  locals, first_round, left, loop, final_field, is_complete, is_host_valid, finish, finish_exit,
  enough, parse_from, http_parser_parse_url,
}
use lhttp_parser.Url.Round.{
  path_state, query_state, query_or_fragment_state, switch_state, round_in, round,
}
use lhttp_parser.Url.Scan.{ends_path, scan_path, is_valid_char}

-- The bytes of `buf[p .. p + n)` are valid and do not end a path.
abbrev pub PathBytes : Memory → ℕ → ℕ → Type 0
PathBytes m p zero = Unit
PathBytes m p (suc n) =
    ((ends_path (m p) ≡ false) × (is_invalid (m p) ≡ false)) × PathBytes m (p + 1) n

scan_path-PathBytes :
    (m : Memory) (p k n : ℕ)
    → PathBytes m p k
    → ends_path (m (p + k)) ≡ true
    → k < n
    → scan_path m p n ≡ some (p + k)
unfolding scan_path
scan_path-PathBytes m p k zero bytes stop lt = absurd (omega arith)
scan_path-PathBytes m p zero (suc n) bytes stop lt = ground arith
scan_path-PathBytes m p (suc k) (suc n) bytes stop lt =
    ground (arith, scan_path-PathBytes m (p + 1) k n bytes.1)

-- The structure for a path of `q` bytes, a `?` and a query up to `n`.
abbrev pub target : ℕ → ℕ → Url
target q n =
    set_field_data
      (mark_field (set_field_data (mark_field url_init Field.path) Field.path 0 q) Field.query)
      Field.query (q + 1) (n - (q + 1))

module _ (m : Memory) (n q : ℕ) (mark : m q ≡ b'?') (inside : q < n) where
  abbrev at_start : Parser
  at_start = enter (locals url_init path 0) path Field.path 0

  abbrev at_mark : Parser
  at_mark = record (enter (locals url_init path 0) path Field.path 0) { index = q }

  abbrev at_query : Parser
  at_query =
      record (enter
        (record (enter (locals url_init path 0) path Field.path 0) {
          state = query_or_fragment;
          url = set_field_data (mark_field url_init Field.path) Field.path 0 q;
          index = q;
        })
        query Field.query (q + 1)) { index = q + 1 }

  round_path : PathBytes m 0 q → 0 < q → round m n at_start ≡ continue at_mark
  unfolding round round_in path_state
  round_path bytes pos =
      ground (arith, scan_path-PathBytes m 0 q (n - 0) bytes (ground arith) (omega arith))

  abbrev at_delimiter : Parser
  at_delimiter = record (enter (locals url_init path 0) path Field.path 0) {
    state = query_or_fragment;
    url = set_field_data (mark_field url_init Field.path) Field.path 0 q;
    index = q;
  }

  round_mark : round m n at_mark ≡ continue at_delimiter
  unfolding round round_in path_state
  round_mark = ground (arith, scan_path-PathBytes m q 0 (n - q) tt (ground arith) (omega arith))

  round_delimiter : round m n at_delimiter ≡ continue at_query
  unfolding round round_in switch_state query_or_fragment_state
  round_delimiter = ground arith

  round_query :
      LacksByte m b'#' (q + 1) (n - (q + 1))
      → all_from is_valid_char m (q + 1) (n - (q + 1)) ≡ true
      → round m n at_query ≡ break (record at_query { index = n })
  unfolding round round_in query_state
  round_query no_hash valid =
      ground (arith, memchr_lacks m b'#' (q + 1) (n - (q + 1)) no_hash, valid)

  loop-target :
      (fuel : ℕ)
      → PathBytes m 0 q
      → 0 < q
      → q + 1 < n
      → LacksByte m b'#' (q + 1) (n - (q + 1))
      → all_from is_valid_char m (q + 1) (n - (q + 1)) ≡ true
      → loop m n (suc (suc (suc (suc fuel)))) at_start ≡ left (record at_query { index = n })
  unfolding loop
  loop-target fuel bytes pos more no_hash valid =
      ground (arith, round_path bytes pos, round_mark, round_delimiter, round_query no_hash valid)

  finish-target : n < 65536 → finish m false (record at_query { index = n }) ≡ some (target q n)
  unfolding finish final_field is_complete is_host_valid
  finish-target short = ground arith

  -- The call from the loop on.
  parse_from-target :
      n < 65536
      → PathBytes m 0 q
      → 0 < q
      → q + 1 < n
      → LacksByte m b'#' (q + 1) (n - (q + 1))
      → all_from is_valid_char m (q + 1) (n - (q + 1)) ≡ true
      → parse_from m n false (some at_start) ≡ some (target q n)
  unfolding parse_from finish_exit
  parse_from-target short bytes pos more no_hash valid =
      let fuel : enough n ≡ suc (suc (suc (suc (2 * n - 2)))) = (omega arith) in
      ap (λ k. finish_exit m false (loop m n k at_start)) fuel
      ∙ ap (finish_exit m false) (loop-target (2 * n - 2) bytes pos more no_hash valid)
      ∙ finish-target short

first_round-path :
    (m : Memory) (n : ℕ)
    → m 0 ≡ b'/'
    → m 1 ≢ b'/'
    → first_round m n false url_init ≡ some (enter (locals url_init path 0) path Field.path 0)
unfolding first_round
first_round-path m n slash single = ground arith

-- For every memory and buffer of fewer than 65536 bytes that begins with a `/` which no other `/`
-- follows, whose bytes up to a `?` are valid and none of them a `#` or a `?`, and whose bytes behind
-- it, at least one, are valid and none of them a `#`: `http_parser_parse_url` succeeds, not in
-- CONNECT mode, and sets exactly PATH to the bytes before the `?` and QUERY to those behind it.
pub http_parser_parse_url-target :
    (m : Memory) (n q : ℕ)
    → n < 65536
    → m 0 ≡ b'/'
    → m 1 ≢ b'/'
    → PathBytes m 0 q
    → m q ≡ b'?'
    → q + 1 < n
    → LacksByte m b'#' (q + 1) (n - (q + 1))
    → all_from is_valid_char m (q + 1) (n - (q + 1)) ≡ true
    → http_parser_parse_url m n false url_init ≡ some (target q n)
unfolding http_parser_parse_url
http_parser_parse_url-target m n q short slash single bytes mark more no_hash valid =
    let pos : 0 < q = after_slash q slash mark in
    ground (
      arith,
      first_round-path m n slash single,
      parse_from-target m n q mark (omega arith) short bytes pos more no_hash valid,
    )
  where
    after_slash : (k : ℕ) → m 0 ≡ b'/' → m k ≡ b'?' → 0 < k
    after_slash zero first found = absurd (omega (arith, first, found))
    after_slash (suc k) first found = omega arith
