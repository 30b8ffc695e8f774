-- ===== src/Url/Absolute/Tail.antt =====
-- llurl.c: the run of `http_parser_parse_url` over a path, a query and a fragment.
use mathlib.Core.Path.{subst}
use lhttp_parser.Prelude.{
  ℕ, zero, suc, ◌+◌, ◌-◌, ◌≤◌, ◌<◌, ◌≡◌, refl, sym, ap, ◌∙◌, Bool, true, false, some, inl, inr,
  arith, ltb, Memory, LacksByte, memchr, memchr_lacks, all_from, Bool-cases, lt→ltb,
}
use lhttp_parser.Url.Absolute.{InPath, IsQuery, IsFragment}
use lhttp_parser.Url.Automaton.{path, query_or_fragment, query, fragment}
use lhttp_parser.Url.Fields.{Field}
use lhttp_parser.Url.Locals.{Parser, continue, break, enter, close_field}
use lhttp_parser.Url.Parse.{Exit, left}
use lhttp_parser.Url.Round.{
  path_state, query_state, fragment_state, query_or_fragment_state, switch_state, round_in, round,
}
use lhttp_parser.Url.Scan.{ends_path, scan_path, is_valid_char}
use lhttp_parser.Url.Termination.Fuel.{after, run, run-round}

-- The scan of a path stops at its end.
scan_path-InPath :
    (m : Memory) (p k n : ℕ)
    → InPath m p k
    → k < n
    → ends_path (m (p + k)) ≡ true
    → scan_path m p n ≡ some (p + k)
unfolding scan_path
scan_path-InPath m p k zero bytes lt stop = absurd (omega arith)
scan_path-InPath m p zero (suc n) bytes lt stop = ground arith
scan_path-InPath m p (suc k) (suc n) bytes lt stop =
    ground (arith, scan_path-InPath m (p + 1) k n bytes.1)

scan_path-whole : (m : Memory) (p n : ℕ) → InPath m p n → scan_path m p n ≡ some (p + n)
unfolding scan_path
scan_path-whole m p zero bytes = ground arith
scan_path-whole m p (suc n) bytes = ground (arith, scan_path-whole m (p + 1) n bytes.1)

-- `memchr` finds the byte where no earlier one is.
memchr_first :
    (m : Memory) (c p k n : ℕ)
    → LacksByte m c p k
    → k < n
    → m (p + k) ≡ c
    → memchr m c p n ≡ some (p + k)
unfolding memchr
memchr_first m c p k zero lacks lt here = absurd (omega arith)
memchr_first m c p zero (suc n) lacks lt here = ground arith
memchr_first m c p (suc k) (suc n) lacks lt here = ground (
  arith,
  lacks p (omega arith) (omega arith),
  memchr_first m c (p + 1) k n (λ q le lt'. lacks q (omega arith) (omega arith)),
)

module _ (m : Memory) (n : ℕ) where
  -- The loop, at the test of the `for`.
  abbrev pub arrive : Parser → Exit
  arrive q = after m n (continue q) (run m n)

  pub arrive_continue :
      (p q : Parser) → p.index < n → round m n p ≡ continue q → arrive p ≡ arrive q
  arrive_continue p q inside e = (rw (lt→ltb _ _ inside) refl) ∙ run-round m n p ∙ (rw e refl)

  arrive_break : (p q : Parser) → p.index < n → round m n p ≡ break q → arrive p ≡ left q
  arrive_break p q inside e = (rw (lt→ltb _ _ inside) refl) ∙ run-round m n p ∙ (rw e refl)

  pub arrive_same :
      (p q : Parser) → p.index < n → q.index < n → round m n p ≡ round m n q → arrive p ≡ arrive q
  arrive_same p q inside inside' e =
      let first : arrive p ≡ run m n p = rw (lt→ltb _ _ inside) refl in
      let last : arrive q ≡ run m n q = rw (lt→ltb _ _ inside') refl in
      first ∙ run-round m n p ∙ ap (λ o. after m n o (run m n)) e ∙ sym (run-round m n q) ∙ sym last

  -- At the end of the buffer the loop is left.
  arrive_end : (q : Parser) → q.index ≡ n → arrive q ≡ left (record q { index = n })
  arrive_end q e =
      let over : ltb q.index n ≡ false = ground arith in
      (rw over refl) ∙ ap (λ i. left (record q { index = i })) e

  -- A fragment, from behind its mark.
  abbrev in_fragment : Parser → ℕ → Parser
  in_fragment p r = record (enter (record p { index = r }) fragment Field.fragment (r + 1)) {
    index = r + 1;
  }

  arrive_fragment :
      (p : Parser) (r : ℕ)
      → r < n
      → all_from is_valid_char m (r + 1) (n - (r + 1)) ≡ true
      → arrive (in_fragment p r) ≡ left (record (in_fragment p r) { index = n })
  unfolding round round_in fragment_state
  arrive_fragment p r inside valid = elim (Bool-cases (ltb (r + 1) n)) [
    | inl more ↦
        arrive_continue (in_fragment p r) (record (in_fragment p r) { index = n - 1 + 1 })
          (ground arith) (ground (arith, valid))
        ∙ arrive_end (record (in_fragment p r) { index = n - 1 + 1 }) (omega arith)
    | inr last ↦ arrive_end (in_fragment p r) (ground arith)
  ]

  -- A query, from behind its mark.
  abbrev in_query : Parser → ℕ → Parser
  in_query p q = record (enter (record p { index = q }) query Field.query (q + 1)) { index = q + 1 }

  -- Where the query ends at a fragment.
  abbrev query_closed : Parser → ℕ → ℕ → Parser
  query_closed p q r = record (in_query p q) { url = close_field (in_query p q) r; index = r }

  -- How the loop ends behind a query that ends at `r`.
  abbrev query_left : Bool → Parser → ℕ → ℕ → Parser
  query_left false p q r = record (in_query p q) { index = n }
  query_left true p q r = record (in_fragment (query_closed p q r) r) { index = n }

  arrive_query :
      (f : Bool) (p : Parser) (q r : ℕ)
      → q < r
      → LacksByte m b'#' (q + 1) (r - (q + 1))
      → all_from is_valid_char m (q + 1) (r - (q + 1)) ≡ true
      → IsFragment m n f r
      → arrive (in_query p q) ≡ left (query_left f p q r)
  unfolding round round_in query_state
  arrive_query false p q r order lacks valid e = elim (Bool-cases (ltb (q + 1) n)) [
    | inl more ↦
        arrive_break (in_query p q) _ (ground arith)
          (ground (arith, memchr_lacks m b'#' (q + 1) (r - (q + 1)) lacks, valid, e))
    | inr last ↦ arrive_end (in_query p q) (ground arith)
  ]
  arrive_query true p q r order lacks valid (mark, inside, rest) =
      let found =
        memchr_first m b'#' (q + 1) (r - (q + 1)) (n - (q + 1)) lacks (omega arith)
          (ground arith) in
      arrive_continue (in_query p q) (in_fragment (query_closed p q r) r) (omega arith)
        (ground (arith, found, valid))
      ∙ arrive_fragment (query_closed p q r) r inside rest

  -- A path, with the cursor in it.
  abbrev pub in_path : Parser → ℕ → Parser
  in_path p i = record p { state = path; index = i }

  abbrev at_delimiter : Parser → ℕ → Parser
  at_delimiter p q = record p { url = close_field p q; state = query_or_fragment; index = q }

  arrive_delimiter :
      (p : Parser) (i q : ℕ)
      → i ≤ q
      → q < n
      → InPath m i (q - i)
      → ends_path (m q) ≡ true
      → arrive (in_path p i) ≡ arrive (at_delimiter p q)
  unfolding round round_in path_state
  arrive_delimiter p i q order inside bytes stop =
      let here = scan_path-InPath m q 0 (n - q) tt (omega arith) (ground (arith, stop)) in
      let leaves : arrive (in_path p q) ≡ arrive (at_delimiter p q) =
        arrive_continue (in_path p q) (at_delimiter p q) inside (ground (arith, here, stop)) in
      elim (Bool-cases (ltb i q)) [
        | inl more ↦
            let scanned =
              scan_path-InPath m i (q - i) (n - i) bytes (omega arith) (ground (arith, stop)) in
            arrive_continue (in_path p i) (in_path p q) (omega arith) (ground (arith, scanned))
            ∙ leaves
        | inr there ↦
            let same : i ≡ q = ground arith in ap (λ j. arrive (in_path p j)) same ∙ leaves
      ]

  -- How the loop ends behind the path, with and without a query and a fragment.
  abbrev pub tail_left : Bool → Bool → Parser → ℕ → ℕ → Parser
  tail_left false false p q r = record p { state = path; index = n }
  tail_left false true p q r = record (in_fragment (at_delimiter p q) q) { index = n }
  tail_left true f p q r = query_left f (at_delimiter p q) q r

  query_inside : (f : Bool) (q r : ℕ) → q < r → IsFragment m n f r → q < n
  query_inside false q r order e = omega arith
  query_inside true q r order w = omega (arith, w.1)

  pub arrive_path :
      (has_query has_fragment : Bool) (p : Parser) (i q r : ℕ)
      → i ≤ q
      → InPath m i (q - i)
      → IsQuery m n has_query q r
      → IsFragment m n has_fragment r
      → arrive (in_path p i) ≡ left (tail_left has_query has_fragment p q r)
  unfolding round round_in path_state switch_state query_or_fragment_state
  arrive_path false false p i q r order bytes e e' = elim (Bool-cases (ltb i n)) [
    | inl more ↦
        let whole =
          scan_path-whole m i (n - i) (subst (λ k. InPath m i (k - i)) (omega arith) bytes) in
        arrive_break (in_path p i) _ (ground arith) (ground (arith, whole))
    | inr over ↦ arrive_end (in_path p i) (ground arith)
  ]
  arrive_path false true p i q r order bytes e (mark, inside, valid) =
      let hash : m q ≡ b'#' = ground arith in
      arrive_delimiter p i q order (omega arith) bytes (ground arith)
      ∙ arrive_continue (at_delimiter p q) (in_fragment (at_delimiter p q) q) (omega arith)
          (ground arith)
      ∙ arrive_fragment (at_delimiter p q) q (omega arith)
          (subst (λ k. all_from is_valid_char m (k + 1) (n - (k + 1)) ≡ true) e valid)
  arrive_path true f p i q r order bytes (mark, order', lacks, valid) w =
      arrive_delimiter p i q order (query_inside f q r order' w) bytes (ground arith)
      ∙ arrive_continue (at_delimiter p q) (in_query (at_delimiter p q) q)
          (query_inside f q r order' w) (ground arith)
      ∙ arrive_query f (at_delimiter p q) q r order' lacks valid w
