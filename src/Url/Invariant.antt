-- ===== src/Url/Invariant.antt =====
-- llurl.c: the invariant rule of the parsing loop of `http_parser_parse_url`.
use lhttp_parser.Prelude.{
  ℕ, zero, suc, ◌<◌, inl, inr, ltb, if◌then◌else◌, Memory, Bool-cases, ltb→lt,
}
use lhttp_parser.Url.Locals.{Parser, Outcome, fail, continue, break}
use lhttp_parser.Url.Parse.{Exit, returned, left, loop}
use lhttp_parser.Url.Round.{round}

abbrev pub OutcomeAll : (Parser → Type 0) → Outcome → Type 0
OutcomeAll Q fail = Unit
OutcomeAll Q (continue q) = Q q
OutcomeAll Q (break q) = Q q

abbrev pub ExitAll : (Parser → Type 0) → Exit → Type 0
ExitAll Q (left q) = Q q
ExitAll Q _ = Unit

-- `Ready` holds where a round starts, and `Q` behind it.
module _ (m : Memory) (n : ℕ) (Ready Q : Parser → Type 0) where
  after_round :
      (o : Outcome) (rest : Parser → Exit)
      → OutcomeAll Q o
      → ((q : Parser) → Q q → q.index < n → ExitAll Q (rest q))
      → ExitAll Q (elim o [
        | fail ↦ returned
        | break q ↦ left q
        | continue q ↦ if ltb q.index n then rest q else left q
      ])
  after_round fail rest h next = tt
  after_round (break q) rest h next = h
  after_round (continue q) rest h next = elim (Bool-cases (ltb q.index n)) [
    | inl more ↦ rw more (next q h (ltb→lt _ _ more))
    | inr over ↦ rw over h
  ]

  pub loop_inv :
      ((p : Parser) → Ready p → OutcomeAll Q (round m n p))
      → ((q : Parser) → Q q → q.index < n → Ready q)
      → (fuel : ℕ) (p : Parser) → Ready p
      → ExitAll Q (loop m n fuel p)
  unfolding loop
  loop_inv keep again zero p h = tt
  loop_inv keep again (suc fuel) p h =
      after_round (round m n p) (loop m n fuel) (keep p h)
        λ q s inside. loop_inv keep again fuel q (again q s inside)
