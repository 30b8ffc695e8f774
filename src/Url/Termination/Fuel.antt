-- ===== src/Url/Termination/Fuel.antt =====
-- llurl.c: the parsing loop of `http_parser_parse_url` does not depend on the fuel that is left
-- over, so that a run of it can be followed round by round.
use lhttp_parser.Prelude.{
  ℕ, zero, suc, ◌+◌, ◌*◌, ◌≤◌, ◌<◌, ◌≡◌, refl, ap, ◌∙◌, inl, inr, arith, ltb, if◌then◌else◌, Memory,
  Bool-cases, ltb→lt,
}
use lhttp_parser.Url.Locals.{Parser, Outcome, fail, continue, break}
use lhttp_parser.Url.Parse.{Exit, returned, left, loop, enough}
use lhttp_parser.Url.Round.{round}
use lhttp_parser.Url.Termination.{measure, Falls, round-Falls, path_bonus-le}

module _ (m : Memory) (n : ℕ) where
  -- What follows a round.
  abbrev pub after : Outcome → (Parser → Exit) → Exit
  after o rest = elim o [
    | fail ↦ returned
    | break q ↦ left q
    | continue q ↦ if ltb q.index n then rest q else left q
  ]

  after-agree :
      (k : ℕ) (o : Outcome) (rest rest' : Parser → Exit)
      → Falls m n k o
      → ((q : Parser) → measure m n q < k → rest q ≡ rest' q)
      → after o rest ≡ after o rest'
  after-agree k fail rest rest' h ih = refl
  after-agree k (break q) rest rest' h ih = refl
  after-agree k (continue q) rest rest' h ih = elim (Bool-cases (ltb q.index n)) [
    | inl more ↦ rw more (ih q (h (ltb→lt _ _ more)))
    | inr over ↦ rw over refl
  ]

  -- Two amounts of fuel that exceed the measure give the same end.
  loop_fuel :
      (f f' : ℕ) (p : Parser)
      → measure m n p < f
      → measure m n p < f'
      → loop m n f p ≡ loop m n f' p
  unfolding loop
  loop_fuel zero f' p h h' = absurd (omega arith)
  loop_fuel (suc f) zero p h h' = absurd (omega arith)
  loop_fuel (suc f) (suc f') p h h' =
      after-agree (measure m n p) (round m n p) (loop m n f) (loop m n f') (round-Falls m n p)
        λ q falls. loop_fuel f f' q (omega (arith, falls)) (omega (arith, falls))

  -- The loop with the fuel that a call gives it.
  abbrev pub run : Parser → Exit
  run p = loop m n (enough n) p

  measure-enough : (p : Parser) → measure m n p ≤ 2 * n + 1
  unfolding measure
  measure-enough p = omega (arith, path_bonus-le m n p.state)

  loop_unroll : (f : ℕ) (p : Parser) → loop m n (suc f) p ≡ after (round m n p) (loop m n f)
  unfolding loop
  loop_unroll f p = refl

  -- A run is its first round and the run from where that leaves off.
  pub run-round : (p : Parser) → run p ≡ after (round m n p) run
  run-round p =
      let first : run p ≡ loop m n (suc (2 * n + 1)) p = ap (λ f. loop m n f p) (omega arith) in
      first
      ∙ loop_unroll (2 * n + 1) p
      ∙ after-agree (measure m n p) (round m n p) (loop m n (2 * n + 1)) run (round-Falls m n p)
          λ q falls.
            loop_fuel (2 * n + 1) (enough n) q (omega (arith, falls, measure-enough p))
              (omega (arith, falls, measure-enough p))
