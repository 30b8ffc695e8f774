-- ===== src/Query/Parse/Correct.antt =====
-- llquery.c: the main loop of `llquery_parse_ex` finds the pairs of the text, and the string pool
-- that it starts with is large enough for all their strings.
use lhttp_parser.Prelude.{
  ℕ, zero, suc, ◌+◌, ◌*◌, ◌≤◌, ◌<◌, ◌≡◌, ◌≢◌, ◌⊎◌, refl, ap, ◌∙◌, Bool, true, false, List, [], ◌∷◌,
  some, inl, inr, arith, Bytes, length, length-take-drop, take, Bool-cases,
}
use lhttp_parser.Query.Data.{Kv, memory_error, too_many_pairs, strict, has_option}
use lhttp_parser.Query.Parse.{
  Place, skip_separators, is_nil, next_pair, Pool, pool_alloc_string, store_strings, Found,
  pair_round, parse_loop, estimate_string_size, parse_decoded, new_pool, end_code,
}
use lhttp_parser.Query.Parse.Reference.{
  pairs_of, with_pair, pair_of, left_over, next_pair-pairs_of, next_pair-cost, next_pair-shorter,
  pairs_of-nil,
}

-- The pool has room for every pair of the text: two bytes for each byte that is left, and two more.
abbrev HasRoom : ℕ → Pool → Bytes → Type 0
HasRoom size pool rest =
    (pool.size ≡ some size) × ((rest ≡ []) ⊎ (pool.used + 2 * length rest + 2 ≤ size))

abbrev with_used : Pool → ℕ → Pool
with_used pool n = record pool { used = pool.used + n }

module _ (alloc : ℕ → Bool) (size : ℕ) where
  alloc_pool :
      (pool : Pool) (n : ℕ)
      → pool.size ≡ some size
      → pool.used + n ≤ size
      → pool_alloc_string alloc pool n ≡ some (Place.in_pool, with_used pool n)
  unfolding pool_alloc_string
  alloc_pool pool n e fits = rw e (ground arith)

  store_pool :
      (pool : Pool) (key value : Bytes)
      → pool.size ≡ some size
      → pool.used + (length key + 1) + (length value + 1) ≤ size
      → store_strings alloc pool key value
        ≡ some (with_used (with_used pool (length key + 1)) (length value + 1))
  unfolding store_strings
  store_pool pool key value e fits =
      let first = with_used pool (length key + 1) in
      ground (
        arith,
        alloc_pool pool (length key + 1) e (omega arith),
        alloc_pool first (length value + 1) e fits,
      )

  -- After a pair with a key, the pool has room for the rest.
  room_after :
      (pool : Pool) (key value after rest : Bytes)
      → 0 < length key
      → length key + length value + length after + left_over after ≤ length rest
      → HasRoom size pool rest
      → HasRoom size (with_used (with_used pool (length key + 1)) (length value + 1)) after
  room_after pool key value [] rest pos cost (e, h) = (e, inl refl)
  room_after pool key value (c ∷ after) rest pos cost (e, inl nil) =
      absurd (omega (arith, ap {B = ℕ} length nil))
  room_after pool key value (c ∷ after) rest pos cost (e, inr h) = (e, inr (omega arith))

  room_shorter :
      (pool : Pool) (after rest : Bytes)
      → 0 < length rest
      → length after ≤ length rest
      → HasRoom size pool rest
      → HasRoom size pool after
  room_shorter pool after rest pos le (e, inl nil) = absurd (omega (arith, ap {B = ℕ} length nil))
  room_shorter pool after rest pos le (e, inr h) = (e, inr (omega arith))

  store_fits :
      (pool : Pool) (key value after rest : Bytes)
      → length key + length value + length after + left_over after ≤ length rest
      → HasRoom size pool rest
      → 0 < length rest
      → pool.used + (length key + 1) + (length value + 1) ≤ size
  store_fits pool key value after rest cost (e, inl nil) pos =
      absurd (omega (arith, ap {B = ℕ} length nil))
  store_fits pool key value after rest cost (e, inr h) pos = omega arith

module _ (alloc : ℕ → Bool) (size : ℕ) (flags : ℕ) (encoded : Bool) where
  abbrev pub Finds : ℕ → Bytes → Found → Type 0
  Finds room rest found =
      (found.pairs ≡ take room (pairs_of flags encoded rest))
      × (found.allocated ≡ true)
      × (room < length (pairs_of flags encoded rest) → is_nil found.rest ≡ false)

  nothing_left :
      (room : ℕ) (rest : Bytes)
      → pairs_of flags encoded rest ≡ []
      → [] ≡ take room (pairs_of flags encoded rest)
  nothing_left zero rest e = refl
  nothing_left (suc room) rest e = rw e

  -- Where there is another pair, something is unread.
  unread : (rest : Bytes) → 0 < length (pairs_of flags encoded rest) → is_nil rest ≡ false
  unread [] more = absurd (omega arith)
  unread (c ∷ rest) more = refl

  none_more :
      {P : Type 0} (room : ℕ) (rest : Bytes)
      → pairs_of flags encoded rest ≡ []
      → room < length (pairs_of flags encoded rest)
      → P
  none_more room rest e more = absurd (omega (arith, ap {B = ℕ} length e, more))

  pair_round-Finds :
      (room : ℕ) (pool : Pool) (key value after rest : Bytes) (skipped kept : Pool → Found)
      → HasRoom size pool rest
      → 0 < length rest
      → length key + length value + length after + left_over after ≤ length rest
      → pairs_of flags encoded rest
        ≡ with_pair (pair_of flags encoded (key, value)) (pairs_of flags encoded after)
      → ((q : Pool) → HasRoom size q after → Finds (suc room) after (skipped q))
      → ((q : Pool) → HasRoom size q after → Finds room after (kept q))
      → Finds (suc room) rest (pair_round alloc flags encoded pool key value after skipped kept)
  unfolding pair_round
  pair_round-Finds room pool [] value after rest skipped kept h pos cost e again next =
      let found = again pool (room_shorter alloc size pool after rest pos (omega arith) h) in
      rw e found
  pair_round-Finds room pool (c ∷ key) value after rest skipped kept h pos cost e again next =
      let full = store_fits alloc size pool (c ∷ key) value after rest cost h pos in
      let later = with_used (with_used pool (length (c ∷ key) + 1)) (length value + 1) in
      let room' = room_after alloc size pool (c ∷ key) value after rest (omega arith) cost h in
      rw (store_pool alloc size pool (c ∷ key) value h.0 full)
        (rw e (ground (arith, again later room', next later room')))

  parse_loop-Finds :
      (fuel room : ℕ) (pool : Pool) (rest : Bytes)
      → length rest ≤ fuel
      → HasRoom size pool rest
      → Finds room rest (parse_loop alloc flags encoded fuel room pool rest)
  unfolding parse_loop
  parse_loop-Finds zero room pool [] short h =
      (nothing_left room [] refl, refl, λ more. absurd (omega arith))
  parse_loop-Finds zero room pool (c ∷ rest) short h = absurd (omega arith)
  parse_loop-Finds (suc fuel) zero pool rest short h = (refl, refl, unread rest)
  parse_loop-Finds (suc fuel) (suc room) pool rest short h =
      elim (Bool-cases (is_nil (skip_separators rest))) [
        | inl nothing ↦ rw nothing (
          nothing_left (suc room) rest (pairs_of-nil flags encoded rest nothing),
          refl,
          λ more. none_more (suc room) rest (pairs_of-nil flags encoded rest nothing) more,
        )
        | inr more ↦
            let (key, value, after) = next_pair rest in
            let less = next_pair-shorter rest more in
            rw more (
              pair_round-Finds room pool key value after rest _ _ h (omega (arith, less))
                (next_pair-cost rest) (next_pair-pairs_of flags encoded rest)
                (λ q r. parse_loop-Finds fuel (suc room) q after (omega (arith, less)) r)
                (λ q r. parse_loop-Finds fuel room q after (omega (arith, less)) r))
      ]

-- The pool that `llquery_parse_ex` starts with has room for a text no longer than the query.
new_pool-HasRoom :
    (alloc : ℕ → Bool) (len : ℕ) (text : Bytes)
    → alloc (estimate_string_size len) ≡ true
    → length text ≤ len
    → HasRoom (estimate_string_size len) (new_pool alloc len) text
new_pool-HasRoom alloc len text got short = (rw got, inr (omega arith))

end_code-ne :
    (flags max : ℕ) (found : Found)
    → found.allocated ≡ true
    → end_code flags max found ≢ memory_error
end_code-ne flags max found e = ground arith

-- In strict mode, pairs that are left out are an error.
end_code-strict :
    (flags max : ℕ) (found : Found) (kvs : List Kv)
    → found.allocated ≡ true
    → found.pairs ≡ take max kvs
    → is_nil found.rest ≡ false
    → has_option flags strict ≡ true
    → max < length kvs
    → end_code flags max found ≡ too_many_pairs
end_code-strict flags max found kvs e pairs rest_left is_strict more =
    let full : length found.pairs ≡ max =
      ap {B = ℕ} length pairs ∙ length-take-drop max 0 kvs (omega arith) in
    ground arith

-- For every allocator that has memory for the string pool, all options and every text no longer
-- than the query: the loop stores exactly the first `max_kv_count` of the pairs that the segments
-- between the `&`s stand for, whether or not another allocation would succeed, and the call does
-- not fail for want of memory; in strict mode it fails where there are more pairs than that.
pub parse_decoded-pairs_of :
    (alloc : ℕ → Bool) (flags max : ℕ) (encoded : Bool) (len : ℕ) (text : Bytes)
    → alloc (estimate_string_size len) ≡ true
    → length text ≤ len
    → ((parse_decoded alloc flags max encoded len text).1 ≡ take max (pairs_of flags encoded text))
      × ((parse_decoded alloc flags max encoded len text).0 ≢ memory_error)
      × (has_option flags strict ≡ true
          → max < length (pairs_of flags encoded text)
          → (parse_decoded alloc flags max encoded len text).0 ≡ too_many_pairs)
unfolding parse_decoded
parse_decoded-pairs_of alloc flags max encoded len text got short =
    let finds =
      parse_loop-Finds alloc (estimate_string_size len) flags encoded (length text) max
        (new_pool alloc len) text (omega arith) (new_pool-HasRoom alloc len text got short) in
    (
      finds.0,
      end_code-ne flags max _ finds.1,
      λ is_strict more. end_code-strict flags max _ _ finds.1 finds.0 (finds.2 more) is_strict more,
    )
