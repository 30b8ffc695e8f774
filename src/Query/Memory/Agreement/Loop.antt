-- ===== src/Query/Memory/Agreement/Loop.antt =====
-- llquery.c: the loop of `llquery_parse_ex` on pointers against the loop on texts.
use lhttp_parser.Prelude.{
  ℕ, zero, suc, ◌+◌, ◌≡◌, refl, ◌∙◌, Bool, false, [], ◌∷◌, Option, none, some, inl, inr, arith,
  if◌then◌else◌, Bytes, length, Bool-cases,
}
use lhttp_parser.Query.Data.{Kv}
use lhttp_parser.Query.Memory.{Heap, M}
use lhttp_parser.Query.Memory.Structure.{Structure}
use lhttp_parser.Query.Memory.Store.{
  Stored, Outcome, failed, skipped, stored, next_round, is_dropped, store_loop,
}
use lhttp_parser.Query.Parse.{
  Pool, store_strings, pair_round, parse_loop, Found, stored_pair, skip_separators, next_pair,
  is_nil,
}
use lhttp_parser.Query.Memory.Partial.{Partial, Partial-goes_on, Partial-weaken}
use lhttp_parser.Query.Memory.Agreement.{pool_of, by_size, SamePair, store_pair-SamePair}

module _ (malloc : ℕ → Bool) (flags : ℕ) (encoded : Bool) where
  -- Both loops end alike: with as many pairs more, the same rest, and the same failures.
  abbrev pub SameEnd : ℕ → ℕ → Found → Stored → Type 0
  SameEnd n m found s =
      (s.allocated ≡ found.allocated)
      × (s.rest ≡ found.rest)
      × (length s.structure.slots ≡ n + length found.pairs)
      × (s.structure.max_kv_count ≡ m)

  SameEnd-suc :
      (n m : ℕ) (kv : Kv) (found : Found) (s : Stored)
      → SameEnd (suc n) m found s
      → SameEnd n m (record found { pairs = kv ∷ found.pairs }) s
  SameEnd-suc n m kv found s (a, r, l, e) = (a, r, omega (arith, l), e)

  SameEnd-moved :
      (n m n' m' : ℕ) (found : Found) (s : Stored)
      → n ≡ n'
      → m ≡ m'
      → SameEnd n m found s
      → SameEnd n' m' found s
  SameEnd-moved n m n' m' found s same_n same_m (a, r, l, e) =
      (a, r, omega (arith, l, same_n), e ∙ same_m)

  -- What the reading by texts does behind its two strings.
  abbrev behind_strings :
      Bytes → Bytes → Bytes → (Pool → Found) → (Pool → Found) → Option Pool → Found
  behind_strings key value after over on none = record {
    pairs = [];
    rest = after;
    allocated = false;
  }
  behind_strings key value after over on (some pool) =
      if is_dropped (by_size malloc) flags encoded key value
      then over pool
      else record (on pool) { pairs = stored_pair flags encoded key value ∷ (on pool).pairs }

  next_round-SameEnd :
      (key value after : Bytes) (over on : Pool → Found) (over' on' : Structure → M Stored)
      (n m : ℕ) (o : Option Pool) (r : Outcome) (h : Heap)
      → SamePair malloc (is_dropped (by_size malloc) flags encoded key value) n m o r
      → ((q : Structure) (h : Heap)
          → length q.slots ≡ n
          → q.max_kv_count ≡ m
          → Partial (over' q h) (SameEnd n m (over (pool_of q))))
      → ((q : Structure) (h : Heap)
          → length q.slots ≡ suc n
          → q.max_kv_count ≡ m
          → Partial (on' q h) (SameEnd (suc n) m (on (pool_of q))))
      → Partial
          (next_round (by_size malloc) after over' on' r h)
          (SameEnd n m (behind_strings key value after over on o))
  next_round-SameEnd key value after over on over' on' n m none (failed q) h w go_over go_on =
      (refl, refl, omega (arith, w.0), w.1)
  next_round-SameEnd key value after over on over' on' n m none (skipped q) h w go_over go_on =
      absurd w
  next_round-SameEnd key value after over on over' on' n m none (stored q) h w go_over go_on =
      absurd w
  next_round-SameEnd key value after over on over' on' n m (some pool) (failed q) h w go_over
        go_on =
      absurd w
  next_round-SameEnd key value after over on over' on' n m (some pool) (skipped q) h w go_over
        go_on =
      rw (w.0, w.1) (go_over q h w.2 w.3)
  next_round-SameEnd key value after over on over' on' n m (some pool) (stored q) h w go_over
        go_on =
      rw (w.0, w.1)
        (Partial-weaken (on' q h) _ _ (go_on q h w.2 w.3)
          λ s e. SameEnd-suc n m (stored_pair flags encoded key value) (on (pool_of q)) s e)

  pub store_loop-SameEnd :
      (fuel room : ℕ) (q : Structure) (rest : Bytes) (h : Heap)
      → Partial (store_loop (by_size malloc) flags encoded fuel room q rest h) (
          SameEnd
            (length q.slots)
            q.max_kv_count
            (parse_loop malloc flags encoded fuel room (pool_of q) rest))
  unfolding store_loop parse_loop pair_round
  store_loop-SameEnd zero room q rest h = (refl, refl, omega arith, refl)
  store_loop-SameEnd (suc fuel) zero q rest h = (refl, refl, omega arith, refl)
  store_loop-SameEnd (suc fuel) (suc room) q rest h =
      let (key, value, after) = next_pair rest in
      let over = λ (p : Pool). parse_loop malloc flags encoded fuel (suc room) p after in
      let on = λ (p : Pool). parse_loop malloc flags encoded fuel room p after in
      elim (Bool-cases (is_nil (skip_separators rest))) [
        | inl nothing ↦ rw nothing (refl, refl, omega arith, refl)
        | inr text ↦ rw text (elim (Bool-cases (is_nil key)) [
          | inl unnamed ↦ rw unnamed (store_loop-SameEnd fuel (suc room) q after h)
          | inr named ↦ rw named (
              Partial-goes_on
                (SamePair malloc (is_dropped (by_size malloc) flags encoded key value)
                  (length q.slots) q.max_kv_count (store_strings malloc (pool_of q) key value))
                _ _ _
                (store_pair-SamePair malloc (is_dropped (by_size malloc) flags encoded key value) q
                  key value h)
                λ r h' w.
                  next_round-SameEnd key value after over on
                    (λ q'. store_loop (by_size malloc) flags encoded fuel (suc room) q' after)
                    (λ q'. store_loop (by_size malloc) flags encoded fuel room q' after)
                    (length q.slots) q.max_kv_count (store_strings malloc (pool_of q) key value) r
                    h' w
                    (λ q' h'' l m.
                      Partial-weaken _ _ _ (store_loop-SameEnd fuel (suc room) q' after h'')
                        λ s e. SameEnd-moved _ _ _ _ (over (pool_of q')) s l m e)
                    (λ q' h'' l m.
                      Partial-weaken _ _ _ (store_loop-SameEnd fuel room q' after h'')
                        λ s e. SameEnd-moved _ _ _ _ (on (pool_of q')) s l m e))
        ])
      ]
