-- ===== src/Query/Memory/Store/Keeps.antt =====
-- llquery.c: storing pairs keeps the structure valid and accounts for every block, whichever
-- allocations fail.
use lhttp_parser.Prelude.{
  ℕ, zero, suc, ◌+◌, ◌≤◌, ◌<◌, ◌≡◌, refl, Bool, true, false, not, List, [], ◌∷◌, ◌++◌, inl, inr,
  arith, leb, All-append, Bytes, length, Bool-cases,
}
use lhttp_parser.Query.Memory.{Pointer, null, at, Heap, M, alloc}
use lhttp_parser.Query.Memory.Owned.{
  count, count-append, Owns, Owns-same, Returns, Returns-bind, block_of, AtBegin, WasFree,
  alloc-Owns,
}
use lhttp_parser.Query.Memory.Structure.{Slot, Structure, in_pool, is_set, free_string}
use lhttp_parser.Query.Memory.Structure.Release.{
  blocks_if, AtBeginIf, outside, slot_blocks, Placed, owned, IsValid, free_if-Owns,
}
use lhttp_parser.Query.Parse.{skip_separators, next_pair, is_nil}
use lhttp_parser.Query.Memory.Store.{
  Stored, Outcome, failed, skipped, stored, pool_alloc, alloc_string, with_used, keep_pair,
  value_given, key_given, next_round, store_value, store_pair, is_dropped, store_loop,
}

-- The pool is among the blocks.
abbrev PoolIn : Pointer → List ℕ → Type 0
PoolIn null bs = Unit
PoolIn (at b offset) bs = 1 ≤ count b bs

PoolIn-owned :
    (q : Structure) (extra : List ℕ) → IsValid q → PoolIn q.string_pool (extra ++ owned q)
PoolIn-owned q extra v = go q.string_pool q.string_pool_owned v.pool_set refl refl
  where
    go :
        (p : Pointer) (o : Bool)
        → o ≡ is_set p
        → q.string_pool ≡ p
        → q.string_pool_owned ≡ o
        → PoolIn p (extra ++ owned q)
    go null o e here flag = tt
    go (at b offset) true e here flag =
        let pool : count b (blocks_if q.string_pool_owned q.string_pool) ≡ 1 =
          (rw (flag, here) (ground arith)) in
        omega (arith, count-append, pool)
    go (at b offset) false e here flag = cc

used-IsValid :
    (q : Structure) (used : ℕ) → IsValid q → IsValid (record q { string_pool_used = used })
used-IsValid q used v = record {
  placed = v.placed;
  pool_set = v.pool_set;
  pool = v.pool;
  array = v.array;
  buffer = v.buffer;
  internal = v.internal;
}

blocks_if-null : (test : Bool) → blocks_if test null ≡ []
blocks_if-null true = refl
blocks_if-null false = refl

pub slot_blocks-append :
    (q : Structure) (ss ts : List Slot) (b : ℕ)
    → count b (slot_blocks q (ss ++ ts)) ≡ count b (slot_blocks q ss) + count b (slot_blocks q ts)
slot_blocks-append q [] ts b = omega arith
slot_blocks-append q (s ∷ ss) ts b = omega (arith, count-append, slot_blocks-append q ss ts b)

module _ (base : ℕ → ℕ) (grants : ℕ → ℕ → Bool) where
  -- What a new string adds to the blocks.
  abbrev NewString : Pointer → ℕ → List ℕ → Pointer × ℕ → Heap → Type 0
  NewString pool pool_size bs (p, used) h =
      AtBeginIf (not (in_pool pool pool_size p)) p
      × Owns base h (blocks_if (not (in_pool pool pool_size p)) p ++ bs)

  pool_alloc-Owns :
      (pool : Pointer) (pool_size used size : ℕ) (h : Heap) (bs : List ℕ)
      → 0 < size
      → PoolIn pool bs
      → Owns base h bs
      → Returns (pool_alloc grants pool pool_size used size h) (NewString pool pool_size bs)
  unfolding pool_alloc
  pool_alloc-Owns null pool_size used size h bs pos inside o =
      Returns-bind (alloc grants size) _ h _ _ (alloc-Owns grants size base h bs o)
        λ p h' (begins, free_before, o'). (begins, o')
  pool_alloc-Owns (at b start) pool_size used size h bs pos inside o =
      elim (Bool-cases (leb (used + size) pool_size)) [
        | inl fits ↦
            let within : in_pool (at b start) pool_size (at b (start + used)) ≡ true =
              ground arith in
            rw fits (rw within tt, rw within o)
        | inr full ↦ rw full (
            Returns-bind (alloc grants size) _ h _ _ (alloc-Owns grants size base h bs o)
              λ p h' w. apart p h' w)
      ]
    where
      live : h.live b ≡ true
      live = ground (arith, o.counted b)

      apart :
          (p : Pointer) (h' : Heap)
          → AtBegin p × WasFree h p × Owns base h' (block_of p ++ bs)
          → NewString (at b start) pool_size bs (p, used) h'
      apart null h' w = (tt, w.2)
      apart (at c offset) h' w =
          let other : in_pool (at b start) pool_size (at c offset) ≡ false =
            (ground (arith, live, w.1)) in
          rw other (w.0, w.2)

  -- The two strings of a pair are known, and the structure owns all else.
  abbrev Holds : Structure → Pointer → Pointer → Heap → Type 0
  Holds q k v h =
      AtBeginIf (outside q k) k
      × AtBeginIf (outside q v) v
      × Owns base h (blocks_if (outside q v) v ++ (blocks_if (outside q k) k ++ owned q))

  abbrev GoodOutcome : Outcome → Heap → Type 0
  GoodOutcome (failed q) h = IsValid q × Owns base h (owned q)
  GoodOutcome (skipped q) h = IsValid q × Owns base h (owned q)
  GoodOutcome (stored q) h = IsValid q × Owns base h (owned q)

  keep_pair-Good :
      (drop : Bool) (q : Structure) (k v : Pointer) (h : Heap)
      → IsValid q
      → Holds q k v h
      → Returns (keep_pair grants drop q k v h) GoodOutcome
  keep_pair-Good true q k v h valid (at_k, at_v, o) =
      let key = blocks_if (outside q k) k in
      let value = blocks_if (outside q v) v in
      Returns-bind (free_string q k) _ h (λ _ h'. Owns base h' (value ++ owned q)) _
        (free_if-Owns base (outside q k) k h (value ++ owned q) at_k (
          Owns-same base h (value ++ (key ++ owned q)) (key ++ (value ++ owned q))
            (λ b. omega (arith, count-append)) o))
        λ _ h1 o1.
          Returns-bind (free_string q v) _ h1 (λ _ h'. Owns base h' (owned q)) _
            (free_if-Owns base (outside q v) v h1 (owned q) at_v o1) λ _ h2 o2. (valid, o2)
  keep_pair-Good false q k v h valid (at_k, at_v, o) =
      let slot : Slot = record { key = k; value = v } in
      let q' = record q { slots = q.slots ++ (slot ∷ []) } in
      (
        record {
          placed = All-append (Placed q) q.slots (slot ∷ []) valid.placed ((at_k, at_v), tt);
          pool_set = valid.pool_set;
          pool = valid.pool;
          array = valid.array;
          buffer = valid.buffer;
          internal = valid.internal;
        },
        Owns-same base h _ (owned q')
            (λ b. omega (arith, count-append, slot_blocks-append q q.slots (slot ∷ []) b)) o,
      )

  store_value-Good :
      (drop : Bool) (q : Structure) (k : Pointer) (value : Bytes) (h : Heap)
      → IsValid q
      → AtBeginIf (outside q k) k
      → Owns base h (blocks_if (outside q k) k ++ owned q)
      → Returns (store_value grants drop q k value h) GoodOutcome
  unfolding store_value
  store_value-Good drop q k value h valid at_k o =
      let key = blocks_if (outside q k) k in
      Returns-bind (alloc_string grants q (length value + 1)) _ h _ _
        (pool_alloc-Owns q.string_pool q.string_pool_size q.string_pool_used (length value + 1) h
          (key ++ owned q) (omega arith) (PoolIn-owned q key valid) o)
        λ (v, used) h' w. go v used h' w
    where
      go :
          (v : Pointer) (used : ℕ) (h' : Heap)
          → NewString q.string_pool q.string_pool_size
              (blocks_if (outside q k) k ++ owned q)
              (v, used)
              h'
          → Returns (value_given grants drop (with_used grants q used) k v h') GoodOutcome
      go null used h' w =
          Returns-bind (free_string q k) _ h' (λ _ h2. Owns base h2 (owned q)) _
            (free_if-Owns base (outside q k) k h' (owned q) at_k
              (rw (blocks_if-null (outside q null)) at (w.1)))
            λ _ h2 o2. (used-IsValid q used valid, o2)
      go (at b offset) used h' w =
          keep_pair-Good drop (with_used grants q used) k (at b offset) h'
            (used-IsValid q used valid) (at_k, w.0, w.1)

  store_pair-Good :
      (drop : Bool) (q : Structure) (key value : Bytes) (h : Heap)
      → IsValid q
      → Owns base h (owned q)
      → Returns (store_pair grants drop q key value h) GoodOutcome
  unfolding store_pair
  store_pair-Good drop q key value h valid o =
      Returns-bind (alloc_string grants q (length key + 1)) _ h _ _
        (pool_alloc-Owns q.string_pool q.string_pool_size q.string_pool_used (length key + 1) h
          (owned q) (omega arith) (PoolIn-owned q [] valid) o)
        λ (k, used) h' w. go k used h' w
    where
      go :
          (k : Pointer) (used : ℕ) (h' : Heap)
          → NewString q.string_pool q.string_pool_size (owned q) (k, used) h'
          → Returns (key_given grants drop (with_used grants q used) k value h') GoodOutcome
      go null used h' w =
          (used-IsValid q used valid, (rw (blocks_if-null (outside q null)) at (w.1)))
      go (at b offset) used h' w =
          store_value-Good drop (with_used grants q used) (at b offset) value h'
            (used-IsValid q used valid) w.0 w.1

  -- What the loop leaves is valid and owns what it has allocated.
  abbrev pub GoodStored : Stored → Heap → Type 0
  GoodStored s h = IsValid s.structure × Owns base h (owned s.structure)

  next_round-Good :
      (after : Bytes) (over on : Structure → M Stored) (r : Outcome) (h : Heap)
      → GoodOutcome r h
      → ((q : Structure) → IsValid q → Owns base h (owned q) → Returns (over q h) GoodStored)
      → ((q : Structure) → IsValid q → Owns base h (owned q) → Returns (on q h) GoodStored)
      → Returns (next_round grants after over on r h) GoodStored
  next_round-Good after over on (failed q) h good go_over go_on = good
  next_round-Good after over on (skipped q) h good go_over go_on = go_over q good.0 good.1
  next_round-Good after over on (stored q) h good go_over go_on = go_on q good.0 good.1

  pub store_loop-Good :
      (flags : ℕ) (encoded : Bool) (fuel room : ℕ) (q : Structure) (rest : Bytes) (h : Heap)
      → IsValid q
      → Owns base h (owned q)
      → Returns (store_loop grants flags encoded fuel room q rest h) GoodStored
  unfolding store_loop
  store_loop-Good flags encoded zero room q rest h valid o = (valid, o)
  store_loop-Good flags encoded (suc fuel) zero q rest h valid o = (valid, o)
  store_loop-Good flags encoded (suc fuel) (suc room) q rest h valid o =
      let (key, value, after) = next_pair rest in
      elim (Bool-cases (is_nil (skip_separators rest))) [
        | inl nothing ↦ rw nothing (valid, o)
        | inr text ↦ rw text (elim (Bool-cases (is_nil key)) [
          | inl unnamed ↦
              rw unnamed (store_loop-Good flags encoded fuel (suc room) q after h valid o)
          | inr named ↦ rw named (
              Returns-bind
                (store_pair grants (is_dropped grants flags encoded key value) q key value) _ h
                GoodOutcome _
                (store_pair-Good (is_dropped grants flags encoded key value) q key value h valid o)
                λ r h' good.
                  next_round-Good after _ _ r h' good
                    (λ q' v' o'. store_loop-Good flags encoded fuel (suc room) q' after h' v' o')
                    (λ q' v' o'. store_loop-Good flags encoded fuel room q' after h' v' o'))
        ])
      ]
