-- ===== src/Query/Memory/Agreement.antt =====
-- llquery.c: the pointers of a query against its texts: both readings of the string pool store the
-- same strings of a pair, and fail together.
pub mod Loop
pub mod Whole
use lhttp_parser.Prelude.{
  ℕ, zero, suc, ◌+◌, ◌≡◌, refl, ap, sym, ◌∙◌, Bool, true, false, not, ◌&&◌, List, [], ◌∷◌, ◌++◌,
  Option, none, some, inl, inr, arith, ◌==◌, leb, if◌then◌else◌, Bytes, length, length-append,
  Bool-cases,
}
use lhttp_parser.Query.Data.{keep_empty, has_option, Kv}
use lhttp_parser.Query.Memory.{
  Pointer, null, at, Heap, Run, fault, done, M, goes_on, pure, ◌>>=◌, ◌>>◌, alloc, free,
}
use lhttp_parser.Query.Memory.Owned.{Returns}
use lhttp_parser.Query.Memory.Structure.{Slot, Structure, is_set, free_string}
use lhttp_parser.Query.Memory.Store.{
  Stored, Outcome, failed, skipped, stored, pool_alloc, alloc_string, with_used, keep_pair,
  value_given, key_given, next_round, store_value, store_pair, is_dropped, store_loop,
}
use lhttp_parser.Query.Parse.{
  Pool, Place, in_pool, in_heap, pool_alloc_string, store_strings, pair_round, parse_loop, Found,
  stored_pair, skip_separators, next_pair, is_nil,
}
use lhttp_parser.Query.Memory.Partial.{Partial, Partial-goes_on, Partial-any, Partial-weaken}

-- The string pool of a structure, as its size and the bytes that are used.
abbrev pub pool_of : Structure → Pool
pool_of q = record {
  size = if is_set q.string_pool then some q.string_pool_size else none;
  used = q.string_pool_used;
}

module _ (malloc : ℕ → Bool) where
  -- An allocator that grants by the size alone.
  abbrev pub by_size : ℕ → ℕ → Bool
  by_size k size = malloc size

  pub alloc-is_set :
      (size : ℕ) (h : Heap) → Partial (alloc by_size size h) (λ p. is_set p ≡ malloc size)
  unfolding alloc
  alloc-is_set size h = elim (Bool-cases (malloc size)) [
    | inl granted ↦ rw granted refl
    | inr refused ↦ rw refused refl
  ]

  -- A string that both readings allocate, or neither.
  abbrev SameString : Structure → Option (Place × Pool) → Pointer × ℕ → Type 0
  SameString q none (p, used) = is_set p ≡ false
  SameString q (some (place, pool)) (p, used) =
      (is_set p ≡ true) × (pool ≡ pool_of (with_used by_size q used))

  heap_string-SameString :
      (q : Structure) (size : ℕ) (p : Pointer)
      → is_set p ≡ malloc size
      → SameString q
          (if malloc size then some (in_heap, pool_of q) else none)
          (p, q.string_pool_used)
  heap_string-SameString q size p e = elim (Bool-cases (malloc size)) [
    | inl granted ↦ rw granted (e ∙ granted, refl)
    | inr refused ↦ rw refused (e ∙ refused)
  ]

  alloc_string-SameString :
      (q : Structure) (size : ℕ) (h : Heap)
      → Partial
          (alloc_string by_size q size h)
          (SameString q (pool_alloc_string malloc (pool_of q) size))
  unfolding pool_alloc pool_alloc_string
  alloc_string-SameString q size h = go q.string_pool refl
    where
      go :
          (pool : Pointer)
          → q.string_pool ≡ pool
          → Partial
              (alloc_string by_size q size h)
              (SameString q (pool_alloc_string malloc (pool_of q) size))
      go null e = rw e (
          Partial-goes_on (λ p. is_set p ≡ malloc size) _ _ _ (alloc-is_set size h)
            λ p h' w. heap_string-SameString (record q { string_pool = null }) size p w)
      go (at b start) e =
          rw e (elim (Bool-cases (leb (q.string_pool_used + size) q.string_pool_size)) [
            | inl fits ↦ rw fits (refl, refl)
            | inr full ↦ rw full (
                Partial-goes_on (λ p. is_set p ≡ malloc size) _ _ _ (alloc-is_set size h)
                  λ p h' w. heap_string-SameString (record q { string_pool = at b start }) size p w)
          ])

  -- How both readings end with a pair: by the same failure, or in the same pool, with one pair more
  -- where it is not dropped.
  abbrev pub SamePair : Bool → ℕ → ℕ → Option Pool → Outcome → Type 0
  SamePair drop n m none (failed q) = (length q.slots ≡ n) × (q.max_kv_count ≡ m)
  SamePair drop n m none (skipped q) = ⊥
  SamePair drop n m none (stored q) = ⊥
  SamePair drop n m (some pool) (failed q) = ⊥
  SamePair drop n m (some pool) (skipped q) =
      (drop ≡ true) × (pool ≡ pool_of q) × (length q.slots ≡ n) × (q.max_kv_count ≡ m)
  SamePair drop n m (some pool) (stored q) =
      (drop ≡ false) × (pool ≡ pool_of q) × (length q.slots ≡ suc n) × (q.max_kv_count ≡ m)

  keep_pair-SamePair :
      (drop : Bool) (q : Structure) (k v : Pointer) (h : Heap)
      → Partial
          (keep_pair by_size drop q k v h)
          (SamePair drop (length q.slots) q.max_kv_count (some (pool_of q)))
  keep_pair-SamePair true q k v h =
      Partial-any _ _ (free_string q k h)
        λ u h1. Partial-any _ _ (free_string q v h1) λ u' h2. (refl, refl, refl, refl)
  keep_pair-SamePair false q k v h =
      (refl, refl, omega (arith, length-append q.slots (record { key = k; value = v } ∷ [])), refl)

  -- The second string, in the pool behind the first one.
  abbrev value_pool : Pool → Bytes → Option Pool
  value_pool pool value = elim (pool_alloc_string malloc pool (length value + 1)) [
    | none ↦ none
    | some (place, pool') ↦ some pool'
  ]

  store_value-SamePair :
      (drop : Bool) (q : Structure) (k : Pointer) (value : Bytes) (h : Heap)
      → Partial
          (store_value by_size drop q k value h)
          (SamePair drop (length q.slots) q.max_kv_count (value_pool (pool_of q) value))
  unfolding store_value
  store_value-SamePair drop q k value h =
      Partial-goes_on (SameString q (pool_alloc_string malloc (pool_of q) (length value + 1))) _ _ _
        (alloc_string-SameString q (length value + 1) h)
        λ (v, used) h' w. go (pool_alloc_string malloc (pool_of q) (length value + 1)) v used h' w
    where
      go :
          (o : Option (Place × Pool)) (v : Pointer) (used : ℕ) (h' : Heap)
          → SameString q o (v, used)
          → Partial (value_given by_size drop (with_used by_size q used) k v h') (
              SamePair drop
                (length q.slots)
                q.max_kv_count
                (elim o [ none ↦ none | some (place, pool') ↦ some pool' ]))
      go none null used h' w =
          Partial-any _ _ (free_string (with_used by_size q used) k h') λ u h2. (refl, refl)
      go none (at b offset) used h' w = cc
      go (some (place, pool)) null used h' w = cc
      go (some (place, pool)) (at b offset) used h' w =
          rw (w.1) (keep_pair-SamePair drop (with_used by_size q used) k (at b offset) h')

  pub store_pair-SamePair :
      (drop : Bool) (q : Structure) (key value : Bytes) (h : Heap)
      → Partial (store_pair by_size drop q key value h) (
          SamePair drop
            (length q.slots)
            q.max_kv_count
            (store_strings malloc (pool_of q) key value))
  unfolding store_pair store_strings
  store_pair-SamePair drop q key value h =
      Partial-goes_on (SameString q (pool_alloc_string malloc (pool_of q) (length key + 1))) _ _ _
        (alloc_string-SameString q (length key + 1) h)
        λ (k, used) h' w. go (pool_alloc_string malloc (pool_of q) (length key + 1)) k used h' w
    where
      go :
          (o : Option (Place × Pool)) (k : Pointer) (used : ℕ) (h' : Heap)
          → SameString q o (k, used)
          → Partial (key_given by_size drop (with_used by_size q used) k value h') (
              SamePair drop
                (length q.slots)
                q.max_kv_count
                (elim o [ none ↦ none | some (place, pool') ↦ value_pool pool' value ]))
      go none null used h' w = (refl, refl)
      go none (at b offset) used h' w = cc
      go (some (place, pool)) null used h' w = cc
      go (some (place, pool)) (at b offset) used h' w =
          rw (w.1) (store_value-SamePair drop (with_used by_size q used) (at b offset) value h')
