-- ===== src/Query/Memory/Allocator.antt =====
-- llquery.c: `llquery_set_allocator`, where the new functions work on the heap of the old ones.
use lhttp_parser.Prelude.{
  ℕ, ◌+◌, ◌*◌, ◌≡◌, Bool, true, List, ◌∷◌, ◌++◌, inl, inr, arith, Bool-cases, if◌then◌else◌,
}
use lhttp_parser.Query.Memory.{Pointer, null, at, Heap, M, pure, ◌>>=◌, ◌>>◌, alloc, free}
use lhttp_parser.Query.Memory.Owned.{
  count, count-append, Owns, Owns-same, Returns, Returns-bind, block_of, AtBegin, alloc-Owns,
}
use lhttp_parser.Query.Memory.Structure.{Structure, is_set}
use lhttp_parser.Query.Memory.Structure.Release.{
  slot_blocks, blocks_if, owned, Begins, IsValid, Good, free_at-Owns,
}

-- Behind the allocation of the new array; without one the old array stays.
abbrev pub array_moved : Structure → Pointer → M Structure
array_moved q null = pure q
array_moved q (at b offset) = free q.kv_pairs >> pure (record q { kv_pairs = at b offset })

-- `llquery_set_allocator`, on the size of `struct llquery_kv` and what the new functions grant.
unfoldable pub llquery_set_allocator : (ℕ → ℕ → Bool) → ℕ → Structure → M Structure
llquery_set_allocator grants kv_size q =
    if is_set q.kv_pairs
    then (alloc grants (kv_size * q.max_kv_count) >>= λ p. array_moved q p)
    else pure q

is_set-Begins : (p : Pointer) → is_set p ≡ true → AtBegin p → Begins p
is_set-Begins null h w = cc
is_set-Begins (at b offset) h w = w

-- The array among what a structure owns.
abbrev beside_array : Structure → List ℕ
beside_array q =
    slot_blocks q q.slots
    ++ (blocks_if q.string_pool_owned q.string_pool
        ++ (blocks_if q.decode_buffer_owned q.decode_buffer ++ block_of q.reserved))

owned_parts :
    (q : Structure) (c : ℕ)
    → count c (owned q) ≡ count c (block_of q.kv_pairs) + count c (beside_array q)
owned_parts q c =
    let buffer = blocks_if q.decode_buffer_owned q.decode_buffer ++ block_of q.reserved in
    let array = block_of q.kv_pairs ++ buffer in
    let pool = blocks_if q.string_pool_owned q.string_pool in
    omega (
      arith,
      count-append c (slot_blocks q q.slots) (pool ++ array),
      count-append c pool array,
      count-append c (block_of q.kv_pairs) buffer,
      count-append c (slot_blocks q q.slots) (pool ++ buffer),
      count-append c pool buffer,
    )

module _ (base : ℕ → ℕ) where
  array_moved-Good :
      (q : Structure) (p : Pointer) (h : Heap)
      → Begins q.kv_pairs
      → AtBegin p
      → IsValid q
      → Owns base h (block_of p ++ owned q)
      → Returns (array_moved q p h) (Good base)
  array_moved-Good q null h w begins v o = (v, o)
  array_moved-Good q (at b offset) h w begins v o =
      let moved = record q { kv_pairs = at b offset } in
      let old = block_of q.kv_pairs in
      Returns-bind (free q.kv_pairs) _ h (λ _ h'. Owns base h' (owned moved)) _
        (free_at-Owns base q.kv_pairs h (owned moved) w (
          Owns-same base h (b ∷ owned q) (old ++ owned moved)
            (λ c.
              let whole = owned_parts q c in
              let whole' = owned_parts moved c in omega (arith, count-append, whole, whole'))
            o))
        λ u h' o''. (
          record {
            placed = v.placed;
            pool_set = v.pool_set;
            pool = v.pool;
            array = begins;
            buffer = v.buffer;
            internal = v.internal;
          },
          o'',
        )

  -- For every heap in which a valid structure owns its blocks, whether the new array is granted or
  -- not: `llquery_set_allocator` does not fault, and leaves a valid structure that owns what is
  -- allocated.
  pub llquery_set_allocator-Good :
      (grants : ℕ → ℕ → Bool) (kv_size : ℕ) (q : Structure) (h : Heap)
      → Good base q h
      → Returns (llquery_set_allocator grants kv_size q h) (Good base)
  unfolding llquery_set_allocator
  llquery_set_allocator-Good grants kv_size q h (v, o) = elim (Bool-cases (is_set q.kv_pairs)) [
    | inl set ↦ rw set (
        Returns-bind (alloc grants (kv_size * q.max_kv_count)) _ h _ (Good base)
          (alloc-Owns grants (kv_size * q.max_kv_count) base h (owned q) o)
          λ p h' (begins, was_free, o').
            array_moved-Good q p h' (is_set-Begins q.kv_pairs set v.array) begins v o')
    | inr missing ↦ rw missing (v, o)
  ]
