-- ===== src/Query/Memory/Session/Filters.antt =====
-- llquery.c: `llquery_filter` frees what it drops, and keeps the structure valid.
use lhttp_parser.Prelude.{
  ℕ, zero, suc, ◌≡◌, refl, Bool, List, [], ◌∷◌, ◌++◌, inl, inr, arith, All, All-append, Bool-cases,
}
use lhttp_parser.Query.Memory.{Heap}
use lhttp_parser.Query.Memory.Owned.{count-append, Owns, Owns-same, Returns, Returns-bind, block_of}
use lhttp_parser.Query.Memory.Structure.{Slot, Structure, free_string, free_slots}
use lhttp_parser.Query.Memory.Structure.Release.{
  blocks_if, outside, slot_blocks, Placed, IsValid, Good, free_if-Owns,
}
use lhttp_parser.Query.Memory.Store.Keeps.{slot_blocks-append}
use lhttp_parser.Query.Memory.Session.{nulls, filter_loop, llquery_filter}

module _ (base : ℕ → ℕ) where
  free_nulls :
      (q : Structure) (gap : ℕ) (h : Heap) (bs : List ℕ)
      → Owns base h bs
      → Returns (free_slots q (nulls gap) h) (λ _ h'. Owns base h' bs)
  unfolding free_slots
  free_nulls q zero h bs o = o
  free_nulls q (suc gap) h bs o = free_nulls q gap h bs o

  filter_loop-Good :
      (q : Structure) (keep : Slot → Bool) (kept : List Slot) (gap : ℕ) (rest : List Slot)
      (h : Heap) (bs : List ℕ)
      → All (Placed q) kept
      → All (Placed q) rest
      → Owns base h (slot_blocks q kept ++ (slot_blocks q rest ++ bs))
      → Returns
          (filter_loop q keep kept gap rest h)
          (λ ss h'. All (Placed q) ss × Owns base h' (slot_blocks q ss ++ bs))
  unfolding filter_loop
  filter_loop-Good q keep kept gap [] h bs w ws o =
      Returns-bind (free_slots q (nulls gap)) _ h (λ _ h'. Owns base h' (slot_blocks q kept ++ bs))
        _ (free_nulls q gap h (slot_blocks q kept ++ bs) o) λ _ h' o'. (w, o')
  filter_loop-Good q keep kept gap (s ∷ rest) h bs w (ws, wss) o = elim (Bool-cases (keep s)) [
    | inl stays ↦ rw stays (
        filter_loop-Good q keep (kept ++ (s ∷ [])) gap rest h bs
          (All-append (Placed q) kept (s ∷ []) w (ws, tt)) wss
          (Owns-same base h _ _
            (λ b. omega (arith, count-append, slot_blocks-append q kept (s ∷ []) b)) o))
    | inr goes ↦ rw goes (
        let others = slot_blocks q kept ++ (slot_blocks q rest ++ bs) in
        let key = blocks_if (outside q s.key) s.key in
        let value = blocks_if (outside q s.value) s.value in
        Returns-bind (free_string q s.key) _ h (λ _ h'. Owns base h' (value ++ others)) _
          (free_if-Owns base (outside q s.key) s.key h (value ++ others) ws.0
            (Owns-same base h _ (key ++ (value ++ others)) (λ b. omega (arith, count-append)) o))
          λ _ h1 o1.
            Returns-bind (free_string q s.value) _ h1 (λ _ h'. Owns base h' others) _
              (free_if-Owns base (outside q s.value) s.value h1 others ws.1 o1)
              λ _ h2 o2. filter_loop-Good q keep kept (suc gap) rest h2 bs w wss o2)
  ]

  -- The structure with the pairs that a filter leaves.
  kept-Good :
      (q : Structure) (kept : List Slot) (h : Heap) (bs : List ℕ)
      → IsValid q
      → All (Placed q) kept
      → Owns base h (slot_blocks q kept ++ bs)
      → bs
        ≡ blocks_if q.string_pool_owned q.string_pool
          ++ (block_of q.kv_pairs
              ++ (blocks_if q.decode_buffer_owned q.decode_buffer ++ block_of q.reserved))
      → Good base (record q { slots = kept }) h
  kept-Good q kept h bs v placed o e = (
    record {
      placed = placed;
      pool_set = v.pool_set;
      pool = v.pool;
      array = v.array;
      buffer = v.buffer;
      internal = v.internal;
    },
    (rw e at o),
  )

  pub llquery_filter-Good :
      (q : Structure) (keep : Slot → Bool) (h : Heap)
      → Good base q h
      → Returns (llquery_filter q keep h) (Good base)
  unfolding llquery_filter
  llquery_filter-Good q keep h (v, o) =
      let others =
        blocks_if q.string_pool_owned q.string_pool
        ++ (block_of q.kv_pairs
            ++ (blocks_if q.decode_buffer_owned q.decode_buffer ++ block_of q.reserved)) in
      Returns-bind (filter_loop q keep [] 0 q.slots) _ h
        (λ ss h'. All (Placed q) ss × Owns base h' (slot_blocks q ss ++ others)) _
        (filter_loop-Good q keep [] 0 q.slots h others tt v.placed o)
        λ kept h' (placed, o'). kept-Good q kept h' others v placed o' refl
