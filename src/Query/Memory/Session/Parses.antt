-- ===== src/Query/Memory/Session/Parses.antt =====
-- llquery.c: `llquery_parse_ex` keeps the structure valid and accounts for every block.
use lhttp_parser.Prelude.{
  ℕ, ◌+◌, ◌≡◌, refl, Bool, true, false, ◌&&◌, List, [], ◌∷◌, ◌++◌, inl, inr, arith, ◌==◌, ltb,
  Bytes, length, Bool-cases,
}
use lhttp_parser.Query.Data.{auto_decode, has_option, Error}
use lhttp_parser.Query.Memory.{Pointer, null, at, Heap, alloc}
use lhttp_parser.Query.Memory.Owned.{
  count, count-append, Owns, Owns-same, Returns, Returns-bind, block_of, AtBegin, alloc-Owns,
}
use lhttp_parser.Query.Memory.Structure.{Structure, is_set, llquery_reset}
use lhttp_parser.Query.Memory.Structure.Release.{
  blocks_if, slot_blocks, owned, IsValid, Good, IsEmpty, llquery_reset-Owns,
}
use lhttp_parser.Query.Memory.Store.{store_loop}
use lhttp_parser.Query.Memory.Store.Keeps.{store_loop-Good, GoodStored}
use lhttp_parser.Query.Memory.Session.{
  with_pool, store_text, buffer_given, decode_and_store, parse_behind_mark, parse_call,
}
use lhttp_parser.Query.Parse.{estimate_string_size}
use lhttp_parser.Query.Strings.{has_encoded_chars, decode_in_place}

-- A block moves into the place of a list that has none.
pub count_moved :
    (b : ℕ) (slots pool array buffer internal : List ℕ) (c : ℕ)
    → count c buffer ≡ 0
    → count c (b ∷ (slots ++ (pool ++ (array ++ (buffer ++ internal)))))
      ≡ count c (slots ++ (pool ++ (array ++ (b ∷ internal))))
count_moved b slots pool array buffer internal c none_there =
    let tail = count-append c buffer internal in
    let from = count-append c array (buffer ++ internal) in
    let onto = count-append c array (b ∷ internal) in
    omega (
      arith,
      none_there,
      tail,
      from,
      onto,
      count-append c pool (array ++ (buffer ++ internal)),
      count-append c pool (array ++ (b ∷ internal)),
      count-append c slots (pool ++ (array ++ (buffer ++ internal))),
      count-append c slots (pool ++ (array ++ (b ∷ internal))),
    )

module _ (base : ℕ → ℕ) where
  abbrev pub GoodResult : Error × Structure → Heap → Type 0
  GoodResult (e, q) h = Good base q h

  -- Before the pool is made, the structure has no pairs and no pool.
  abbrev pub GoodEmpty : Structure → Heap → Type 0
  GoodEmpty q h = IsValid q × Owns base h (owned q) × IsEmpty q

  module _ (grants : ℕ → ℕ → Bool) (flags : ℕ) where
    with_pool-Good :
        (q : Structure) (size : ℕ) (p : Pointer) (h : Heap)
        → IsValid q
        → IsEmpty q
        → AtBegin p
        → Owns base h (block_of p ++ owned q)
        → Good base (with_pool grants flags q size p) h
    with_pool-Good q size null h v e begins o = (v, o)
    with_pool-Good q size (at b offset) h v e begins o = (
      record {
        placed = rw (e.0) tt;
        pool_set = refl;
        pool = begins;
        array = v.array;
        buffer = v.buffer;
        internal = v.internal;
      },
      (rw (e.0) (rw (e.0, e.1, e.2) at o)),
    )

    store_text-Good :
        (encoded : Bool) (len : ℕ) (text : Bytes) (q : Structure) (h : Heap)
        → GoodEmpty q h
        → Returns (store_text grants flags encoded len text q h) GoodResult
    unfolding store_text
    store_text-Good encoded len text q h (v, o, e) =
        let size = estimate_string_size len in
        Returns-bind (alloc grants size) _ h _ _ (alloc-Owns grants size base h (owned q) o)
          λ p h1 (begins, free_before, o1).
            let q' = with_pool grants flags q size p in
            let good : Good base q' h1 = with_pool-Good q size p h1 v e begins o1 in
            Returns-bind (store_loop grants flags encoded (length text) q'.max_kv_count q' text) _
              h1 (GoodStored base grants) _
              (store_loop-Good base grants flags encoded (length text) q'.max_kv_count q' text h1
                good.0 good.1)
              λ s h2 w. w

    -- A structure that `llquery_reset` leaves.
    abbrev pub GoodReset : Structure → Heap → Type 0
    GoodReset q h = IsValid q × Owns base h (owned q) × IsEmpty q × (q.decode_buffer_owned ≡ false)

    -- The caller's buffer is not owned.
    borrowed-Good :
        (q : Structure) (buffer : Pointer) (h : Heap)
        → GoodReset q h
        → GoodEmpty (record q { decode_buffer = buffer }) h
    borrowed-Good q buffer h (v, o, e, not_owned) = (
      record {
        placed = v.placed;
        pool_set = v.pool_set;
        pool = v.pool;
        array = v.array;
        buffer = rw not_owned tt;
        internal = v.internal;
      },
      rw not_owned (rw not_owned at o),
      e,
    )

    allocated-Good :
        (q : Structure) (b offset : ℕ) (h : Heap)
        → IsValid q
        → IsEmpty q
        → q.decode_buffer_owned ≡ false
        → offset ≡ 0
        → Owns base h (b ∷ owned q)
        → GoodEmpty (record q { decode_buffer = at b offset; decode_buffer_owned = true }) h
    allocated-Good q b offset h v e not_owned begins o =
        let slots = slot_blocks q q.slots in
        let pool = blocks_if q.string_pool_owned q.string_pool in
        let buffer = blocks_if q.decode_buffer_owned q.decode_buffer in
        let array = block_of q.kv_pairs in
        let internal = block_of q.reserved in
        let none_before : (c : ℕ) → count c buffer ≡ 0 = (λ c. rw not_owned refl) in
        (
          record {
            placed = v.placed;
            pool_set = v.pool_set;
            pool = v.pool;
            array = v.array;
            buffer = begins;
            internal = v.internal;
          },
          Owns-same base h (b ∷ (slots ++ (pool ++ (array ++ (buffer ++ internal)))))
              (slots ++ (pool ++ (array ++ (b ∷ internal))))
              (λ c. count_moved b slots pool array buffer internal c (none_before c)) o,
          e,
        )

    decode_and_store-Good :
        (text : Bytes) (buffer : Pointer) (buf_size : ℕ) (q : Structure) (h : Heap)
        → GoodReset q h
        → Returns (decode_and_store grants flags text buffer buf_size q h) GoodResult
    unfolding decode_and_store
    decode_and_store-Good text buffer buf_size q h (v, o, e, not_owned) =
        elim (Bool-cases (has_option flags auto_decode && has_encoded_chars text)) [
          | inl decodes ↦ rw decodes (elim (Bool-cases (is_set buffer && ltb 0 buf_size)) [
            | inl given ↦ rw given (elim (Bool-cases (ltb buf_size (length text + 1))) [
              | inl short ↦ rw short (v, o)
              | inr enough ↦ rw enough (
                  store_text-Good true (length text) (decode_in_place text)
                    (record q { decode_buffer = buffer }) h
                    (borrowed-Good q buffer h (v, o, e, not_owned)))
            ])
            | inr absent ↦ rw absent (
                Returns-bind (alloc grants (length text + 1)) _ h _ _
                  (alloc-Owns grants (length text + 1) base h (owned q) o)
                  λ p h1 (begins, free_before, o1). go p h1 begins o1)
          ])
          | inr plain ↦ rw plain (store_text-Good false (length text) text q h (v, o, e))
        ]
      where
        go :
            (p : Pointer) (h1 : Heap)
            → AtBegin p
            → Owns base h1 (block_of p ++ owned q)
            → Returns (buffer_given grants flags text q p h1) GoodResult
        go null h1 begins o1 = (v, o1)
        go (at b offset) h1 begins o1 =
            store_text-Good true (length text) (decode_in_place text)
              (record q { decode_buffer = at b offset; decode_buffer_owned = true }) h1
              (allocated-Good q b offset h1 v e not_owned begins o1)

    behind_mark-Good :
        (text : Bytes) (buffer : Pointer) (buf_size : ℕ) (q : Structure) (h : Heap)
        → GoodReset q h
        → Returns (parse_behind_mark grants flags text buffer buf_size q h) GoodResult
    behind_mark-Good [] buffer buf_size q h (v, o, e, not_owned) = (v, o)
    behind_mark-Good (c ∷ s) buffer buf_size q h w =
        decode_and_store-Good (c ∷ s) buffer buf_size q h w

    pub parse_call-Good :
        (text : Bytes) (buffer : Pointer) (buf_size : ℕ) (q : Structure) (h : Heap)
        → Good base q h
        → Returns (parse_call grants flags text buffer buf_size q h) GoodResult
    unfolding parse_call
    parse_call-Good [] buffer buf_size q h w = w
    parse_call-Good (c ∷ s) buffer buf_size q h (v, o) =
        Returns-bind (llquery_reset q) _ h GoodReset _ (llquery_reset-Owns base q h v o) λ q' h' w.
          elim (Bool-cases (c == b'?')) [
            | inl mark ↦ rw mark (behind_mark-Good s buffer buf_size q' h' w)
            | inr no_mark ↦ rw no_mark (decode_and_store-Good (c ∷ s) buffer buf_size q' h' w)
          ]
