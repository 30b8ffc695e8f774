-- ===== src/Query/Memory/Agreement/Whole.antt =====
-- llquery.c: `llquery_parse_ex` on pointers ends with the code, and with as many pairs, as on texts.
use lhttp_parser.Prelude.{
  ℕ, ◌+◌, ◌≡◌, ◌<◌, refl, ap, sym, ◌∙◌, Bool, true, false, ◌&&◌, [], ◌∷◌, inl, inr, arith, ◌==◌,
  ltb, if◌then◌else◌, Bytes, length, Bool-cases,
}
use lhttp_parser.Query.Data.{auto_decode, has_option, Error, ok, memory_error}
use lhttp_parser.Query.Memory.{Pointer, null, at, Heap, pure, ◌>>=◌, alloc}
use lhttp_parser.Query.Memory.Agreement.{pool_of, by_size, alloc-is_set}
use lhttp_parser.Query.Memory.Agreement.Loop.{SameEnd, store_loop-SameEnd}
use lhttp_parser.Query.Memory.Partial.{Partial, Partial-goes_on, Partial-weaken, Returns-Partial}
use lhttp_parser.Query.Memory.Owned.{Returns}
use lhttp_parser.Query.Memory.Session.{
  stored_code, with_pool, store_text, buffer_given, decode_and_store, parse_behind_mark, parse_call,
}
use lhttp_parser.Query.Memory.Session.Parses.{parse_call-Good}
use lhttp_parser.Query.Memory.Structure.Release.{Good}
use lhttp_parser.Query.Codec.Laws.{text_of-length}
use lhttp_parser.Query.Memory.Store.{Stored, store_loop}
use lhttp_parser.Query.Memory.Structure.{Structure, is_set, initialised, llquery_reset, free_slots}
use lhttp_parser.Query.Parse.{
  Parsed, Found, new_pool, end_code, parse_loop, parse_decoded, parse_text, parse_query_mark,
  parse_nonempty, llquery_parse_ex, estimate_string_size,
}
use lhttp_parser.Query.Strings.{has_encoded_chars, decode_in_place}

-- The same code, and as many pairs.
abbrev pub SameParsed : Parsed → Error × Structure → Type 0
SameParsed (e, kvs) (e', q) = (e' ≡ e) × (length q.slots ≡ length kvs)

-- A structure without pairs and without a pool.
abbrev IsFresh : ℕ → Structure → Type 0
IsFresh max q =
    (q.slots ≡ []) × (q.string_pool ≡ null) × (q.string_pool_used ≡ 0) × (q.max_kv_count ≡ max)

-- The size of the caller's buffer; a null buffer has none.
abbrev pub size_of : Pointer → ℕ → ℕ
size_of null buf_size = 0
size_of (at b offset) buf_size = buf_size

module _ (malloc : ℕ → Bool) (flags max : ℕ) where
  abbrev grants : ℕ → ℕ → Bool
  grants = by_size malloc

  -- With the pool, or without one, the structure has the pool of the reading by texts.
  with_pool-new_pool :
      (q : Structure) (len : ℕ) (p : Pointer)
      → IsFresh max q
      → is_set p ≡ malloc (estimate_string_size len)
      → let q' = with_pool grants flags q (estimate_string_size len) p in
        (pool_of q' ≡ new_pool malloc len) × (q'.slots ≡ []) × (q'.max_kv_count ≡ max)
  with_pool-new_pool q len null f e = (rw (f.1, f.2, sym e) refl, f.0, f.3)
  with_pool-new_pool q len (at b offset) f e = (rw (sym e) refl, f.0, f.3)

  stored_code-end_code :
      (encoded : Bool) (found : Found) (s : Stored)
      → SameEnd malloc flags encoded 0 max found s
      → stored_code grants flags s ≡ end_code flags max found
  stored_code-end_code encoded found s (a, r, l, e) =
      let slots : length s.structure.slots ≡ length found.pairs = omega (arith, l) in
      rw (a, r, slots, e) refl

  module _ (encoded : Bool) where
    SameEnd-replaced :
        (n m : ℕ) (found' found : Found) (s : Stored)
        → found' ≡ found
        → n ≡ 0
        → m ≡ max
        → SameEnd malloc flags encoded n m found' s
        → SameEnd malloc flags encoded 0 max found s
    SameEnd-replaced n m found' found s same same_n same_m (a, r, l, e) = (
      a ∙ ap (λ f. f.allocated) same,
      r ∙ ap (λ f. f.rest) same,
      omega (arith, l, same_n, ap (λ f. length f.pairs) same),
      e ∙ same_m,
    )

    store_text-SameParsed :
        (len : ℕ) (text : Bytes) (q : Structure) (h : Heap)
        → IsFresh max q
        → Partial
            (store_text grants flags encoded len text q h)
            (SameParsed (parse_decoded malloc flags max encoded len text))
    unfolding store_text parse_decoded
    store_text-SameParsed len text q h f =
        Partial-goes_on (λ p. is_set p ≡ malloc (estimate_string_size len)) _ _ _
          (alloc-is_set malloc (estimate_string_size len) h)
          λ p h1 w.
            let q' = with_pool grants flags q (estimate_string_size len) p in
            let (pool, slots, room) = with_pool-new_pool q len p f w in
            let run = parse_loop malloc flags encoded (length text) in
            let same : run q'.max_kv_count (pool_of q') text ≡ run max (new_pool malloc len) text =
              ap (λ m. run m (pool_of q') text) room ∙ ap (λ pl. run max pl text) pool in
            Partial-goes_on
              (SameEnd malloc flags encoded 0 max (run max (new_pool malloc len) text))
              (SameParsed (parse_decoded malloc flags max encoded len text))
              (λ s. pure (stored_code grants flags s, s.structure))
              (store_loop grants flags encoded (length text) q'.max_kv_count q' text h1)
              (Partial-weaken _ _ _
                (store_loop-SameEnd malloc flags encoded (length text) q'.max_kv_count q' text h1)
                λ s e. SameEnd-replaced _ _ _ _ s same (ap length slots) room e)
              λ s h2 e. (stored_code-end_code encoded _ s e, omega (arith, e.2))

  -- The reading by texts, behind the code for its buffer.
  abbrev behind_room : Bytes → Error → Parsed
  behind_room text e = elim e [
    | ok ↦ parse_decoded malloc flags max true (length text) (decode_in_place text)
    | error ↦ (error, [])
  ]

  buffer_given-SameParsed :
      (text : Bytes) (q : Structure) (p : Pointer) (h : Heap)
      → IsFresh max q
      → is_set p ≡ malloc (length text + 1)
      → Partial
          (buffer_given grants flags text q p h)
          (SameParsed (behind_room text (if malloc (length text + 1) then ok else memory_error)))
  buffer_given-SameParsed text q null h f w = rw (sym w) (refl, ap length f.0)
  buffer_given-SameParsed text q (at b offset) h f w = rw (sym w) (
      store_text-SameParsed true (length text) (decode_in_place text)
        (record q { decode_buffer = at b offset; decode_buffer_owned = true }) h f)

  own_buffer-SameParsed :
      (text : Bytes) (q : Structure) (h : Heap)
      → IsFresh max q
      → Partial
          ((alloc grants (length text + 1) >>= λ p. buffer_given grants flags text q p) h)
          (SameParsed (behind_room text (if malloc (length text + 1) then ok else memory_error)))
  own_buffer-SameParsed text q h f =
      Partial-goes_on (λ p. is_set p ≡ malloc (length text + 1)) _ _ _
        (alloc-is_set malloc (length text + 1) h) λ p h1 w. buffer_given-SameParsed text q p h1 f w

  decode_and_store-SameParsed :
      (text : Bytes) (buffer : Pointer) (buf_size : ℕ) (q : Structure) (h : Heap)
      → IsFresh max q
      → Partial
          (decode_and_store grants flags text buffer buf_size q h)
          (SameParsed (parse_text malloc flags max (size_of buffer buf_size) text))
  unfolding decode_and_store parse_text
  decode_and_store-SameParsed text null buf_size q h f =
      elim (Bool-cases (has_option flags auto_decode && has_encoded_chars text)) [
        | inl decodes ↦ rw decodes (own_buffer-SameParsed text q h f)
        | inr plain ↦ rw plain (store_text-SameParsed false (length text) text q h f)
      ]
  decode_and_store-SameParsed text (at b offset) buf_size q h f =
      elim (Bool-cases (has_option flags auto_decode && has_encoded_chars text)) [
        | inl decodes ↦ rw decodes (elim (Bool-cases (ltb 0 buf_size)) [
          | inl given ↦ rw given (elim (Bool-cases (ltb buf_size (length text + 1))) [
            | inl short ↦ rw short (refl, ap length f.0)
            | inr enough ↦ rw enough (
                store_text-SameParsed true (length text) (decode_in_place text)
                  (record q { decode_buffer = at b offset }) h f)
          ])
          | inr absent ↦ rw absent (own_buffer-SameParsed text q h f)
        ])
        | inr plain ↦ rw plain (store_text-SameParsed false (length text) text q h f)
      ]

  behind_mark-SameParsed :
      (text : Bytes) (buffer : Pointer) (buf_size : ℕ) (q : Structure) (h : Heap)
      → IsFresh max q
      → Partial
          (parse_behind_mark grants flags text buffer buf_size q h)
          (SameParsed (parse_query_mark malloc flags max (size_of buffer buf_size) text))
  behind_mark-SameParsed [] buffer buf_size q h f = (refl, ap length f.0)
  behind_mark-SameParsed (c ∷ s) buffer buf_size q h f =
      decode_and_store-SameParsed (c ∷ s) buffer buf_size q h f

  parse_call-SameParsed :
      (text : Bytes) (buffer : Pointer) (buf_size : ℕ) (internal kvs : Pointer) (h : Heap)
      → Partial
          (parse_call grants flags text buffer buf_size (initialised internal kvs max) h)
          (SameParsed (parse_nonempty malloc flags max (size_of buffer buf_size) text))
  unfolding parse_call llquery_reset free_slots
  parse_call-SameParsed [] buffer buf_size internal kvs h = (refl, refl)
  parse_call-SameParsed (c ∷ s) buffer buf_size internal kvs h = elim (Bool-cases (c == b'?')) [
    | inl mark ↦ rw mark (
        behind_mark-SameParsed s buffer buf_size (initialised internal kvs max) h
          (refl, refl, refl, refl))
    | inr no_mark ↦ rw no_mark (
        decode_and_store-SameParsed (c ∷ s) buffer buf_size (initialised internal kvs max) h
          (refl, refl, refl, refl))
  ]

-- For every allocator that grants by the size alone, all options, every query of at least one byte
-- and any buffer of the caller's or none: on a structure that `llquery_init_ex` has just made, in a
-- heap where it owns its blocks, the call on pointers does not fault, and it ends with the error
-- code, and with as many pairs, as `llquery_parse_ex` on texts.
pub parse_call-llquery_parse_ex :
    (malloc : ℕ → Bool) (flags max : ℕ) (text : Bytes) (buffer : Pointer) (buf_size : ℕ)
    (internal kvs : Pointer) (base : ℕ → ℕ) (h : Heap)
    → 0 < length text
    → Good base (initialised internal kvs max) h
    → Returns
        (parse_call (by_size malloc) flags text buffer buf_size (initialised internal kvs max) h)
        (λ r h'.
          Good base (r.1) h'
          × SameParsed
              (llquery_parse_ex malloc flags max text (length text) (size_of buffer buf_size))
              r)
unfolding llquery_parse_ex
parse_call-llquery_parse_ex malloc flags max text buffer buf_size internal kvs base h pos good =
    let q = initialised internal kvs max in
    let run = parse_call (by_size malloc) flags text buffer buf_size q h in
    Returns-Partial run _ _
      (parse_call-Good base (by_size malloc) flags text buffer buf_size q h good)
      (rw (text_of-length text pos)
        (parse_call-SameParsed malloc flags max text buffer buf_size internal kvs h))
