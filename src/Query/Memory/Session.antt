-- ===== src/Query/Memory/Session.antt =====
-- llquery.c: calls on a query structure from `llquery_init_ex` to `llquery_free`, as far as they
-- allocate and free.
pub mod Filters
pub mod Parses
pub mod Balance
use lhttp_parser.Prelude.{
  ℕ, zero, suc, ◌+◌, Bool, true, false, not, ◌&&◌, List, [], ◌∷◌, ◌++◌, Option, none, some, ◌==◌,
  leb, ltb, if◌then◌else◌, Bytes, length,
}
use lhttp_parser.Query.Data.{
  auto_decode, strict, has_option, Error, ok, empty_string, buffer_too_small, memory_error,
  too_many_pairs,
}
use lhttp_parser.Query.Memory.{Pointer, null, at, M, pure, ◌>>=◌, ◌>>◌, alloc}
use lhttp_parser.Query.Memory.Allocator.{llquery_set_allocator}
use lhttp_parser.Query.Memory.Structure.{
  Slot, Structure, is_set, free_string, free_slots, llquery_init_ex, llquery_free, llquery_reset,
}
use lhttp_parser.Query.Memory.Store.{Stored, store_loop}
use lhttp_parser.Query.Parse.{is_nil, estimate_string_size}
use lhttp_parser.Query.Strings.{has_encoded_chars, decode_in_place}

-- The slots of the array that hold nothing any more.
abbrev pub nulls : ℕ → List Slot
nulls zero = []
nulls (suc n) = record { key = null; value = null } ∷ nulls n

-- The loops of `llquery_filter`. The array holds the pairs that are kept, up to `write_idx`, `gap`
-- null slots up to `read_idx`, and the pairs that are not read yet.
unfoldable pub filter_loop : Structure → (Slot → Bool) → List Slot → ℕ → List Slot → M (List Slot)
filter_loop q keep kept gap [] = do free_slots q (nulls gap); pure kept
filter_loop q keep kept gap (s ∷ rest) =
    let on = filter_loop q keep (kept ++ (s ∷ [])) gap rest in
    let drop = filter_loop q keep kept (suc gap) rest in
    if keep s then on else (do free_string q s.key; free_string q s.value; drop)

unfoldable pub llquery_filter : Structure → (Slot → Bool) → M Structure
llquery_filter q keep = filter_loop q keep [] 0 q.slots >>= λ kept. pure (record q { slots = kept })

module _ (grants : ℕ → ℕ → Bool) (flags : ℕ) where
  abbrev pub stored_code : Stored → Error
  stored_code s =
      if not s.allocated
      then memory_error
      else if not (is_nil s.rest)
          && (leb s.structure.max_kv_count (length s.structure.slots) && has_option flags strict)
      then too_many_pairs
      else ok

  abbrev pub with_pool : Structure → ℕ → Pointer → Structure
  with_pool q size null = q
  with_pool q size (at b offset) = record q {
    string_pool = at b offset;
    string_pool_size = size;
    string_pool_used = 0;
    string_pool_owned = true;
  }

  -- From the pool on; the query was `len` bytes long before it was decoded.
  unfoldable pub store_text : Bool → ℕ → Bytes → Structure → M (Error × Structure)
  store_text encoded len text q = alloc grants (estimate_string_size len) >>= λ p.
      let q' = with_pool q (estimate_string_size len) p in
      store_loop grants flags encoded (length text) q'.max_kv_count q' text >>= λ s.
      pure (stored_code s, s.structure)

  -- Behind the allocation of a buffer for decoding.
  abbrev pub buffer_given : Bytes → Structure → Pointer → M (Error × Structure)
  buffer_given text q null = pure (memory_error, q)
  buffer_given text q (at b offset) =
      store_text true (length text) (decode_in_place text)
        (record q { decode_buffer = at b offset; decode_buffer_owned = true })

  -- Behind a leading `?`; `buffer` is the caller's, of `buf_size` bytes, or null.
  unfoldable pub decode_and_store : Bytes → Pointer → ℕ → Structure → M (Error × Structure)
  decode_and_store text buffer buf_size q =
      if has_option flags auto_decode && has_encoded_chars text
      then (if is_set buffer && ltb 0 buf_size
          then (if ltb buf_size (length text + 1)
              then pure (buffer_too_small, q)
              else store_text true (length text) (decode_in_place text)
                  (record q { decode_buffer = buffer }))
          else alloc grants (length text + 1) >>= λ p. buffer_given text q p)
      else store_text false (length text) text q

  abbrev pub parse_behind_mark : Bytes → Pointer → ℕ → Structure → M (Error × Structure)
  parse_behind_mark [] buffer buf_size q = pure (ok, q)
  parse_behind_mark (c ∷ s) buffer buf_size q = decode_and_store (c ∷ s) buffer buf_size q

  -- `llquery_parse_ex` on a text that is given with its length.
  unfoldable pub parse_call : Bytes → Pointer → ℕ → Structure → M (Error × Structure)
  parse_call [] buffer buf_size q = pure (empty_string, q)
  parse_call (c ∷ s) buffer buf_size q = llquery_reset q >>= λ q'.
      (if c == b'?'
        then parse_behind_mark s buffer buf_size q'
        else decode_and_store (c ∷ s) buffer buf_size q')

  -- The calls of a client, with a buffer of its own or none for decoding.
  pub data Call : Type 0 where
    parse : Bytes → Pointer → ℕ → Call
    filter : (Slot → Bool) → Call
    reset : Call
    -- With the size of `struct llquery_kv`.
    set_allocator : ℕ → Call

  abbrev pub call : Call → Structure → M Structure
  call (parse text buffer buf_size) q = parse_call text buffer buf_size q >>= λ (e, q'). pure q'
  call (filter keep) q = llquery_filter q keep
  call reset q = llquery_reset q
  call (set_allocator kv_size) q = llquery_set_allocator grants kv_size q

  unfoldable pub run : List Call → Structure → M Structure
  run [] q = pure q
  run (c ∷ cs) q = call c q >>= λ q'. run cs q'

  -- Calls between `llquery_init_ex` and `llquery_free`.
  abbrev pub used : List Call → Option Structure → M (Unit {0})
  used cs none = pure tt
  used cs (some q) = run cs q >>= λ q'. llquery_free q'

  unfoldable pub session : ℕ → ℕ → ℕ → List Call → M (Unit {0})
  session internal_size kv_size max_pairs cs =
      llquery_init_ex grants internal_size kv_size max_pairs >>= λ o. used cs o
