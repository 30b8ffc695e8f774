-- ===== src/Query/Memory/Structure.antt =====
-- llquery.c: `llquery_init_ex`, `llquery_free`, `llquery_reset` and `llquery_filter`, as far as they
-- allocate and free.
pub mod Release
use lhttp_parser.Prelude.{
  ℕ, zero, suc, ◌+◌, ◌*◌, Bool, true, false, not, ◌&&◌, List, [], ◌∷◌, ◌++◌, Option, none, some,
  ◌==◌, leb, ltb, if◌then◌else◌,
}
use lhttp_parser.Query.Memory.{Pointer, null, at, M, pure, ◌>>=◌, ◌>>◌, alloc, free}

-- The pointers of a `struct llquery_kv`.
pub record Slot : Type 0 where
  pub key : Pointer
  pub value : Pointer

-- The pointers and flags of `struct llquery` and of its `llquery_internal_t`; `slots` are the first
-- `kv_count` of the array.
pub record Structure : Type 0 where
  pub reserved : Pointer
  pub kv_pairs : Pointer
  pub slots : List Slot
  pub max_kv_count : ℕ
  pub string_pool : Pointer
  pub string_pool_size : ℕ
  pub string_pool_used : ℕ
  pub string_pool_owned : Bool
  pub decode_buffer : Pointer
  pub decode_buffer_owned : Bool

-- `pool && p >= pool && p < pool + size`
abbrev pub in_pool : Pointer → ℕ → Pointer → Bool
in_pool null size p = false
in_pool (at b start) size null = false
in_pool (at b start) size (at c offset) = b == c && (leb start offset && ltb offset (start + size))

-- `if (p) { if (test) free_fn(p) }`
abbrev pub free_if : Bool → Pointer → M (Unit {0})
free_if test null = pure tt
free_if test (at b offset) = if test then free (at b offset) else pure tt

-- A string is freed unless it stands in the pool.
abbrev pub free_string : Structure → Pointer → M (Unit {0})
free_string q p = free_if (not (in_pool q.string_pool q.string_pool_size p)) p

-- The loop over the pairs of `llquery_free` and `llquery_reset`.
unfoldable pub free_slots : Structure → List Slot → M (Unit {0})
free_slots q [] = pure tt
free_slots q (s ∷ ss) = do free_string q s.key; free_string q s.value; free_slots q ss

-- The structure that `llquery_init_ex` fills.
abbrev pub initialised : Pointer → Pointer → ℕ → Structure
initialised internal kvs max = record {
  reserved = internal;
  kv_pairs = kvs;
  slots = [];
  max_kv_count = max;
  string_pool = null;
  string_pool_size = 0;
  string_pool_used = 0;
  string_pool_owned = false;
  decode_buffer = null;
  decode_buffer_owned = false;
}

-- Behind the allocation of the pairs; its failure frees the internal structure.
abbrev pub array_given : Pointer → ℕ → Pointer → M (Option Structure)
array_given internal max null = free internal >> pure none
array_given internal max (at b offset) = pure (some (initialised internal (at b offset) max))

-- Behind the allocation of the internal structure.
abbrev pub internal_given : (ℕ → ℕ → Bool) → ℕ → ℕ → Pointer → M (Option Structure)
internal_given grants kv_size max null = pure none
internal_given grants kv_size max (at b offset) =
    alloc grants (kv_size * max) >>= λ kvs. array_given (at b offset) max kvs

-- `llquery_init_ex`, on the sizes of `llquery_internal_t` and `struct llquery_kv`; `none` stands
-- for `LQE_MEMORY_ERROR`.
unfoldable pub llquery_init_ex : (ℕ → ℕ → Bool) → ℕ → ℕ → ℕ → M (Option Structure)
llquery_init_ex grants internal_size kv_size max_pairs =
    let max = if max_pairs == 0 then 128 else max_pairs in
    alloc grants internal_size >>= λ internal. internal_given grants kv_size max internal

-- `llquery_free`, on a structure that was initialised.
unfoldable pub llquery_free : Structure → M (Unit {0})
llquery_free q = do
  free_slots q q.slots
  free_if q.string_pool_owned q.string_pool
  free_if true q.kv_pairs
  free_if q.decode_buffer_owned q.decode_buffer
  free q.reserved

abbrev pub is_set : Pointer → Bool
is_set null = false
is_set (at b offset) = true

-- The structure behind `llquery_reset`.
abbrev pub cleared : Structure → Structure
cleared q =
    let drops = q.string_pool_owned && is_set q.string_pool in
    record q {
      slots = [];
      string_pool = if drops then null else q.string_pool;
      string_pool_size = if drops then 0 else q.string_pool_size;
      string_pool_used = if drops then 0 else q.string_pool_used;
      string_pool_owned = if drops then false else q.string_pool_owned;
      decode_buffer = null;
      decode_buffer_owned = q.decode_buffer_owned && not (is_set q.decode_buffer);
    }

-- `llquery_reset`
unfoldable pub llquery_reset : Structure → M Structure
llquery_reset q = do
  free_slots q q.slots
  free_if q.string_pool_owned q.string_pool
  free_if q.decode_buffer_owned q.decode_buffer
  pure (cleared q)
