-- ===== src/Query/Memory/Structure/Release.antt =====
-- llquery.c: what a structure owns, and that `llquery_free` and `llquery_reset` release it.
use lhttp_parser.Prelude.{
  ℕ, zero, suc, ◌≡◌, refl, Bool, true, false, not, ◌&&◌, List, [], ◌∷◌, ◌++◌, arith, if◌then◌else◌,
  All,
}
use lhttp_parser.Query.Memory.{Pointer, null, at, Heap, free}
use lhttp_parser.Query.Memory.Owned.{
  count-append, Owns, Owns-same, Returns, Returns-bind, block_of, AtBegin, free-Owns,
}
use lhttp_parser.Query.Memory.Structure.{
  Slot, Structure, in_pool, free_if, free_string, free_slots, is_set, cleared, llquery_free,
  llquery_reset,
}

-- The blocks that a pointer owns where the test holds.
abbrev pub blocks_if : Bool → Pointer → List ℕ
blocks_if test p = if test then block_of p else []

abbrev pub AtBeginIf : Bool → Pointer → Type 0
AtBeginIf true p = AtBegin p
AtBeginIf false p = Unit

abbrev pub outside : Structure → Pointer → Bool
outside q p = not (in_pool q.string_pool q.string_pool_size p)

abbrev pub slot_blocks : Structure → List Slot → List ℕ
slot_blocks q [] = []
slot_blocks q (s ∷ ss) =
    blocks_if (outside q s.key) s.key ++ (blocks_if (outside q s.value) s.value ++ slot_blocks q ss)

-- A string outside of the pool is a block of its own.
abbrev pub Placed : Structure → Slot → Type 0
Placed q s = AtBeginIf (outside q s.key) s.key × AtBeginIf (outside q s.value) s.value

-- The blocks of a structure: its strings, its pool, its pairs, its buffer and its internal part.
abbrev pub owned : Structure → List ℕ
owned q =
    slot_blocks q q.slots
    ++ (blocks_if q.string_pool_owned q.string_pool
        ++ (block_of q.kv_pairs
            ++ (blocks_if q.decode_buffer_owned q.decode_buffer ++ block_of q.reserved)))

-- A pointer to a block from `alloc_fn`.
abbrev pub Begins : Pointer → Type 0
Begins null = ⊥
Begins (at b offset) = offset ≡ 0

abbrev pub BeginsIf : Bool → Pointer → Type 0
BeginsIf true p = Begins p
BeginsIf false p = Unit

AtBeginIf-AtBegin : (test : Bool) (p : Pointer) → AtBegin p → AtBeginIf test p
AtBeginIf-AtBegin true p h = h
AtBeginIf-AtBegin false p h = tt

AtBeginIf-BeginsIf : (test : Bool) (p : Pointer) → BeginsIf test p → AtBeginIf test p
AtBeginIf-BeginsIf true (at b offset) h = h
AtBeginIf-BeginsIf true null h = absurd h
AtBeginIf-BeginsIf false p h = tt

-- The pool is owned where there is one, and a buffer that is owned is there.
pub record IsValid (q : Structure) : Type 0 where
  pub placed : All (Placed q) q.slots
  pub pool_set : q.string_pool_owned ≡ is_set q.string_pool
  pub pool : AtBegin q.string_pool
  pub array : AtBegin q.kv_pairs
  pub buffer : BeginsIf q.decode_buffer_owned q.decode_buffer
  pub internal : Begins q.reserved

abbrev drops : Bool → Pointer → Bool
drops o p = o && is_set p

pool_gone :
    (o : Bool) (p : Pointer)
    → o ≡ is_set p
    → ((if drops o p then false else o) ≡ false) × ((if drops o p then null else p) ≡ null)
pool_gone true null e = cc
pool_gone true (at b offset) e = (refl, refl)
pool_gone false null e = (refl, refl)
pool_gone false (at b offset) e = cc

buffer_gone : (o : Bool) (p : Pointer) → BeginsIf o p → (o && not (is_set p)) ≡ false
buffer_gone true null h = absurd h
buffer_gone true (at b offset) h = refl
buffer_gone false p h = refl

-- A structure is valid, and what it owns is what is allocated beside `base`.
abbrev pub Good : (ℕ → ℕ) → Structure → Heap → Type 0
Good base q h = IsValid q × Owns base h (owned q)

-- A structure with no pairs and no pool.
abbrev pub IsEmpty : Structure → Type 0
IsEmpty q = (q.slots ≡ []) × (q.string_pool ≡ null) × (q.string_pool_owned ≡ false)

-- A reset structure has no pairs, no pool and no buffer.
pub cleared-empty :
    (q : Structure)
    → IsValid q
    → (cleared q).string_pool ≡ null
      × (cleared q).string_pool_owned ≡ false
      × (cleared q).decode_buffer_owned ≡ false
cleared-empty q v =
    let gone = pool_gone q.string_pool_owned q.string_pool v.pool_set in
    (gone.1, gone.0, buffer_gone q.decode_buffer_owned q.decode_buffer v.buffer)

cleared-owned :
    (q : Structure) → IsValid q → owned (cleared q) ≡ block_of q.kv_pairs ++ block_of q.reserved
cleared-owned q v = rw ((cleared-empty q v).0, (cleared-empty q v).1, (cleared-empty q v).2) refl

cleared-IsValid : (q : Structure) → IsValid q → IsValid (cleared q)
cleared-IsValid q v = record {
  placed = tt;
  pool_set = rw ((cleared-empty q v).0, (cleared-empty q v).1) refl;
  pool = rw ((cleared-empty q v).0) tt;
  array = v.array;
  buffer = rw ((cleared-empty q v).2) tt;
  internal = v.internal;
}

module _ (base : ℕ → ℕ) where
  pub free_at-Owns :
      (p : Pointer) (h : Heap) (bs : List ℕ)
      → Begins p
      → Owns base h (block_of p ++ bs)
      → Returns (free p h) (λ _ h'. Owns base h' bs)
  free_at-Owns null h bs w o = absurd w
  free_at-Owns (at b zero) h bs w o = free-Owns b base h bs o
  free_at-Owns (at b (suc offset)) h bs w o = absurd (omega arith)

  pub free_if-Owns :
      (test : Bool) (p : Pointer) (h : Heap) (bs : List ℕ)
      → AtBeginIf test p
      → Owns base h (blocks_if test p ++ bs)
      → Returns (free_if test p h) (λ _ h'. Owns base h' bs)
  free_if-Owns true null h bs w o = o
  free_if-Owns false null h bs w o = o
  free_if-Owns true (at b offset) h bs w o = free_at-Owns (at b offset) h bs w o
  free_if-Owns false (at b offset) h bs w o = o

  pub free_slots-Owns :
      (q : Structure) (ss : List Slot) (h : Heap) (bs : List ℕ)
      → All (Placed q) ss
      → Owns base h (slot_blocks q ss ++ bs)
      → Returns (free_slots q ss h) (λ _ h'. Owns base h' bs)
  unfolding free_slots
  free_slots-Owns q [] h bs w o = o
  free_slots-Owns q (s ∷ ss) h bs (w, ws) o =
      let key = blocks_if (outside q s.key) s.key in
      let value = blocks_if (outside q s.value) s.value in
      let rest = slot_blocks q ss in
      Returns-bind (free_string q s.key) _ h (λ _ h'. Owns base h' (value ++ (rest ++ bs))) _
        (free_if-Owns (outside q s.key) s.key h (value ++ (rest ++ bs)) w.0 (
          Owns-same base h ((key ++ (value ++ rest)) ++ bs) (key ++ (value ++ (rest ++ bs)))
            (λ b. omega (arith, count-append)) o))
        λ _ h1 o1.
          Returns-bind (free_string q s.value) _ h1 (λ _ h'. Owns base h' (rest ++ bs)) _
            (free_if-Owns (outside q s.value) s.value h1 (rest ++ bs) w.1 o1)
            λ _ h2 o2. free_slots-Owns q ss h2 bs ws o2

  -- For every heap in which a valid structure owns its blocks: `llquery_free` does not fault, and
  -- what stays allocated is what others own.
  pub llquery_free-Owns :
      (q : Structure) (h : Heap)
      → IsValid q
      → Owns base h (owned q)
      → Returns (llquery_free q h) (λ _ h'. Owns base h' [])
  unfolding llquery_free
  llquery_free-Owns q h v o =
      let internal = block_of q.reserved in
      let buffer = blocks_if q.decode_buffer_owned q.decode_buffer ++ internal in
      let array = block_of q.kv_pairs ++ buffer in
      let pool = blocks_if q.string_pool_owned q.string_pool ++ array in
      Returns-bind (free_slots q q.slots) _ h (λ _ h'. Owns base h' pool) _
        (free_slots-Owns q q.slots h pool v.placed o)
        λ _ h1 o1.
          Returns-bind (free_if q.string_pool_owned q.string_pool) _ h1 (λ _ h'. Owns base h' array)
            _
            (free_if-Owns q.string_pool_owned q.string_pool h1 array
              (AtBeginIf-AtBegin q.string_pool_owned q.string_pool v.pool) o1)
            λ _ h2 o2.
              Returns-bind (free_if true q.kv_pairs) _ h2 (λ _ h'. Owns base h' buffer) _
                (free_if-Owns true q.kv_pairs h2 buffer v.array o2)
                λ _ h3 o3.
                  Returns-bind (free_if q.decode_buffer_owned q.decode_buffer) _ h3
                    (λ _ h'. Owns base h' internal) _
                    (free_if-Owns q.decode_buffer_owned q.decode_buffer h3 internal
                      (AtBeginIf-BeginsIf q.decode_buffer_owned q.decode_buffer v.buffer) o3)
                    λ _ h4 o4. free_at-Owns q.reserved h4 [] v.internal (
                      Owns-same base h4 internal (internal ++ []) (λ b. omega (arith, count-append))
                        o4)

  -- For every heap in which a valid structure owns its blocks: `llquery_reset` does not fault, and
  -- leaves a valid structure without pairs that owns what stays allocated of its blocks.
  pub llquery_reset-Owns :
      (q : Structure) (h : Heap)
      → IsValid q
      → Owns base h (owned q)
      → Returns
          (llquery_reset q h)
          (λ r h'. IsValid r × Owns base h' (owned r) × IsEmpty r × (r.decode_buffer_owned ≡ false))
  unfolding llquery_reset
  llquery_reset-Owns q h v o =
      let kept = block_of q.kv_pairs ++ block_of q.reserved in
      let pool = blocks_if q.string_pool_owned q.string_pool in
      let buffer = blocks_if q.decode_buffer_owned q.decode_buffer in
      Returns-bind (free_slots q q.slots) _ h (λ _ h'. Owns base h' (pool ++ (buffer ++ kept))) _
        (free_slots-Owns q q.slots h (pool ++ (buffer ++ kept)) v.placed (
          Owns-same base h (owned q) (slot_blocks q q.slots ++ (pool ++ (buffer ++ kept)))
            (λ b. omega (arith, count-append)) o))
        λ _ h1 o1.
          Returns-bind (free_if q.string_pool_owned q.string_pool) _ h1
            (λ _ h'. Owns base h' (buffer ++ kept)) _
            (free_if-Owns q.string_pool_owned q.string_pool h1 (buffer ++ kept)
              (AtBeginIf-AtBegin q.string_pool_owned q.string_pool v.pool) o1)
            λ _ h2 o2.
              Returns-bind (free_if q.decode_buffer_owned q.decode_buffer) _ h2
                (λ _ h'. Owns base h' kept) _
                (free_if-Owns q.decode_buffer_owned q.decode_buffer h2 kept
                  (AtBeginIf-BeginsIf q.decode_buffer_owned q.decode_buffer v.buffer) o2)
                λ _ h3 o3. (
                  cleared-IsValid q v,
                  rw (cleared-owned q v) o3,
                  (refl, (cleared-empty q v).0, (cleared-empty q v).1),
                  (cleared-empty q v).2,
                )
