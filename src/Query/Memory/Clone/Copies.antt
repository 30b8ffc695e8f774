-- ===== src/Query/Memory/Clone/Copies.antt =====
-- llquery.c: what `llquery_clone` owns, and that it releases all of it where it fails.
use mathlib.Core.Path.{subst}
use lhttp_parser.Prelude.{
  sym, ℕ, ◌≡◌, refl, Bool, true, false, List, [], ◌∷◌, ◌++◌, Option, none, some, inl, inr, ltb, All,
  length, Bool-cases,
}
use lhttp_parser.Query.Memory.Clone.{
  copy_pairs, buffer_copied, pairs_copied, clone_into, llquery_clone,
}
use lhttp_parser.Query.Memory.Owned.{
  Owns, Owns-same, Returns, Returns-bind, block_of, AtBegin, alloc-Owns,
}
use lhttp_parser.Query.Memory.Session.Balance.{GoodStart, init-Good}
use lhttp_parser.Query.Memory.Session.Parses.{count_moved}
use lhttp_parser.Query.Memory.Structure.Release.{Good, owned, Begins, llquery_free-Owns}
use lhttp_parser.Query.Memory.Structure.{
  Slot, Structure, initialised, llquery_init_ex, llquery_free,
}
use lhttp_parser.Query.Memory.{Pointer, null, at, Heap, pure, ◌>>◌, alloc}
use lhttp_parser.Query.Memory.Clone.Pairs.{copied_blocks, AtBegins, copy_pairs-GoodCopies}

module _ (base : ℕ → ℕ) (grants : ℕ → ℕ → Bool) where
  -- A clone with `n` pairs, or none with all its blocks released.
  abbrev pub IsClone : ℕ → Option Structure → Heap → Type 0
  IsClone n none h = Owns base h []
  IsClone n (some q) h = Good base q h × (length q.slots ≡ n)

  released :
      (q : Structure) (n : ℕ) (h : Heap)
      → Good base q h
      → Returns ((llquery_free q >> pure none) h) (IsClone n)
  released q n h (v, o) =
      Returns-bind (llquery_free q) _ h (λ u h'. Owns base h' []) _ (llquery_free-Owns base q h v o)
        λ u h' o'. o'

  module _ (internal kvs : Pointer) (max n : ℕ) (begins : Begins internal)
      (array : AtBegin kvs) where
    with_slots-Good :
        (ss : List Slot) (h : Heap)
        → All AtBegins ss
        → Owns base h (copied_blocks ss ++ (block_of kvs ++ block_of internal))
        → Good base (record (initialised internal kvs max) { slots = ss }) h
    with_slots-Good ss h placed o = (
      record {
        placed = placed;
        pool_set = refl;
        pool = tt;
        array = array;
        buffer = tt;
        internal = begins;
      },
      o,
    )

    buffer_copied-IsClone :
        (ss : List Slot) (p : Pointer) (h : Heap)
        → All AtBegins ss
        → length ss ≡ n
        → AtBegin p
        → Owns base h (block_of p ++ (copied_blocks ss ++ (block_of kvs ++ block_of internal)))
        → Returns
            (buffer_copied grants (record (initialised internal kvs max) { slots = ss }) p h)
            (IsClone n)
    buffer_copied-IsClone ss null h placed len p_begins o =
        released (record (initialised internal kvs max) { slots = ss }) n h
          (with_slots-Good ss h placed o)
    buffer_copied-IsClone ss (at b offset) h placed len p_begins o = (
      (
        record {
          placed = placed;
          pool_set = refl;
          pool = tt;
          array = array;
          buffer = p_begins;
          internal = begins;
        },
        Owns-same base h (b ∷ (copied_blocks ss ++ (block_of kvs ++ block_of internal)))
            (copied_blocks ss ++ (block_of kvs ++ (b ∷ block_of internal)))
            (λ c. count_moved b (copied_blocks ss) [] (block_of kvs) [] (block_of internal) c refl)
            o,
      ),
      len,
    )

    pairs_copied-IsClone :
        (buffer_size : ℕ) (all_copied : Bool) (ss : List Slot) (h : Heap)
        → All AtBegins ss
        → length ss ≡ n
        → Owns base h (copied_blocks ss ++ (block_of kvs ++ block_of internal))
        → Returns
            (pairs_copied grants buffer_size (initialised internal kvs max) (all_copied, ss) h)
            (IsClone n)
    pairs_copied-IsClone buffer_size false ss h placed len o =
        released (record (initialised internal kvs max) { slots = ss }) n h
          (with_slots-Good ss h placed o)
    pairs_copied-IsClone buffer_size true ss h placed len o =
        elim (Bool-cases (ltb 0 buffer_size)) [
          | inl wanted ↦ rw wanted (
              Returns-bind (alloc grants buffer_size) _ h _ _
                (alloc-Owns grants buffer_size base h
                  (copied_blocks ss ++ (block_of kvs ++ block_of internal)) o)
                λ p h' (p_begins, p_free, o'). buffer_copied-IsClone ss p h' placed len p_begins o')
          | inr unwanted ↦ rw unwanted (with_slots-Good ss h placed o, len)
        ]

  clone_into-IsClone :
      (lens : List (ℕ × ℕ)) (buffer_size : ℕ) (o : Option Structure) (h : Heap)
      → GoodStart base grants 0 o h
      → Returns (clone_into grants lens buffer_size o h) (IsClone (length lens))
  clone_into-IsClone lens buffer_size none h w = w
  clone_into-IsClone lens buffer_size (some q) h ((v, o), same) =
      let blocks : Owns base h (block_of q.kv_pairs ++ block_of q.reserved) =
        subst (λ r. Owns base h (owned r)) same o in
      Returns-bind (copy_pairs grants lens) _ h _ _
        (copy_pairs-GoodCopies base grants lens h (block_of q.kv_pairs ++ block_of q.reserved)
          blocks)
        λ (all_copied, ss) h' (placed, len, o').
          subst
            (λ r.
              Returns (pairs_copied grants buffer_size r (all_copied, ss) h')
                (IsClone (length lens)))
            (sym same)
            (pairs_copied-IsClone q.reserved q.kv_pairs q.max_kv_count (length lens) v.internal
              v.array buffer_size all_copied ss h' placed len o')

  -- For every heap, and every allocator, which may refuse any of the allocations: `llquery_clone`
  -- does not fault; it fails, and all the blocks that it has allocated are free again, or it gives a
  -- valid structure with as many pairs as the source, which owns all that was allocated.
  pub llquery_clone-IsClone :
      (internal_size kv_size max : ℕ) (lens : List (ℕ × ℕ)) (buffer_size : ℕ) (h : Heap)
      → Owns base h []
      → Returns
          (llquery_clone grants internal_size kv_size max lens buffer_size h)
          (IsClone (length lens))
  unfolding llquery_clone
  llquery_clone-IsClone internal_size kv_size max lens buffer_size h o =
      Returns-bind (llquery_init_ex grants internal_size kv_size max) _ h (GoodStart base grants 0)
        _ (init-Good base grants 0 internal_size kv_size max h o)
        λ q h' w. clone_into-IsClone lens buffer_size q h' w
