-- ===== src/Query/Memory/Session/Balance.antt =====
-- llquery.c: a session of calls frees every block that it allocates, once.
use lhttp_parser.Prelude.{
  ℕ, ◌*◌, ◌≤◌, ◌≡◌, refl, Bool, true, false, List, [], ◌∷◌, ◌++◌, Option, none, some, arith, ◌==◌,
  if◌then◌else◌,
}
use lhttp_parser.Query.Memory.{Run, fault, done, Pointer, null, at, Heap, alloc, free}
use lhttp_parser.Query.Memory.Owned.{
  bit, count-append, Owns, Owns-same, Returns, Returns-bind, Returns-weaken, block_of, AtBegin,
  alloc-Owns,
}
use lhttp_parser.Query.Memory.Allocator.{llquery_set_allocator-Good}
use lhttp_parser.Query.Memory.Structure.{
  initialised, Structure, llquery_init_ex, llquery_reset, array_given, internal_given,
}
use lhttp_parser.Query.Memory.Structure.Release.{
  Good, Begins, free_at-Owns, llquery_free-Owns, llquery_reset-Owns,
}
use lhttp_parser.Query.Memory.Session.{
  parse_call, Call, parse, filter, reset, set_allocator, call, run, used, session,
}
use lhttp_parser.Query.Memory.Session.Filters.{llquery_filter-Good}
use lhttp_parser.Query.Memory.Session.Parses.{GoodResult, GoodReset, parse_call-Good}

module _ (base : ℕ → ℕ) where
  module _ (grants : ℕ → ℕ → Bool) (flags : ℕ) where
    call-Good :
        (c : Call grants flags) (q : Structure) (h : Heap)
        → Good base q h
        → Returns (call grants flags c q h) (Good base)
    call-Good (parse text buffer buf_size) q h w =
        Returns-bind (parse_call grants flags text buffer buf_size q) _ h (GoodResult base) _
          (parse_call-Good base grants flags text buffer buf_size q h w) λ r h' good. good
    call-Good (filter keep) q h w = llquery_filter-Good base q keep h w
    call-Good reset q h (v, o) =
        Returns-weaken (llquery_reset q h) (GoodReset base grants flags) (Good base)
          (llquery_reset-Owns base q h v o) λ q' h' w. (w.0, w.1)
    call-Good (set_allocator kv_size) q h w = llquery_set_allocator-Good base grants kv_size q h w

    run-Good :
        (cs : List (Call grants flags)) (q : Structure) (h : Heap)
        → Good base q h
        → Returns (run grants flags cs q h) (Good base)
    unfolding run
    run-Good [] q h w = w
    run-Good (c ∷ cs) q h w =
        Returns-bind (call grants flags c q) _ h (Good base) _ (call-Good c q h w)
          λ q' h' w'. run-Good cs q' h' w'

    -- What `llquery_init_ex` gives.
    abbrev pub GoodStart : Option Structure → Heap → Type 0
    GoodStart none h = Owns base h []
    GoodStart (some q) h = Good base q h × (q ≡ initialised q.reserved q.kv_pairs q.max_kv_count)

    used-balanced :
        (cs : List (Call grants flags)) (o : Option Structure) (h : Heap)
        → GoodStart o h
        → Returns (used grants flags cs o h) (λ _ h'. Owns base h' [])
    used-balanced cs none h w = w
    used-balanced cs (some q) h (w, same) =
        Returns-bind (run grants flags cs q) _ h (Good base) _ (run-Good cs q h w)
          λ q' h' (v, o). llquery_free-Owns base q' h' v o

    array_given-Good :
        (internal : Pointer) (max : ℕ) (kvs : Pointer) (h : Heap)
        → Begins internal
        → AtBegin kvs
        → Owns base h (block_of kvs ++ block_of internal)
        → Returns (array_given internal max kvs h) GoodStart
    array_given-Good internal max null h w begins o =
        Returns-bind (free internal) _ h (λ _ h'. Owns base h' []) _
          (free_at-Owns base internal h [] w (
            Owns-same base h (block_of internal) (block_of internal ++ [])
              (λ c. omega (arith, count-append)) o))
          λ u h' o'. o'
    array_given-Good internal max (at b offset) h w begins o = (
      (
        record {
          placed = tt;
          pool_set = refl;
          pool = tt;
          array = begins;
          buffer = tt;
          internal = w;
        },
        o,
      ),
      refl,
    )

    internal_given-Good :
        (kv_size max : ℕ) (internal : Pointer) (h : Heap)
        → AtBegin internal
        → Owns base h (block_of internal ++ [])
        → Returns (internal_given grants kv_size max internal h) GoodStart
    internal_given-Good kv_size max null h begins o = o
    internal_given-Good kv_size max (at b offset) h begins o =
        Returns-bind (alloc grants (kv_size * max)) _ h _ _
          (alloc-Owns grants (kv_size * max) base h (b ∷ []) o)
          λ kvs h' (begins', free_before, o').
            array_given-Good (at b offset) max kvs h' begins begins' o'

    pub init-Good :
        (internal_size kv_size max_pairs : ℕ) (h : Heap)
        → Owns base h []
        → Returns (llquery_init_ex grants internal_size kv_size max_pairs h) GoodStart
    unfolding llquery_init_ex
    init-Good internal_size kv_size max_pairs h o =
        Returns-bind (alloc grants internal_size) _ h _ _
          (alloc-Owns grants internal_size base h [] o)
          λ internal h' (begins, free_before, o').
            internal_given-Good kv_size (if max_pairs == 0 then 128 else max_pairs) internal h'
              begins o'

    session-Owns :
        (internal_size kv_size max_pairs : ℕ) (cs : List (Call grants flags)) (h : Heap)
        → Owns base h []
        → Returns
            (session grants flags internal_size kv_size max_pairs cs h)
            (λ _ h'. Owns base h' [])
    unfolding session
    session-Owns internal_size kv_size max_pairs cs h o =
        Returns-bind (llquery_init_ex grants internal_size kv_size max_pairs) _ h GoodStart _
          (init-Good internal_size kv_size max_pairs h o) λ q h' w. used-balanced cs q h' w

bit-equal : (a b : Bool) → bit a ≡ bit b → a ≡ b
bit-equal true true e = refl
bit-equal false false e = refl
bit-equal true false e = absurd (omega arith)
bit-equal false true e = absurd (omega arith)

abbrev base_of : Heap → ℕ → ℕ
base_of h b = bit (h.live b)

balanced-live :
    (r : Run (Unit {0})) (h : Heap)
    → Returns r (λ _ h'. Owns (base_of h) h' [])
    → Returns r (λ _ h'. (b : ℕ) → h'.live b ≡ h.live b)
balanced-live fault h w = absurd w
balanced-live (done u h') h o = λ b. bit-equal (h'.live b) (h.live b) (omega (arith, o.counted b))

-- For every heap whose blocks from `next` on are free, every allocator, which may refuse any of the
-- allocations, all options and sizes, and every sequence of parse, filter, reset and
-- set_allocator calls, the latter with functions on the same heap: the run from
-- `llquery_init_ex` to `llquery_free` does not fault, so no block is freed twice, or by a pointer
-- into it; behind it the blocks that are allocated are those that were before, so none is leaked.
pub session_balanced :
    (grants : ℕ → ℕ → Bool) (flags internal_size kv_size max_pairs : ℕ)
    (cs : List (Call grants flags)) (h : Heap)
    → ((b : ℕ) → h.next ≤ b → h.live b ≡ false)
    → Returns
        (session grants flags internal_size kv_size max_pairs cs h)
        (λ _ h'. (b : ℕ) → h'.live b ≡ h.live b)
session_balanced grants flags internal_size kv_size max_pairs cs h fresh =
    balanced-live (session grants flags internal_size kv_size max_pairs cs h) h (
      session-Owns (base_of h) grants flags internal_size kv_size max_pairs cs h
        (record { counted = λ b. omega arith; fresh = fresh }))
