-- ===== src/Query/Memory/Clone/Pairs.antt =====
-- llquery.c: the pairs that `llquery_clone` copies, and the blocks of their strings.
use lhttp_parser.Prelude.{
  ℕ, zero, suc, ◌+◌, ◌≡◌, refl, ap, Bool, false, List, [], ◌∷◌, ◌++◌, arith, All, length,
}
use lhttp_parser.Query.Memory.Clone.{value_copied, key_copied, copy_pairs}
use lhttp_parser.Query.Memory.Owned.{
  count, count-append, Owns, Owns-same, Returns, Returns-bind, block_of, AtBegin, alloc-Owns,
}
use lhttp_parser.Query.Memory.Session.{nulls}
use lhttp_parser.Query.Memory.Structure.Release.{slot_blocks}
use lhttp_parser.Query.Memory.Structure.{Slot, initialised}
use lhttp_parser.Query.Memory.{Pointer, null, at, Heap, M, alloc}

-- The strings of copied pairs are blocks of their own.
abbrev pub copied_blocks : List Slot → List ℕ
copied_blocks ss = slot_blocks (initialised null null 0) ss

abbrev pub AtBegins : Slot → Type 0
AtBegins s = AtBegin s.key × AtBegin s.value

nulls-AtBegins : (n : ℕ) → All AtBegins (nulls n)
nulls-AtBegins zero = tt
nulls-AtBegins (suc n) = ((tt, tt), nulls-AtBegins n)

copied_blocks-nulls : (n : ℕ) → copied_blocks (nulls n) ≡ []
copied_blocks-nulls zero = refl
copied_blocks-nulls (suc n) = copied_blocks-nulls n

count-copied_blocks-nulls : (b n : ℕ) → count b (copied_blocks (nulls n)) ≡ 0
count-copied_blocks-nulls b n = ap (count b) (copied_blocks-nulls n)

-- The two strings of a pair move in front of the strings of the later pairs.
count_pair :
    (b : ℕ) (key later bs : List ℕ) (c : ℕ)
    → count c (later ++ (b ∷ (key ++ bs))) ≡ count c ((key ++ (b ∷ later)) ++ bs)
count_pair b key later bs c = omega (
  arith,
  count-append c later (b ∷ (key ++ bs)),
  count-append c key bs,
  count-append c (key ++ (b ∷ later)) bs,
  count-append c key (b ∷ later),
)

length-nulls : (n : ℕ) → length (nulls n) ≡ n
length-nulls zero = refl
length-nulls (suc n) = ap suc (length-nulls n)

module _ (base : ℕ → ℕ) (grants : ℕ → ℕ → Bool) where
  abbrev pub GoodCopies : List ℕ → ℕ → Bool × List Slot → Heap → Type 0
  GoodCopies bs n (all_copied, ss) h =
      All AtBegins ss × (length ss ≡ n) × Owns base h (copied_blocks ss ++ bs)

  nulls-GoodCopies :
      (n : ℕ) (h : Heap) (bs : List ℕ) → Owns base h bs → GoodCopies bs n (false, nulls n) h
  nulls-GoodCopies n h bs o = (nulls-AtBegins n, length-nulls n, rw (copied_blocks-nulls n) o)

  value_copied-GoodCopies :
      (n : ℕ) (rest : M (Bool × List Slot)) (k v : Pointer) (h : Heap) (bs : List ℕ)
      → AtBegin k
      → AtBegin v
      → Owns base h (block_of v ++ (block_of k ++ bs))
      → ((h : Heap) (bs : List ℕ) → Owns base h bs → Returns (rest h) (GoodCopies bs n))
      → Returns (value_copied grants k n rest v h) (GoodCopies bs (suc n))
  value_copied-GoodCopies n rest k null h bs k_begins v_begins o go = (
    ((k_begins, tt), nulls-AtBegins n),
    ap suc (length-nulls n),
    Owns-same base h (block_of k ++ bs) ((block_of k ++ copied_blocks (nulls n)) ++ bs)
        (λ b. omega (
          arith,
          count-append b (block_of k ++ copied_blocks (nulls n)) bs,
          count-append b (block_of k) (copied_blocks (nulls n)),
          count-append b (block_of k) bs,
          count-copied_blocks-nulls b n,
        ))
        o,
  )
  value_copied-GoodCopies n rest k (at b offset) h bs k_begins v_begins o go =
      Returns-bind rest _ h (GoodCopies (b ∷ (block_of k ++ bs)) n) _
        (go h (b ∷ (block_of k ++ bs)) o)
        λ (all_copied, ss) h' (begins, len, o'). (
          ((k_begins, v_begins), begins),
          ap suc len,
          Owns-same base h' (copied_blocks ss ++ (b ∷ (block_of k ++ bs)))
              ((block_of k ++ (b ∷ copied_blocks ss)) ++ bs)
              (λ c. count_pair b (block_of k) (copied_blocks ss) bs c) o',
        )

  key_copied-GoodCopies :
      (value_len n : ℕ) (rest : M (Bool × List Slot)) (k : Pointer) (h : Heap) (bs : List ℕ)
      → AtBegin k
      → Owns base h (block_of k ++ bs)
      → ((h : Heap) (bs : List ℕ) → Owns base h bs → Returns (rest h) (GoodCopies bs n))
      → Returns (key_copied grants value_len n rest k h) (GoodCopies bs (suc n))
  key_copied-GoodCopies value_len n rest null h bs k_begins o go = nulls-GoodCopies (suc n) h bs o
  key_copied-GoodCopies value_len n rest (at b offset) h bs k_begins o go =
      Returns-bind (alloc grants (value_len + 1)) _ h _ _
        (alloc-Owns grants (value_len + 1) base h (b ∷ bs) o)
        λ v h' (v_begins, v_free, o').
          value_copied-GoodCopies n rest (at b offset) v h' bs k_begins v_begins o' go

  pub copy_pairs-GoodCopies :
      (lens : List (ℕ × ℕ)) (h : Heap) (bs : List ℕ)
      → Owns base h bs
      → Returns (copy_pairs grants lens h) (GoodCopies bs (length lens))
  unfolding copy_pairs
  copy_pairs-GoodCopies [] h bs o = (tt, refl, o)
  copy_pairs-GoodCopies ((key_len, value_len) ∷ lens) h bs o =
      Returns-bind (alloc grants (key_len + 1)) _ h _ _
        (alloc-Owns grants (key_len + 1) base h bs o)
        λ k h' (k_begins, k_free, o').
          key_copied-GoodCopies value_len (length lens) (copy_pairs grants lens) k h' bs k_begins o'
            (λ h'' cs o''. copy_pairs-GoodCopies lens h'' cs o'')
