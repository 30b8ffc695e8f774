-- ===== src/Query/Sort.antt =====
-- llquery.c: `llquery_sort` and `compare_keys`. The array of pairs is the list of the first
-- `kv_count` of them.
pub mod Ordered
pub mod Agreement
pub mod Keys
use Prim.Native.Nat.{compare, Ordering}
use lhttp_parser.Prelude.{
  ℕ, zero, suc, ◌+◌, ◌-◌, ◌*◌, ◌%◌, Bool, true, false, List, [], ◌∷◌, Option, none, some, ◌==◌, ltb,
  if◌then◌else◌, Bytes, length,
}
use lhttp_parser.Query.Data.{Kv}

-- The sign of `memcmp(a, b, n)`, for texts of at least `n` bytes.
unfoldable pub memcmp : Bytes → Bytes → ℕ → Ordering
memcmp a b zero = Ordering.eq
memcmp (c ∷ a) (d ∷ b) (suc n) = if c == d then memcmp a b n else compare c d
memcmp [] b (suc n) = Ordering.eq
memcmp (c ∷ a) [] (suc n) = Ordering.eq

abbrev pub int_limit : ℕ
int_limit = 2147483648

-- The sign of `(int)a_len - (int)b_len`, in 32 bits that wrap around.
abbrev pub int_difference : (a_len b_len : ℕ) → Ordering
int_difference a_len b_len =
    let d = (a_len + (2 * int_limit - b_len % (2 * int_limit))) % (2 * int_limit) in
    if d == 0 then Ordering.eq else if ltb d int_limit then Ordering.gt else Ordering.lt

-- The sign of `compare_keys`.
unfoldable pub compare_keys : Bytes → Bytes → Ordering
compare_keys a b =
    let min_len = if ltb (length a) (length b) then length a else length b in
    elim (memcmp a b min_len) [
      | Ordering.eq ↦ int_difference (length a) (length b)
      | Ordering.lt ↦ Ordering.lt
      | Ordering.gt ↦ Ordering.gt
    ]

-- `cmp > 0`
abbrev pub is_positive : Ordering → Bool
is_positive Ordering.gt = true
is_positive _ = false

-- The test of the sort without a comparison function.
abbrev pub keys_after : Kv → Kv → Bool
keys_after a b = is_positive (compare_keys a.key b.key)

-- `after a b`: the comparison of `a` with `b` is positive.
module _ (after : Kv → Kv → Bool) where
  -- The inner loop with `count` steps to go, on the array from position `j` on.
  unfoldable pub bubble : ℕ → List Kv → List Kv
  bubble zero kvs = kvs
  bubble (suc count) [] = []
  bubble (suc count) (a ∷ []) = a ∷ []
  bubble (suc count) (a ∷ b ∷ kvs) =
      let swapped = bubble count (a ∷ kvs) in
      let kept = bubble count (b ∷ kvs) in if after a b then b ∷ swapped else a ∷ kept

  -- The outer loop; the inner one takes `kv_count - i - 1` steps, which is `count` here.
  unfoldable pub bubble_rounds : ℕ → List Kv → List Kv
  bubble_rounds zero kvs = kvs
  bubble_rounds (suc count) kvs = bubble_rounds count (bubble (suc count) kvs)

  unfoldable pub sort_by : List Kv → List Kv
  sort_by kvs = if ltb (length kvs) 2 then kvs else bubble_rounds (length kvs - 1) kvs

-- `llquery_sort`, which returns `LQE_OK` always; `none` is a null comparison function.
unfoldable pub llquery_sort : Option (Kv → Kv → Bool) → List Kv → List Kv
unfolding sort_by
llquery_sort none kvs = sort_by keys_after kvs
llquery_sort (some after) kvs = sort_by after kvs
