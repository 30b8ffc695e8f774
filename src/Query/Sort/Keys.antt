-- ===== src/Query/Sort/Keys.antt =====
-- llquery.c: `compare_keys` is a comparison that `llquery_sort` can use.
use mathlib.Core.List.{Perm}
use Prim.Native.Nat.{compare, Ordering}
use lhttp_parser.Prelude.{
  ℕ, ◌<◌, All, length, ◌≡◌, refl, ap, ◌∙◌, Bool, true, false, List, [], ◌∷◌, none, arith, ltb, ◌==◌,
  if◌then◌else◌, Bytes,
}
use lhttp_parser.Query.Data.{Kv}
use lhttp_parser.Query.Sort.Ordered.{IsComparator, Ordered, sort_by-Ordered}
use lhttp_parser.Query.Sort.Agreement.{sort_by-agree}
use lhttp_parser.Query.Sort.{
  int_limit, int_difference, memcmp, compare_keys, is_positive, keys_after, llquery_sort,
}

-- `s` comes after `t` in the dictionary.
unfoldable pub dictionary_after : Bytes → Bytes → Bool
dictionary_after [] t = false
dictionary_after (c ∷ s) [] = true
dictionary_after (c ∷ s) (d ∷ t) =
    let rest = dictionary_after s t in if c == d then rest else ltb d c

-- `compare_keys` with lengths of any size.
compare_texts : Bytes → Bytes → Ordering
compare_texts s t = elim (memcmp s t (if ltb (length s) (length t) then length s else length t)) [
  | Ordering.eq ↦ compare (length s) (length t)
  | Ordering.lt ↦ Ordering.lt
  | Ordering.gt ↦ Ordering.gt
]

compare_texts-dictionary : (s t : Bytes) → is_positive (compare_texts s t) ≡ dictionary_after s t
unfolding compare_texts memcmp dictionary_after
compare_texts-dictionary [] [] = refl
compare_texts-dictionary [] (d ∷ t) = ground arith
compare_texts-dictionary (c ∷ s) [] = ground arith
compare_texts-dictionary (c ∷ s) (d ∷ t) = ground (arith, compare_texts-dictionary s t)

dictionary_asym : (s t : Bytes) → dictionary_after s t ≡ true → dictionary_after t s ≡ false
unfolding dictionary_after
dictionary_asym [] t h = ground arith
dictionary_asym (c ∷ s) [] h = refl
dictionary_asym (c ∷ s) (d ∷ t) h = ground (arith, dictionary_asym s t)

dictionary_trans :
    (s t u : Bytes)
    → dictionary_after s t ≡ false
    → dictionary_after t u ≡ false
    → dictionary_after s u ≡ false
unfolding dictionary_after
dictionary_trans [] t u h k = refl
dictionary_trans (c ∷ s) [] u h k = ground arith
dictionary_trans (c ∷ s) (d ∷ t) [] h k = ground arith
dictionary_trans (c ∷ s) (d ∷ t) (e ∷ u) h k = ground (arith, dictionary_trans s t u)

int_difference-compare :
    (m n : ℕ) → m < int_limit → n < int_limit → int_difference m n ≡ compare m n
int_difference-compare m n short short' = ground arith

-- A comparison goes on to the lengths where the bytes are the same.
by_length :
    {x y : Ordering} (o : Ordering)
    → x ≡ y
    → (elim o [ Ordering.eq ↦ x | Ordering.lt ↦ Ordering.lt | Ordering.gt ↦ Ordering.gt ])
      ≡ (elim o [ Ordering.eq ↦ y | Ordering.lt ↦ Ordering.lt | Ordering.gt ↦ Ordering.gt ])
by_length Ordering.eq e = e
by_length Ordering.lt e = refl
by_length Ordering.gt e = refl

-- The key of a pair is shorter than 2^31 bytes.
abbrev pub IsShort : Kv → Type 0
IsShort a = length a.key < int_limit

keys_after-dictionary :
    (a b : Kv) → IsShort a → IsShort b → keys_after a b ≡ dictionary_after a.key b.key
unfolding compare_keys compare_texts
keys_after-dictionary a b short short' =
    let min_len = if ltb (length a.key) (length b.key) then length a.key else length b.key in
    ap is_positive (
      by_length (memcmp a.key b.key min_len)
        (int_difference-compare (length a.key) (length b.key) short short'))
    ∙ compare_texts-dictionary a.key b.key

-- The pair `a` has a key behind the key of `b` in the dictionary.
abbrev pub key_after : Kv → Kv → Bool
key_after a b = dictionary_after a.key b.key

-- Of two pairs at most one comes after the other, and not coming after is transitive.
pub key_after-IsComparator : IsComparator key_after
key_after-IsComparator = record {
  asym = λ a b. dictionary_asym a.key b.key;
  trans = λ a b d. dictionary_trans a.key b.key d.key;
}

-- For every list of pairs whose keys are shorter than 2^31 bytes: without a comparison function,
-- `llquery_sort` leaves the pairs in the order in which a dictionary has their keys, and it leaves
-- the same pairs as often.
pub llquery_sort-Ordered :
    (kvs : List Kv)
    → All IsShort kvs
    → Ordered key_after (llquery_sort none kvs) × Perm (llquery_sort none kvs) kvs
unfolding llquery_sort
llquery_sort-Ordered kvs short =
    rw (sort_by-agree IsShort keys_after key_after keys_after-dictionary kvs short)
      (sort_by-Ordered key_after key_after-IsComparator kvs)
