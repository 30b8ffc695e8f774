-- ===== src/Query/Sort/Agreement.antt =====
-- llquery.c: `llquery_sort` calls its comparison function on the pairs of the structure alone.
use lhttp_parser.Prelude.{
  ℕ, zero, suc, ◌≡◌, refl, ap, ◌∙◌, Bool, List, [], ◌∷◌, inl, inr, All, Bool-cases,
}
use lhttp_parser.Query.Data.{Kv}
use lhttp_parser.Query.Sort.{bubble, bubble_rounds, sort_by}

module _ (P : Kv → Type 0) (f g : Kv → Kv → Bool)
    (agree : (a b : Kv) → P a → P b → f a b ≡ g a b) where
  bubble-All : (n : ℕ) (kvs : List Kv) → All P kvs → All P (bubble f n kvs)
  unfolding bubble
  bubble-All zero kvs w = w
  bubble-All (suc n) [] w = tt
  bubble-All (suc n) (a ∷ []) w = w
  bubble-All (suc n) (a ∷ b ∷ kvs) (x, (y, w)) = elim (Bool-cases (f a b)) [
    | inl swap ↦ rw swap (y, bubble-All n (a ∷ kvs) (x, w))
    | inr keep ↦ rw keep (x, bubble-All n (b ∷ kvs) (y, w))
  ]

  bubble-agree : (n : ℕ) (kvs : List Kv) → All P kvs → bubble f n kvs ≡ bubble g n kvs
  unfolding bubble
  bubble-agree zero kvs w = refl
  bubble-agree (suc n) [] w = refl
  bubble-agree (suc n) (a ∷ []) w = refl
  bubble-agree (suc n) (a ∷ b ∷ kvs) (x, (y, w)) =
      rw (agree a b x y, bubble-agree n (a ∷ kvs) (x, w), bubble-agree n (b ∷ kvs) (y, w)) refl

  bubble_rounds-agree :
      (n : ℕ) (kvs : List Kv) → All P kvs → bubble_rounds f n kvs ≡ bubble_rounds g n kvs
  unfolding bubble_rounds
  bubble_rounds-agree zero kvs w = refl
  bubble_rounds-agree (suc n) kvs w =
      bubble_rounds-agree n (bubble f (suc n) kvs) (bubble-All (suc n) kvs w)
      ∙ ap (bubble_rounds g n) (bubble-agree (suc n) kvs w)

  -- Comparison functions that agree on some pairs sort a list of these alike.
  pub sort_by-agree : (kvs : List Kv) → All P kvs → sort_by f kvs ≡ sort_by g kvs
  unfolding sort_by
  sort_by-agree kvs w = rw (bubble_rounds-agree _ kvs w) refl
