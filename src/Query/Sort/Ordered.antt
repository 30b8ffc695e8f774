-- ===== src/Query/Sort/Ordered.antt =====
-- llquery.c: what `llquery_sort` leaves is ordered, and the same pairs as before.
use mathlib.Core.List.{Perm}
use mathlib.Core.List.Perm
use lhttp_parser.Prelude.{
  ℕ, zero, suc, ◌≡◌, Bool, true, false, List, [], ◌∷◌, inl, inr, arith, length, All, Bool-cases,
}
use lhttp_parser.Query.Data.{Kv}
use lhttp_parser.Query.Sort.{bubble, bubble_rounds, sort_by}

-- What a comparison function owes the sort: of two pairs at most one comes after the other, and
-- not coming after is transitive.
pub record IsComparator (after : Kv → Kv → Bool) : Type 0 where
  pub asym : (a b : Kv) → after a b ≡ true → after b a ≡ false
  pub trans : (a b c : Kv) → after a b ≡ false → after b c ≡ false → after a c ≡ false

-- No pair comes after one that stands behind it.
abbrev pub Ordered : (Kv → Kv → Bool) → List Kv → Type 0
Ordered after [] = Unit
Ordered after (a ∷ kvs) = All (λ b. after a b ≡ false) kvs × Ordered after kvs

-- The pairs from position `n` on satisfy `P`.
abbrev AllFrom : (Kv → Type 0) → ℕ → List Kv → Type 0
AllFrom P zero kvs = All P kvs
AllFrom P (suc n) [] = Unit
AllFrom P (suc n) (a ∷ kvs) = AllFrom P n kvs

module _ (after : Kv → Kv → Bool) where
  -- The pairs from position `n` on are in place: ordered, and none before comes after them.
  abbrev Settled : ℕ → List Kv → Type 0
  Settled zero kvs = Ordered after kvs
  Settled (suc n) [] = Unit
  Settled (suc n) (a ∷ kvs) = AllFrom (λ b. after a b ≡ false) n kvs × Settled n kvs

  -- Behind its last position nothing is left to settle.
  AllFrom-length : (P : Kv → Type 0) (kvs : List Kv) → AllFrom P (length kvs) kvs
  AllFrom-length P [] = tt
  AllFrom-length P (a ∷ kvs) = AllFrom-length P kvs

  Settled-length : (kvs : List Kv) → Settled (length kvs) kvs
  Settled-length [] = tt
  Settled-length (a ∷ kvs) = (AllFrom-length _ kvs, Settled-length kvs)

  AllFrom-nil : (P : Kv → Type 0) (n : ℕ) → AllFrom P n []
  AllFrom-nil P zero = tt
  AllFrom-nil P (suc n) = tt

  Settled-nil : (n : ℕ) → Settled n []
  Settled-nil zero = tt
  Settled-nil (suc n) = tt

  -- A pass leaves a pair at its last position that satisfies what the first does, where that goes
  -- on to the pairs that do not come before.
  bubble-AllFrom :
      (P : Kv → Type 0)
      → ((x y : Kv) → P x → after x y ≡ false → P y)
      → (n : ℕ) (a : Kv) (kvs : List Kv) → P a
      → AllFrom P n kvs
      → AllFrom P n (bubble after n (a ∷ kvs))
  unfolding bubble
  bubble-AllFrom P up zero a kvs pa h = (pa, h)
  bubble-AllFrom P up (suc n) a [] pa h = AllFrom-nil P n
  bubble-AllFrom P up (suc n) a (b ∷ kvs) pa h = elim (Bool-cases (after a b)) [
    | inl swap ↦ rw swap (bubble-AllFrom P up n a kvs pa h)
    | inr keep ↦ rw keep (bubble-AllFrom P up n b kvs (up a b pa keep) h)
  ]

  bubble-perm : (n : ℕ) (kvs : List Kv) → Perm (bubble after n kvs) kvs
  unfolding bubble
  bubble-perm zero kvs = Perm.rfl
  bubble-perm (suc n) [] = Perm.rfl
  bubble-perm (suc n) (a ∷ []) = Perm.rfl
  bubble-perm (suc n) (a ∷ b ∷ kvs) = elim (Bool-cases (after a b)) [
    | inl swap ↦ rw swap (Perm.trans (Perm.cons b (bubble-perm n (a ∷ kvs))) (Perm.swap a b kvs))
    | inr keep ↦ rw keep (Perm.cons a (bubble-perm n (b ∷ kvs)))
  ]

  bubble_rounds-perm : (n : ℕ) (kvs : List Kv) → Perm (bubble_rounds after n kvs) kvs
  unfolding bubble_rounds
  bubble_rounds-perm zero kvs = Perm.rfl
  bubble_rounds-perm (suc n) kvs =
      Perm.trans (bubble_rounds-perm n (bubble after (suc n) kvs)) (bubble-perm (suc n) kvs)

module _ (after : Kv → Kv → Bool) (c : IsComparator after) where
  -- A pass settles one position more.
  bubble-Settled :
      (n : ℕ) (kvs : List Kv) → Settled after (suc n) kvs → Settled after n (bubble after n kvs)
  unfolding bubble
  bubble-Settled zero [] h = tt
  bubble-Settled zero (a ∷ kvs) h = h
  bubble-Settled (suc n) [] h = tt
  bubble-Settled (suc n) (a ∷ []) h = (AllFrom-nil after _ n, Settled-nil after n)
  bubble-Settled (suc n) (a ∷ b ∷ kvs) h = elim (Bool-cases (after a b)) [
    | inl swap ↦ rw swap (
      bubble-AllFrom after (λ y. after b y ≡ false) (c.trans b) n a kvs (c.asym a b swap) h.1.0,
      bubble-Settled n (a ∷ kvs) (h.0, h.1.1),
    )
    | inr keep ↦ rw keep (
      bubble-AllFrom after (λ y. after a y ≡ false) (c.trans a) n b kvs keep h.0,
      bubble-Settled n (b ∷ kvs) h.1,
    )
  ]

  bubble_rounds-Ordered :
      (n : ℕ) (kvs : List Kv)
      → Settled after (suc n) kvs
      → Ordered after (bubble_rounds after n kvs)
  unfolding bubble_rounds
  bubble_rounds-Ordered zero [] h = tt
  bubble_rounds-Ordered zero (a ∷ kvs) h = h
  bubble_rounds-Ordered (suc n) kvs h =
      bubble_rounds-Ordered n (bubble after (suc n) kvs) (bubble-Settled (suc n) kvs h)

sort_by-rounds :
    (after : Kv → Kv → Bool) (a b : Kv) (kvs : List Kv)
    → sort_by after (a ∷ b ∷ kvs) ≡ bubble_rounds after (suc (length kvs)) (a ∷ b ∷ kvs)
unfolding sort_by
sort_by-rounds after a b kvs = ground arith

-- For every comparison function of which at most one of two pairs comes after the other and not
-- coming after is transitive, and every list of pairs: the sorted list is ordered and holds the
-- same pairs as often.
pub sort_by-Ordered :
    (after : Kv → Kv → Bool)
    → IsComparator after
    → (kvs : List Kv) → Ordered after (sort_by after kvs) × Perm (sort_by after kvs) kvs
unfolding sort_by
sort_by-Ordered after c [] = (tt, Perm.rfl)
sort_by-Ordered after c (a ∷ []) = ((tt, tt), Perm.rfl)
sort_by-Ordered after c (a ∷ b ∷ kvs) = rw (sort_by-rounds after a b kvs) (
  bubble_rounds-Ordered after c (suc (length kvs)) (a ∷ b ∷ kvs)
      (Settled-length after (a ∷ b ∷ kvs)),
  bubble_rounds-perm after (suc (length kvs)) (a ∷ b ∷ kvs),
)
