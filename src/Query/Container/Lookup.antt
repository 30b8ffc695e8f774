-- ===== src/Query/Container/Lookup.antt =====
-- llquery.c: the lookups find the pairs whose key is the given text.
use mathlib.Core.Path.{subst}
use lhttp_parser.Prelude.{
  ℕ, zero, suc, ◌≡◌, ◌<◌, refl, Bool, true, false, List, [], ◌∷◌, Option, none, some, arith, ◌==◌,
  ◌&&◌, if◌then◌else◌, Bytes, length, take, ◌↔◌, ◌⊎◌, inl, inr, Bool-cases,
}
use lhttp_parser.Query.Codec.Laws.{text_of-length}
use lhttp_parser.Query.Container.{
  same_bytes, has_this_key, find_value, find_values, find_key, llquery_get_value,
  llquery_get_all_values, llquery_has_key,
}
use lhttp_parser.Query.Data.{Kv}

-- Equality of texts.
abbrev pub same_text : Bytes → Bytes → Bool
same_text [] [] = true
same_text (c ∷ s) (d ∷ t) = c == d && same_text s t
same_text _ _ = false

pub same_text_refl : (s : Bytes) → same_text s s ≡ true
same_text_refl [] = refl
same_text_refl (c ∷ s) = ground (arith, same_text_refl s)

pub same_text-eq : (s t : Bytes) → same_text s t ≡ true → s ≡ t
same_text-eq [] [] h = refl
same_text-eq [] (d ∷ t) h = cc
same_text-eq (c ∷ s) [] h = cc
same_text-eq (c ∷ s) (d ∷ t) h = ground (arith, same_text-eq s t)

-- The comparison of lengths and bytes is the equality of texts.
has_this_key-same_text : (key : Bytes) (kv : Kv) → has_this_key key kv ≡ same_text kv.key key
unfolding same_bytes
has_this_key-same_text key kv = go kv.key key
  where
    go : (s t : Bytes) → (length s == length t && same_bytes s t (length t)) ≡ same_text s t
    go [] [] = refl
    go [] (d ∷ t) = ground arith
    go (c ∷ s) [] = ground arith
    go (c ∷ s) (d ∷ t) = ground (arith, go s t)

-- The values of all pairs with this key, in order.
abbrev pub values_of : Bytes → List Kv → List Bytes
values_of key [] = []
values_of key (kv ∷ kvs) =
    let rest = values_of key kvs in if same_text kv.key key then kv.value ∷ rest else rest

abbrev pub first_of : List Bytes → Option Bytes
first_of [] = none
first_of (v ∷ vs) = some v

abbrev pub is_some : Option Bytes → Bool
is_some none = false
is_some (some v) = true

module _ (key : Bytes) where
  find_value-values_of : (kvs : List Kv) → find_value key kvs ≡ first_of (values_of key kvs)
  unfolding find_value
  find_value-values_of [] = refl
  find_value-values_of (kv ∷ kvs) =
      ground (arith, has_this_key-same_text key kv, find_value-values_of kvs)

  find_values-values_of :
      (room : ℕ) (kvs : List Kv) → find_values key room kvs ≡ take room (values_of key kvs)
  unfolding find_values
  find_values-values_of zero [] = refl
  find_values-values_of (suc room) [] = refl
  find_values-values_of zero (kv ∷ kvs) = refl
  find_values-values_of (suc room) (kv ∷ kvs) = ground (
    arith,
    has_this_key-same_text key kv,
    find_values-values_of room kvs,
    find_values-values_of (suc room) kvs,
  )

  find_key-find_value : (kvs : List Kv) → find_key key kvs ≡ is_some (find_value key kvs)
  unfolding find_key find_value
  find_key-find_value [] = refl
  find_key-find_value (kv ∷ kvs) = ground (arith, find_key-find_value kvs)

-- For every list of pairs, key of at least one byte and number of values: `llquery_get_all_values`
-- stores the values of the first pairs with this key, in order and as many as there is room for,
-- `llquery_get_value` gives the first of all of them, and `llquery_has_key` says whether there is
-- one.
pub lookups-values_of :
    (kvs : List Kv) (key : Bytes) (max_values : ℕ)
    → 0 < length key
    → (llquery_get_all_values kvs key (length key) max_values ≡ take max_values (values_of key kvs))
      × (llquery_get_value kvs key (length key) ≡ first_of (values_of key kvs))
      × (llquery_has_key kvs key (length key) ≡ is_some (first_of (values_of key kvs)))
unfolding llquery_get_all_values llquery_get_value llquery_has_key
lookups-values_of kvs key max_values pos = rw (text_of-length key pos) (
  ground (arith, find_values-values_of key max_values kvs),
  find_value-values_of key kvs,
  ground (arith, find_key-find_value key kvs, find_value-values_of key kvs),
)

-- Some pair has this key.
abbrev pub HasKey : Bytes → List Kv → Type 0
HasKey key [] = ⊥
HasKey key (kv ∷ kvs) = (kv.key ≡ key) ⊎ HasKey key kvs

find_key_iff : (key : Bytes) (kvs : List Kv) → (find_key key kvs ≡ true) ↔ HasKey key kvs
unfolding find_key
find_key_iff key [] = (λ h. cc, λ h. absurd h)
find_key_iff key (kv ∷ kvs) = elim (Bool-cases (same_text kv.key key)) [
  | inl same ↦
      rw (has_this_key-same_text key kv, same) (λ _. inl (same_text-eq kv.key key same), λ _. refl)
  | inr other ↦
      rw (has_this_key-same_text key kv, other)
        (
          λ h. inr ((find_key_iff key kvs).0 h),
          λ h. elim h [
            | inl e ↦ cc (other, subst (λ t. same_text kv.key t ≡ true) e (same_text_refl kv.key))
            | inr later ↦ (find_key_iff key kvs).1 later
          ],
        )
]

-- For every list of pairs and key of at least one byte: `llquery_has_key` holds exactly if some pair
-- has this key.
pub llquery_has_key_iff :
    (kvs : List Kv) (key : Bytes)
    → 0 < length key
    → (llquery_has_key kvs key (length key) ≡ true) ↔ HasKey key kvs
unfolding llquery_has_key
llquery_has_key_iff kvs key pos = rw (text_of-length key pos) (find_key_iff key kvs)
