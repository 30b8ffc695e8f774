-- ===== src/Query/Parse/Reference.antt =====
-- llquery.c: what the main loop of `llquery_parse_ex` finds: the segments between the `&`s, each
-- cut at its first `=`.
use lhttp_parser.Prelude.{
  ℕ, ◌+◌, ◌≤◌, ◌<◌, ◌≡◌, refl, sym, ◌∙◌, Bool, true, false, not, ◌&&◌, List, [], ◌∷◌, Option, none,
  some, inl, inr, arith, ◌==◌, if◌then◌else◌, Bytes, length, Bool-cases,
}
use lhttp_parser.Query.Chars.{is_equal}
use lhttp_parser.Query.Chars.Hex.{is_separator_lem, is_equal_lem}
use lhttp_parser.Query.Data.{keep_empty, has_option, Kv}
use lhttp_parser.Query.Parse.{
  skip_separators, span_until, ends_key, span_value, drop_separator, is_nil, next_pair, stored_pair,
}

-- The text cut at every `&`.
abbrev pub prepend : ℕ → List Bytes → List Bytes
prepend c [] = (c ∷ []) ∷ []
prepend c (s ∷ ss) = (c ∷ s) ∷ ss

abbrev pub segments : Bytes → List Bytes
segments [] = [] ∷ []
segments (c ∷ s) = if c == b'&' then [] ∷ segments s else prepend c (segments s)

-- A segment cut at its first `=`.
abbrev on_key : ℕ → Bytes × Bytes → Bytes × Bytes
on_key c (key, value) = (c ∷ key, value)

abbrev pub key_value : Bytes → Bytes × Bytes
key_value [] = ([], [])
key_value (c ∷ s) = if c == b'=' then ([], s) else on_key c (key_value s)

-- The pair that a segment stands for: none without a key, and under the options none without a
-- value.
abbrev pub pair_of : ℕ → Bool → Bytes × Bytes → Option Kv
pair_of flags encoded ([], value) = none
pair_of flags encoded (c ∷ key, value) =
    let kv = stored_pair flags encoded (c ∷ key) value in
    if not (has_option flags keep_empty) && is_nil kv.value then none else some kv

abbrev pub with_pair : Option Kv → List Kv → List Kv
with_pair none kvs = kvs
with_pair (some kv) kvs = kv ∷ kvs

abbrev pub pairs_of_segments : ℕ → Bool → List Bytes → List Kv
pairs_of_segments flags encoded [] = []
pairs_of_segments flags encoded (s ∷ ss) =
    with_pair (pair_of flags encoded (key_value s)) (pairs_of_segments flags encoded ss)

-- All pairs of a text.
abbrev pub pairs_of : ℕ → Bool → Bytes → List Kv
pairs_of flags encoded s = pairs_of_segments flags encoded (segments s)

-- The first segment and what follows its `&`.
first_segment : Bytes → Bytes × Bytes
first_segment [] = ([], [])
first_segment (c ∷ s) = if c == b'&' then ([], s) else on_key c (first_segment s)

module _ (flags : ℕ) (encoded : Bool) where
  skip_separators-pairs_of :
      (s : Bytes) → pairs_of flags encoded (skip_separators s) ≡ pairs_of flags encoded s
  unfolding skip_separators
  skip_separators-pairs_of [] = refl
  skip_separators-pairs_of (c ∷ s) = ground (arith, is_separator_lem c, skip_separators-pairs_of s)

-- The segments behind the first.
rest_segments : Bytes → List Bytes
rest_segments [] = []
rest_segments (c ∷ s) = if c == b'&' then segments s else rest_segments s

segments-split : (s : Bytes) → segments s ≡ (first_segment s).0 ∷ rest_segments s
unfolding first_segment rest_segments
segments-split [] = refl
segments-split (c ∷ s) = elim (Bool-cases (c == b'&')) [
  | inl sep ↦ rw sep
  | inr other ↦ rw (other, segments-split s)
]

-- The value behind `=` is the rest of the segment.
span_until-first_segment :
    (s : Bytes)
    → ((span_until (λ b. b == b'&') s).0 ≡ (first_segment s).0)
      × (drop_separator (span_until (λ b. b == b'&') s).1 ≡ (first_segment s).1)
unfolding span_until first_segment
span_until-first_segment [] = (refl, refl)
span_until-first_segment (c ∷ s) = ground (arith, is_separator_lem c, span_until-first_segment s)

-- One pair as the loop reads it, behind the separators.
read_pair : Bytes → Bytes × Bytes × Bytes
read_pair t =
    let (key, after_key) = span_until ends_key t in
    let (value, after_value) = span_value after_key in (key, value, drop_separator after_value)

read_pair_lem :
    (t : Bytes)
    → ((read_pair t).0 ≡ (key_value (first_segment t).0).0)
      × ((read_pair t).1 ≡ (key_value (first_segment t).0).1)
      × ((read_pair t).2 ≡ (first_segment t).1)
unfolding read_pair span_until span_value first_segment
read_pair_lem [] = (refl, refl, refl)
read_pair_lem (c ∷ s) =
    ground (arith, is_separator_lem c, is_equal_lem c, span_until-first_segment s, read_pair_lem s)

module _ (flags : ℕ) (encoded : Bool) where
  rest_segments-pairs :
      (s : Bytes)
      → pairs_of_segments flags encoded (rest_segments s)
        ≡ pairs_of flags encoded (first_segment s).1
  unfolding rest_segments first_segment
  rest_segments-pairs [] = refl
  rest_segments-pairs (c ∷ s) = ground (arith, rest_segments-pairs s)

  -- The pairs of a text are the pair of its first segment and those of the rest.
  pairs_of-first_segment :
      (s : Bytes)
      → pairs_of flags encoded s
        ≡ with_pair
            (pair_of flags encoded (key_value (first_segment s).0))
            (pairs_of flags encoded (first_segment s).1)
  pairs_of-first_segment s = rw (segments-split s) (rw (rest_segments-pairs s))

  -- The loop reads off the first pair of the text, and leaves the text with the other pairs.
  pub next_pair-pairs_of :
      (s : Bytes)
      → pairs_of flags encoded s
        ≡ with_pair
            (pair_of flags encoded ((next_pair s).0, (next_pair s).1))
            (pairs_of flags encoded (next_pair s).2)
  unfolding next_pair read_pair
  next_pair-pairs_of s =
      let t = skip_separators s in
      let (key, value, after) = read_pair_lem t in
      sym (skip_separators-pairs_of flags encoded s) ∙ pairs_of-first_segment t ∙ λ i.
      with_pair (pair_of flags encoded (sym key i, sym value i))
        (pairs_of flags encoded (sym after i))

-- What a pair takes from the text: its key, its value, and an `&` if any text is left.
span_until-length :
    (stop : ℕ → Bool) (s : Bytes)
    → length (span_until stop s).0 + length (span_until stop s).1 ≡ length s
unfolding span_until
span_until-length stop [] = refl
span_until-length stop (c ∷ s) = ground (arith, span_until-length stop s)

-- 1 where text is left.
abbrev pub left_over : Bytes → ℕ
left_over s = if is_nil s then 0 else 1

-- A span up to the `&`s leaves nothing, or an `&` in front.
abbrev StopsAt : (ℕ → Bool) → Bytes → Type 0
StopsAt stop [] = Unit
StopsAt stop (c ∷ s) = stop c ≡ true

span_until-stops : (stop : ℕ → Bool) (s : Bytes) → StopsAt stop (span_until stop s).1
unfolding span_until
span_until-stops stop [] = tt
span_until-stops stop (c ∷ s) = ground (arith, span_until-stops stop s)

left_over-le : (s : Bytes) → left_over s ≤ 1
left_over-le s = ground arith

drop_separator-length :
    (s : Bytes)
    → StopsAt (λ b. b == b'&') s
    → length (drop_separator s) + left_over (drop_separator s) ≤ length s
drop_separator-length [] h = omega arith
drop_separator-length (c ∷ s) h = ground (arith, is_separator_lem c, left_over-le s)

abbrev rest_cost : Bytes × Bytes → ℕ
rest_cost (value, after) =
    length value + length (drop_separator after) + left_over (drop_separator after)

value_length : (s : Bytes) → StopsAt ends_key s → rest_cost (span_value s) ≤ length s
unfolding span_value
value_length [] h = omega arith
value_length (c ∷ s) h = elim (Bool-cases (is_equal c)) [
  | inl equal ↦
      let (value, after) = span_until (λ b. b == b'&') s in
      rw equal (
        omega (
          arith,
          drop_separator-length (span_until (λ b. b == b'&') s).1 (span_until-stops _ s),
          span_until-length (λ b. b == b'&') s,
        ))
  | inr other ↦ rw other (ground (arith, is_separator_lem c, left_over-le s))
]

skip_separators-length : (s : Bytes) → length (skip_separators s) ≤ length s
unfolding skip_separators
skip_separators-length [] = omega arith
skip_separators-length (c ∷ s) = ground (arith, skip_separators-length s)

-- The bytes of a pair fit in the text that was read for it.
pub next_pair-cost :
    (s : Bytes)
    → length (next_pair s).0
        + length (next_pair s).1
        + length (next_pair s).2
        + left_over (next_pair s).2
      ≤ length s
unfolding next_pair
next_pair-cost s =
    let t = skip_separators s in
    omega (
      arith,
      skip_separators-length s,
      span_until-length ends_key t,
      value_length (span_until ends_key t).1 (span_until-stops ends_key t),
    )

length_pos : (s : Bytes) → is_nil s ≡ false → 0 < length s
length_pos [] h = cc
length_pos (c ∷ s) h = omega arith

shorter :
    (after s : Bytes)
    → length after + left_over after ≤ length s
    → 0 < length s
    → length after < length s
shorter [] s h pos = pos
shorter (c ∷ after) s h pos = omega arith

-- A round that finds text shortens it.
pub next_pair-shorter :
    (s : Bytes) → is_nil (skip_separators s) ≡ false → length (next_pair s).2 < length s
next_pair-shorter s h =
    shorter (next_pair s).2 s (omega (arith, next_pair-cost s))
      (omega (arith, length_pos (skip_separators s) h, skip_separators-length s))

-- Nothing is left of a text with no pair to read.
pub pairs_of-nil :
    (flags : ℕ) (encoded : Bool) (s : Bytes)
    → is_nil (skip_separators s) ≡ true
    → pairs_of flags encoded s ≡ []
pairs_of-nil flags encoded s h =
    sym (skip_separators-pairs_of flags encoded s) ∙ go (skip_separators s) h
  where
    go : (t : Bytes) → is_nil t ≡ true → pairs_of flags encoded t ≡ []
    go [] e = refl
    go (c ∷ t) e = cc
