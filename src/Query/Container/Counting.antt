-- ===== src/Query/Container/Counting.antt =====
-- llquery.c: `llquery_count_pairs` counts the segments that are not empty, and gives
-- `llquery_parse_ex` room for every pair.
use lhttp_parser.Prelude.{
  ℕ, zero, suc, ◌≤◌, ◌<◌, ◌≡◌, refl, ◌∙◌, ap, Bool, true, false, Option, none, some, ◌-◌, List, [],
  ◌∷◌, arith, ◌==◌, ◌%◌, Bytes, length, take,
}
use lhttp_parser.Query.Codec.Laws.{text_of-length}
use lhttp_parser.Query.Container.{
  skip_pair, skip_ampersands, skip_one, count_here, count_loop, drop_mark, llquery_count_pairs,
}
use lhttp_parser.Query.Data.{Kv}
use lhttp_parser.Query.Parse.Reference.{
  prepend, segments, key_value, pair_of, with_pair, pairs_of_segments, pairs_of,
}
use lhttp_parser.Query.Parse.Entry.{strip_mark, is_decoded, llquery_parse_ex-pairs_of}
use lhttp_parser.Query.Parse.{estimate_string_size, llquery_parse_ex}

-- How many segments are not empty.
abbrev pub named_segments : List Bytes → ℕ
named_segments [] = 0
named_segments ([] ∷ ss) = named_segments ss
named_segments ((c ∷ s) ∷ ss) = suc (named_segments ss)

abbrev behind : List Bytes → List Bytes
behind [] = []
behind (s ∷ ss) = ss

named-prepend :
    (c : ℕ) (ss : List Bytes) → named_segments (prepend c ss) ≡ suc (named_segments (behind ss))
named-prepend c [] = refl
named-prepend c (s ∷ ss) = refl

behind-prepend :
    (c : ℕ) (ss : List Bytes) → named_segments (behind (prepend c ss)) ≡ named_segments (behind ss)
behind-prepend c [] = refl
behind-prepend c (s ∷ ss) = refl

skip_ampersands-named :
    (s : Bytes) → named_segments (segments (skip_ampersands s)) ≡ named_segments (segments s)
unfolding skip_ampersands
skip_ampersands-named [] = refl
skip_ampersands-named (c ∷ s) = ground (arith, skip_ampersands-named s)

-- Behind the first `&` stand the segments behind the first one.
skip_pair-named :
    (s : Bytes)
    → named_segments (segments (skip_one (skip_pair s))) ≡ named_segments (behind (segments s))
unfolding skip_pair
skip_pair-named [] = refl
skip_pair-named (c ∷ s) = ground (arith, skip_pair-named s, behind-prepend c (segments s))

skip_pair-length : (s : Bytes) → length (skip_one (skip_pair s)) ≤ length s
unfolding skip_pair
skip_pair-length [] = omega arith
skip_pair-length (c ∷ s) = ground (arith, skip_pair-length s)

skip_ampersands-length : (s : Bytes) → length (skip_ampersands s) ≤ length s
unfolding skip_ampersands
skip_ampersands-length [] = omega arith
skip_ampersands-length (c ∷ s) = ground (arith, skip_ampersands-length s)

-- No `&` stands in front.
abbrev InSegment : Bytes → Type 0
InSegment [] = Unit
InSegment (c ∷ s) = (c == b'&') ≡ false

skip_ampersands-InSegment : (s : Bytes) → InSegment (skip_ampersands s)
unfolding skip_ampersands
skip_ampersands-InSegment [] = tt
skip_ampersands-InSegment (c ∷ s) = ground (arith, skip_ampersands-InSegment s)

-- A round counts the first segment, where `count` is right for the text behind it.
count_here-named :
    (t : Bytes) (count : ℕ)
    → InSegment t
    → count ≡ named_segments (segments (skip_one (skip_pair t)))
    → count_here t count ≡ named_segments (segments t)
unfolding skip_pair
count_here-named [] count inside h = refl
count_here-named (c ∷ s) count inside h =
    ground (arith, skip_pair-named s, named-prepend c (segments s))

round_length : (t : Bytes) → InSegment t → length (skip_one (skip_pair t)) ≤ length t - 1
unfolding skip_pair
round_length [] inside = omega arith
round_length (c ∷ s) inside = ground (arith, skip_pair-length s)

count_loop-named :
    (fuel : ℕ) (s : Bytes) → length s ≤ fuel → count_loop fuel s ≡ named_segments (segments s)
unfolding count_loop
count_loop-named zero [] h = refl
count_loop-named zero (c ∷ s) h = absurd (omega arith)
count_loop-named (suc fuel) s h =
    let t = skip_ampersands s in
    let inside = skip_ampersands-InSegment s in
    count_here-named t (count_loop fuel (skip_one (skip_pair t))) inside (
      count_loop-named fuel (skip_one (skip_pair t))
        (omega (arith, round_length t inside, skip_ampersands-length s)))
    ∙ skip_ampersands-named s

pub drop_mark-strip_mark : (s : Bytes) → drop_mark s ≡ strip_mark s
drop_mark-strip_mark [] = refl
drop_mark-strip_mark (c ∷ s) = refl

-- For every query of at least one byte: `llquery_count_pairs` counts, modulo 65536, the segments
-- between the `&`s that are not empty, behind a leading `?`.
pub llquery_count_pairs-named :
    (query : Bytes)
    → 0 < length query
    → llquery_count_pairs query (length query)
      ≡ named_segments (segments (strip_mark query)) % 65536
unfolding llquery_count_pairs
llquery_count_pairs-named query pos =
    rw (text_of-length query pos, drop_mark-strip_mark query)
      (ap (λ n. n % 65536)
        (count_loop-named (length (strip_mark query)) (strip_mark query) (omega arith)))

-- A pair comes from a segment that is not empty.
pub pairs_of_segments-named :
    (flags : ℕ) (encoded : Bool) (ss : List Bytes)
    → length (pairs_of_segments flags encoded ss) ≤ named_segments ss
pairs_of_segments-named flags encoded [] = omega arith
pairs_of_segments-named flags encoded ([] ∷ ss) = pairs_of_segments-named flags encoded ss
pairs_of_segments-named flags encoded ((c ∷ s) ∷ ss) = omega (
  arith,
  pairs_of_segments-named flags encoded ss,
  with_pair-length (pair_of flags encoded (key_value (c ∷ s))) (pairs_of_segments flags encoded ss),
)
  where
    with_pair-length : (o : Option Kv) (kvs : List Kv) → length (with_pair o kvs) ≤ suc (length kvs)
    with_pair-length none kvs = omega arith
    with_pair-length (some kv) kvs = omega arith

pub take-all : (n : ℕ) (kvs : List Kv) → length kvs ≤ n → take n kvs ≡ kvs
take-all zero [] h = refl
take-all (suc n) [] h = refl
take-all zero (kv ∷ kvs) h = absurd (omega arith)
take-all (suc n) (kv ∷ kvs) h = ap (◌∷◌ kv) (take-all n kvs (omega arith))

-- For every allocator that has memory for the string pool, options and a query of which nothing is
-- decoded, because the options do not ask for it or because it holds no `%` and no `+`, of at least
-- one byte and fewer than 65536 segments that are not empty, and a buffer for decoding that is longer
-- than the query: `llquery_parse_ex` with the result of `llquery_count_pairs` as its `max_kv_count`
-- stores every pair of the query.
pub llquery_parse_ex-llquery_count_pairs :
    (alloc : ℕ → Bool) (flags : ℕ) (query : Bytes) (buf_size : ℕ)
    → is_decoded flags (strip_mark query) ≡ false
    → 0 < length query
    → named_segments (segments (strip_mark query)) < 65536
    → alloc (estimate_string_size (length (strip_mark query))) ≡ true
    → length query < buf_size
    → (llquery_parse_ex alloc flags
        (llquery_count_pairs query (length query))
        query
        (length query)
        buf_size).1
      ≡ pairs_of flags false (strip_mark query)
llquery_parse_ex-llquery_count_pairs alloc flags query buf_size raw pos few got room =
    let text = strip_mark query in
    let count = llquery_count_pairs query (length query) in
    let stored : (llquery_parse_ex alloc flags count query (length query) buf_size).1
        ≡ take count (pairs_of flags false text) =
      (rw raw at (llquery_parse_ex-pairs_of alloc flags count query buf_size pos got room).0) in
    stored
    ∙ take-all count (pairs_of flags false text) (
        omega (
          arith,
          llquery_count_pairs-named query pos,
          pairs_of_segments-named flags false (segments text),
        ))
