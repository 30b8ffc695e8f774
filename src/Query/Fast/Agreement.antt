-- ===== src/Query/Fast/Agreement.antt =====
-- llquery.c: without decoding, `llquery_parse_fast` finds what `llquery_parse_ex` does, and pairs
-- with an empty key besides.
use lhttp_parser.Prelude.{
  ℕ, zero, suc, ◌≤◌, ◌<◌, ◌≡◌, refl, sym, ◌∙◌, ap, Bool, true, false, List, [], ◌∷◌, inl, inr,
  arith, ◌||◌, if◌then◌else◌, Bytes, length, Bool-cases,
}
use lhttp_parser.Query.Chars.Hex.{is_separator_lem, is_equal_lem}
use lhttp_parser.Query.Codec.Laws.{text_of-length}
use lhttp_parser.Query.Container.Counting.{
  named_segments, drop_mark-strip_mark, take-all, pairs_of_segments-named,
}
use lhttp_parser.Query.Container.{skip_ampersands, skip_one}
use lhttp_parser.Query.Data.{Kv, keep_empty}
use lhttp_parser.Query.Fast.{
  ends_fast_key, fast_value, fast_next, fast_loop, parse_fast_text, llquery_parse_fast,
}
use lhttp_parser.Query.Parse.Entry.{strip_mark, is_decoded, llquery_parse_ex-pairs_of}
use lhttp_parser.Query.Parse.Reference.{
  prepend, segments, pair_of, with_pair, pairs_of, next_pair-pairs_of, next_pair-shorter,
  pairs_of-nil,
}
use lhttp_parser.Query.Parse.{
  skip_separators, span_until, ends_key, span_value, drop_separator, is_nil, next_pair,
  estimate_string_size, llquery_parse_ex,
}

-- The tests of the two loops are the same, and so is what they read.
ends_key-ends_fast_key : ends_key ≡ ends_fast_key
ends_key-ends_fast_key i c = is_equal_lem c i || is_separator_lem c i

skip_ampersands-skip_separators : (s : Bytes) → skip_ampersands s ≡ skip_separators s
unfolding skip_ampersands skip_separators
skip_ampersands-skip_separators [] = refl
skip_ampersands-skip_separators (c ∷ s) =
    ground (arith, is_separator_lem c, skip_ampersands-skip_separators s)

fast_value-span_value : (s : Bytes) → fast_value s ≡ span_value s
unfolding fast_value span_value
fast_value-span_value [] = refl
fast_value-span_value (c ∷ s) = ground (arith, is_equal_lem c)

skip_one-drop_separator : (s : Bytes) → skip_one s ≡ drop_separator s
skip_one-drop_separator [] = refl
skip_one-drop_separator (c ∷ s) = ground (arith, is_separator_lem c)

fast_next-next_pair : (s : Bytes) → fast_next s ≡ next_pair s
unfolding fast_next next_pair
fast_next-next_pair s =
    rw (skip_ampersands-skip_separators s, sym ends_key-ends_fast_key)
      (let after_key = (span_until ends_key (skip_separators s)).1 in
        rw (fast_value-span_value after_key, skip_one-drop_separator (span_value after_key).1) refl)

-- The pairs that have a key.
abbrev pub named_pairs : List Kv → List Kv
named_pairs [] = []
named_pairs (kv ∷ kvs) = if is_nil kv.key then named_pairs kvs else kv ∷ named_pairs kvs

named_pairs-with_pair :
    (key value : Bytes) (kvs : List Kv)
    → named_pairs (record { key = key; value = value; is_encoded = false } ∷ kvs)
      ≡ with_pair (pair_of keep_empty false (key, value)) (named_pairs kvs)
named_pairs-with_pair [] value kvs = refl
named_pairs-with_pair (c ∷ key) value kvs = refl

fast_loop-pairs_of :
    (fuel room : ℕ) (s : Bytes)
    → length s ≤ fuel
    → length s ≤ room
    → named_pairs (fast_loop false fuel room s) ≡ pairs_of keep_empty false s
unfolding fast_loop
fast_loop-pairs_of zero room [] h k = refl
fast_loop-pairs_of zero room (c ∷ s) h k = absurd (omega arith)
fast_loop-pairs_of (suc fuel) zero [] h k = refl
fast_loop-pairs_of (suc fuel) zero (c ∷ s) h k = absurd (omega arith)
fast_loop-pairs_of (suc fuel) (suc room) s h k =
    rw (skip_ampersands-skip_separators s, fast_next-next_pair s)
      (elim (Bool-cases (is_nil (skip_separators s))) [
        | inl nothing ↦ rw (nothing, pairs_of-nil keep_empty false s nothing) refl
        | inr text ↦
            rw (text, next_pair-pairs_of keep_empty false s)
              (named_pairs-with_pair (next_pair s).0 (next_pair s).1
                  (fast_loop false fuel room (next_pair s).2)
                ∙ ap (with_pair (pair_of keep_empty false ((next_pair s).0, (next_pair s).1))) (
                    fast_loop-pairs_of fuel room (next_pair s).2
                      (omega (arith, next_pair-shorter s text))
                      (omega (arith, next_pair-shorter s text))))
      ])

strip_mark-length : (s : Bytes) → length (strip_mark s) ≤ length s
strip_mark-length [] = omega arith
strip_mark-length (c ∷ s) = ground arith

named_segments-prepend :
    (c : ℕ) (ss : List Bytes) → named_segments (prepend c ss) ≤ suc (named_segments ss)
named_segments-prepend c [] = omega arith
named_segments-prepend c ([] ∷ ss) = omega arith
named_segments-prepend c ((d ∷ s) ∷ ss) = omega arith

named_segments-length : (s : Bytes) → named_segments (segments s) ≤ length s
named_segments-length [] = omega arith
named_segments-length (c ∷ s) =
    ground (arith, named_segments-length s, named_segments-prepend c (segments s))

-- For every query of at least one byte and options of the fast parser with which nothing of it is
-- decoded, because they do not ask for it or because it holds no `%` and no `+`, room for as many
-- pairs as it has bytes, and, for the other parser, every allocator that has memory for the string
-- pool and every buffer for decoding that is longer than the query: the pairs with a key that is not
-- empty which `llquery_parse_fast` stores are those that `llquery_parse_ex` stores under the option
-- to keep empty values alone.
pub llquery_parse_fast-llquery_parse_ex :
    (alloc : ℕ → Bool) (flags max : ℕ) (query : Bytes) (buf_size : ℕ)
    → is_decoded flags (strip_mark query) ≡ false
    → 0 < length query
    → length query ≤ max
    → alloc (estimate_string_size (length (strip_mark query))) ≡ true
    → length query < buf_size
    → named_pairs (llquery_parse_fast query (length query) max flags)
      ≡ (llquery_parse_ex alloc keep_empty max query (length query) buf_size).1
unfolding llquery_parse_fast parse_fast_text
llquery_parse_fast-llquery_parse_ex alloc flags max query buf_size raw pos many got room =
    let text = strip_mark query in
    rw (text_of-length query pos, drop_mark-strip_mark query, raw)
      (fast_loop-pairs_of (length text) max text (omega arith)
          (omega (arith, strip_mark-length query))
        ∙ sym (
            take-all max (pairs_of keep_empty false text) (
              omega (
                arith,
                strip_mark-length query,
                pairs_of_segments-named keep_empty false (segments text),
                named_segments-length text,
              )))
        ∙ sym (llquery_parse_ex-pairs_of alloc keep_empty max query buf_size pos got room).0)
