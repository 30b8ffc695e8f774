-- ===== src/Query/Tests.antt =====
-- llquery.c: runs of the codec and the parser on small inputs.
use mathlib.Core.List.{Perm}
use lhttp_parser.Query.Container.Counting.{
  named_segments, llquery_count_pairs-named, llquery_parse_ex-llquery_count_pairs,
}
use lhttp_parser.Query.Container.Lookup.{values_of, first_of, is_some, lookups-values_of}
use lhttp_parser.Query.Container.{
  llquery_get_value, llquery_get_all_values, llquery_has_key, llquery_count_pairs,
}
use lhttp_parser.Query.Fast.Agreement.{named_pairs, llquery_parse_fast-llquery_parse_ex}
use lhttp_parser.Query.Fast.{llquery_parse_fast}
use lhttp_parser.Query.Sort.Keys.{key_after-IsComparator, key_after, llquery_sort-Ordered}
use lhttp_parser.Query.Sort.Ordered.{Ordered, sort_by-Ordered}
use lhttp_parser.Query.Sort.{sort_by, llquery_sort}
use lhttp_parser.Prelude.{
  List, none, ◌%◌, ℕ, ◌+◌, ◌*◌, ◌≡◌, ◌≢◌, refl, bit_or, Bool, true, false, [], ◌∷◌, some, arith,
  Bytes, codes, length, take,
}
use lhttp_parser.Query.Chars.{char_flags, is_alnum, is_separator, is_equal, is_encoded, hex_lookup}
use lhttp_parser.Query.Codec.Laws.{spaces, encode_needed-length, url_decode-url_encode}
use lhttp_parser.Query.Codec.{text_of, encode_needed, encode, url_encode, decode, url_decode}
use lhttp_parser.Query.Data.{Kv, ok, memory_error, keep_empty, auto_decode, strict, too_many_pairs}
use lhttp_parser.Query.Parse.Codes.{llquery_parse_ex-ok}
use lhttp_parser.Query.Parse.Entry.{
  strip_mark, is_decoded, decoded_text, llquery_parse_ex-pairs_of, llquery_parse_ex-strict,
}
use lhttp_parser.Query.Parse.Reference.{segments, pairs_of}
use lhttp_parser.Query.Parse.{
  parse_text, parse_decoded, parse_loop, next_pair, pair_round, store_strings, pool_alloc_string,
  skip_separators, span_until, span_value, llquery_parse_ex,
}
use lhttp_parser.Query.Stringify.RoundTrip.{llquery_parse_ex-stringify_text}
use lhttp_parser.Query.Stringify.{more_text, stringify_text}
use lhttp_parser.Query.Strings.Laws.{decode_in_place-decode}
use lhttp_parser.Query.Strings.{has_encoded_chars, decode_in_place}

abbrev text : Bytes
text = codes "a b&c"

url_decode-url_encode_example :
    (url_encode text (length text) 12 ≡ (length (encode text), some (encode text)))
    × (url_decode (encode text) (length (encode text)) 6 ≡ (length text, some text))
unfolding is_alnum char_flags
url_decode-url_encode_example =
    url_decode-url_encode text 12 6 (omega arith) (omega arith)
      (unfold encode_needed in omega arith) (omega arith)

encode_needed-length_example : encode_needed text ≡ length (encode text) + 2 * spaces text
encode_needed-length_example = encode_needed-length text

decode_in_place-decode_example : decode_in_place (codes "a%41+") ≡ decode (codes "a%41+")
decode_in_place-decode_example = decode_in_place-decode (codes "a%41+") (omega arith)

-- An allocator that always has memory.
abbrev always : ℕ → Bool
always n = true

abbrev query : Bytes
query = codes "?a=1&&b&=x&c=%41"

parse_example :
    ((llquery_parse_ex always auto_decode 8 query (length query) 32).1
      ≡ take 8 (
          pairs_of auto_decode
            (is_decoded auto_decode (strip_mark query))
            (decoded_text auto_decode (strip_mark query))))
    × ((llquery_parse_ex always auto_decode 8 query (length query) 32).0 ≢ memory_error)
parse_example =
    llquery_parse_ex-pairs_of always auto_decode 8 query 32 (omega arith) refl (omega arith)

no_error_example : (llquery_parse_ex always auto_decode 2 query (length query) 32).0 ≡ ok
no_error_example =
    llquery_parse_ex-ok always auto_decode 2 32 refl query (omega arith) refl (omega arith)

-- Two pairs where one is the limit, in strict mode.
strict_example :
    ((llquery_parse_ex always strict 1 (codes "a=1&b=2") 7 32).0 ≡ too_many_pairs)
    × ((llquery_parse_ex always strict 1 (codes "a=1&b=2") 7 32).1
        ≡ take 1 (
            pairs_of strict
              (is_decoded strict (strip_mark (codes "a=1&b=2")))
              (decoded_text strict (strip_mark (codes "a=1&b=2")))))
strict_example =
    llquery_parse_ex-strict always strict 1 (codes "a=1&b=2") 32 (omega arith) refl (omega arith)
      refl (omega arith)

abbrev pair : Bytes → Bytes → Kv
pair k v = record { key = k; value = v; is_encoded = false }

stringify_example :
    (llquery_parse_ex always
      (bit_or auto_decode keep_empty)
      4
      (stringify_text (pair (codes "a") (codes "1") ∷ pair (codes "b") [] ∷ []))
      (length (stringify_text (pair (codes "a") (codes "1") ∷ pair (codes "b") [] ∷ [])))
      9).1
    ≡ pair (codes "a") (codes "1") ∷ pair (codes "b") [] ∷ []
unfolding stringify_text more_text has_encoded_chars is_encoded char_flags
stringify_example =
    llquery_parse_ex-stringify_text always (bit_or auto_decode keep_empty) 4 9
      (pair (codes "a") (codes "1")) (pair (codes "b") [] ∷ []) refl (refl, refl, refl)
      ((cc, omega arith, omega arith, refl), ((cc, omega arith, tt, refl), tt)) (omega arith)
      (omega arith) refl (omega arith)

-- The pairs of that query: `b` and the empty `b` are left out, and so is the empty key.
parsed_query : llquery_parse_ex always auto_decode 8 query (length query) 32 ≡ (
  ok,
  record { key = codes "a"; value = codes "1"; is_encoded = true }
      ∷ record { key = codes "c"; value = codes "A"; is_encoded = true }
      ∷ [],
)
unfolding llquery_parse_ex text_of parse_text parse_decoded parse_loop next_pair pair_round
    store_strings pool_alloc_string skip_separators span_until span_value decode_in_place
    has_encoded_chars is_separator is_equal is_encoded hex_lookup char_flags
parsed_query = refl

abbrev three_pairs : List Kv
three_pairs =
    pair (codes "b") (codes "1") ∷ pair (codes "a") (codes "2") ∷ pair (codes "b") (codes "3") ∷ []

sort_by_example :
    Ordered key_after (sort_by key_after three_pairs)
    × Perm (sort_by key_after three_pairs) three_pairs
sort_by_example = sort_by-Ordered key_after key_after-IsComparator three_pairs

llquery_sort_example :
    Ordered key_after (llquery_sort none three_pairs)
    × Perm (llquery_sort none three_pairs) three_pairs
llquery_sort_example =
    llquery_sort-Ordered three_pairs (omega arith, (omega arith, (omega arith, tt)))

lookups_example :
    (llquery_get_all_values three_pairs (codes "b") 1 1
      ≡ take 1 (values_of (codes "b") three_pairs))
    × (llquery_get_value three_pairs (codes "b") 1 ≡ first_of (values_of (codes "b") three_pairs))
    × (llquery_has_key three_pairs (codes "b") 1
        ≡ is_some (first_of (values_of (codes "b") three_pairs)))
lookups_example = lookups-values_of three_pairs (codes "b") 1 (omega arith)

count_example :
    llquery_count_pairs query (length query) ≡ named_segments (segments (strip_mark query)) % 65536
count_example = llquery_count_pairs-named query (omega arith)

all_pairs_example :
    (llquery_parse_ex always 0 (llquery_count_pairs query (length query)) query (length query) 32).1
    ≡ pairs_of 0 false (strip_mark query)
all_pairs_example =
    llquery_parse_ex-llquery_count_pairs always 0 query 32 refl (omega arith) (omega arith) refl
      (omega arith)

agreement_example :
    named_pairs (llquery_parse_fast query (length query) 16 0)
    ≡ (llquery_parse_ex always keep_empty 16 query (length query) 32).1
agreement_example =
    llquery_parse_fast-llquery_parse_ex always 0 16 query 32 refl (omega arith) (omega arith) refl
      (omega arith)
