-- ===== src/Query/Parse.antt =====
-- llquery.c: `llquery_parse_ex`. What is kept of `struct llquery` is its pairs, with `kv_count`
-- their number; a string of a pair is the list of its bytes.
pub mod Reference
pub mod Correct
pub mod Entry
pub mod Codes
use lhttp_parser.Prelude.{
  ℕ, zero, suc, ◌+◌, ◌*◌, Bool, true, false, not, ◌&&◌, ◌||◌, List, [], ◌∷◌, Option, none, some,
  ◌==◌, ltb, leb, if◌then◌else◌, Bytes, length, bit_and,
}
use lhttp_parser.Query.Chars.{is_separator, is_equal}
use lhttp_parser.Query.Codec.{text_of}
use lhttp_parser.Query.Data.{
  auto_decode, keep_empty, strict, lowercase_keys, trim_values, has_option, Error, ok, empty_string,
  buffer_too_small, memory_error, too_many_pairs, Kv,
}
use lhttp_parser.Query.Strings.{has_encoded_chars, decode_in_place, trim_string, lowercase_string}

-- The string pool: its size, if there is one, and the bytes that are used.
pub record Pool : Type 0 where
  pub size : Option ℕ
  pub used : ℕ

-- Where a string stands.
pub data Place : Type 0 where
  in_pool in_heap : Place

-- `alloc n`: `alloc_fn` has memory for `n` bytes.
module _ (alloc : ℕ → Bool) where
  -- A string from the allocator, outside of the pool.
  abbrev from_heap : Pool → ℕ → Option (Place × Pool)
  from_heap pool n = if alloc n then some (in_heap, pool) else none

  -- `pool_alloc_string`, with the pool's size taken out of it.
  abbrev pool_alloc_in : Option ℕ → Pool → ℕ → Option (Place × Pool)
  pool_alloc_in none pool n = from_heap pool n
  pool_alloc_in (some size) pool n =
      if leb (pool.used + n) size
      then some (in_pool, record pool { used = pool.used + n })
      else from_heap pool n

  unfoldable pub pool_alloc_string : Pool → ℕ → Option (Place × Pool)
  pool_alloc_string pool n = pool_alloc_in pool.size pool n

abbrev pub estimate_string_size : ℕ → ℕ
estimate_string_size len = len * 2 + 256

unfoldable pub skip_separators : Bytes → Bytes
skip_separators [] = []
skip_separators (c ∷ s) = if is_separator c then skip_separators s else c ∷ s

-- The bytes up to the first at which `stop` holds, and the rest from there.
unfoldable pub span_until : (ℕ → Bool) → Bytes → Bytes × Bytes
span_until stop [] = ([], [])
span_until stop (c ∷ s) =
    let (taken, rest) = span_until stop s in if stop c then ([], c ∷ s) else (c ∷ taken, rest)

abbrev pub ends_key : ℕ → Bool
ends_key c = is_equal c || is_separator c

-- The value behind the key, and the rest from its `&`.
unfoldable pub span_value : Bytes → Bytes × Bytes
unfolding span_until
span_value [] = ([], [])
span_value (c ∷ s) = if is_equal c then span_until (λ b. b == b'&') s else ([], c ∷ s)

-- `if (current < end && IS_SEPARATOR(*current)) current++`
abbrev pub drop_separator : Bytes → Bytes
drop_separator [] = []
drop_separator (c ∷ s) = if is_separator c then s else c ∷ s

abbrev pub is_nil : Bytes → Bool
is_nil [] = true
is_nil (c ∷ s) = false

-- What the loop has found: the pairs, the unread rest, and whether all allocations succeeded.
pub record Found : Type 0 where
  pub pairs : List Kv
  pub rest : Bytes
  pub allocated : Bool

abbrev found_pair : Kv → Found → Found
found_pair kv f = record f { pairs = kv ∷ f.pairs }

-- The pair as it is stored under the options.
abbrev pub stored_pair : ℕ → Bool → Bytes → Bytes → Kv
stored_pair flags encoded key value = record {
  key = if has_option flags lowercase_keys then lowercase_string key else key;
  value = if has_option flags trim_values then trim_string value else value;
  is_encoded = encoded;
}

-- One pair is read off the rest: its key, its value, and what follows its `&`.
unfoldable pub next_pair : Bytes → Bytes × Bytes × Bytes
unfolding skip_separators span_until span_value
next_pair rest =
    let (key, after_key) = span_until ends_key (skip_separators rest) in
    let (value, after_value) = span_value after_key in (key, value, drop_separator after_value)

module _ (alloc : ℕ → Bool) where
  -- The strings of a pair, by two allocations; `none` where one fails.
  unfoldable pub store_strings : Pool → Bytes → Bytes → Option Pool
  store_strings pool key value = elim (pool_alloc_string alloc pool (length key + 1)) [
    | none ↦ none
    | some (_, pool') ↦ elim (pool_alloc_string alloc pool' (length value + 1)) [
      | none ↦ none
      | some (_, pool'') ↦ some pool''
    ]
  ]

module _ (alloc : ℕ → Bool) (flags : ℕ) (encoded : Bool) where
  -- What a round does with the pair that it has read; the loop goes on by `skipped` where the pair
  -- is left out, and by `kept` where it is stored.
  unfoldable pub pair_round : Pool → Bytes → Bytes → Bytes → (Pool → Found) → (Pool → Found) → Found
  pair_round pool key value after skipped kept =
      if is_nil key then skipped pool else (elim (store_strings alloc pool key value) [
        | none ↦ record { pairs = []; rest = after; allocated = false }
        | some pool' ↦
            let kv = stored_pair flags encoded key value in
            if not (has_option flags keep_empty) && is_nil kv.value
            then skipped pool'
            else found_pair kv (kept pool')
      ])

  -- The main loop; `room` is `max_kv_count - kv_index`, and the fuel bounds the rounds.
  unfoldable pub parse_loop : ℕ → ℕ → Pool → Bytes → Found
  parse_loop zero room pool rest = record { pairs = []; rest = rest; allocated = true }
  parse_loop (suc fuel) zero pool rest = record { pairs = []; rest = rest; allocated = true }
  parse_loop (suc fuel) (suc room) pool rest =
      let (key, value, after) = next_pair rest in
      if is_nil (skip_separators rest)
      then record { pairs = []; rest = []; allocated = true }
      else pair_round pool key value after (λ q. parse_loop fuel (suc room) q after)
          (λ q. parse_loop fuel room q after)

-- The result of a call: its code, and the pairs of the structure behind it.
abbrev pub Parsed : Type 0
Parsed = Error × List Kv

-- The buffer for decoding: the caller's, of a size above 0, or one that is allocated.
abbrev pub decode_room : (ℕ → Bool) → ℕ → ℕ → Error
decode_room alloc buf_size len =
    if ltb 0 buf_size
    then (if ltb buf_size (len + 1) then buffer_too_small else ok)
    else (if alloc (len + 1) then ok else memory_error)

-- The code for how the loop ended: an allocation failed, or the pairs are too many.
abbrev pub end_code : ℕ → ℕ → Found → Error
end_code flags max found =
    if not found.allocated
    then memory_error
    else if not (is_nil found.rest) && (leb max (length found.pairs) && has_option flags strict)
    then too_many_pairs
    else ok

-- The string pool that a parse starts with; a failed allocation leaves none.
abbrev pub new_pool : (ℕ → Bool) → ℕ → Pool
new_pool alloc len = record {
  size = if alloc (estimate_string_size len) then some (estimate_string_size len) else none;
  used = 0;
}

-- `llquery_parse_ex` from the decoded text on, which was `len` bytes long before.
unfoldable pub parse_decoded : (ℕ → Bool) → ℕ → ℕ → Bool → ℕ → Bytes → Parsed
parse_decoded alloc flags max encoded len text =
    let found = parse_loop alloc flags encoded (length text) max (new_pool alloc len) text in
    (end_code flags max found, found.pairs)

-- `llquery_parse_ex` behind the leading `?`.
unfoldable pub parse_text : (ℕ → Bool) → ℕ → ℕ → ℕ → Bytes → Parsed
parse_text alloc flags max buf_size text =
    if has_option flags auto_decode && has_encoded_chars text
    then (elim (decode_room alloc buf_size (length text)) [
      | ok ↦ parse_decoded alloc flags max true (length text) (decode_in_place text)
      | error ↦ (error, [])
    ])
    else parse_decoded alloc flags max false (length text) text

-- Behind a leading `?`; nothing is left to parse where the query is `?` alone.
abbrev pub parse_query_mark : (ℕ → Bool) → ℕ → ℕ → ℕ → Bytes → Parsed
parse_query_mark alloc flags max buf_size [] = (ok, [])
parse_query_mark alloc flags max buf_size (c ∷ s) = parse_text alloc flags max buf_size (c ∷ s)

abbrev pub parse_nonempty : (ℕ → Bool) → ℕ → ℕ → ℕ → Bytes → Parsed
parse_nonempty alloc flags max buf_size [] = (empty_string, [])
parse_nonempty alloc flags max buf_size (c ∷ s) =
    if c == b'?'
    then parse_query_mark alloc flags max buf_size s
    else parse_text alloc flags max buf_size (c ∷ s)

-- `llquery_parse_ex` on an initialised structure with `flags` and `max_kv_count`; a null
-- `decode_buf` is a size of 0, and `llquery_parse` calls it so. An empty query leaves the
-- structure as it is, which is taken to hold no pairs.
unfoldable pub llquery_parse_ex : (ℕ → Bool) → ℕ → ℕ → Bytes → ℕ → ℕ → Parsed
llquery_parse_ex alloc flags max query query_len buf_size =
    parse_nonempty alloc flags max buf_size (text_of query query_len)
