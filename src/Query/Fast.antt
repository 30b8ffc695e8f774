-- ===== src/Query/Fast.antt =====
-- llquery.c: `llquery_parse_fast`. The strings that it gives out are the bytes that their pointers
-- and lengths cover when it returns.
pub mod Agreement
use lhttp_parser.Prelude.{
  ℕ, zero, suc, ◌+◌, Bool, true, false, ◌&&◌, ◌||◌, List, [], ◌∷◌, ◌++◌, ◌==◌, ltb, if◌then◌else◌,
  Bytes, length, take,
}
use lhttp_parser.Query.Codec.{text_of}
use lhttp_parser.Query.Container.{skip_ampersands, skip_one, drop_mark}
use lhttp_parser.Query.Data.{auto_decode, has_option, Kv}
use lhttp_parser.Query.Parse.{span_until, is_nil}
use lhttp_parser.Query.Strings.{has_encoded_chars, decode_in_place}

-- `*current == '=' || *current == '&'`
abbrev pub ends_fast_key : ℕ → Bool
ends_fast_key c = c == b'=' || c == b'&'

-- The value behind the key, and the rest from its `&`.
unfoldable pub fast_value : Bytes → Bytes × Bytes
unfolding span_until
fast_value [] = ([], [])
fast_value (c ∷ s) = if c == b'=' then span_until (λ b. b == b'&') s else ([], c ∷ s)

-- The key, the value and what follows the `&`.
unfoldable pub fast_next : Bytes → Bytes × Bytes × Bytes
unfolding skip_ampersands span_until fast_value
fast_next rest =
    let (key, after_key) = span_until ends_fast_key (skip_ampersands rest) in
    let (value, after_value) = fast_value after_key in (key, value, skip_one after_value)

-- The loop; `room` is `max_pairs - count`, and the fuel bounds the rounds.
unfoldable pub fast_loop : Bool → ℕ → ℕ → Bytes → List Kv
fast_loop encoded zero room rest = []
fast_loop encoded (suc fuel) zero rest = []
fast_loop encoded (suc fuel) (suc room) rest =
    let (key, value, after) = fast_next rest in
    let pairs = fast_loop encoded fuel room after in
    if is_nil (skip_ampersands rest)
    then []
    else record { key = key; value = value; is_encoded = encoded } ∷ pairs

unfoldable pub drop_bytes : ℕ → Bytes → Bytes
drop_bytes zero s = s
drop_bytes (suc n) [] = []
drop_bytes (suc n) (c ∷ s) = drop_bytes n s

-- The first bytes of `stack_buf`, as many as the query has, after it was decoded in place: the
-- decoded text, its NUL, and what stood there before.
abbrev pub stale_buffer : Bytes → Bytes
stale_buffer s =
    let decoded = decode_in_place s in
    take (length s) (decoded ++ (0 ∷ drop_bytes (length decoded + 1) s))

abbrev pub max_stack_buf : ℕ
max_stack_buf = 2048

unfoldable pub parse_fast_text : ℕ → ℕ → Bytes → List Kv
parse_fast_text max_pairs flags s =
    if has_option flags auto_decode && has_encoded_chars s
    then (if ltb (length s) max_stack_buf
        then fast_loop true (length s) max_pairs (stale_buffer s)
        else [])
    else fast_loop false (length s) max_pairs s

-- `llquery_parse_fast`: what it stores in `kv_pairs`, whose number it returns. Where `max_pairs` or
-- the query is empty it stores nothing, which the loop does too.
unfoldable pub llquery_parse_fast : Bytes → ℕ → ℕ → ℕ → List Kv
llquery_parse_fast query query_len max_pairs flags =
    parse_fast_text max_pairs flags (drop_mark (text_of query query_len))
