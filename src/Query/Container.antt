-- ===== src/Query/Container.antt =====
-- llquery.c: the lookups and the iteration over the pairs of a query, `llquery_filter`,
-- `llquery_is_valid` and `llquery_count_pairs`. A structure is the list of its `kv_count` pairs.
pub mod Lookup
pub mod Counting
use lhttp_parser.Prelude.{
  ℕ, zero, suc, ◌+◌, ◌%◌, Bool, true, false, not, ◌&&◌, ◌||◌, List, [], ◌∷◌, Option, none, some,
  ◌==◌, if◌then◌else◌, Bytes, length,
}
use lhttp_parser.Query.Chars.{is_alnum}
use lhttp_parser.Query.Codec.{text_of}
use lhttp_parser.Query.Data.{Kv}

-- `memcmp(a, b, n) == 0`, for texts of at least `n` bytes
unfoldable pub same_bytes : Bytes → Bytes → ℕ → Bool
same_bytes a b zero = true
same_bytes (c ∷ a) (d ∷ b) (suc n) = c == d && same_bytes a b n
same_bytes _ _ (suc n) = true

-- `kv->key_len == key_len && memcmp(kv->key, key, key_len) == 0`
abbrev pub has_this_key : Bytes → Kv → Bool
has_this_key key kv = length kv.key == length key && same_bytes kv.key key (length key)

-- The loop of `llquery_get_value`; a value of length 0 is the empty text.
unfoldable pub find_value : Bytes → List Kv → Option Bytes
find_value key [] = none
find_value key (kv ∷ kvs) =
    let rest = find_value key kvs in if has_this_key key kv then some kv.value else rest

-- `llquery_get_value(q, key, key_len)`
unfoldable pub llquery_get_value : List Kv → Bytes → ℕ → Option Bytes
llquery_get_value kvs key key_len = find_value (text_of key key_len) kvs

-- The loop of `llquery_get_all_values`; `room` is `max_values - count`.
unfoldable pub find_values : Bytes → ℕ → List Kv → List Bytes
find_values key room [] = []
find_values key zero (kv ∷ kvs) = []
find_values key (suc room) (kv ∷ kvs) =
    let stored = find_values key room kvs in
    let rest = find_values key (suc room) kvs in
    if has_this_key key kv then kv.value ∷ stored else rest

-- `llquery_get_all_values`: what it stores in `values`, whose number it returns.
unfoldable pub llquery_get_all_values : List Kv → Bytes → ℕ → ℕ → List Bytes
llquery_get_all_values kvs key key_len max_values =
    if max_values == 0 then [] else find_values (text_of key key_len) max_values kvs

-- The loop of `llquery_has_key`.
unfoldable pub find_key : Bytes → List Kv → Bool
find_key key [] = false
find_key key (kv ∷ kvs) = let rest = find_key key kvs in if has_this_key key kv then true else rest

unfoldable pub llquery_has_key : List Kv → Bytes → ℕ → Bool
llquery_has_key kvs key key_len = find_key (text_of key key_len) kvs

unfoldable pub llquery_get_kv : List Kv → ℕ → Option Kv
llquery_get_kv [] index = none
llquery_get_kv (kv ∷ kvs) zero = some kv
llquery_get_kv (kv ∷ kvs) (suc index) = llquery_get_kv kvs index

-- `llquery_iterate`, with the state of the callback passed along: the callback gives its new state
-- and whether it returned 0. The result is the count and the state at the end.
unfoldable pub llquery_iterate {ℓ} : {S : Type ℓ} → (Kv → S → S × Bool) → List Kv → S → ℕ × S
llquery_iterate callback [] s = (0, s)
llquery_iterate callback (kv ∷ kvs) s =
    let (s', goes_on) = callback kv s in
    let (count, end) = llquery_iterate callback kvs s' in
    if goes_on then (suc count, end) else (0, s')

-- `while (p < end && *p != '&') p++`
unfoldable pub skip_pair : Bytes → Bytes
skip_pair [] = []
skip_pair (c ∷ s) = if c == b'&' then c ∷ s else skip_pair s

-- `while (p < end && *p == '&') p++`
unfoldable pub skip_ampersands : Bytes → Bytes
skip_ampersands [] = []
skip_ampersands (c ∷ s) = if c == b'&' then skip_ampersands s else c ∷ s

-- `if (p < end && *p == '&') p++`
abbrev pub skip_one : Bytes → Bytes
skip_one [] = []
skip_one (c ∷ s) = if c == b'&' then s else c ∷ s

-- What the round does at `p`, behind the ampersands; `count` is what the rest adds.
abbrev pub count_here : Bytes → ℕ → ℕ
count_here [] count = 0
count_here (c ∷ s) count = suc count

-- The loop of `llquery_count_pairs`, with fuel for its rounds; the count is not yet cut to 16 bits.
unfoldable pub count_loop : ℕ → Bytes → ℕ
count_loop zero s = 0
count_loop (suc fuel) s =
    let rest = count_loop fuel (skip_one (skip_pair (skip_ampersands s))) in
    count_here (skip_ampersands s) rest

-- `if (*query == '?')`
abbrev pub drop_mark : Bytes → Bytes
drop_mark [] = []
drop_mark (c ∷ s) = if c == b'?' then s else c ∷ s

-- `llquery_count_pairs`, whose counter is a `uint16_t`
unfoldable pub llquery_count_pairs : Bytes → ℕ → ℕ
llquery_count_pairs query query_len =
    let s = drop_mark (text_of query query_len) in count_loop (length s) s % 65536

-- The bytes that `llquery_is_valid` allows.
abbrev pub is_allowed : ℕ → Bool
is_allowed c =
    is_alnum c
    || c == b'-'
    || c == b'_'
    || c == b'.'
    || c == b'~'
    || c == b'%'
    || c == b'+'
    || c == b'='
    || c == b'&'

unfoldable pub all_allowed : Bytes → Bool
all_allowed [] = true
all_allowed (c ∷ s) = is_allowed c && all_allowed s

abbrev pub valid_text : Bytes → Bool
valid_text [] = false
valid_text (c ∷ s) = all_allowed (drop_mark (c ∷ s))

unfoldable pub llquery_is_valid : Bytes → ℕ → Bool
llquery_is_valid str len = valid_text (text_of str len)
