-- ===== src/Query/Stringify.antt =====
-- llquery.c: `llquery_stringify`.
pub mod RoundTrip
use lhttp_parser.Prelude.{
  ℕ, ◌+◌, ◌-◌, Bool, true, false, ◌||◌, List, [], ◌∷◌, ◌++◌, Option, none, some, ◌==◌, ltb,
  if◌then◌else◌, Bytes, length,
}
use lhttp_parser.Query.Data.{Kv}

-- The first loop, behind the first pair: an `&`, the key, an `=` and the value.
unfoldable pub more_needed : List Kv → ℕ
more_needed [] = 0
more_needed (kv ∷ kvs) = 1 + length kv.key + 1 + length kv.value + more_needed kvs

-- The space for the text, without its terminating NUL.
unfoldable pub stringify_needed : List Kv → ℕ
unfolding more_needed
stringify_needed [] = 0
stringify_needed (kv ∷ kvs) = length kv.key + 1 + length kv.value + more_needed kvs

-- The second loop, behind the first pair.
unfoldable pub more_text : List Kv → Bytes
more_text [] = []
more_text (kv ∷ kvs) = b'&' ∷ (kv.key ++ (b'=' ∷ (kv.value ++ more_text kvs)))

unfoldable pub stringify_text : List Kv → Bytes
unfolding more_text
stringify_text [] = []
stringify_text (kv ∷ kvs) = kv.key ++ (b'=' ∷ (kv.value ++ more_text kvs))

-- `llquery_stringify(q, buffer, buffer_size, encode)`, which does not read `encode`: the returned
-- length, and the text where it is written; a null buffer is a size of 0.
unfoldable pub stringify : List Kv → ℕ → ℕ × Option Bytes
stringify [] buffer_size = (0, if ltb 0 buffer_size then some [] else none)
stringify (kv ∷ kvs) buffer_size =
    let needed = stringify_needed (kv ∷ kvs) + 1 in
    if buffer_size == 0 || ltb buffer_size needed
    then (needed - 1, none)
    else (length (stringify_text (kv ∷ kvs)), some (stringify_text (kv ∷ kvs)))
