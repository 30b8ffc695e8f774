-- ===== src/Binding/Query/Whole.antt =====
-- lhttp_url.c: `parse_query` from its arguments to the values in its table.
use lhttp_parser.Prelude.{
  ℕ, ◌+◌, ◌≡◌, ◌<◌, refl, ap, Bool, true, false, List, [], ◌∷◌, Option, none, some, arith, Bytes,
  length, take,
}
use lhttp_parser.Binding.Query.Table.{entry_of, query_to_lua_table-values_of}
use lhttp_parser.Binding.Query.{
  Entry, Tables, Argument, argument_flags, Returned, table, raised, nothing, nil_value, undefined,
  is_blank, can_init, has_buffer, overruns, overlaps, returned_for, query_to_lua_table,
  default_max_pairs, parse_with, parse_query,
}
use lhttp_parser.Query.Container.Lookup.{values_of}
use lhttp_parser.Query.Data.{Kv, Error, ok, strict, has_option}
use lhttp_parser.Query.Parse.Codes.{llquery_parse_ex-ok}
use lhttp_parser.Query.Parse.Entry.{strip_mark, is_decoded, decoded_text, llquery_parse_ex-pairs_of}
use lhttp_parser.Query.Parse.Reference.{pairs_of}
use lhttp_parser.Query.Parse.{estimate_string_size, llquery_parse_ex}

-- What the returned table has under a key.
abbrev pub entry_in : {T : Type 0} → Tables T → Returned T → Bytes → Option Entry
entry_in tables raised key = none
entry_in tables nothing key = none
entry_in tables nil_value key = none
entry_in tables undefined key = none
entry_in tables (table t) key = some (tables.rawget t key)

-- The pairs that a query stands for under the flags, as many as the structure has room for.
abbrev pub query_pairs : ℕ → Bytes → List Kv
query_pairs flags input =
    let text = strip_mark input in
    take default_max_pairs (pairs_of flags (is_decoded flags text) (decoded_text flags text))

blank-length : (s : Bytes) → is_blank s ≡ false → 0 < length s
blank-length [] h = cc
blank-length (c ∷ s) h = omega arith

returned_for-ok :
    {T : Type 0} (tables : Tables T) (r : Error × List Kv) (kvs : List Kv)
    → r.0 ≡ ok
    → r.1 ≡ kvs
    → returned_for tables r ≡ table (query_to_lua_table tables kvs)
returned_for-ok tables (e, ks) kvs h k = rw (h, k) refl

-- For all tables of Lua, every allocator that has memory for the structures, the buffer and the
-- string pool, every argument that stands for flags without strict mode, every query that does not
-- begin with a NUL, is not 8192 bytes long, and does not have bytes to decode behind a leading `?`,
-- and every key of at least one byte: `parse_query` returns a table, and under the key it has nil, a
-- text or an array of texts, for the values of the key among the first 128 pairs of the query.
pub parse_query-values_of :
    {T : Type 0} (tables : Tables T) (alloc : ℕ → Bool) (internal_size kv_size : ℕ) (input : Bytes)
    (argument : Argument) (key : Bytes) {flags : ℕ}
    → argument_flags argument ≡ some flags
    → has_option flags strict ≡ false
    → is_blank input ≡ false
    → can_init alloc internal_size kv_size ≡ true
    → has_buffer alloc (length input) ≡ true
    → alloc (estimate_string_size (length (strip_mark input))) ≡ true
    → overruns (length input) ≡ false
    → overlaps flags input ≡ false
    → 0 < length key
    → entry_in tables (parse_query tables alloc internal_size kv_size input argument) key
      ≡ some (entry_of (values_of key (query_pairs flags input)))
unfolding parse_query parse_with
parse_query-values_of tables alloc internal_size kv_size input argument key {flags} given lax filled
      ready buffer pool inside apart pos =
    let bytes = blank-length input filled in
    let result =
      llquery_parse_ex alloc flags default_max_pairs input (length input) (length input + 1) in
    let parsed : returned_for tables result
        ≡ table (query_to_lua_table tables (query_pairs flags input)) =
      returned_for-ok tables result (query_pairs flags input)
        (llquery_parse_ex-ok alloc flags default_max_pairs (length input + 1) lax input bytes pool
          (omega arith))
        (llquery_parse_ex-pairs_of alloc flags default_max_pairs input (length input + 1) bytes pool
          (omega arith)).0 in
    rw (given, parse_query, entry_in)
      (rw (filled, ready, buffer, inside, apart, parsed)
        (ap some (query_to_lua_table-values_of tables (query_pairs flags input) key pos)))
