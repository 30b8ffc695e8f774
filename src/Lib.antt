-- ===== src/Lib.antt =====
-- lhttp_parser: a URL parser and a query-string parser in C, with Lua bindings.
--
-- The program. llurl.c splits a URL into its fields: `http_parser_parse_url` reads a buffer with an
-- automaton over its states, and leaves an offset and a length for each field. llquery.c splits the
-- query of a URL into pairs of key and value, decodes and encodes percent escapes, and writes pairs
-- as a query again. lhttp_url.c and lhttp_parser.c bind both, and the parser under llhttp/, to Lua.
-- The two libraries do not call each other: a caller passes the query that the first has found on
-- to the second.
--
-- The files.
--   * Prelude: names of the standard library, the native numbers, tests on bytes, `Memory` (a
--     function from addresses to bytes), `memchr` with what it finds and passes over, and texts that
--     are read by a pointer and a length.
--   * Url (llurl.c, llurl.h). Url/Chars: the table `char_flags` and its tests. Url/Automaton: the
--     states, `char_class_table`, `url_state_table`. Url/Fields: `struct http_parser_url`, its bit
--     set as a function, its offsets and lengths stored modulo 65536. Url/Port: `parse_port`.
--     Url/Host: `finalize_host_with_port`, `validate_host_percent_encoding`. Url/Scan: the batch
--     scans. Url/Locals: the local variables of the parsing function. Url/Server and Url/Round: one
--     round of its loop, a function for each state. Url/Parse: the way in (`first_round`, with the
--     schemas read ahead), the loop, the checks at its end, and `http_parser_parse_url`.
--     Proofs: Url/Chars/Ranges, Url/Port/Reference, Url/Host/Percent, Url/Invariant (the rule for
--     invariants of the loop), Url/Bounds, Url/PortField, Url/Connect (CONNECT mode), Url/Termination
--     (with Fuel: a run of the loop, round by round), Url/Target, Url/ReadAhead (the read-ahead of
--     schemas against the automaton), Url/Locality (which bytes are read) and
--     Url/Absolute (the fields of absolute URLs, with Host, Tail and User for the
--     parts of a run, and Found for what is returned). Runs and examples: Url/Tests
--     and Url/Absolute/Tests.
--   * Query (llquery.c, llquery.h). Query/Chars: the tables. Query/Codec: `llquery_url_encode` and
--     `llquery_url_decode`. Query/Strings: `has_encoded_chars`, `decode_in_place`, `trim_string`,
--     `lowercase_string`. Query/Data: options, error codes, `struct llquery_kv`. Query/Parse:
--     `llquery_parse_ex` with the string pool. Query/Stringify: `llquery_stringify`.
--     Query/Container: the lookups, `llquery_iterate`, `llquery_count_pairs`, `llquery_is_valid`.
--     Query/Sort: `llquery_sort` and `compare_keys`. Query/Fast: `llquery_parse_fast`.
--     Proofs: Query/Codec/Laws, Query/Strings/Laws, Query/Parse/Reference (a query as a list of
--     segments), Query/Parse with Correct, Entry and Codes, Query/Stringify/RoundTrip,
--     Query/Container/Lookup, Query/Container/Counting, Query/Sort/Ordered (the interface of a
--     comparison function), Query/Sort/Agreement, Query/Sort/Keys and Query/Fast/Agreement. Runs
--     and examples: Query/Tests.
--   * Query/Memory (llquery.c again): the same structure as pointers into a heap.
--     Query/Memory: blocks, `alloc_fn` and `free_fn`, as a monad that fails at a fault.
--     Query/Memory/Structure: `llquery_init_ex`, `llquery_free`, `llquery_reset`.
--     Query/Memory/Allocator: `llquery_set_allocator`.
--     Query/Memory/Store: `pool_alloc_string` and the loop of `llquery_parse_ex`.
--     Query/Memory/Session: the whole of `llquery_parse_ex`, `llquery_filter`, and sequences of calls.
--     Query/Memory/Clone: `llquery_clone`.
--     Proofs: Query/Memory/Owned (which blocks are owned, counted), Query/Memory/Structure/Release,
--     Query/Memory/Store/Keeps, Query/Memory/Session with Filters, Parses and Balance,
--     Query/Memory/Clone with Pairs and Copies, and, against the reading by texts, Query/Memory/Partial and
--     Query/Memory/Agreement with Loop and Whole. Runs: Query/Memory/Tests.
--   * Binding (lhttp_url.c, lhttp_parser.c). Binding/Codec: `encode_url`, `decode_url`.
--     Binding/Query: `parse_query`, its options, `query_to_lua_table`. Binding/Url:
--     `lhttp_parser_parse_url`. Binding/Execute: the positions that `execute` takes.
--     Binding/Callbacks: the callbacks of llhttp and the Lua functions behind them. Binding/Parser:
--     `new`, `execute`, `finish`, `reset`, `pause`, `resume`, `resume_after_upgrade` and `__gc`.
--     Binding/Methods: the methods that read a parser, and `__tostring`.
--     Proofs: Binding/Codec/Laws, Binding/Query with Table, Flags and Whole, Binding/Url/Target,
--     Binding/Url/Absolute (a URL that is written from its parts) with Places and Whole,
--     Binding/Execute/Range, Binding/Callbacks/Heads, Binding/Parser with Idle and
--     Lifetime. Runs: Binding/Tests and Binding/Url/Absolute/Tests.
--
-- How the code is read. A byte is a number; a buffer of the URL parser is a memory and a length, so
-- that a read past the length is a read of some byte. A text of the query parser is the list of its
-- bytes. A call of the URL parser is the structure it fills, or nothing where it returns 1. A
-- `goto` or `continue` of the loop is the state record of the next round, an early return is a
-- constructor of `Outcome`. The allocator of a query is a parameter: a function that says for which
-- sizes it has memory; in Query/Memory it may refuse each call on its own. Lua and llhttp are
-- parameters too. A Lua table is an interface, what `lua_rawget` finds behind `lua_newtable` and
-- `lua_rawset`. A run of llhttp is a tree: it ends with a code, or invokes a callback and goes on by
-- what the callback returns. What a Lua callback does may depend on all callbacks before it; a
-- record says how it ends and whether it calls `execute` or `finish` of the same parser. A Lua error
-- that leaves a callback, an argument that is rejected, and the use of a null state are results.
--
-- Bounds and fuel. `uint16_t` members are written `% 65536`; offsets beside them are `size_t` and
-- stay numbers. The loop of `http_parser_parse_url` has fuel `enough n = 2 * n + 2`: each round
-- reads on, but for the one that leaves the path at a delimiter and reads it again. The loop of
-- `llquery_parse_ex` has the length of the text as its fuel, since each round reads a byte, and so
-- have the loops of `llquery_count_pairs`, of `llquery_parse_fast` and of Query/Memory/Store. The
-- `size_t` values of `execute` are computed modulo 2 ^ 64.
--
-- Not modelled: the parser under llhttp/, a copy of another project; a call of
-- `llquery_set_allocator` with functions that work on another heap; the bytes of strings in Query/Memory, and
-- what the options `lowercase_keys` and `trim_values` write to them; the stack of Lua, and the
-- module tables that luaopen_lhttp_url and
-- luaopen_lhttp_parser make; the collector of Lua; what follows where `parse_query` writes one byte
-- behind its buffer or copies between places that overlap, which are results of their own; calls of
-- `pause` and `resume` within a callback; what a failed call leaves in `struct http_parser_url`; null
-- arguments; the tests and the benchmarks (t_url.c, t_query.c, bench.lua, spec/).
pub mod Prelude
pub mod Url
pub mod Query
pub mod Binding
