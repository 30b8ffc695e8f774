-- ===== src/Binding/Query.antt =====
-- lhttp_url.c: `parse_query` with its options, and `query_to_lua_table`, over the Lua tables that
-- they make. An array that a table holds stands in that table alone.
pub mod Table
pub mod Flags
pub mod Whole
use lhttp_parser.Prelude.{
  ℕ, zero, suc, ◌+◌, ◌-◌, ◌*◌, ◌%◌, ◌≡◌, Bool, true, false, not, ◌&&◌, ◌||◌, List, [], ◌∷◌, ◌++◌,
  Option, none, some, ◌==◌, leb, if◌then◌else◌, Bytes, length, bit_and, bit_or,
}
use lhttp_parser.Query.Container.Lookup.{same_text}
use lhttp_parser.Query.Data.{
  auto_decode, merge_duplicates, keep_empty, strict, lowercase_keys, trim_values, has_option, Kv,
  Error, ok,
}
use lhttp_parser.Query.Parse.{is_nil, llquery_parse_ex}
use lhttp_parser.Query.Strings.{has_encoded_chars}

-- What a table holds under a key.
pub data Entry : Type 0 where
  nil : Entry
  text : Bytes → Entry
  array : List Bytes → Entry

-- The tables of Lua with texts as their keys: what `lua_newtable`, `lua_rawget` and `lua_rawset` do.
pub record Tables (T : Type 0) : Type 0 where
  pub new_table : T
  pub rawget : T → Bytes → Entry
  pub rawset : T → Bytes → Entry → T
  pub rawget-new_table : (key : Bytes) → rawget new_table key ≡ nil
  pub rawget-rawset :
      (t : T) (key : Bytes) (entry : Entry) (key' : Bytes)
      → rawget (rawset t key entry) key' ≡ (if same_text key key' then entry else rawget t key')

-- The entry behind one more value.
abbrev pub with_value : Entry → Bytes → Entry
with_value nil v = text v
with_value (text old) v = array (old ∷ v ∷ [])
with_value (array vs) v = array (vs ++ (v ∷ []))

module _ {T : Type 0} (tables : Tables T) where
  -- The loop of `query_to_lua_table`, on the table `t`.
  unfoldable pub add_pairs : T → List Kv → T
  add_pairs t [] = t
  add_pairs t (kv ∷ kvs) =
      if is_nil kv.key
      then add_pairs t kvs
      else add_pairs (tables.rawset t kv.key (with_value (tables.rawget t kv.key) kv.value)) kvs

  unfoldable pub query_to_lua_table : List Kv → T
  query_to_lua_table kvs = add_pairs tables.new_table kvs

-- The options table: a field is `none` where the table has nil under its name.
pub record Options : Type 0 where
  pub decode : Option Bool
  pub merge_duplicates : Option Bool
  pub keep_empty : Option Bool
  pub lowercase_keys : Option Bool
  pub trim_values : Option Bool
  pub strict : Option Bool

-- The second argument: none or nil, an options table, a Boolean, an integer in two's complement, or
-- a value at which `luaL_checkinteger` raises an error.
pub data Argument : Type 0 where
  none_or_nil : Argument
  options : Options → Argument
  boolean : Bool → Argument
  integer : ℕ → Argument
  other : Argument

-- `opt_bool_field`
abbrev pub opt_bool_field : Option Bool → Bool → Bool
opt_bool_field none default_val = default_val
opt_bool_field (some b) default_val = b

-- `if (!b) flags &= (uint16_t)~flag`
abbrev pub clear_unless : Bool → ℕ → ℕ → ℕ
clear_unless b flag flags = if b then flags else bit_and flags (65535 - flag)

-- `if (b) flags |= flag`
abbrev pub set_if : Bool → ℕ → ℕ → ℕ
set_if b flag flags = if b then bit_or flags flag else flags

abbrev pub default_flags : ℕ
default_flags = bit_or (bit_or auto_decode keep_empty) merge_duplicates

unfoldable pub option_flags : Options → ℕ
option_flags o = set_if (opt_bool_field o.strict false) strict (
    set_if (opt_bool_field o.trim_values false) trim_values (
      set_if (opt_bool_field o.lowercase_keys false) lowercase_keys (
        clear_unless (opt_bool_field o.keep_empty true) keep_empty (
          clear_unless (opt_bool_field o.merge_duplicates true) merge_duplicates
            (clear_unless (opt_bool_field o.decode true) auto_decode default_flags)))))

-- The flags for the second argument; `none` where an error is raised.
unfoldable pub argument_flags : Argument → Option ℕ
unfolding option_flags
argument_flags none_or_nil = some default_flags
argument_flags (options o) = some (option_flags o)
argument_flags (boolean b) = some (clear_unless b merge_duplicates default_flags)
argument_flags (integer n) = some (n % 65536)
argument_flags other = none

-- What `parse_query` returns: an error that is raised, no value, nil, or a table. A write outside a
-- buffer, or a `memcpy` between places that overlap, is `undefined`.
pub data Returned (T : Type 0) : Type 0 where
  raised nothing nil_value undefined : Returned T
  table : T → Returned T

abbrev pub default_max_pairs : ℕ
default_max_pairs = 128

-- `alloc n`: `malloc` has memory for `n` bytes. `internal_size` and `kv_size` are the sizes of
-- `llquery_internal_t` and `struct llquery_kv`. Whether `llquery_init` succeeds, for `max_pairs` of 0.
abbrev pub can_init : (ℕ → Bool) → ℕ → ℕ → Bool
can_init alloc internal_size kv_size = alloc internal_size && alloc (kv_size * default_max_pairs)

-- The writable buffer: the one on the stack, also where it is one byte too short, or one from
-- `malloc`.
abbrev pub has_buffer : (ℕ → Bool) → ℕ → Bool
has_buffer alloc l = if leb (8192 + 1) l then alloc (l + 1) else true

-- `buf[l] = 0` is written behind the end of the buffer on the stack.
abbrev pub overruns : ℕ → Bool
overruns l = not (leb (8192 + 1) l) && leb 8192 l

-- `llquery_parse_ex` copies what it decodes into its buffer, which is the query itself here: the
-- bytes behind a leading `?` move by one place, where `memcpy` may not copy two bytes or more. Without
-- the mark they are copied onto themselves, which is taken to leave them.
abbrev pub overlaps : ℕ → Bytes → Bool
overlaps flags [] = false
overlaps flags (c ∷ s) =
    c == b'?' && leb 2 (length s) && has_option flags auto_decode && has_encoded_chars s

-- `!*input`: the text is empty or begins with a NUL.
abbrev pub is_blank : Bytes → Bool
is_blank [] = true
is_blank (c ∷ s) = c == 0

module _ {T : Type 0} (tables : Tables T) where
  -- `query_to_lua_table` where the query was parsed, nil where it was not.
  abbrev pub returned_for : Error × List Kv → Returned T
  returned_for (ok, kvs) = table (query_to_lua_table tables kvs)
  returned_for (error, kvs) = nil_value

module _ {T : Type 0} (tables : Tables T) (alloc : ℕ → Bool) (internal_size kv_size : ℕ) where
  -- The buffer for decoding is the copy of the query itself.
  unfoldable pub parse_with : ℕ → Bytes → Returned T
  parse_with flags input =
      if is_blank input
      then nothing
      else if can_init alloc internal_size kv_size && has_buffer alloc (length input)
      then (if overruns (length input) || overlaps flags input
          then undefined
          else returned_for tables (
              llquery_parse_ex alloc flags default_max_pairs input (length input)
                (length input + 1)))
      else nothing

  unfoldable pub parse_query : Bytes → Argument → Returned T
  unfolding argument_flags
  parse_query input argument = elim (argument_flags argument) [
    | none ↦ raised
    | some flags ↦ parse_with flags input
  ]
