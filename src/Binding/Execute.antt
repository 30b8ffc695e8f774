-- ===== src/Binding/Execute.antt =====
-- lhttp_parser.c: the arguments of `execute` that say which part of the chunk is parsed.
pub mod Range
use lhttp_parser.Prelude.{
  ℕ, ◌+◌, ◌-◌, ◌%◌, Bool, true, false, not, ◌&&◌, ◌||◌, Option, none, some, ◌==◌, ltb, leb,
  if◌then◌else◌, Bytes, length, Memory, memory, shift,
}

-- A `lua_Integer`; `negsuc n` is -(n + 1).
pub data Integer : Type 0 where
  pos : ℕ → Integer
  negsuc : ℕ → Integer

-- The range of `size_t`.
abbrev pub size_limit : ℕ
size_limit = 18446744073709551616

-- `(size_t)pos`
abbrev pub to_size : Integer → ℕ
to_size (pos n) = n % size_limit
to_size (negsuc n) = (size_limit - (n + 1)) % size_limit

unfoldable pub posrelat_i : Integer → ℕ → ℕ
posrelat_i (pos n) len = if n == 0 then 1 else to_size (pos n)
posrelat_i (negsuc n) len =
    if ltb len (n + 1) then 1 else (len + to_size (negsuc n) + 1) % size_limit

-- `getendpos`, on the value of its optional argument.
unfoldable pub getendpos : Integer → ℕ → ℕ
getendpos (pos n) len = if ltb len n then len else to_size (pos n)
getendpos (negsuc n) len =
    if ltb len (n + 1) then 0 else (len + to_size (negsuc n) + 1) % size_limit

-- An optional argument.
abbrev pub optinteger : Option Integer → Integer → Integer
optinteger none default_val = default_val
optinteger (some n) default_val = n

-- The two `luaL_argcheck`s on the length that is computed; `none` where one raises an error.
unfoldable pub check_range : ℕ → ℕ → ℕ → Option (ℕ × ℕ)
check_range chunk_len offset end =
    let len = (end + size_limit - offset) % size_limit in
    if not (leb offset chunk_len)
    then none
    else if not (leb ((offset + len) % size_limit) chunk_len)
    then none
    else some (offset, len)

-- The offset and the length of the part of the chunk that is parsed.
unfoldable pub execute_range : ℕ → Option Integer → Option Integer → Option (ℕ × ℕ)
unfolding check_range
execute_range chunk_len i j =
    check_range chunk_len
      ((posrelat_i (optinteger i (pos 1)) chunk_len + size_limit - 1) % size_limit)
      (getendpos (optinteger j (negsuc 0)) chunk_len)
