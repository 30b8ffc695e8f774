-- ===== src/Binding/Codec.antt =====
-- lhttp_url.c: `encode_url` and `decode_url`. A Lua string is the list of its bytes; `malloc` is the
-- function that says for which sizes it has memory.
pub mod Laws
use lhttp_parser.Prelude.{
  ℕ, ◌+◌, ◌-◌, Bool, [], Option, none, some, ltb, if◌then◌else◌, Bytes, length, Memory, bytes_at,
  block,
}
use lhttp_parser.Query.Codec.{Written, url_encode, url_decode}

-- A buffer behind a call that writes to it, or leaves it as it was.
abbrev pub buffer_after : Option Bytes → Memory → Memory
buffer_after none stale = stale
buffer_after (some s) stale = block s stale

-- `lua_pushlstring(L, buf, needed)` for the buffer behind a call.
abbrev pub push_written : Written → Memory → ℕ → Bytes
push_written w stale needed = bytes_at (buffer_after w.1 stale) needed

-- `stack` and `heap` are what the two buffers hold before.
module _ (malloc : ℕ → Bool) (stack heap : Memory) where
  unfoldable pub encode_url : Bytes → Bytes
  encode_url input =
      let first = url_encode input (length input) 2048 in
      let needed = first.0 in
      if ltb needed (2048 - 1)
      then push_written first stack needed
      else if malloc (needed + 1)
      then push_written (url_encode input (length input) (needed + 1)) heap needed
      else []

  unfoldable pub decode_url : Bytes → Bytes
  decode_url input =
      let first = url_decode input (length input) 2048 in
      if ltb first.0 2048
      then push_written first stack first.0
      else if malloc (first.0 + 1)
      then (let second = url_decode input (length input) (first.0 + 1) in
          push_written second heap second.0)
      else []
