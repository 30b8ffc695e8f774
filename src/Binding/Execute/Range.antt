-- ===== src/Binding/Execute/Range.antt =====
-- lhttp_parser.c: which part of the chunk `execute` parses.
use lhttp_parser.Prelude.{
  ℕ, ◌+◌, ◌-◌, ◌%◌, ◌≤◌, ◌<◌, ◌≡◌, Option, none, some, arith, ltb, leb, if◌then◌else◌, ◌↔◌,
}
use lhttp_parser.Binding.Execute.{
  Integer, pos, negsuc, size_limit, posrelat_i, getendpos, optinteger, check_range, execute_range,
}

-- A position that Lua can pass and a length that a Lua string can have.
abbrev pub Fits : Integer → Type 0
Fits (pos n) = n < 9223372036854775808
Fits (negsuc n) = n < 9223372036854775808

-- The start that an argument stands for: counted from 1, or from the end where it is negative, and
-- 0 and what lies before the chunk are its first byte. The offset is one less.
abbrev pub start_offset : Integer → ℕ → ℕ
start_offset (pos n) len = n - 1
start_offset (negsuc n) len = len - (n + 1)

-- The end that an argument stands for: at most the length, and 0 before the chunk.
abbrev pub end_offset : Integer → ℕ → ℕ
end_offset (pos n) len = if ltb len n then len else n
end_offset (negsuc n) len = len - n

posrelat_i-offset :
    (i : Integer) (len : ℕ)
    → Fits i
    → len < 9223372036854775808
    → (posrelat_i i len + size_limit - 1) % size_limit ≡ start_offset i len
unfolding posrelat_i
posrelat_i-offset (pos n) len h short = ground arith
posrelat_i-offset (negsuc n) len h short = ground arith

getendpos-offset :
    (j : Integer) (len : ℕ)
    → Fits j
    → len < 9223372036854775808
    → getendpos j len ≡ end_offset j len
unfolding getendpos
getendpos-offset (pos n) len h short = ground arith
getendpos-offset (negsuc n) len h short = ground arith

start_offset-lt :
    (i : Integer) (len : ℕ) → Fits i → len < 9223372036854775808 → start_offset i len < size_limit
start_offset-lt (pos n) len h short = omega arith
start_offset-lt (negsuc n) len h short = omega arith

pub end_offset-le : (j : Integer) (len : ℕ) → end_offset j len ≤ len
end_offset-le (pos n) len = ground arith
end_offset-le (negsuc n) len = omega arith

-- The range from `start` to `end`, where `start` is at most the length of the chunk; its length has
-- wrapped around where it would be negative.
abbrev pub range_for : ℕ → ℕ → ℕ → Option (ℕ × ℕ)
range_for chunk_len start end =
    if ltb chunk_len start
    then none
    else some (start, if leb start end then end - start else size_limit - (start - end))

check_range-range_for :
    (chunk_len start end : ℕ)
    → chunk_len < 9223372036854775808
    → start < size_limit
    → end ≤ chunk_len
    → check_range chunk_len start end ≡ range_for chunk_len start end
unfolding check_range
check_range-range_for chunk_len start end short less fits = ground arith

-- For every chunk and positions that Lua can pass: the check on the offset is on the start that the
-- first position stands for; where it passes, the range goes from there to the end that the second
-- one stands for, but where the end lies before the start, the check on the length passes too, and
-- the length has wrapped around.
pub execute_range-range_for :
    (chunk_len : ℕ) (i j : Option Integer)
    → chunk_len < 9223372036854775808
    → Fits (optinteger i (pos 1))
    → Fits (optinteger j (negsuc 0))
    → execute_range chunk_len i j
      ≡ range_for chunk_len
          (start_offset (optinteger i (pos 1)) chunk_len)
          (end_offset (optinteger j (negsuc 0)) chunk_len)
unfolding execute_range
execute_range-range_for chunk_len i j short hi hj =
    let i' = optinteger i (pos 1) in
    let j' = optinteger j (negsuc 0) in
    rw (posrelat_i-offset i' chunk_len hi short, getendpos-offset j' chunk_len hj short)
      (check_range-range_for chunk_len (start_offset i' chunk_len) (end_offset j' chunk_len) short
        (start_offset-lt i' chunk_len hi short) (end_offset-le j' chunk_len))

-- For every chunk and positions that Lua can pass: where the checks let a range through, it lies in
-- the chunk exactly if the end does not lie before the start.
pub execute_range-in_chunk_iff :
    (chunk_len : ℕ) (i j : Option Integer) {off len : ℕ}
    → chunk_len < 9223372036854775808
    → Fits (optinteger i (pos 1))
    → Fits (optinteger j (negsuc 0))
    → execute_range chunk_len i j ≡ some (off, len)
    → (off + len ≤ chunk_len) ↔ (
        start_offset (optinteger i (pos 1)) chunk_len
        ≤ end_offset (optinteger j (negsuc 0)) chunk_len)
execute_range-in_chunk_iff chunk_len i j short hi hj ok = ground (
  arith,
  execute_range-range_for chunk_len i j short hi hj,
  end_offset-le (optinteger j (negsuc 0)) chunk_len,
)
