-- ===== src/Url/Port.antt =====
-- llurl.c: `parse_port`, with its unrolled paths for one to four digits.
pub mod Reference
use lhttp_parser.Prelude.{
  ℕ, zero, suc, ◌+◌, ◌-◌, ◌*◌, ◌%◌, ◌≡◌, refl, Bool, true, false, not, ◌&&◌, ◌||◌, Option, none,
  some, bit_and, ◌==◌, ltb, leb, if◌then◌else◌, Memory,
}
use lhttp_parser.Url.Chars.{char_digit, char_flags, has_flag, is_digit}

-- `c - '0'`; the code uses it of digits alone.
abbrev pub digit_value : ℕ → ℕ
digit_value c = c - b'0'

-- The loop for five digits: the bytes from `p` on, of which `n` are left.
port_loop : Memory → ℕ → ℕ → ℕ → Option ℕ
port_loop m p zero val = some val
port_loop m p (suc n) val =
    let val' = val * 10 + digit_value (m p) in
    if not (is_digit (m p))
    then none
    else if ltb 65535 val'
    then none
    else port_loop m (p + 1) n val'

port_1 : ℕ → Option ℕ
port_1 c = if is_digit c then some (digit_value c) else none

port_2 : ℕ → ℕ → Option ℕ
port_2 c0 c1 =
    if is_digit c0 && is_digit c1 then some (digit_value c0 * 10 + digit_value c1) else none

port_3 : ℕ → ℕ → ℕ → Option ℕ
port_3 c0 c1 c2 =
    let flags = bit_and (bit_and (char_flags c0) (char_flags c1)) (char_flags c2) in
    if has_flag flags char_digit
    then some ((digit_value c0 * 100 + digit_value c1 * 10 + digit_value c2) % 65536)
    else none

port_4 : ℕ → ℕ → ℕ → ℕ → Option ℕ
port_4 c0 c1 c2 c3 =
    let flags =
      bit_and (bit_and (bit_and (char_flags c0) (char_flags c1)) (char_flags c2)) (char_flags c3) in
    let val = digit_value c0 * 1000 + digit_value c1 * 100 + digit_value c2 * 10 + digit_value c3 in
    if has_flag flags char_digit then (if leb val 65535 then some (val % 65536) else none) else none

-- `parse_port(buf + p, len, &port)`: the port where the call returns 0.
unfoldable pub parse_port : Memory → ℕ → ℕ → Option ℕ
unfolding port_loop port_1 port_2 port_3 port_4
parse_port m p len =
    if len == 0 || ltb 5 len
    then none
    else if len == 1
    then port_1 (m p)
    else if len == 2
    then port_2 (m p) (m (p + 1))
    else if len == 3
    then port_3 (m p) (m (p + 1)) (m (p + 2))
    else if len == 4
    then port_4 (m p) (m (p + 1)) (m (p + 2)) (m (p + 3))
    else port_loop m p len 0
