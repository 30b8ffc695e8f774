-- ===== src/Url/Port/Reference.antt =====
-- llurl.c: the unrolled paths of `parse_port` against the decimal number that the bytes spell.
use lhttp_parser.Prelude.{
  ℕ, zero, suc, ◌+◌, ◌*◌, ◌≤◌, ◌<◌, ◌≡◌, refl, ◌∙◌, Bool, true, ◌&&◌, Option, none, some, bit_and,
  arith, ltb, leb, if◌then◌else◌, Memory, all_from, table_holds, table_entry, ltb→lt, eqb, eqb→eq,
  inl, inr, Bool-cases,
}
use lhttp_parser.Url.Chars.{char_digit, char_flags, has_flag, is_digit}
use lhttp_parser.Url.Chars.Ranges.{digit_range, is_digit_range, char_flags_above}
use lhttp_parser.Url.Port.{digit_value, port_loop, port_1, port_2, port_3, port_4, parse_port}

-- The number that `n` digits from `p` on spell behind `acc`, with no bound.
abbrev pub decimal : Memory → ℕ → ℕ → ℕ → ℕ
decimal m p zero acc = acc
decimal m p (suc n) acc = decimal m (p + 1) n (acc * 10 + digit_value (m p))

-- What a port is: one to five digits whose number is at most 65535.
abbrev pub port_of : Memory → ℕ → ℕ → Option ℕ
port_of m p len =
    if leb 1 len && leb len 5 && all_from digit_range m p len && leb (decimal m p len 0) 65535
    then some (decimal m p len 0)
    else none

le-decimal : (m : Memory) (p n acc : ℕ) → acc ≤ decimal m p n acc
le-decimal m p zero acc = omega arith
le-decimal m p (suc n) acc = omega (arith, le-decimal m (p + 1) n (acc * 10 + digit_value (m p)))

port_loop-decimal :
    (m : Memory) (p n acc : ℕ)
    → acc ≤ 65535
    → port_loop m p n acc ≡ (
        if all_from digit_range m p n && leb (decimal m p n acc) 65535
        then some (decimal m p n acc)
        else none)
unfolding port_loop all_from
port_loop-decimal m p zero acc h = ground arith
port_loop-decimal m p (suc n) acc h =
    let acc' = acc * 10 + digit_value (m p) in
    ground
      (arith, is_digit_range (m p), le-decimal m (p + 1) n acc', port_loop-decimal m (p + 1) n acc')

-- The digit bit of a conjunction of flag bytes is set where it is set in both.
digit_bit : ℕ → Bool
digit_bit flags = has_flag flags char_digit

below_64 : ℕ → ℕ → Bool
below_64 a b = ltb (bit_and a b) 64

cell : ℕ → ℕ → Bool
cell a b = below_64 a b && eqb (digit_bit (bit_and a b)) (digit_bit a && digit_bit b)

and_table : table_holds 64 (λ a. table_holds 64 (cell a)) ≡ true
unfolding table_holds cell digit_bit below_64
and_table = refl

digit_bit-and :
    (a b : ℕ)
    → a < 64
    → b < 64
    → (bit_and a b < 64) × (digit_bit (bit_and a b) ≡ (digit_bit a && digit_bit b))
unfolding cell below_64
digit_bit-and a b ha hb =
    let row = table_entry 64 _ a and_table ha in
    let entry : cell a b ≡ true = table_entry 64 (cell a) b row hb in
    ground (arith, entry, eqb→eq (digit_bit (bit_and a b)) (digit_bit a && digit_bit b))

flags_table : table_holds 256 (λ c. ltb (char_flags c) 64) ≡ true
unfolding table_holds char_flags
flags_table = refl

char_flags_below : (c : ℕ) → char_flags c < 64
char_flags_below c = elim (Bool-cases (ltb c 256)) [
  | inl below ↦ ltb→lt _ _ (table_entry 256 _ c flags_table (ltb→lt c 256 below))
  | inr far ↦ omega (arith, char_flags_above c (ground arith))
]

is_digit-bit : (c : ℕ) → digit_bit (char_flags c) ≡ digit_range c
unfolding digit_bit is_digit
is_digit-bit c = is_digit_range c

-- A conjunction of flags of bytes has the digit bit if all the bytes are digits.
and_flags :
    (a c : ℕ)
    → a < 64
    → (bit_and a (char_flags c) < 64)
      × (digit_bit (bit_and a (char_flags c)) ≡ (digit_bit a && digit_range c))
and_flags a c h = rw (← is_digit-bit c) (digit_bit-and a (char_flags c) h (char_flags_below c))

flags_3 :
    (a b c : ℕ)
    → digit_bit (bit_and (bit_and (char_flags a) (char_flags b)) (char_flags c))
      ≡ (digit_range a && digit_range b && digit_range c)
flags_3 a b c =
    let first = and_flags (char_flags a) b (char_flags_below a) in
    let second = and_flags (bit_and (char_flags a) (char_flags b)) c first.0 in
    second.1 ∙ rw (first.1, is_digit-bit a)

flags_4 :
    (a b c d : ℕ)
    → digit_bit
        (bit_and (bit_and (bit_and (char_flags a) (char_flags b)) (char_flags c)) (char_flags d))
      ≡ (digit_range a && digit_range b && digit_range c && digit_range d)
flags_4 a b c d =
    let first = and_flags (char_flags a) b (char_flags_below a) in
    let second = and_flags (bit_and (char_flags a) (char_flags b)) c first.0 in
    let third =
      and_flags (bit_and (bit_and (char_flags a) (char_flags b)) (char_flags c)) d second.0 in
    third.1 ∙ rw (second.1, first.1, is_digit-bit a)

module _ (m : Memory) (p : ℕ) where
  port_1-decimal : port_1 (m p) ≡ port_of m p 1
  unfolding port_1 all_from
  port_1-decimal = ground (arith, is_digit_range (m p))

  port_2-decimal : port_2 (m p) (m (p + 1)) ≡ port_of m p 2
  unfolding port_2 all_from
  port_2-decimal = ground (arith, is_digit_range (m p), is_digit_range (m (p + 1)))

  port_3-decimal : port_3 (m p) (m (p + 1)) (m (p + 2)) ≡ port_of m p 3
  unfolding port_3 all_from digit_bit
  port_3-decimal = ground (arith, flags_3 (m p) (m (p + 1)) (m (p + 2)))

  port_4-decimal : port_4 (m p) (m (p + 1)) (m (p + 2)) (m (p + 3)) ≡ port_of m p 4
  unfolding port_4 all_from digit_bit
  port_4-decimal = ground (arith, flags_4 (m p) (m (p + 1)) (m (p + 2)) (m (p + 3)))

  port_long : (len : ℕ) → len ≡ 5 → port_loop m p len 0 ≡ port_of m p 5
  port_long len e = rw e (port_loop-decimal m p 5 0 (omega arith))

-- For every memory, offset and length, `parse_port` with its unrolled paths returns the decimal
-- number of the bytes if they are one to five digits whose number is at most 65535, and fails
-- otherwise.
pub parse_port-port_of : (m : Memory) (p len : ℕ) → parse_port m p len ≡ port_of m p len
unfolding parse_port
parse_port-port_of m p zero = refl
parse_port-port_of m p (suc zero) = port_1-decimal m p
parse_port-port_of m p (suc (suc zero)) = port_2-decimal m p
parse_port-port_of m p (suc (suc (suc zero))) = port_3-decimal m p
parse_port-port_of m p (suc (suc (suc (suc zero)))) = port_4-decimal m p
parse_port-port_of m p (suc (suc (suc (suc (suc zero))))) = port_long m p 5 refl
parse_port-port_of m p (suc (suc (suc (suc (suc (suc n)))))) = ground arith

-- A port that is returned fits in 16 bits.
pub parse_port_bound : (m : Memory) (p len : ℕ) {v : ℕ} → parse_port m p len ≡ some v → v ≤ 65535
parse_port_bound m p len h = ground (arith, parse_port-port_of m p len)
