-- ===== src/Url/Host/Percent.antt =====
-- llurl.c: `validate_host_percent_encoding` against what a percent sign wants behind it.
use lhttp_parser.Prelude.{
  ℕ, zero, suc, ◌+◌, ◌-◌, ◌≤◌, ◌<◌, ◌≡◌, ◌≢◌, ◌↔◌, refl, true, Option, none, some, inl, inr, arith,
  ◌==◌, leb, Memory, memchr, FoundIn, memchr_range, PassedOver, memchr_passes, memchr_lacks,
  LacksByte, Bool-cases,
}
use lhttp_parser.Url.Chars.{is_hex}
use lhttp_parser.Url.Chars.Ranges.{is_hex_range}
use lhttp_parser.Url.Host.{percent_loop, validate_host_percent_encoding}

-- Two hexadecimal digits follow the byte at `q`, before `end`.
abbrev pub HexPairAfter : Memory → ℕ → ℕ → Type 0
HexPairAfter m end q = (q + 2 < end) × (is_hex (m (q + 1)) ≡ true) × (is_hex (m (q + 2)) ≡ true)

-- Every percent sign in `buf[p .. p + n)` has its two digits there.
abbrev pub PercentsPaired : Memory → ℕ → ℕ → Type 0
PercentsPaired m p n = (q : ℕ) → p ≤ q → q < p + n → m q ≡ b'%' → HexPairAfter m (p + n) q

hex_not_percent : (c : ℕ) → is_hex c ≡ true → c ≢ b'%'
hex_not_percent c h e = ground (arith, is_hex_range c)

sound : (m : Memory) (p n : ℕ) → percent_loop m p n ≡ true → PercentsPaired m p n
unfolding percent_loop
sound m p zero h q le lt e = absurd (omega arith)
sound m p (suc zero) h q le lt e = let here : q ≡ p = omega arith in ground arith
sound m p (suc (suc zero)) h q le lt e = elim (Bool-cases (q == p)) [
  | inl here ↦ ground arith
  | inr later ↦
      ground (arith, sound m (p + 1) (suc zero) (ground arith) q (ground arith) (omega arith) e)
]
sound m p (suc (suc (suc n))) h q le lt e = elim (Bool-cases (m p == b'%')) [
  | inl sign ↦ elim (Bool-cases (leb q (p + 2))) [
    | inl near ↦ ground (arith, hex_not_percent (m (p + 1)), hex_not_percent (m (p + 2)))
    | inr far ↦ ground (arith, sound m (p + 3) n (ground arith) q (ground arith) (omega arith) e)
  ]
  | inr other ↦ elim (Bool-cases (q == p)) [
    | inl here ↦ ground arith
    | inr later ↦
        ground
          (arith, sound m (p + 1) (suc (suc n)) (ground arith) q (ground arith) (omega arith) e)
  ]
]

complete : (m : Memory) (p n : ℕ) → PercentsPaired m p n → percent_loop m p n ≡ true
unfolding percent_loop
complete m p zero h = refl
complete m p (suc zero) h = ground (arith, h p)
complete m p (suc (suc zero)) h = ground (arith, h p, h (p + 1))
complete m p (suc (suc (suc n))) h = ground (
  arith,
  h p,
  complete m (p + 3) n (λ q le lt e. ground (arith, h q)),
  complete m (p + 1) (suc (suc n)) (λ q le lt e. ground (arith, h q)),
)

-- The loop starts at the first percent sign; before it there is nothing to check.
from_first :
    (m : Memory) (off len r : ℕ)
    → off ≤ r
    → r < off + len
    → LacksByte m b'%' off (r - off)
    → (percent_loop m r (off + len - r) ≡ true) ↔ PercentsPaired m off len
from_first m off len r le lt before = (
  λ ok q from to sign. ground (arith, before q, sound m r (off + len - r) ok q),
  λ paired. complete m r (off + len - r) (λ q from to sign. ground (arith, paired q)),
)

start_loop :
    (m : Memory) (off len : ℕ) (o : Option ℕ)
    → LacksByte m b':' off len
    → FoundIn off (off + len) o
    → PassedOver m b'%' off len o
    → ((elim o [
      | none ↦ true
      | some r ↦ elim (memchr m b':' off len) [
        | some _ ↦ true
        | none ↦ percent_loop m r (off + len - r)
      ]
    ])
        ≡ true)
      ↔ PercentsPaired m off len
start_loop m off len none no_colon range passed =
    (λ _ q le lt sign. absurd (passed q le lt sign), λ _. refl)
start_loop m off len (some r) no_colon range passed =
    rw (memchr_lacks m b':' off len no_colon) (from_first m off len r range.0 range.1 passed)

-- For every memory, offset and length where the host holds no colon (an IPv6 address does):
-- `validate_host_percent_encoding` accepts the host exactly if each of its percent signs is
-- followed by two hexadecimal digits inside the host.
pub validate_host_percent_encoding_iff :
    (m : Memory) (off len : ℕ)
    → LacksByte m b':' off len
    → (validate_host_percent_encoding m off len ≡ true) ↔ PercentsPaired m off len
unfolding validate_host_percent_encoding
validate_host_percent_encoding_iff m off len no_colon =
    start_loop m off len (memchr m b'%' off len) no_colon (memchr_range m b'%' off len)
      (memchr_passes m b'%' off len)
