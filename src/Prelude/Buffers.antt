-- ===== src/Prelude/Buffers.antt =====
-- The memory behind a C pointer, and the C library's `memchr` over it.
use Prim.Native.Nat.{ℕ, zero, suc, ◌+◌, ◌-◌, ◌≤◌, ◌<◌}
use mathlib.Core.Bool.{Bool, true, ◌&&◌}
use mathlib.Core.Logic.{◌≢◌, inl, inr}
use mathlib.Core.Option.{Option, none, some}
use mathlib.Core.Path.{◌≡◌, refl}
use native.Mathlib.Omega.{arith}
use lhttp_parser.Prelude.Tests.{◌==◌, if◌then◌else◌, Bool-cases}
use lhttp_parser.Prelude.Lists.{get_or, Bytes}

-- `buf[i]` for every offset, also past the end of the buffer: what stands there is arbitrary.
abbrev pub Memory : Type 0
Memory = ℕ → ℕ

-- A text in memory with its terminating NUL, and zeros behind it.
abbrev pub memory : Bytes → Memory
memory s i = get_or s i 0

-- `memchr(buf + p, c, n)`, as an offset from `buf`.
unfoldable pub memchr : Memory → ℕ → ℕ → ℕ → Option ℕ
memchr m c p zero = none
memchr m c p (suc n) = if m p == c then some p else memchr m c (p + 1) n

-- A loop that tests every byte of `buf[p .. p + n)`.
unfoldable pub all_from : (ℕ → Bool) → Memory → ℕ → ℕ → Bool
all_from ok m p zero = true
all_from ok m p (suc n) = ok (m p) && all_from ok m (p + 1) n

-- What `memchr` finds is in range, holds the byte, and no byte before it does.
pub memchr_sound :
    (m : Memory) (c p n : ℕ) {q : ℕ} → memchr m c p n ≡ some q → (p ≤ q) × (q < p + n) × (m q ≡ c)
unfolding memchr
memchr_sound m c p zero h = ground arith
memchr_sound m c p (suc n) {q} h = ground (arith, memchr_sound m c (p + 1) n {q = q})

abbrev pub FoundIn : ℕ → ℕ → Option ℕ → Type 0
FoundIn lo hi none = Unit
FoundIn lo hi (some q) = (lo ≤ q) × (q < hi)

-- The same, for a proof that splits on the result.
pub memchr_range : (m : Memory) (c p n : ℕ) → FoundIn p (p + n) (memchr m c p n)
unfolding memchr
memchr_range m c p zero = tt
memchr_range m c p (suc n) = ground (arith, memchr_range m c (p + 1) n)

-- The byte `c` stands nowhere in `buf[p .. p + n)`.
abbrev pub LacksByte : Memory → ℕ → ℕ → ℕ → Type 0
LacksByte m c p n = (q : ℕ) → p ≤ q → q < p + n → m q ≢ c

-- What `memchr` passes over does not hold the byte: all of the range if nothing is found.
abbrev pub PassedOver : Memory → ℕ → ℕ → ℕ → Option ℕ → Type 0
PassedOver m c p n none = LacksByte m c p n
PassedOver m c p n (some r) = LacksByte m c p (r - p)

pub LacksByte-cons :
    (m : Memory) (c p n : ℕ) → m p ≢ c → LacksByte m c (p + 1) n → LacksByte m c p (suc n)
LacksByte-cons m c p n first rest q le lt e = elim (Bool-cases (q == p)) [
  | inl here ↦ first (ground arith)
  | inr later ↦ rest q (ground arith) (omega arith) e
]

PassedOver-cons :
    (m : Memory) (c p n : ℕ) (o : Option ℕ)
    → m p ≢ c
    → FoundIn (p + 1) (p + 1 + n) o
    → PassedOver m c (p + 1) n o
    → PassedOver m c p (suc n) o
PassedOver-cons m c p n none first r h = LacksByte-cons m c p n first h
PassedOver-cons m c p n (some q) first r h = λ i le lt e. elim (Bool-cases (i == p)) [
  | inl here ↦ first (ground arith)
  | inr later ↦ h i (ground arith) (omega arith) e
]

pub memchr_passes : (m : Memory) (c p n : ℕ) → PassedOver m c p n (memchr m c p n)
unfolding memchr
memchr_passes m c p zero = λ q le lt e. omega arith
memchr_passes m c p (suc n) = elim (Bool-cases (m p == c)) [
  | inl found ↦ rw found (λ q le lt e. omega arith)
  | inr other ↦ rw other (
      PassedOver-cons m c p n _ (ground arith) (memchr_range m c (p + 1) n)
        (memchr_passes m c (p + 1) n))
]

-- `memchr` finds nothing where the byte does not stand.
pub memchr_lacks : (m : Memory) (c p n : ℕ) → LacksByte m c p n → memchr m c p n ≡ none
unfolding memchr
memchr_lacks m c p zero h = refl
memchr_lacks m c p (suc n) h =
    ground (arith, h p, memchr_lacks m c (p + 1) n (λ q le lt. h q (omega arith) (omega arith)))
