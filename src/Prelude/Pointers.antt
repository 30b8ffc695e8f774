-- ===== src/Prelude/Pointers.antt =====
-- Texts that are read out of memory by a pointer and a length.
use Prim.Native.Nat.{ℕ, zero, suc, ◌+◌, ◌<◌}
use mathlib.Core.List.{[], ◌∷◌, ◌++◌}
use mathlib.Core.Path.{◌≡◌, refl, ap}
use native.Mathlib.Omega.{arith}
use lhttp_parser.Prelude.Buffers.{Memory, memory}
use lhttp_parser.Prelude.Lists.{Bytes, length, get_or}
use lhttp_parser.Prelude.Tests.{◌==◌, if◌then◌else◌}

-- `p + i`, as the memory that begins there.
abbrev pub shift : ℕ → Memory → Memory
shift i m = λ k. m (i + k)

-- The `n` bytes at a pointer.
unfoldable pub bytes_at : Memory → ℕ → Bytes
bytes_at m zero = []
bytes_at m (suc n) = m 0 ∷ bytes_at (λ k. m (suc k)) n

-- A block that holds a text, with a NUL behind it and the bytes that it held before behind that.
unfoldable pub block : Bytes → Memory → Memory
block [] stale i = if i == 0 then 0 else stale i
block (c ∷ s) stale zero = c
block (c ∷ s) stale (suc i) = block s (λ k. stale (suc k)) i

pub bytes_at-block : (s : Bytes) (stale : Memory) → bytes_at (block s stale) (length s) ≡ s
unfolding bytes_at block
bytes_at-block [] stale = refl
bytes_at-block (c ∷ s) stale = ap (◌∷◌ c) (bytes_at-block s (λ k. stale (suc k)))

pub length-bytes_at : (m : Memory) (n : ℕ) → length (bytes_at m n) ≡ n
unfolding bytes_at
length-bytes_at m zero = refl
length-bytes_at m (suc n) = ap suc (length-bytes_at (λ k. m (suc k)) n)

-- The text stands in memory from `p` on.
abbrev pub Reads : Memory → ℕ → Bytes → Type 0
Reads m p s = (i : ℕ) → i < length s → m (p + i) ≡ get_or s i 0

pub Reads-tail : (m : Memory) (p c : ℕ) (s : Bytes) → Reads m p (c ∷ s) → Reads m (p + 1) s
Reads-tail m p c s h i lt = rw (add_one_left p i) (h (suc i) (omega arith))
  where
    add_one_left : (p i : ℕ) → p + 1 + i ≡ p + suc i
    add_one_left p i = omega arith

pub bytes_at-Reads : (m : Memory) (s : Bytes) → Reads m 0 s → bytes_at m (length s) ≡ s
unfolding bytes_at
bytes_at-Reads m [] h = refl
bytes_at-Reads m (c ∷ s) h =
    ground (arith, h 0, bytes_at-Reads (λ k. m (suc k)) s (λ i lt. ground (arith, h (suc i))))

pub Reads-shift : (m : Memory) (p : ℕ) (s : Bytes) → Reads m p s → Reads (shift p m) 0 s
Reads-shift m p s h i lt = ground (arith, h i)

-- A text that follows another one.
pub Reads-append : (s t : Bytes) → Reads (memory (s ++ t)) (length s) t
Reads-append [] t i lt = ground arith
Reads-append (c ∷ s) t i lt = ground (arith, Reads-append s t i lt)

pub Reads-prefix : (s t : Bytes) → Reads (memory (s ++ t)) 0 s
Reads-prefix [] t i lt = absurd (omega arith)
Reads-prefix (c ∷ s) t zero lt = refl
Reads-prefix (c ∷ s) t (suc i) lt = ground (arith, Reads-prefix s t i)

-- A text that stands in memory, by its two parts.
pub Reads-left : (m : Memory) (p : ℕ) (s t : Bytes) → Reads m p (s ++ t) → Reads m p s
Reads-left m p [] t h i lt = absurd (omega arith)
Reads-left m p (c ∷ s) t h zero lt = h zero (omega arith)
Reads-left m p (c ∷ s) t h (suc i) lt =
    ground (arith, Reads-left m (p + 1) s t (Reads-tail m p c (s ++ t) h) i)

pub Reads-right : (m : Memory) (p : ℕ) (s t : Bytes) → Reads m p (s ++ t) → Reads m (p + length s) t
Reads-right m p [] t h i lt = ground (arith, h i)
Reads-right m p (c ∷ s) t h i lt =
    ground (arith, Reads-right m (p + 1) s t (Reads-tail m p c (s ++ t) h) i)

pub Reads-memory : (s : Bytes) → Reads (memory s) 0 s
Reads-memory s i lt = ground arith
