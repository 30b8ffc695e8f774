-- ===== src/Query/Memory.antt =====
-- llquery.c: the memory that a query structure owns. A pointer is a block and an offset in it; the
-- heap says which blocks are allocated. It is a fault to free a block that is not allocated, or
-- through a pointer that does not stand at its begin.
pub mod Owned
pub mod Structure
pub mod Store
pub mod Allocator
pub mod Session
pub mod Clone
pub mod Partial
pub mod Agreement
pub mod Tests
use lhttp_parser.Prelude.{
  ℕ, zero, suc, ◌+◌, Bool, true, false, Option, none, some, ◌==◌, ltb, if◌then◌else◌,
}

pub data Pointer : Type 0 where
  null : Pointer
  at : ℕ → ℕ → Pointer

-- Which blocks are allocated; those from `next` on were never handed out.
pub record Heap : Type 0 where
  pub live : ℕ → Bool
  pub next : ℕ

-- A call faults, or ends with a value and the heap behind it.
pub data Run (A : Type 0) : Type 0 where
  fault : Run A
  done : A → Heap → Run A

abbrev pub M : Type 0 → Type 0
M V = Heap → Run V

module _ {V W : Type 0} where
  -- The rest of a call, behind its first part.
  abbrev pub goes_on : (V → M W) → Run V → Run W
  goes_on rest fault = fault
  goes_on rest (done v heap) = rest v heap

infixl 5 ◌>>=◌ ◌>>◌
abbrev pub ◌>>=◌ : {V W : Type 0} → M V → (V → M W) → M W
(part >>= rest) heap = goes_on rest (part heap)

abbrev pub ◌>>◌ : {W : Type 0} → M (Unit {0}) → M W → M W
(part >> rest) heap = goes_on (λ u. rest) (part heap)

abbrev pub pure : {V : Type 0} → V → M V
pure = done

-- The block `b` becomes allocated or free.
abbrev pub set_live : Bool → ℕ → (ℕ → Bool) → ℕ → Bool
set_live now b live c = if c == b then now else live c

-- `alloc_fn`: the `k`-th block of the run is granted if `grants k size` says so.
unfoldable pub alloc : (ℕ → ℕ → Bool) → ℕ → M Pointer
alloc grants size h =
    let later = suc h.next in
    if grants h.next size
    then done (at h.next 0) (record { next = later; live = set_live true h.next h.live })
    else done null (record h { next = later })

-- `free_fn`
unfoldable pub free : Pointer → M (Unit {0})
free null h = fault
free (at b (suc offset)) h = fault
free (at b zero) h =
    if h.live b then done tt (record h { live = set_live false b h.live }) else fault
