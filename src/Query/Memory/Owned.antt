-- ===== src/Query/Memory/Owned.antt =====
-- llquery.c: which blocks of the heap are owned, counted.
use lhttp_parser.Prelude.{
  ℕ, ◌+◌, ◌≤◌, ◌≡◌, refl, Bool, true, false, List, [], ◌∷◌, ◌++◌, inl, inr, arith, ◌==◌, Bool-cases,
}
use lhttp_parser.Query.Memory.{
  Pointer, null, at, Heap, Run, fault, done, M, goes_on, ◌>>=◌, alloc, free,
}

abbrev pub bit : Bool → ℕ
bit true = 1
bit false = 0

abbrev pub count : ℕ → List ℕ → ℕ
count b [] = 0
count b (c ∷ cs) = bit (c == b) + count b cs

pub count-append : (b : ℕ) (cs ds : List ℕ) → count b (cs ++ ds) ≡ count b cs + count b ds
count-append b [] ds = omega arith
count-append b (c ∷ cs) ds = omega (arith, count-append b cs ds)

-- The blocks that are allocated are those in `base`, which others own, and those of the list, each
-- once; the blocks from `next` on are free.
pub record Owns (base : ℕ → ℕ) (h : Heap) (bs : List ℕ) : Type 0 where
  pub counted : (b : ℕ) → bit (h.live b) ≡ base b + count b bs
  pub fresh : (b : ℕ) → h.next ≤ b → h.live b ≡ false

pub Owns-same :
    (base : ℕ → ℕ) (h : Heap) (bs cs : List ℕ)
    → ((b : ℕ) → count b bs ≡ count b cs)
    → Owns base h bs
    → Owns base h cs
Owns-same base h bs cs same o = record {
  counted = λ b. omega (arith, o.counted b, same b);
  fresh = o.fresh;
}

-- A call ends without a fault, with a value and a heap that satisfy `Post`.
abbrev pub Returns : {V : Type 0} → Run V → (V → Heap → Type 0) → Type 0
Returns fault Post = ⊥
Returns (done v heap) Post = Post v heap

pub Returns-goes_on :
    {V W : Type 0} (Mid : V → Heap → Type 0) (Post : W → Heap → Type 0) (rest : V → M W)
    (run : Run V)
    → Returns run Mid
    → ((v : V) (heap : Heap) → Mid v heap → Returns (rest v heap) Post)
    → Returns (goes_on rest run) Post
Returns-goes_on Mid Post rest fault ran k = absurd ran
Returns-goes_on Mid Post rest (done v heap) ran k = k v heap ran

pub Returns-bind :
    {V W : Type 0} (part : M V) (rest : V → M W) (heap : Heap) (Mid : V → Heap → Type 0)
    (Post : W → Heap → Type 0)
    → Returns (part heap) Mid
    → ((v : V) (later : Heap) → Mid v later → Returns (rest v later) Post)
    → Returns ((part >>= rest) heap) Post
Returns-bind part rest heap Mid Post = Returns-goes_on Mid Post rest (part heap)

pub Returns-weaken :
    {V : Type 0} (run : Run V) (Mid Post : V → Heap → Type 0)
    → Returns run Mid
    → ((v : V) (heap : Heap) → Mid v heap → Post v heap)
    → Returns run Post
Returns-weaken fault Mid Post ran k = absurd ran
Returns-weaken (done v heap) Mid Post ran k = k v heap ran

-- The block that a new pointer stands for.
abbrev pub block_of : Pointer → List ℕ
block_of null = []
block_of (at b offset) = b ∷ []

abbrev pub AtBegin : Pointer → Type 0
AtBegin null = Unit
AtBegin (at b offset) = offset ≡ 0

-- The block of a new pointer was free before.
abbrev pub WasFree : Heap → Pointer → Type 0
WasFree h null = Unit
WasFree h (at b offset) = h.live b ≡ false

pub alloc-Owns :
    (grants : ℕ → ℕ → Bool) (size : ℕ) (base : ℕ → ℕ) (h : Heap) (bs : List ℕ)
    → Owns base h bs
    → Returns
        (alloc grants size h)
        (λ p h'. AtBegin p × WasFree h p × Owns base h' (block_of p ++ bs))
unfolding alloc
alloc-Owns grants size base h bs o = elim (Bool-cases (grants h.next size)) [
  | inl yes_granted ↦ rw yes_granted (
    refl,
    o.fresh h.next (omega arith),
    record {
      counted = λ b. ground (arith, o.counted b, o.fresh b);
      fresh = λ b le. ground (arith, o.fresh b);
    },
  )
  | inr refused ↦
      rw refused (tt, tt, record { counted = o.counted; fresh = λ b le. o.fresh b (omega arith) })
]

pub free-Owns :
    (b : ℕ) (base : ℕ → ℕ) (h : Heap) (bs : List ℕ)
    → Owns base h (b ∷ bs)
    → Returns (free (at b 0) h) (λ _ h'. Owns base h' bs)
unfolding free
free-Owns b base h bs o =
    let live : h.live b ≡ true = ground (arith, o.counted b) in
    rw live (record {
      counted = λ c. ground (arith, o.counted c);
      fresh = λ c le. ground (arith, o.fresh c);
    })
