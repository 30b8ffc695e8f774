-- ===== src/Query/Memory/Partial.antt =====
-- llquery.c: what holds behind calls that may fault.
use lhttp_parser.Query.Memory.{Heap, Run, fault, done, M, goes_on}
use lhttp_parser.Query.Memory.Owned.{Returns}

-- A call faults, or ends in what satisfies `Post`.
abbrev pub Partial : {V : Type 0} → Run V → (V → Type 0) → Type 0
Partial fault Post = Unit
Partial (done v heap) Post = Post v

pub Partial-goes_on :
    {V W : Type 0} (Mid : V → Type 0) (Post : W → Type 0) (rest : V → M W) (run : Run V)
    → Partial run Mid
    → ((v : V) (heap : Heap) → Mid v → Partial (rest v heap) Post)
    → Partial (goes_on rest run) Post
Partial-goes_on Mid Post rest fault ran k = tt
Partial-goes_on Mid Post rest (done v heap) ran k = k v heap ran

-- Behind a call of which nothing is said.
pub Partial-any :
    {V W : Type 0} (Post : W → Type 0) (rest : V → M W) (run : Run V)
    → ((v : V) (heap : Heap) → Partial (rest v heap) Post)
    → Partial (goes_on rest run) Post
Partial-any Post rest fault k = tt
Partial-any Post rest (done v heap) k = k v heap

pub Partial-weaken :
    {V : Type 0} (run : Run V) (Mid Post : V → Type 0)
    → Partial run Mid
    → ((v : V) → Mid v → Post v)
    → Partial run Post
Partial-weaken fault Mid Post ran k = tt
Partial-weaken (done v heap) Mid Post ran k = k v ran

-- What holds behind a call that does not fault, and what holds behind it if it does not.
pub Returns-Partial :
    {V : Type 0} (run : Run V) (Post : V → Heap → Type 0) (Also : V → Type 0)
    → Returns run Post
    → Partial run Also
    → Returns run (λ v h. Post v h × Also v)
Returns-Partial fault Post Also r p = absurd r
Returns-Partial (done v h) Post Also r p = (r, p)
