-- ===== src/Query/Memory/Tests.antt =====
-- llquery.c: runs of the calls that allocate and free.
use lhttp_parser.Prelude.{
  ℕ, ◌≡◌, refl, Bool, false, List, [], ◌∷◌, arith, ltb, codes, Bytes, length,
}
use lhttp_parser.Query.Data.{auto_decode}
use lhttp_parser.Query.Memory.Agreement.Whole.{SameParsed, size_of, parse_call-llquery_parse_ex}
use lhttp_parser.Query.Memory.Agreement.{by_size}
use lhttp_parser.Query.Memory.Clone.Copies.{IsClone, llquery_clone-IsClone}
use lhttp_parser.Query.Memory.Clone.{llquery_clone}
use lhttp_parser.Query.Memory.Owned.{Owns, Returns}
use lhttp_parser.Query.Memory.Session.Balance.{session_balanced}
use lhttp_parser.Query.Memory.Session.{
  parse_call, Call, parse, filter, reset, set_allocator, session,
}
use lhttp_parser.Query.Memory.Structure.Release.{owned, Good, IsValid, IsEmpty, llquery_reset-Owns}
use lhttp_parser.Query.Memory.Structure.{Structure, initialised, llquery_reset}
use lhttp_parser.Query.Parse.{llquery_parse_ex}
use lhttp_parser.Query.Memory.{null, at, Heap}

-- Four blocks are allocated: the internal structure, the pairs, and the strings of one pair.
abbrev four_blocks : Heap
four_blocks = record { next = 4; live = λ b. ltb b 4 }

abbrev one_pair : Structure
one_pair = record (initialised (at 0 0) (at 1 0) 8) {
  slots = record { key = at 2 0; value = at 3 0 } ∷ [];
}

one_pair-IsValid : IsValid one_pair
one_pair-IsValid = record {
  placed = ((refl, refl), tt);
  pool_set = refl;
  pool = tt;
  array = refl;
  buffer = tt;
  internal = refl;
}

four_blocks-Owns : Owns (λ b. 0) four_blocks (owned one_pair)
four_blocks-Owns = record { counted = λ b. ground arith; fresh = λ b le. ground arith }

llquery_reset_example :
    Returns
      (llquery_reset one_pair four_blocks)
      (λ r h'. IsValid r × Owns (λ b. 0) h' (owned r) × IsEmpty r × (r.decode_buffer_owned ≡ false))
llquery_reset_example =
    llquery_reset-Owns (λ b. 0) one_pair four_blocks one_pair-IsValid four_blocks-Owns

-- An allocator that refuses the string pool.
abbrev no_pool : ℕ → ℕ → Bool
no_pool k size = ltb size 200

abbrev heap : Heap
heap = record { next = 0; live = λ b. false }

abbrev calls : List (Call no_pool auto_decode)
calls =
    parse (codes "?a=1&b=%41") null 0
    ∷ set_allocator 40
    ∷ filter (λ s. false)
    ∷ parse (codes "c=%42") (at 9 0) 64
    ∷ reset
    ∷ []

session_example :
    Returns (session no_pool auto_decode 96 40 4 calls heap) (λ _ h'. (b : ℕ) → h'.live b ≡ false)
session_example = session_balanced no_pool auto_decode 96 40 4 calls heap (λ b le. refl)

-- An allocator that has memory for less than 200 bytes.
abbrev small : ℕ → Bool
small size = ltb size 200

abbrev query : Bytes
query = codes "a=%41&&b"

abbrev two_blocks : Heap
two_blocks = record { next = 2; live = λ b. ltb b 2 }

fresh-Good : Good (λ b. 0) (initialised (at 0 0) (at 1 0) 4) two_blocks
fresh-Good = (
  record { placed = tt; pool_set = refl; pool = tt; array = refl; buffer = tt; internal = refl },
  record { counted = λ b. ground arith; fresh = λ b le. ground arith },
)

pointers_example :
    Returns
      (parse_call
        (by_size small)
        auto_decode
        query
        (at 7 0)
        64
        (initialised (at 0 0) (at 1 0) 4)
        two_blocks)
      (λ r h'.
        Good (λ b. 0) (r.1) h'
        × SameParsed
            (llquery_parse_ex small auto_decode 4 query (length query) (size_of (at 7 0) 64))
            r)
pointers_example =
    parse_call-llquery_parse_ex small auto_decode 4 query (at 7 0) 64 (at 0 0) (at 1 0) (λ b. 0)
      two_blocks (omega arith) fresh-Good

llquery_clone_example :
    Returns
      (llquery_clone no_pool 96 40 4 ((1, 1) ∷ (3, 250) ∷ []) 16 heap)
      (IsClone (λ b. 0) no_pool 2)
llquery_clone_example =
    llquery_clone-IsClone (λ b. 0) no_pool 96 40 4 ((1, 1) ∷ (3, 250) ∷ []) 16 heap
      (record { counted = λ b. refl; fresh = λ b le. refl })
