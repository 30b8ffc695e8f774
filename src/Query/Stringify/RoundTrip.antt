-- ===== src/Query/Stringify/RoundTrip.antt =====
-- llquery.c: the text that `llquery_stringify` writes, and what the parser reads from it.
use lhttp_parser.Prelude.{
  ℕ, zero, suc, ◌≤◌, ◌<◌, ◌≡◌, ◌≢◌, refl, ap, ◌∙◌, Bool, true, false, List, [], ◌∷◌, ◌++◌, some,
  arith, Bytes, length, length-append, take, All,
}
use lhttp_parser.Query.Data.{Kv, keep_empty, lowercase_keys, trim_values, has_option}
use lhttp_parser.Query.Parse.Entry.{strip_mark, is_decoded, llquery_parse_ex-pairs_of}
use lhttp_parser.Query.Parse.Reference.{segments, key_value, pair_of, pairs_of_segments, pairs_of}
use lhttp_parser.Query.Parse.{estimate_string_size, llquery_parse_ex}
use lhttp_parser.Query.Stringify.{more_needed, stringify_needed, more_text, stringify_text}

more_needed-length : (kvs : List Kv) → more_needed kvs ≡ length (more_text kvs)
unfolding more_needed more_text
more_needed-length [] = refl
more_needed-length (kv ∷ kvs) = omega (
  arith,
  more_needed-length kvs,
  length-append {0} kv.key (b'=' ∷ (kv.value ++ more_text kvs)),
  length-append {0} kv.value (more_text kvs),
)

-- For every list of pairs: the space that the first loop counts is exactly the length of the text
-- that the second loop writes.
pub stringify_needed-length : (kvs : List Kv) → stringify_needed kvs ≡ length (stringify_text kvs)
unfolding stringify_needed stringify_text
stringify_needed-length [] = refl
stringify_needed-length (kv ∷ kvs) = omega (
  arith,
  more_needed-length kvs,
  length-append {0} kv.key (b'=' ∷ (kv.value ++ more_text kvs)),
  length-append {0} kv.value (more_text kvs),
)

-- A byte that a key may hold, and one that a value may hold.
abbrev pub KeyByte : ℕ → Type 0
KeyByte c = (c ≢ b'&') × (c ≢ b'=')

abbrev pub ValueByte : ℕ → Type 0
ValueByte c = c ≢ b'&'

-- A pair that is spelled by its text: its key is not empty, and neither part holds a delimiter
-- that would end it.
abbrev pub Spelled : Bool → Kv → Type 0
Spelled encoded kv =
    (kv.key ≢ []) × All KeyByte kv.key × All ValueByte kv.value × (kv.is_encoded ≡ encoded)

-- The first segment of a text that goes on with `&`, or ends.
abbrev ends_segment : Bytes → List Bytes
ends_segment [] = []
ends_segment (c ∷ s) = segments s

abbrev AtEnd : Bytes → Type 0
AtEnd [] = Unit
AtEnd (c ∷ s) = c ≡ b'&'

segments-value :
    (v rest : Bytes) → All ValueByte v → AtEnd rest → segments (v ++ rest) ≡ v ∷ ends_segment rest
segments-value [] [] h e = refl
segments-value [] (c ∷ s) h e = ground arith
segments-value (c ∷ v) rest h e = ground (arith, segments-value v rest h.1 e)

segments-key :
    (k v rest : Bytes)
    → All KeyByte k
    → All ValueByte v
    → AtEnd rest
    → segments (k ++ (b'=' ∷ (v ++ rest))) ≡ (k ++ (b'=' ∷ v)) ∷ ends_segment rest
segments-key [] v rest h hv e = rw (segments-value v rest hv e)
segments-key (c ∷ k) v rest h hv e = ground (arith, segments-key k v rest h.1 hv e)

key_value-key : (k v : Bytes) → All KeyByte k → key_value (k ++ (b'=' ∷ v)) ≡ (k, v)
key_value-key [] v h = refl
key_value-key (c ∷ k) v h = ground (arith, key_value-key k v h.1)

module _ (flags : ℕ) (encoded : Bool) where
  -- The options under which a pair is stored as it is read.
  abbrev pub Plain : Type 0
  Plain =
      (has_option flags keep_empty ≡ true)
      × (has_option flags lowercase_keys ≡ false)
      × (has_option flags trim_values ≡ false)

  pair_of_lem :
      (kv : Kv) → Plain → Spelled encoded kv → pair_of flags encoded (kv.key, kv.value) ≡ some kv
  pair_of_lem kv plain h = go kv.key kv.value kv.is_encoded h.0 h.3
    where
      go :
          (k v : Bytes) (b : Bool)
          → k ≢ []
          → b ≡ encoded
          → pair_of flags encoded (k, v) ≡ some (record { key = k; value = v; is_encoded = b })
      go [] v b ne e = absurd (ne refl)
      go (c ∷ k) v b ne e = ground arith

  segment_pair :
      (kv : Kv) (rest : List Bytes)
      → Plain
      → Spelled encoded kv
      → pairs_of_segments flags encoded ((kv.key ++ (b'=' ∷ kv.value)) ∷ rest)
        ≡ kv ∷ pairs_of_segments flags encoded rest
  segment_pair kv rest plain h = rw (key_value-key kv.key kv.value h.1, pair_of_lem kv plain h)

  more_text-AtEnd : (kvs : List Kv) → AtEnd (more_text kvs)
  unfolding more_text
  more_text-AtEnd [] = tt
  more_text-AtEnd (kv ∷ kvs) = refl

  more_text-pairs :
      (kvs : List Kv)
      → Plain
      → All (Spelled encoded) kvs
      → pairs_of_segments flags encoded (ends_segment (more_text kvs)) ≡ kvs
  unfolding more_text
  more_text-pairs [] plain h = refl
  more_text-pairs (kv ∷ kvs) plain (h, hs) =
      rw (segments-key kv.key kv.value (more_text kvs) h.1 h.2 (more_text-AtEnd kvs)) (
        segment_pair kv (ends_segment (more_text kvs)) plain h
        ∙ ap (◌∷◌ kv) (more_text-pairs kvs plain hs))

  -- For all options that keep empty values, keys and values as they are, and every list of pairs
  -- with keys that are not empty and hold no `&` or `=`, and values that hold no `&`: the text that
  -- `llquery_stringify` writes stands for exactly these pairs, in order.
  pub pairs_of-stringify_text :
      (kvs : List Kv)
      → Plain
      → All (Spelled encoded) kvs
      → pairs_of flags encoded (stringify_text kvs) ≡ kvs
  unfolding stringify_text
  pairs_of-stringify_text [] plain h = refl
  pairs_of-stringify_text (kv ∷ kvs) plain (h, hs) =
      rw (segments-key kv.key kv.value (more_text kvs) h.1 h.2 (more_text-AtEnd kvs)) (
        segment_pair kv (ends_segment (more_text kvs)) plain h
        ∙ ap (◌∷◌ kv) (more_text-pairs kvs plain hs))

take-all : (kvs : List Kv) (k : ℕ) → length kvs ≤ k → take k kvs ≡ kvs
take-all [] zero h = refl
take-all [] (suc k) h = refl
take-all (kv ∷ kvs) zero h = absurd (omega arith)
take-all (kv ∷ kvs) (suc k) h = ap (◌∷◌ kv) (take-all kvs k (omega arith))

-- A key does not begin with `?`.
abbrev pub NoMark : Bytes → Type 0
NoMark [] = Unit
NoMark (c ∷ s) = c ≢ b'?'

strip_mark-text :
    (kv : Kv) (kvs : List Kv)
    → kv.key ≢ []
    → NoMark kv.key
    → (strip_mark (stringify_text (kv ∷ kvs)) ≡ stringify_text (kv ∷ kvs))
      × (0 < length (stringify_text (kv ∷ kvs)))
unfolding stringify_text
strip_mark-text kv kvs ne mark = go kv.key (kv.value ++ more_text kvs) ne mark
  where
    go :
        (k rest : Bytes)
        → k ≢ []
        → NoMark k
        → (strip_mark (k ++ (b'=' ∷ rest)) ≡ k ++ (b'=' ∷ rest)) × (0 < length (k ++ (b'=' ∷ rest)))
    go [] rest ne mark = absurd (ne refl)
    go (c ∷ k) rest ne mark = ground arith

-- For every allocator that has memory for the string pool, options that keep empty values and leave
-- keys and values as they are, and every list of at least one and at most `max_kv_count` pairs with
-- keys that are not empty and hold no `&` or `=`, values that hold no `&`, none marked as encoded,
-- and a first key that does not begin with `?`, where the options do not ask for decoding or the
-- pairs hold no `%` and no `+`: parsing the text that `llquery_stringify` writes, with a buffer for
-- decoding that is longer, stores exactly these pairs, in order.
pub llquery_parse_ex-stringify_text :
    (alloc : ℕ → Bool) (flags max buf_size : ℕ) (kv : Kv) (kvs : List Kv)
    → is_decoded flags (stringify_text (kv ∷ kvs)) ≡ false
    → Plain flags false
    → All (Spelled false) (kv ∷ kvs)
    → NoMark kv.key
    → length (kv ∷ kvs) ≤ max
    → alloc (estimate_string_size (length (stringify_text (kv ∷ kvs)))) ≡ true
    → length (stringify_text (kv ∷ kvs)) < buf_size
    → (llquery_parse_ex alloc flags max
        (stringify_text (kv ∷ kvs))
        (length (stringify_text (kv ∷ kvs)))
        buf_size).1
      ≡ kv ∷ kvs
llquery_parse_ex-stringify_text alloc flags max buf_size kv kvs raw plain h mark few got room =
    let text = stringify_text (kv ∷ kvs) in
    let (same, pos) = strip_mark-text kv kvs h.0.0 mark in
    let parsed = llquery_parse_ex-pairs_of alloc flags max text buf_size pos (rw same got) room in
    parsed.0
    ∙ rw (same, raw)
        (ap (take max) (pairs_of-stringify_text flags false (kv ∷ kvs) plain h)
          ∙ take-all (kv ∷ kvs) max few)
