-- ===== src/Query/Parse/Entry.antt =====
-- llquery.c: `llquery_parse_ex` from its arguments to its pairs.
use lhttp_parser.Prelude.{
  ℕ, zero, suc, ◌≤◌, ◌<◌, ◌≡◌, ◌≢◌, refl, Bool, true, false, not, ◌&&◌, [], ◌∷◌, Option, none, some,
  inl, inr, arith, ◌==◌, if◌then◌else◌, Bytes, length, take, Bool-cases,
}
use lhttp_parser.Query.Codec.Laws.{text_of-length}
use lhttp_parser.Query.Codec.{hex_pair}
use lhttp_parser.Query.Data.{auto_decode, strict, has_option, ok, memory_error, too_many_pairs}
use lhttp_parser.Query.Parse.Correct.{parse_decoded-pairs_of}
use lhttp_parser.Query.Parse.Reference.{pairs_of}
use lhttp_parser.Query.Parse.{
  estimate_string_size, decode_room, Parsed, parse_query_mark, parse_nonempty, parse_text,
  llquery_parse_ex,
}
use lhttp_parser.Query.Strings.{has_encoded_chars, decode_in_place}

round_length :
    (c a b : ℕ) (o : Option ℕ) (skip step s : Bytes)
    → length skip ≤ length s
    → length step ≤ suc (suc (length s))
    → length (
        if c == 0
        then []
        else if c == b'+'
        then b' ' ∷ step
        else if c == b'%' && (not (a == 0) && not (b == 0))
        then (elim o [ some h ↦ h ∷ skip | none ↦ c ∷ step ])
        else c ∷ step)
      ≤ suc (suc (suc (length s)))
round_length c a b o skip step s h k = ground arith

-- Decoding in place does not lengthen a text.
pub decode_in_place-length : (s : Bytes) → length (decode_in_place s) ≤ length s
unfolding decode_in_place
decode_in_place-length [] = omega arith
decode_in_place-length (c ∷ []) = ground arith
decode_in_place-length (c ∷ a ∷ []) = ground (arith, decode_in_place-length (a ∷ []))
decode_in_place-length (c ∷ a ∷ b ∷ s) =
    round_length c a b (hex_pair a b) (decode_in_place s) (decode_in_place (a ∷ b ∷ s)) s
      (decode_in_place-length s) (decode_in_place-length (a ∷ b ∷ s))

-- The query behind one leading `?`.
abbrev pub strip_mark : Bytes → Bytes
strip_mark [] = []
strip_mark (c ∷ s) = if c == b'?' then s else c ∷ s

-- Whether the text is decoded before it is cut into pairs, and the text that is cut.
abbrev pub is_decoded : ℕ → Bytes → Bool
is_decoded flags s = has_option flags auto_decode && has_encoded_chars s

abbrev pub decoded_text : ℕ → Bytes → Bytes
decoded_text flags s = if is_decoded flags s then decode_in_place s else s

-- An empty text has no pairs, decoded or not.
no_pairs :
    (flags k : ℕ) (b : Bool) → [] ≡ take k (pairs_of flags b (if b then decode_in_place [] else []))
unfolding decode_in_place
no_pairs flags zero b = refl
no_pairs flags (suc k) true = refl
no_pairs flags (suc k) false = refl

few :
    (max flags : ℕ) (b : Bool)
    → max < length (pairs_of flags b (if b then decode_in_place [] else []))
    → ⊥
unfolding decode_in_place
few max flags true more = omega arith
few max flags false more = omega arith

module _ (alloc : ℕ → Bool) (flags max buf_size : ℕ) where
  abbrev Pairs : Bytes → Parsed → Type 0
  Pairs text r =
      (r.1 ≡ take max (pairs_of flags (is_decoded flags text) (decoded_text flags text)))
      × (r.0 ≢ memory_error)
      × (has_option flags strict ≡ true
          → max < length (pairs_of flags (is_decoded flags text) (decoded_text flags text))
          → r.0 ≡ too_many_pairs)

  parse_text-Pairs :
      (text : Bytes)
      → alloc (estimate_string_size (length text)) ≡ true
      → length text < buf_size
      → Pairs text (parse_text alloc flags max buf_size text)
  unfolding parse_text
  parse_text-Pairs text got room = elim (Bool-cases (is_decoded flags text)) [
    | inl decoded ↦
        let fits : decode_room alloc buf_size (length text) ≡ ok = ground arith in
        rw (decoded, fits)
          (parse_decoded-pairs_of alloc flags max true (length text) (decode_in_place text) got
            (decode_in_place-length text))
    | inr plain ↦
        rw plain (parse_decoded-pairs_of alloc flags max false (length text) text got (omega arith))
  ]

  stripped-Pairs :
      (query : Bytes)
      → 0 < length query
      → alloc (estimate_string_size (length (strip_mark query))) ≡ true
      → length query < buf_size
      → Pairs (strip_mark query) (parse_nonempty alloc flags max buf_size query)
  stripped-Pairs [] pos got room = absurd (omega arith)
  stripped-Pairs (c ∷ s) pos got room = elim (Bool-cases (c == b'?')) [
    | inl mark ↦ rw mark (behind s (rw mark at got) (omega arith))
    | inr other ↦ rw other (parse_text-Pairs (c ∷ s) (rw other at got) room)
  ]
    where
      behind :
          (t : Bytes)
          → alloc (estimate_string_size (length t)) ≡ true
          → length t < buf_size
          → Pairs t (parse_query_mark alloc flags max buf_size t)
      behind [] got' room' = (
        no_pairs flags max (is_decoded flags []),
        λ e. cc,
        λ is_strict more. absurd (few max flags (is_decoded flags []) more),
      )
      behind (b ∷ t) got' room' = parse_text-Pairs (b ∷ t) got' room'

-- For every allocator that has memory for the string pool, all options, every query of at least one
-- byte and a buffer for decoding that is longer than the query: `llquery_parse_ex` drops one leading
-- `?`, decodes the rest if the options ask for it and it holds a `%` or a `+`, and stores exactly
-- the first `max_kv_count` pairs of the result; it does not fail for want of memory.
pub llquery_parse_ex-pairs_of :
    (alloc : ℕ → Bool) (flags max : ℕ) (query : Bytes) (buf_size : ℕ)
    → 0 < length query
    → alloc (estimate_string_size (length (strip_mark query))) ≡ true
    → length query < buf_size
    → ((llquery_parse_ex alloc flags max query (length query) buf_size).1
        ≡ take max (
            pairs_of flags
              (is_decoded flags (strip_mark query))
              (decoded_text flags (strip_mark query))))
      × ((llquery_parse_ex alloc flags max query (length query) buf_size).0 ≢ memory_error)
unfolding llquery_parse_ex
llquery_parse_ex-pairs_of alloc flags max query buf_size pos got room =
    let stored = stripped-Pairs alloc flags max buf_size query pos got room in
    rw (text_of-length query pos) (stored.0, stored.1)

-- For every allocator that has memory for the string pool, all options with strict mode, every query
-- of at least one byte, and a buffer for decoding that is longer than the query: where the query has
-- more than `max_kv_count` pairs, `llquery_parse_ex` returns `LQE_TOO_MANY_PAIRS`, so that no pair is
-- left out without an error; it has stored the first `max_kv_count` of them all the same.
pub llquery_parse_ex-strict :
    (alloc : ℕ → Bool) (flags max : ℕ) (query : Bytes) (buf_size : ℕ)
    → 0 < length query
    → alloc (estimate_string_size (length (strip_mark query))) ≡ true
    → length query < buf_size
    → has_option flags strict ≡ true
    → let all =
        pairs_of flags
          (is_decoded flags (strip_mark query))
          (decoded_text flags (strip_mark query)) in
      max < length all
      → ((llquery_parse_ex alloc flags max query (length query) buf_size).0 ≡ too_many_pairs)
        × ((llquery_parse_ex alloc flags max query (length query) buf_size).1 ≡ take max all)
unfolding llquery_parse_ex
llquery_parse_ex-strict alloc flags max query buf_size pos got room is_strict more =
    let stored = stripped-Pairs alloc flags max buf_size query pos got room in
    rw (text_of-length query pos) (stored.2 is_strict more, stored.0)
