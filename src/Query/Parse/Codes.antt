-- ===== src/Query/Parse/Codes.antt =====
-- llquery.c: the error codes of `llquery_parse_ex`.
use lhttp_parser.Prelude.{
  ℕ, ◌<◌, ◌≡◌, ◌≢◌, ◌⊎◌, inl, inr, Bool, true, false, [], ◌∷◌, arith, Bytes, length, Bool-cases,
}
use lhttp_parser.Query.Codec.Laws.{text_of-length}
use lhttp_parser.Query.Data.{Error, ok, memory_error, strict, has_option}
use lhttp_parser.Query.Strings.{decode_in_place}
use lhttp_parser.Query.Parse.Entry.{strip_mark, is_decoded, llquery_parse_ex-pairs_of}
use lhttp_parser.Query.Parse.{
  estimate_string_size, decode_room, parse_nonempty, parse_decoded, parse_text, llquery_parse_ex,
}

module _ (alloc : ℕ → Bool) (flags max buf_size : ℕ) (lax : has_option flags strict ≡ false) where
  parse_decoded-code :
      (encoded : Bool) (len : ℕ) (text : Bytes)
      → ((parse_decoded alloc flags max encoded len text).0 ≡ ok)
        ⊎ ((parse_decoded alloc flags max encoded len text).0 ≡ memory_error)
  unfolding parse_decoded
  parse_decoded-code encoded len text = ground arith

  parse_text-code :
      (text : Bytes)
      → length text < buf_size
      → ((parse_text alloc flags max buf_size text).0 ≡ ok)
        ⊎ ((parse_text alloc flags max buf_size text).0 ≡ memory_error)
  unfolding parse_text
  parse_text-code text room = elim (Bool-cases (is_decoded flags text)) [
    | inl decoded ↦
        let fits : decode_room alloc buf_size (length text) ≡ ok = ground arith in
        rw (decoded, fits) (parse_decoded-code true (length text) (decode_in_place text))
    | inr plain ↦ rw plain (parse_decoded-code false (length text) text)
  ]

  parse_nonempty-code :
      (query : Bytes)
      → 0 < length query
      → length query < buf_size
      → ((parse_nonempty alloc flags max buf_size query).0 ≡ ok)
        ⊎ ((parse_nonempty alloc flags max buf_size query).0 ≡ memory_error)
  parse_nonempty-code [] pos room = absurd (omega arith)
  parse_nonempty-code (c ∷ []) pos room = ground (arith, parse_text-code (c ∷ []) room)
  parse_nonempty-code (c ∷ d ∷ s) pos room =
      ground (arith, parse_text-code (d ∷ s), parse_text-code (c ∷ d ∷ s) room)

  llquery_parse_ex-code :
      (query : Bytes)
      → 0 < length query
      → length query < buf_size
      → ((llquery_parse_ex alloc flags max query (length query) buf_size).0 ≡ ok)
        ⊎ ((llquery_parse_ex alloc flags max query (length query) buf_size).0 ≡ memory_error)
  unfolding llquery_parse_ex
  llquery_parse_ex-code query pos room =
      rw (text_of-length query pos) (parse_nonempty-code query pos room)

  -- For every allocator that has memory for the string pool, all options without strict mode, every
  -- limit, every query of at least one byte and a buffer for decoding that is longer than the query:
  -- `llquery_parse_ex` returns `LQE_OK`, also where it leaves pairs out for the limit.
  pub llquery_parse_ex-ok :
      (query : Bytes)
      → 0 < length query
      → alloc (estimate_string_size (length (strip_mark query))) ≡ true
      → length query < buf_size
      → (llquery_parse_ex alloc flags max query (length query) buf_size).0 ≡ ok
  llquery_parse_ex-ok query pos got room =
      settle (llquery_parse_ex-code query pos room)
        (llquery_parse_ex-pairs_of alloc flags max query buf_size pos got room).1
    where
      settle : {e : Error} → (e ≡ ok) ⊎ (e ≡ memory_error) → e ≢ memory_error → e ≡ ok
      settle (inl h) n = h
      settle (inr h) n = absurd (n h)
