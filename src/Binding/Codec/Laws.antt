-- ===== src/Binding/Codec/Laws.antt =====
-- lhttp_url.c: what `encode_url` and `decode_url` return.
use lhttp_parser.Prelude.{
  ℕ, ◌+◌, ◌≤◌, ◌<◌, ◌≡◌, ◌⊎◌, inl, inr, refl, ap, ◌∙◌, sym, ◌↔◌, Bool, true, false, [], ◌∷◌, some,
  none, arith, ltb, Bytes, length, Memory, bytes_at, block, bytes_at-block, length-bytes_at,
  Bool-cases, All,
}
use lhttp_parser.Binding.Codec.{push_written, encode_url, decode_url}
use lhttp_parser.Query.Codec.{
  text_of, until_nul, encode_needed, encode, url_encode, decode, url_decode,
}
use lhttp_parser.Query.Codec.Laws.{
  spaces, encode_needed-length, decode_needed-length, decode-encode, IsByte, text_of-length,
}

text_of_all : (s : Bytes) → text_of s (length s) ≡ s
unfolding text_of until_nul
text_of_all [] = refl
text_of_all (c ∷ s) = text_of-length (c ∷ s) (omega arith)

url_encode_fits :
    (s : Bytes) (size : ℕ)
    → encode_needed s < size
    → url_encode s (length s) size ≡ (length (encode s), some (encode s))
unfolding url_encode
url_encode_fits s size room = rw (text_of_all s) (ground arith)

url_encode_short :
    (s : Bytes) (size : ℕ)
    → size ≤ encode_needed s
    → url_encode s (length s) size ≡ (encode_needed s, none)
unfolding url_encode
url_encode_short s size short = rw (text_of_all s) (ground arith)

url_decode_fits :
    (s : Bytes) (size : ℕ)
    → length (decode s) < size
    → url_decode s (length s) size ≡ (length (decode s), some (decode s))
unfolding url_decode
url_decode_fits s size room = rw (text_of_all s) (ground (arith, decode_needed-length s))

url_decode_short :
    (s : Bytes) (size : ℕ)
    → size ≤ length (decode s)
    → url_decode s (length s) size ≡ (length (decode s), none)
unfolding url_decode
url_decode_short s size short = rw (text_of_all s) (ground (arith, decode_needed-length s))

push_all :
    (s : Bytes) (stale : Memory) (n : ℕ) → n ≡ length s → push_written (n, some s) stale n ≡ s
push_all s stale n e = rw e (bytes_at-block s stale)

module _ (malloc : ℕ → Bool) (stack heap : Memory) where
  encode_url_short :
      (s : Bytes)
      → encode_needed s ≤ 2047
      → malloc (encode_needed s + 1) ≡ true
      → encode_url malloc stack heap s ≡ encode s
  unfolding encode_url
  encode_url_short s short got =
      rw (url_encode_fits s 2048 (omega arith)) (elim (Bool-cases (ltb (length (encode s)) 2047)) [
        | inl fits ↦ rw fits (bytes_at-block (encode s) stack)
        | inr full ↦
            let same : length (encode s) ≡ encode_needed s =
              (ground (arith, encode_needed-length s)) in
            let room : encode_needed s < length (encode s) + 1 = omega (arith, same) in
            let memory : malloc (length (encode s) + 1) ≡ true = (rw same got) in
            rw (full, memory, url_encode_fits s (length (encode s) + 1) room)
              (bytes_at-block (encode s) heap)
      ])

  encode_url_long :
      (s : Bytes)
      → 2048 ≤ encode_needed s
      → malloc (encode_needed s + 1) ≡ true
      → encode_url malloc stack heap s ≡ bytes_at (block (encode s) heap) (encode_needed s)
  unfolding encode_url
  encode_url_long s long got = rw (url_encode_short s 2048 long) (
      let big : ltb (encode_needed s) 2047 ≡ false = ground arith in
      rw (big, got, url_encode_fits s (encode_needed s + 1) (omega arith)) refl)

  decode_url_lem :
      (s : Bytes)
      → malloc (length (decode s) + 1) ≡ true
      → decode_url malloc stack heap s ≡ decode s
  unfolding decode_url
  decode_url_lem s got = elim (Bool-cases (ltb (length (decode s)) 2048)) [
    | inl fits ↦
        rw (url_decode_fits s 2048 (ground arith)) (rw fits (bytes_at-block (decode s) stack))
    | inr full ↦ rw (url_decode_short s 2048 (ground arith)) (
        rw (full, got, url_decode_fits s (length (decode s) + 1) (omega arith))
          (bytes_at-block (decode s) heap))
  ]

-- For every memory, and every text for whose encoding `malloc` has memory: `encode_url` returns the
-- encoding exactly if the text holds no space, or the space that the encoder asks for is at most
-- 2047 bytes. The buffer of a longer text with spaces is longer than the encoding, and is returned
-- whole.
pub encode_url_iff :
    (malloc : ℕ → Bool) (stack heap : Memory) (s : Bytes)
    → malloc (encode_needed s + 1) ≡ true
    → (encode_url malloc stack heap s ≡ encode s) ↔ ((spaces s ≡ 0) ⊎ (encode_needed s ≤ 2047))
encode_url_iff malloc stack heap s got = elim (Bool-cases (ltb (encode_needed s) 2048)) [
  | inl short ↦
      (λ _. inr (ground arith), λ _. encode_url_short malloc stack heap s (ground arith) got)
  | inr long ↦
      let whole = encode_url_long malloc stack heap s (ground arith) got in
      (
        λ e. inl (no_spaces (ap length (sym whole ∙ e))),
        λ h.
            whole
            ∙ exact (elim h [ inl none_there ↦ none_there | inr short ↦ absurd (ground arith) ]),
      )
]
  where
    no_spaces :
        length (bytes_at (block (encode s) heap) (encode_needed s)) ≡ length (encode s)
        → spaces s ≡ 0
    no_spaces e = omega (
      arith,
      e,
      length-bytes_at (block (encode s) heap) (encode_needed s),
      encode_needed-length s,
    )

    exact : spaces s ≡ 0 → bytes_at (block (encode s) heap) (encode_needed s) ≡ encode s
    exact none_there =
        let same : encode_needed s ≡ length (encode s) = omega (arith, encode_needed-length s) in
        rw same (bytes_at-block (encode s) heap)

-- For every memory, and every text for which `malloc` has memory, whose encoding `encode_url` gives
-- back whole: `decode_url` of what `encode_url` returns is the text.
pub decode_url-encode_url :
    (malloc : ℕ → Bool) (stack heap stack' heap' : Memory) (s : Bytes)
    → All IsByte s
    → malloc (encode_needed s + 1) ≡ true
    → malloc (length s + 1) ≡ true
    → (spaces s ≡ 0) ⊎ (encode_needed s ≤ 2047)
    → decode_url malloc stack' heap' (encode_url malloc stack heap s) ≡ s
decode_url-encode_url malloc stack heap stack' heap' s bytes got got' h =
    let back = decode-encode s bytes in
    rw ((encode_url_iff malloc stack heap s got).1 h)
      (decode_url_lem malloc stack' heap' (encode s) (rw back got') ∙ back)
