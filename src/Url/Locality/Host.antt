-- ===== src/Url/Locality/Host.antt =====
-- llurl.c: `finalize_host_with_port` reads the host that it is given alone.
use lhttp_parser.Prelude.{
  ℕ, ◌+◌, ◌-◌, ◌≤◌, ◌<◌, ◌≡◌, refl, ap, ◌∙◌, Bool, true, false, ◌&&◌, Option, none, some, inl, inr,
  arith, ◌==◌, leb, leb→le, if◌then◌else◌, Memory, Bool-cases, memchr,
}
use lhttp_parser.Url.Fields.{Url}
use lhttp_parser.Url.Host.{
  has_port, store_port, finalize_bracket, finalize_fields, finalize_host_with_port,
}
use lhttp_parser.Url.Locality.{Agree}
use lhttp_parser.Url.Locality.Scan.{memchr_local, parse_port_local}

module _ (m m' : Memory) (n : ℕ) (same : Agree m m' n) where
  store_port_local :
      (u : Url) (off len : ℕ) → off + len ≤ n → store_port m u off len ≡ store_port m' u off len
  store_port_local u off len fits = ground (arith, parse_port_local m m' n same off len fits)

  -- What stands behind the bracket, where that is inside the host.
  abbrev behind_bracket : Memory → Url → ℕ → ℕ → ℕ → Option (Url × ℕ × ℕ)
  behind_bracket b u off end q =
      if leb (q + 1) end && b (q + 1) == b':'
      then (elim (store_port b u (q + 1 + 1) (end - (q + 1))) [
        | none ↦ none
        | some u' ↦ some (u', off + 1, q - off - 1)
      ])
      else some (u, off + 1, q - off - 1)

  behind_bracket_local :
      (u : Url) (off end q : ℕ)
      → end < n
      → behind_bracket m u off end q ≡ behind_bracket m' u off end q
  behind_bracket_local u off end q fits = elim (Bool-cases (leb (q + 1) end)) [
    | inl behind ↦
        let inside : q + 1 ≤ end = ground arith in
        ground (
          arith,
          same (q + 1) (omega arith),
          store_port_local u (q + 1 + 1) (end - (q + 1)) (omega arith),
        )
    | inr last ↦ rw last refl
  ]

  abbrev bracket_found : Memory → Url → ℕ → ℕ → Option ℕ → Option (Url × ℕ × ℕ)
  bracket_found b u off end none = none
  bracket_found b u off end (some q) = behind_bracket b u off end q

  bracket_found_local :
      (u : Url) (off end : ℕ) (o : Option ℕ)
      → end < n
      → bracket_found m u off end o ≡ bracket_found m' u off end o
  bracket_found_local u off end none fits = refl
  bracket_found_local u off end (some q) fits = behind_bracket_local u off end q fits

  finalize_bracket_local :
      (u : Url) (off len : ℕ)
      → 2 ≤ len
      → off + len ≤ n
      → finalize_bracket m u off len ≡ finalize_bracket m' u off len
  unfolding finalize_bracket
  finalize_bracket_local u off len two fits =
      ap (bracket_found m u off (off + len - 1))
        (memchr_local m m' n same b']' (off + 1) (len - 1) (omega arith))
      ∙ bracket_found_local u off (off + len - 1) (memchr m' b']' (off + 1) (len - 1)) (omega arith)

  finalize_fields_local :
      (with_port : Bool) (e s : ℕ) (u : Url) (off len : ℕ)
      → (with_port ≡ true → s < e)
      → e ≤ n
      → finalize_fields m with_port e s u off len ≡ finalize_fields m' with_port e s u off len
  unfolding finalize_fields
  finalize_fields_local true e s u off len order fits =
      let fits' : s + (e - s) ≤ n = omega (arith, order refl) in
      ground (arith, parse_port_local m m' n same s (e - s) fits')
  finalize_fields_local false e s u off len order fits = refl

  bracket_fields_local :
      (with_port : Bool) (e s : ℕ) (o : Option (Url × ℕ × ℕ))
      → (with_port ≡ true → s < e)
      → e ≤ n
      → (elim o [ none ↦ none | some (u', off, len) ↦ finalize_fields m with_port e s u' off len ])
        ≡ (elim o [
          | none ↦ none
          | some (u', off, len) ↦ finalize_fields m' with_port e s u' off len
        ])
  bracket_fields_local with_port e s none order fits = refl
  bracket_fields_local with_port e s (some (u, off, len)) order fits =
      finalize_fields_local with_port e s u off len order fits

  pub finalize_host_local :
      (u : Url) (field_start end_pos port_start : ℕ) (found_colon : Bool)
      → field_start ≤ end_pos
      → end_pos ≤ n
      → finalize_host_with_port u m field_start end_pos port_start found_colon
        ≡ finalize_host_with_port u m' field_start end_pos port_start found_colon
  unfolding finalize_host_with_port
  finalize_host_local u s e p c order fits =
      let with_port = has_port s e p c in
      let len = if with_port then p - s - 1 else e - s in
      let size : s + len ≤ n = ground arith in
      let before : with_port ≡ true → p < e = ground arith in
      let plain = finalize_fields_local with_port e p u s len before fits in
      elim (Bool-cases (leb 2 len)) [
        | inl two ↦
            let two' : 2 ≤ len = leb→le _ _ two in
            rw (finalize_bracket_local u s len two' size) (
              ground (
                arith,
                same s (omega arith),
                plain,
                bracket_fields_local with_port e p (finalize_bracket m' u s len) before fits,
              ))
        | inr short ↦ rw short plain
      ]
