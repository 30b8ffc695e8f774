-- ===== src/Url/PortField/Host.antt =====
-- llurl.c: `finalize_host_with_port` stores a port number together with the digits that spell it.
use mathlib.Core.Path.{sym}
use lhttp_parser.Prelude.{
  ℕ, ◌+◌, ◌-◌, ◌%◌, ◌≤◌, ◌<◌, ◌≡◌, refl, Bool, true, false, Option, none, some, inl, inr, arith,
  ◌==◌, leb, if◌then◌else◌, ◌&&◌, Memory, memchr, memchr_sound, Bool-cases,
}
use lhttp_parser.Url.Fields.{Field, Url, mark_field, set_field_data}
use lhttp_parser.Url.Host.{
  has_port, store_port, store_host, finalize_bracket, finalize_fields, finalize_host_with_port,
}
use lhttp_parser.Url.Port.Reference.{port_of, parse_port-port_of}
use lhttp_parser.Url.Port.{parse_port}

module _ (m : Memory) where
  -- Where a URL has a port, its number is what the PORT field spells.
  abbrev pub PortExact : Url → Type 0
  PortExact u =
      u.field_set Field.port ≡ true
      → port_of m (u.off Field.port) (u.len Field.port) ≡ some u.port_number

  abbrev pub PortExactOption : Option Url → Type 0
  PortExactOption none = Unit
  PortExactOption (some u) = PortExact u

  abbrev PortExactBracket : Option (Url × ℕ × ℕ) → Type 0
  PortExactBracket none = Unit
  PortExactBracket (some (u, off, len)) = PortExact u

module _ (m : Memory) (n : ℕ) (short : n < 65536) where
  stored :
      (u : Url) (off len : ℕ) (o : Option ℕ)
      → off + len ≤ n
      → port_of m off len ≡ o
      → PortExactOption m (elim o [
        | none ↦ none
        | some v ↦ some (
            mark_field
              (set_field_data (record u { port_number = v }) Field.port off len)
              Field.port)
      ])
  stored u off len none fits e = tt
  stored u off len (some v) fits e = λ _.
      let small_off : off % 65536 ≡ off = omega arith in
      let small_len : len % 65536 ≡ len = omega arith in rw (small_off, small_len) e

  store_port-PortExact :
      (u : Url) (off len : ℕ) → off + len ≤ n → PortExactOption m (store_port m u off len)
  store_port-PortExact u off len fits =
      stored u off len (parse_port m off len) fits (sym (parse_port-port_of m off len))

  finalize_fields-PortExact :
      (with_port : Bool) (e s : ℕ) (u : Url) (off len : ℕ)
      → PortExact m u
      → e ≤ n
      → (with_port ≡ true → s < e)
      → PortExactOption m (finalize_fields m with_port e s u off len)
  unfolding finalize_fields
  finalize_fields-PortExact true e s u off len h below order =
      go (store_port m u s (e - s)) (store_port-PortExact u s (e - s) (ground (arith, order refl)))
    where
      go :
          (o : Option Url)
          → PortExactOption m o
          → PortExactOption m (elim o [ none ↦ none | some u' ↦ some (store_host u' off len) ])
      go none w = tt
      go (some u') w = w
  finalize_fields-PortExact false e s u off len h below order = h

  stored_bracket :
      (o : Option Url) (off len : ℕ)
      → PortExactOption m o
      → PortExactBracket m (elim o [ none ↦ none | some u' ↦ some (u', off, len) ])
  stored_bracket none off len h = tt
  stored_bracket (some u') off len h = h

  finalize_bracket-PortExact :
      (u : Url) (off len : ℕ)
      → PortExact m u
      → off + len ≤ n
      → PortExactBracket m (finalize_bracket m u off len)
  unfolding finalize_bracket
  finalize_bracket-PortExact u off len h fits = go (memchr m b']' (off + 1) (len - 1)) refl
    where
      go :
          (o : Option ℕ)
          → memchr m b']' (off + 1) (len - 1) ≡ o
          → PortExactBracket m (finalize_bracket m u off len)
      go none e = rw (e, finalize_bracket, PortExactBracket) tt
      go (some q) e =
          let range = memchr_sound m b']' (off + 1) (len - 1) e in
          let end = off + len - 1 in
          rw (e, finalize_bracket, PortExactBracket)
            (elim (Bool-cases (leb (q + 1) end && m (q + 1) == b':')) [
              | inl with_port ↦ rw with_port (
                  stored_bracket (store_port m u (q + 1 + 1) (end - (q + 1))) (off + 1)
                    (q - off - 1)
                    (store_port-PortExact u (q + 1 + 1) (end - (q + 1)) (ground arith)))
              | inr without ↦ rw without h
            ])

  bracket_fields-PortExact :
      (with_port : Bool) (e s : ℕ) (r : Option (Url × ℕ × ℕ))
      → PortExactBracket m r
      → e ≤ n
      → (with_port ≡ true → s < e)
      → PortExactOption m (elim r [
        | none ↦ none
        | some (u', off, len) ↦ finalize_fields m with_port e s u' off len
      ])
  bracket_fields-PortExact with_port e s none w below order = tt
  bracket_fields-PortExact with_port e s (some (u, off, len)) h below order =
      finalize_fields-PortExact with_port e s u off len h below order

  pub finalize_host-PortExact :
      (u : Url) (s e p : ℕ) (c : Bool)
      → PortExact m u
      → s ≤ e
      → e ≤ n
      → PortExactOption m (finalize_host_with_port u m s e p c)
  unfolding finalize_host_with_port
  finalize_host-PortExact u s e p c h order fits =
      let with_port = has_port s e p c in
      let len = if with_port then p - s - 1 else e - s in
      let size : s + len ≤ n = ground arith in
      let before : with_port ≡ true → p < e = ground arith in
      let open_case =
        bracket_fields-PortExact with_port e p (finalize_bracket m u s len)
          (finalize_bracket-PortExact u s len h size) fits before in
      let plain_case = finalize_fields-PortExact with_port e p u s len h fits before in
      elim (Bool-cases (leb 2 len && m s == b'[')) [
        | inl bracket ↦ rw bracket open_case
        | inr plain ↦ rw plain plain_case
      ]
