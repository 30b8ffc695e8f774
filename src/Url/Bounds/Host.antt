-- ===== src/Url/Bounds/Host.antt =====
-- llurl.c: `finalize_host_with_port` keeps each field inside the buffer. The section fixes one
-- field `g`, so that what is said of `field_data` is a linear fact.
use lhttp_parser.Prelude.{
  ℕ, ◌+◌, ◌-◌, ◌≤◌, ◌<◌, ◌≡◌, Bool, true, Option, none, some, inl, inr, arith, ◌==◌, leb,
  if◌then◌else◌, ◌&&◌, Memory, memchr_range, Bool-cases,
}
use lhttp_parser.Url.Fields.{Field, Url, set_field_data}
use lhttp_parser.Url.Host.{
  has_port, store_port, finalize_bracket, finalize_fields, finalize_host_with_port,
}

module _ (n : ℕ) (g : Field) where
  abbrev pub Within : Url → Type 0
  Within u = u.off g + u.len g ≤ n

  abbrev pub WithinOption : Option Url → Type 0
  WithinOption none = Unit
  WithinOption (some u) = Within u

module _ (m : Memory) (n : ℕ) (g : Field) (short : n < 65536) where
  pub set_field_data-Within :
      (u : Url) (f : Field) (off len : ℕ)
      → Within n g u
      → off + len ≤ n
      → Within n g (set_field_data u f off len)
  set_field_data-Within u f off len h fits = ground arith

  store_port-Within :
      (u : Url) (off len : ℕ)
      → Within n g u
      → off + len ≤ n
      → WithinOption n g (store_port m u off len)
  store_port-Within u off len h fits = ground arith

  -- The URL and the host that the brackets leave, where they are closed.
  abbrev WithinBracket : Option (Url × ℕ × ℕ) → Type 0
  WithinBracket none = Unit
  WithinBracket (some (u, off, len)) = Within n g u × (off + len ≤ n)

  finalize_bracket-Within :
      (u : Url) (off len : ℕ)
      → Within n g u
      → off + len ≤ n
      → WithinBracket (finalize_bracket m u off len)
  unfolding finalize_bracket
  finalize_bracket-Within u off len h fits = ground (arith, memchr_range m b']' (off + 1) (len - 1))

  finalize_fields-Within :
      (with_port : Bool) (end_pos port_start : ℕ) (u : Url) (off len : ℕ)
      → Within n g u
      → off + len ≤ n
      → end_pos ≤ n
      → (with_port ≡ true → port_start < end_pos)
      → WithinOption n g (finalize_fields m with_port end_pos port_start u off len)
  unfolding finalize_fields
  finalize_fields-Within with_port e s u off len h fits below order = ground arith

  bracket_fields-Within :
      (with_port : Bool) (e s : ℕ) (r : Option (Url × ℕ × ℕ))
      → WithinBracket r
      → e ≤ n
      → (with_port ≡ true → s < e)
      → WithinOption n g (elim r [
        | none ↦ none
        | some (u', off, len) ↦ finalize_fields m with_port e s u' off len
      ])
  bracket_fields-Within with_port e s none w below order = tt
  bracket_fields-Within with_port e s (some (u, off, len)) (h, fits) below order =
      finalize_fields-Within with_port e s u off len h fits below order

  pub finalize_host-Within :
      (u : Url) (field_start end_pos port_start : ℕ) (found_colon : Bool)
      → Within n g u
      → field_start ≤ end_pos
      → end_pos ≤ n
      → WithinOption n g (finalize_host_with_port u m field_start end_pos port_start found_colon)
  unfolding finalize_host_with_port
  finalize_host-Within u s e p c h order fits =
      let with_port = has_port s e p c in
      let len = if with_port then p - s - 1 else e - s in
      let size : s + len ≤ n = ground arith in
      let before : with_port ≡ true → p < e = ground arith in
      let open_case =
        bracket_fields-Within with_port e p (finalize_bracket m u s len)
          (finalize_bracket-Within u s len h size) fits before in
      let plain_case = finalize_fields-Within with_port e p u s len h size fits before in
      elim (Bool-cases (leb 2 len && m s == b'[')) [
        | inl bracket ↦ rw bracket open_case
        | inr plain ↦ rw plain plain_case
      ]
