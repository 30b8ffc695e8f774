-- ===== src/Url/Host.antt =====
-- llurl.c: `finalize_host_with_port` and `validate_host_percent_encoding`.
pub mod Percent
use lhttp_parser.Prelude.{
  ℕ, zero, suc, ◌+◌, ◌-◌, Bool, true, false, not, ◌&&◌, ◌||◌, Option, none, some, ◌==◌, ltb, leb,
  if◌then◌else◌, Memory, memchr,
}
use lhttp_parser.Url.Chars.{is_hex}
use lhttp_parser.Url.Fields.{Url, host, port, mark_field, set_field_data}
use lhttp_parser.Url.Port.{parse_port}

-- `found_colon && port_start > field_start && port_start < end_pos`
abbrev pub has_port : ℕ → ℕ → ℕ → Bool → Bool
has_port field_start end_pos port_start found_colon =
    found_colon && (ltb field_start port_start && ltb port_start end_pos)

-- The port number and the PORT field, where `parse_port` accepts `buf[off .. off + len)`.
abbrev pub store_port : Memory → Url → ℕ → ℕ → Option Url
store_port m u off len = elim (parse_port m off len) [
  | none ↦ none
  | some v ↦ some (mark_field (set_field_data (record u { port_number = v }) port off len) port)
]

abbrev pub store_host : Url → ℕ → ℕ → Url
store_host u off len = mark_field (set_field_data u host off len) host

-- The IPv6 part: the offset and length of the host between brackets, with a port behind them.
unfoldable pub finalize_bracket : Memory → Url → ℕ → ℕ → Option (Url × ℕ × ℕ)
finalize_bracket m u host_off host_len = elim (memchr m b']' (host_off + 1) (host_len - 1)) [
  | none ↦ none
  | some last_bracket ↦
      let after = last_bracket + 1 in
      let end = host_off + host_len - 1 in
      if leb after end && m after == b':'
      then (elim (store_port m u (after + 1) (end - after)) [
        | none ↦ none
        | some u' ↦ some (u', host_off + 1, last_bracket - host_off - 1)
      ])
      else some (u, host_off + 1, last_bracket - host_off - 1)
]

-- The last part: the port behind the colon, if there is one, and the host.
unfoldable pub finalize_fields : Memory → Bool → ℕ → ℕ → Url → ℕ → ℕ → Option Url
finalize_fields m with_port end_pos port_start u host_off host_len =
    if with_port
    then (elim (store_port m u port_start (end_pos - port_start)) [
      | none ↦ none
      | some u' ↦ some (store_host u' host_off host_len)
    ])
    else some (store_host u host_off host_len)

-- `finalize_host_with_port`: the fields where the call returns 1, `none` where it returns 0.
unfoldable pub finalize_host_with_port : Url → Memory → ℕ → ℕ → ℕ → Bool → Option Url
finalize_host_with_port u m field_start end_pos port_start found_colon =
    let with_port = has_port field_start end_pos port_start found_colon in
    let host_len = if with_port then port_start - field_start - 1 else end_pos - field_start in
    if leb 2 host_len && m field_start == b'['
    then (elim (finalize_bracket m u field_start host_len) [
      | none ↦ none
      | some (u', off, len) ↦ finalize_fields m with_port end_pos port_start u' off len
    ])
    else finalize_fields m with_port end_pos port_start u field_start host_len

-- The loop of `validate_host_percent_encoding` over `buf[off + j ..]`, of which `n` bytes are left;
-- a percent sign wants two bytes behind it, and they are skipped.
unfoldable pub percent_loop : Memory → ℕ → ℕ → Bool
percent_loop m p zero = true
percent_loop m p (suc zero) = not (m p == b'%')
percent_loop m p (suc (suc zero)) = not (m p == b'%') && percent_loop m (p + 1) (suc zero)
percent_loop m p (suc (suc (suc n))) =
    let skip = percent_loop m (p + 3) n in
    let step = percent_loop m (p + 1) (suc (suc n)) in
    if m p == b'%'
    then (if not (is_hex (m (p + 1))) || not (is_hex (m (p + 2))) then false else skip)
    else step

-- `validate_host_percent_encoding(buf, off, len)`
unfoldable pub validate_host_percent_encoding : Memory → ℕ → ℕ → Bool
unfolding percent_loop
validate_host_percent_encoding m off len = elim (memchr m b'%' off len) [
  | none ↦ true
  | some percent_pos ↦ elim (memchr m b':' off len) [
    | some _ ↦ true
    | none ↦ percent_loop m percent_pos (off + len - percent_pos)
  ]
]
