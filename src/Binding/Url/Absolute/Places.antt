-- ===== src/Binding/Url/Absolute/Places.antt =====
-- lhttp_url.c: what the bytes of a text say of the memory that it is read from.
use mathlib.Core.Path.{subst}
use lhttp_parser.Prelude.{
  ℕ, zero, suc, ◌+◌, ◌-◌, ◌≤◌, ◌<◌, ◌≡◌, refl, sym, ap, ◌∙◌, Bool, true, false, [], ◌∷◌, Option,
  none, some, arith, Bytes, length, get_or, All, Memory, Reads, Reads-tail, Reads-left, Reads-right,
  LacksByte, LacksByte-cons, all_from,
}
use lhttp_parser.Binding.Url.Absolute.{
  marked, user_text, digits_value, SchemaByte, HostByte, PortText, AllIf,
}
use lhttp_parser.Binding.Url.Target.{
  PathByte, QueryByte, first_byte, all_from-Reads, LacksByte-Reads,
}
use lhttp_parser.Url.Absolute.{HostBytes, InPath, IsUser, IsPort, IsQuery, IsFragment}
use lhttp_parser.Url.Chars.{is_userinfo_char}
use lhttp_parser.Url.Chars.Ranges.{digit_range}
use lhttp_parser.Url.Port.Reference.{decimal, port_of}
use lhttp_parser.Url.ReadAhead.{AllStay}
use lhttp_parser.Url.Scan.{is_valid_char}

All-get_or : (P : ℕ → Type 0) (s : Bytes) (i : ℕ) → All P s → i < length s → P (get_or s i 0)
All-get_or P [] i bytes lt = absurd (omega arith)
All-get_or P (c ∷ s) zero bytes lt = bytes.0
All-get_or P (c ∷ s) (suc i) bytes lt = All-get_or P s i bytes.1 (omega arith)

-- The number of a port that may be missing.
abbrev pub number : Option Bytes → Option ℕ
number none = none
number (some s) = some (digits_value 0 s)

abbrev pub is_some : Option Bytes → Bool
is_some none = false
is_some (some s) = true

-- Where the host begins behind userinfo.
abbrev pub user_end : ℕ → Option Bytes → Option ℕ
user_end k none = none
user_end k (some s) = some (k + 3 + length s + 1)

module _ (m : Memory) where
  pub AllStay-Reads :
      (n : ℕ) (s : Bytes) (k : ℕ) → Reads m 0 s → All SchemaByte s → k ≤ length s → AllStay m n k
  AllStay-Reads n s zero h bytes le = tt
  AllStay-Reads n s (suc k) h bytes le =
      let here : m k ≡ get_or s k 0 = ap m (omega arith) ∙ h k (omega arith) in
      (
        AllStay-Reads n s k h bytes (omega arith),
        subst SchemaByte (sym here) (All-get_or SchemaByte s k bytes (omega arith)),
      )

  pub HostBytes-Reads :
      (p : ℕ) (s : Bytes) → Reads m p s → All HostByte s → HostBytes m p (length s)
  HostBytes-Reads p [] h bytes = tt
  HostBytes-Reads p (c ∷ s) h bytes =
      let rest = HostBytes-Reads (p + 1) s (Reads-tail m p c s h) bytes.1 in
      (rw (first_byte m p c s h) (bytes.0.0, bytes.0.1), rest)

  pub LacksByte-HostByte :
      (p : ℕ) (s : Bytes) → Reads m p s → All HostByte s → LacksByte m b'%' p (length s)
  LacksByte-HostByte p [] h bytes = λ q le lt e. omega arith
  LacksByte-HostByte p (c ∷ s) h bytes =
      LacksByte-cons m b'%' p (length s) (λ e. bytes.0.2 (sym (first_byte m p c s h) ∙ e))
        (LacksByte-HostByte (p + 1) s (Reads-tail m p c s h) bytes.1)

  pub InPath-Reads : (p : ℕ) (s : Bytes) → Reads m p s → All PathByte s → InPath m p (length s)
  InPath-Reads p [] h bytes = tt
  InPath-Reads p (c ∷ s) h bytes =
      let rest = InPath-Reads (p + 1) s (Reads-tail m p c s h) bytes.1 in
      (rw (first_byte m p c s h) (bytes.0.0, (rw (bytes.0.1) refl)), rest)

  -- A test that holds for every byte of the text.
  all_from-All :
      (test : ℕ → Bool) (p : ℕ) (s : Bytes)
      → Reads m p s
      → All (λ c. test c ≡ true) s
      → all_from test m p (length s) ≡ true
  unfolding all_from
  all_from-All test p [] h bytes = refl
  all_from-All test p (c ∷ s) h bytes =
      let rest = all_from-All test (p + 1) s (Reads-tail m p c s h) bytes.1 in
      rw (first_byte m p c s h, bytes.0) rest

  pub IsUser-Reads :
      (n k : ℕ) (o : Option Bytes)
      → Reads m (k + 3) (user_text o)
      → AllIf (λ c. is_userinfo_char c ≡ true) o
      → IsUser m n k (user_end k o)
  IsUser-Reads n k none h w = tt
  IsUser-Reads n k (some s) h w =
      let width : length s ≡ k + 3 + length s + 1 - 1 - (k + 3) = omega arith in
      let mark = first_byte m _ b'@' [] (Reads-right m (k + 3) s (b'@' ∷ []) h) in
      let user = all_from-All is_userinfo_char (k + 3) s (Reads-left m (k + 3) s (b'@' ∷ []) h) w in
      (
        omega arith,
        ap m (omega arith) ∙ mark,
        subst (λ j. all_from is_userinfo_char m (k + 3) j ≡ true) width user,
      )

  decimal-Reads :
      (p : ℕ) (s : Bytes) (acc : ℕ) → Reads m p s → decimal m p (length s) acc ≡ digits_value acc s
  decimal-Reads p [] acc h = refl
  decimal-Reads p (c ∷ s) acc h =
      rw (← first_byte m p c s h) (decimal-Reads (p + 1) s _ (Reads-tail m p c s h))

  port_of-Reads :
      (p : ℕ) (s : Bytes)
      → Reads m p s
      → PortText (some s)
      → port_of m p (length s) ≡ some (digits_value 0 s)
  port_of-Reads p s h (digits, one, five, small) =
      ground (arith, all_from-All digit_range p s h digits, decimal-Reads p s 0 h)

  pub IsPort-Reads :
      (n b : ℕ) (o : Option Bytes)
      → Reads m b (marked b':' o)
      → PortText o
      → IsPort m n (number o) b (b + length (marked b':' o))
  IsPort-Reads n b none h w = omega arith
  IsPort-Reads n b (some s) h w =
      let width : b + length (b':' ∷ s) - (b + 1) ≡ length s = omega arith in
      (
        first_byte m b b':' s h,
        omega (arith, w.1),
        rw width (port_of-Reads (b + 1) s (Reads-tail m b b':' s h) w),
      )

  pub IsQuery-Reads :
      (n q : ℕ) (o : Option Bytes)
      → Reads m q (marked b'?' o)
      → AllIf QueryByte o
      → IsQuery m n (is_some o) q (q + length (marked b'?' o))
  IsQuery-Reads n q none h w = omega arith
  IsQuery-Reads n q (some s) h w =
      let width : q + length (b'?' ∷ s) - (q + 1) ≡ length s = omega arith in
      let rest = Reads-tail m q b'?' s h in
      (
        first_byte m q b'?' s h,
        omega arith,
        rw width (LacksByte-Reads m (q + 1) s rest w),
        rw width (all_from-Reads m (q + 1) s rest w),
      )

  pub IsFragment-Reads :
      (r : ℕ) (o : Option Bytes)
      → Reads m r (marked b'#' o)
      → AllIf (λ c. is_valid_char c ≡ true) o
      → IsFragment m (r + length (marked b'#' o)) (is_some o) r
  IsFragment-Reads r none h w = omega arith
  IsFragment-Reads r (some s) h w =
      let width : r + length (b'#' ∷ s) - (r + 1) ≡ length s = omega arith in
      (
        first_byte m r b'#' s h,
        omega arith,
        rw width (all_from-All is_valid_char (r + 1) s (Reads-tail m r b'#' s h) w),
      )
