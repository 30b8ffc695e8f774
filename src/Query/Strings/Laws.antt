-- ===== src/Query/Strings/Laws.antt =====
-- llquery.c: the decoder of the parser is the decoder of the codec on texts with no NUL.
use lhttp_parser.Prelude.{
  ℕ, ◌≡◌, ◌≢◌, refl, not, ◌&&◌, [], ◌∷◌, Option, none, some, arith, ◌==◌, if◌then◌else◌, Bytes, All,
}
use lhttp_parser.Query.Codec.{hex_pair, decode, plus_to_space}
use lhttp_parser.Query.Strings.{decode_in_place}

abbrev pub NotNul : ℕ → Type 0
NotNul c = c ≢ 0

-- One round of the two decoders, over the results of the later rounds.
same_round :
    (c a b : ℕ) (o : Option ℕ) {skip step skip' step' : Bytes}
    → c ≢ 0
    → a ≢ 0
    → b ≢ 0
    → skip ≡ skip'
    → step ≡ step'
    → (if c == 0
        then []
        else if c == b'+'
        then b' ' ∷ step
        else if c == b'%' && (not (a == 0) && not (b == 0))
        then (elim o [ some h ↦ h ∷ skip | none ↦ c ∷ step ])
        else c ∷ step)
      ≡ (if c == b'%'
          then (elim o [ some h ↦ h ∷ skip' | none ↦ c ∷ step' ])
          else plus_to_space c ∷ step')
same_round c a b o hc ha hb same same' = ground arith

-- For every text with no NUL byte, `decode_in_place` leaves what `llquery_url_decode` writes.
pub decode_in_place-decode : (s : Bytes) → All NotNul s → decode_in_place s ≡ decode s
unfolding decode_in_place decode
decode_in_place-decode [] h = refl
decode_in_place-decode (c ∷ []) h = ground arith
decode_in_place-decode (c ∷ a ∷ []) h = ground (arith, decode_in_place-decode (a ∷ []) h.1)
decode_in_place-decode (c ∷ a ∷ b ∷ s) (hc, (ha, (hb, hs))) =
    same_round c a b (hex_pair a b) hc ha hb (decode_in_place-decode s hs)
      (decode_in_place-decode (a ∷ b ∷ s) (ha, (hb, hs)))
