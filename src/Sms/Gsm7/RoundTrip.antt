-- ===== src/Sms/Gsm7/RoundTrip.antt =====
-- `decodeGSM7` reads back what `encodeGSM7` writes.
-- Runes of the alphabet or of its extension, other than the escape itself.
use cell_bridge.Sms.Gsm7.Table.{gsm7_reverse_no_escape, plain_char_reverse, extension_char_code}
use mathlib.Core.List.{append-nil}
use cell_bridge.Sms.Gsm7.{
  decode_gsm7, septets_of, encode_gsm7, encodes, gsm7_cost, plain_char, extension_char,
  gsm7_reverse, extension_code, gsm7_alphabet, can_encode_gsm7,
}
use cell_bridge.Base.{
  ℕ, List, Text, ◌≡◌, ◌≢◌, ◌∷◌, ◌++◌, All, true, Option-cases, ◌∙◌, sym, refl, ap, length, inr, [],
  ◌≤◌, arith, some, inl, none,
}

abbrev pub IsGsm7 : ℕ → Type 0
IsGsm7 c = (encodes c ≡ true) × (c ≢ 0x1b)

decode_plain :
    (k : ℕ) (rest : List ℕ) → k ≢ 0x1b → decode_gsm7 (k ∷ rest) ≡ plain_char k ++ decode_gsm7 rest
unfolding decode_gsm7
decode_plain k [] ne = sym (append-nil (plain_char k))
decode_plain k (w ∷ rest) ne = ground arith

decode_escaped :
    (k : ℕ) (rest : List ℕ) → decode_gsm7 (0x1b ∷ k ∷ rest) ≡ extension_char k ++ decode_gsm7 rest
unfolding decode_gsm7
decode_escaped k rest = refl

pub septets_reverse : (c k : ℕ) → gsm7_reverse c ≡ some k → septets_of c ≡ k ∷ []
unfolding septets_of
septets_reverse c k e = ground arith

pub septets_extension :
    (c k : ℕ) → gsm7_reverse c ≡ none → extension_code c ≡ some k → septets_of c ≡ 0x1b ∷ k ∷ []
unfolding septets_of
septets_extension c k e x = ground arith

-- One rune, with any septets behind it.
decode-septets_of :
    (c : ℕ) (rest : List ℕ) → IsGsm7 c → decode_gsm7 (septets_of c ++ rest) ≡ c ∷ decode_gsm7 rest
decode-septets_of c rest (h, ne) = elim (Option-cases (gsm7_reverse c)) [
  | inr (k, e) ↦ rw (septets_reverse c k e) (
      decode_plain k rest (λ q. gsm7_reverse_no_escape c ne (e ∙ ap some q))
      ∙ rw (plain_char_reverse c k e) refl)
  | inl e ↦ elim (Option-cases (extension_code c)) [
    | inr (k, x) ↦
        rw (septets_extension c k e x) (decode_escaped k rest ∙ rw (extension_char_code c k x) refl)
    | inl x ↦ absurd (cc (rw x at (rw e at h)))
  ]
]

-- A body of runes of the GSM alphabet and its extension, with no escape character in it, is decoded
-- to itself.
pub decode-encode_gsm7 : (body : Text) → All IsGsm7 body → decode_gsm7 (encode_gsm7 body) ≡ body
unfolding encode_gsm7
decode-encode_gsm7 [] h = unfold decode_gsm7 in refl
decode-encode_gsm7 (c ∷ body) h =
    decode-septets_of c (encode_gsm7 body) h.0 ∙ ap (◌∷◌ c) (decode-encode_gsm7 body h.1)

pub length-septets_of : (c : ℕ) → encodes c ≡ true → length (septets_of c) ≤ gsm7_cost c
unfolding septets_of gsm7_cost
length-septets_of c h = ground arith

escape_code : gsm7_reverse 0x1b ≡ some 0x1b
unfolding gsm7_reverse gsm7_alphabet
escape_code = refl

-- The escape character passes `CanEncodeGSM7`, and is not read back: with a character `d` behind it
-- whose septet is the extension code of `c`, it comes back as `c` alone.
pub decode-encode_gsm7_escape :
    (c d k : ℕ)
    → extension_code c ≡ some k
    → gsm7_reverse d ≡ some k
    → (can_encode_gsm7 (0x1b ∷ d ∷ []) ≡ true)
      × (decode_gsm7 (encode_gsm7 (0x1b ∷ d ∷ [])) ≡ c ∷ [])
unfolding can_encode_gsm7 encode_gsm7 decode_gsm7
decode-encode_gsm7_escape c d k x e = (
  ground (arith, escape_code),
  rw (septets_reverse 0x1b 0x1b escape_code)
      (rw (septets_reverse d k e) (rw (extension_char_code c k x) refl)),
)
