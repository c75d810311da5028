-- ===== src/Agent/SmsPdu/Laws.antt =====
-- The agent's encoder against the gateway's.
use cell_bridge.Sms.Decode.Segments.{mark_of, decode-encode_submit}
use cell_bridge.Sms.Decode.Submit.{message}
use cell_bridge.Sms.Decode.{decode_pdu, ok}
use cell_bridge.Sms.Utf16.RoundTrip.{length-octets_of_units, IsRune}
use cell_bridge.Sms.Split.{ucs2}
use cell_bridge.Sms.Submit.{submit_octets, user_data, user_data_length, encode_submit}
use cell_bridge.Sms.Hex.{upper_hex}
use cell_bridge.Sms.Utf16.{utf16_encode}
use cell_bridge.Sms.Address.{
  semi_octets, is_digit, all_digits, encode_number, encode_trimmed, encode_address,
}
use cell_bridge.Agent.SmsPdu.{
  hex_digit_value, pair_octets, filled, is_phone_number, is_blank_text, build_unsigned, unit_octets,
  build_trimmed, build_submit,
}
use cell_bridge.Base.{
  Text, all_below, ℕ, ◌∷◌, Bool, ◌*◌, ◌<◌, if◌then◌else◌, ◌%◌, ◌≡◌, ◌==◌, trim_space, ==_iff, true,
  length, [], ◌&&◌, refl, all_below_sound, some, ◌+◌, not, ◌-◌, arith, leb, none, Bool-cases, inr,
  inl, ltb, false, ap, All, ◌∙◌, sym,
}
use Prim.Native.Nat.{bit_or}

-- The number behind its sign.
abbrev pub unsigned : Text → Text
unsigned [] = []
unsigned (c ∷ s) = if c == b'+' then s else c ∷ s

-- What the agent can send: a telephone number, and a body that is not blank and fits one unit.
abbrev pub takes : Text → Text → Bool
takes number body =
    is_phone_number (unsigned (trim_space number))
    && not (is_blank_text (trim_space body))
    && leb (length (utf16_encode body)) 70

-- Two nibbles, in either order of the operands.
nibble_orders :
    all_below 16 (λ lo. all_below 16 (λ hi. bit_or (hi * 16 % 256) lo == bit_or lo (hi * 16 % 256)))
    ≡ true
unfolding all_below
nibble_orders = refl

nibble_order :
    (lo hi : ℕ) → lo < 16 → hi < 16 → bit_or (hi * 16 % 256) lo ≡ bit_or lo (hi * 16 % 256)
nibble_order lo hi hl hh =
    (==_iff _ _).0 (all_below_sound 16 _ hi (all_below_sound 16 _ lo nibble_orders hl) hh)

hex_digit_value_digit : (c : ℕ) → is_digit c ≡ true → hex_digit_value c ≡ some (c - b'0')
unfolding hex_digit_value
hex_digit_value_digit c h = ground arith

filled-two : (c d : ℕ) (s : Text) → filled (c ∷ d ∷ s) ≡ c ∷ d ∷ filled s
filled-two c d s = let same : (length s + 2) % 2 ≡ length s % 2 = omega arith in ground arith

-- The octets of the address are the gateway's.
pair_octets-filled :
    (s : Text) → all_digits s ≡ true → pair_octets (filled s) ≡ some (semi_octets s)
unfolding pair_octets semi_octets all_digits
pair_octets-filled [] h = refl
pair_octets-filled (c ∷ []) h =
    rw (hex_digit_value_digit c (ground arith))
      (rw (nibble_order (c - b'0') 0x0f (ground arith) (omega arith)) refl)
pair_octets-filled (c ∷ d ∷ s) h = rw (filled-two c d s) (
    rw (hex_digit_value_digit c (ground arith)) (
      rw (hex_digit_value_digit d (ground arith)) (
        rw (pair_octets-filled s (ground arith))
          (rw (nibble_order (c - b'0') (d - b'0') (ground arith) (ground arith)) refl))))

-- The gateway's unit in UCS-2, in one part, for a number that it accepts.
abbrev gateway_unit : Bool → Text → Text → Text
gateway_unit international number body = upper_hex (
    submit_octets ucs2 body []
      ((length number % 256) ∷ (if international then 0x91 else 0x81) ∷ semi_octets number))

unit_octets-eq-submit_octets :
    (international : Bool) (number body : Text)
    → unit_octets international number (utf16_encode body) (semi_octets number)
      ≡ submit_octets ucs2 body []
          ((length number % 256) ∷ (if international then 0x91 else 0x81) ∷ semi_octets number)
unfolding submit_octets user_data user_data_length
unit_octets-eq-submit_octets international number body =
    rw (length-octets_of_units (utf16_encode body)) refl

build_unsigned-eq :
    (international : Bool) (number body : Text)
    → build_unsigned international number body ≡ (
        if is_phone_number number
          && not (is_blank_text (trim_space body))
          && leb (length (utf16_encode body)) 70
        then some (gateway_unit international number body)
        else none)
unfolding build_unsigned
build_unsigned-eq international number body = elim (Bool-cases (is_phone_number number)) [
  | inr p ↦ rw p refl
  | inl p ↦ elim (Bool-cases (is_blank_text (trim_space body))) [
    | inl b ↦ rw p (rw b refl)
    | inr b ↦ elim (Bool-cases (ltb 70 (length (utf16_encode body)))) [
      | inl l ↦
          let long : leb (length (utf16_encode body)) 70 ≡ false = ground arith in
          rw p (rw b (rw l (rw long refl)))
      | inr l ↦
          let short : leb (length (utf16_encode body)) 70 ≡ true = ground arith in
          let digits : all_digits number ≡ true = ground arith in
          rw p (
            rw b (
              rw l (
                rw short (
                  rw (pair_octets-filled number digits) (
                    ap (λ o. some (upper_hex o))
                      (unit_octets-eq-submit_octets international number body))))))
    ]
  ]
]

encode_number-digits :
    (ton : ℕ) (s : Text)
    → is_phone_number s ≡ true
    → encode_number ton s ≡ some ((length s % 256) ∷ ton ∷ semi_octets s)
unfolding encode_number
encode_number-digits ton [] h = absurd (cc h)
encode_number-digits ton (c ∷ s) h =
    let digits : all_digits (c ∷ s) ≡ true = ground arith in rw digits refl

-- The gateway's encoder on a trimmed number.
encode_trimmed-sign :
    (s : Text)
    → is_phone_number (unsigned s) ≡ true
    → (international : Bool) × (number : Text) × ((body : Text)
        → build_trimmed s body ≡ build_unsigned international number body)
      × (unsigned s ≡ number)
      × (encode_trimmed s
          ≡ some
              ((length number % 256) ∷ (if international then 0x91 else 0x81) ∷ semi_octets number))
unfolding build_trimmed encode_trimmed
encode_trimmed-sign [] h = absurd (cc h)
encode_trimmed-sign (c ∷ s) h = elim (Bool-cases (c == b'+')) [
  | inl p ↦ (true, s, λ body. rw p refl, rw p refl, rw p (encode_number-digits 0x91 s (rw p at h)))
  | inr p ↦ (
    false,
    c ∷ s,
    λ body. rw p refl,
    rw p refl,
    rw p (encode_number-digits 0x81 (c ∷ s) (rw p at h)),
  )
]

build_trimmed-refused :
    (s body : Text) → is_phone_number (unsigned s) ≡ false → build_trimmed s body ≡ none
unfolding build_trimmed
build_trimmed-refused [] body h = rw (build_unsigned-eq false [] body) (ground arith)
build_trimmed-refused (c ∷ s) body h = elim (Bool-cases (c == b'+')) [
  | inl p ↦ rw p (rw (build_unsigned-eq true s body) (rw (rw p at h) refl))
  | inr p ↦ rw p (rw (build_unsigned-eq false (c ∷ s) body) (rw (rw p at h) refl))
]

-- The agent's encoder and the gateway's agree: where the number is three to twenty digits with an
-- optional sign, and the body is not blank and has at most 70 UTF-16 units, the agent builds the
-- very unit that `encodeSubmit` builds of the body in UCS-2 without a header; else it refuses.
pub build_submit-encode_submit :
    (number body : Text)
    → build_submit number body
      ≡ (if takes number body then encode_submit number body ucs2 [] else none)
unfolding build_submit encode_submit encode_address
build_submit-encode_submit number body =
    elim (Bool-cases (is_phone_number (unsigned (trim_space number)))) [
      | inr p ↦ rw p (build_trimmed-refused (trim_space number) body p)
      | inl p ↦
          let (international, digits, built, same, sent) =
            encode_trimmed-sign (trim_space number) p in
          rw sent (
            built body
            ∙ build_unsigned-eq international digits body
            ∙ ap
                (λ n.
                  if is_phone_number n
                    && not (is_blank_text (trim_space body))
                    && leb (length (utf16_encode body)) 70
                  then some (gateway_unit international digits body)
                  else none)
                (sym same))
    ]

length_signed : (s : Text) → is_phone_number (unsigned s) ≡ true → length s < 256
length_signed [] h = omega arith
length_signed (c ∷ s) h = ground arith

small_units :
    (body : Text) → leb (length (utf16_encode body)) 70 ≡ true → user_data_length ucs2 body [] < 256
unfolding user_data_length user_data
small_units body h = ground (arith, length-octets_of_units (utf16_encode body))

-- The gateway's `DecodePDU` reads a unit that the agent has built: the trimmed number, the body in
-- UCS-2, and no concatenation, for a body of Unicode scalar values.
pub decode-build_submit :
    (number body pdu : Text)
    → All IsRune body
    → build_submit number body ≡ some pdu
    → decode_pdu pdu ≡ ok (message ucs2 (trim_space number) body (mark_of 0 1 1))
decode-build_submit number body pdu runes h = elim (Bool-cases (takes number body)) [
  | inr p ↦ absurd (cc (rw (build_submit-encode_submit number body, p) at h))
  | inl p ↦
      decode-encode_submit ucs2 number body pdu 0 1 1
        (length_signed (trim_space number) (ground arith)) (omega arith) (omega arith) (omega arith)
        runes (small_units body (ground arith))
        (rw (build_submit-encode_submit number body, p) at h)
]
