-- ===== src/Sms/Utf16/RoundTrip.antt =====
-- UTF-16 there and back.
-- A Unicode scalar value, which is what a Go string yields.
use mathlib.Core.Path.{ap₂}
use cell_bridge.Sms.Utf16.{utf16_decode, units_of, utf16_encode, units_of_octets, octets_of_units}
use cell_bridge.Base.{
  ℕ, ◌<◌, List, Text, All, ◌⊎◌, ◌+◌, ◌++◌, ◌≡◌, arith, ◌∷◌, length, ◌≤◌, ◌/◌, Bool-cases, ◌∙◌,
  All-append, ◌*◌, [], ◌%◌, ltb, ap, ◌||◌, refl, leb, ◌&&◌, inl, inr, true, ◌-◌, if◌then◌else◌,
}

abbrev pub IsRune : ℕ → Type 0
IsRune r = (r < 0xd800) ⊎ ((0xe000 ≤ r) × (r < 0x110000))

decode_plain_unit :
    (u : ℕ) (units : List ℕ)
    → (u < 0xd800) ⊎ (0xe000 ≤ u)
    → utf16_decode (u ∷ units) ≡ u ∷ utf16_decode units
unfolding utf16_decode
decode_plain_unit u [] h = ground arith
decode_plain_unit u (v ∷ units) h = ground arith

decode_pair :
    (n : ℕ) (units : List ℕ)
    → n < 0x100000
    → utf16_decode ((0xd800 + n / 1024) ∷ (0xdc00 + n % 1024) ∷ units)
      ≡ (n + 0x10000) ∷ utf16_decode units
unfolding utf16_decode
decode_pair n units h = ground arith

utf16_decode-units_of :
    (r : ℕ) (units : List ℕ)
    → IsRune r
    → utf16_decode (units_of r ++ units) ≡ r ∷ utf16_decode units
unfolding units_of
utf16_decode-units_of r units h =
    elim (Bool-cases (ltb r 0xd800 || (leb 0xe000 r && ltb r 0x10000))) [
      | inl p ↦ rw p (decode_plain_unit r units (ground arith))
      | inr p ↦
          let high : (leb 0x10000 r && leb r 0x10ffff) ≡ true = ground arith in
          rw p (rw high (ground (arith, decode_pair (r - 0x10000) units)))
    ]

pub utf16_decode-encode : (body : Text) → All IsRune body → utf16_decode (utf16_encode body) ≡ body
unfolding utf16_encode
utf16_decode-encode [] h = unfold utf16_decode in refl
utf16_decode-encode (r ∷ body) h =
    utf16_decode-units_of r (utf16_encode body) h.0 ∙ ap (◌∷◌ r) (utf16_decode-encode body h.1)

abbrev pub IsUnit16 : ℕ → Type 0
IsUnit16 u = u < 65536

units_of-units : (r : ℕ) → All IsUnit16 (units_of r)
unfolding units_of
units_of-units r = ground arith

pub utf16_encode-units : (body : Text) → All IsUnit16 (utf16_encode body)
unfolding utf16_encode
utf16_encode-units [] = tt
utf16_encode-units (r ∷ body) =
    All-append IsUnit16 (units_of r) (utf16_encode body) (units_of-units r)
      (utf16_encode-units body)

pub units_of_octets-octets_of_units :
    (units : List ℕ) → All IsUnit16 units → units_of_octets (octets_of_units units) ≡ units
unfolding units_of_octets octets_of_units
units_of_octets-octets_of_units [] h = refl
units_of_octets-octets_of_units (u ∷ units) h =
    ap₂ ◌∷◌ (omega arith) (units_of_octets-octets_of_units units h.1)

pub length-octets_of_units : (units : List ℕ) → length (octets_of_units units) ≡ length units * 2
unfolding octets_of_units
length-octets_of_units [] = omega arith
length-octets_of_units (u ∷ units) = omega (arith, length-octets_of_units units)

-- A rune beyond the basic plane takes two units.
pub length_units : (r : ℕ) → IsRune r → length (units_of r) ≡ (if ltb 0xffff r then 2 else 1)
unfolding units_of
length_units r h = ground arith
