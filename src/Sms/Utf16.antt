-- ===== src/Sms/Utf16.antt =====
-- Go's `unicode/utf16` as gateway/internal/sms/pdu.go calls it, and the octets of UCS-2 user data.
pub mod RoundTrip
use cell_bridge.Base.{
  ℕ, Text, List, if◌then◌else◌, ◌∷◌, length, Bool, ltb, ◌++◌, ◌-◌, ◌/◌, ◌*◌, ◌||◌, [], ◌&&◌, ◌+◌,
  ◌%◌, leb,
}

-- `utf16.Encode` on one rune.
pub units_of : ℕ → List ℕ
units_of r =
    if ltb r 0xd800 || (leb 0xe000 r && ltb r 0x10000)
    then r ∷ []
    else if leb 0x10000 r && leb r 0x10ffff
    then (0xd800 + (r - 0x10000) / 1024) ∷ (0xdc00 + (r - 0x10000) % 1024) ∷ []
    else 0xfffd ∷ []

unfoldable pub utf16_encode : Text → List ℕ
unfolding units_of
utf16_encode [] = []
utf16_encode (r ∷ body) = units_of r ++ utf16_encode body

-- `utf16Length`.
unfoldable pub utf16_length : Text → ℕ
unfolding utf16_encode
utf16_length body = length (utf16_encode body)

abbrev is_plain_unit : ℕ → Bool
is_plain_unit u = ltb u 0xd800 || leb 0xe000 u

abbrev is_pair : ℕ → ℕ → Bool
is_pair u v = ltb u 0xdc00 && leb 0xdc00 v && ltb v 0xe000

-- `utf16.Decode`.
unfoldable pub utf16_decode : List ℕ → Text
utf16_decode [] = []
utf16_decode (u ∷ []) = (if is_plain_unit u then u else 0xfffd) ∷ []
utf16_decode (u ∷ v ∷ units) =
    let single = utf16_decode (v ∷ units) in
    let pair = utf16_decode units in
    if is_plain_unit u
    then u ∷ single
    else if is_pair u v
    then ((u - 0xd800) * 1024 + (v - 0xdc00) + 0x10000) ∷ pair
    else 0xfffd ∷ single

-- `byte(value>>8), byte(value)` for each unit.
unfoldable pub octets_of_units : List ℕ → List ℕ
octets_of_units [] = []
octets_of_units (u ∷ units) = (u / 256 % 256) ∷ (u % 256) ∷ octets_of_units units

-- The loop that joins the octets again; it is called on an even number of them.
unfoldable pub units_of_octets : List ℕ → List ℕ
units_of_octets [] = []
units_of_octets (x ∷ []) = []
units_of_octets (x ∷ y ∷ octets) = (x * 256 + y) ∷ units_of_octets octets
