-- ===== src/Sms/Hex.antt =====
-- Go's `encoding/hex` and `strings.ToUpper` as gateway/internal/sms/pdu.go calls them.
-- A lower-case hexadecimal digit.
use cell_bridge.Sms.Pack.Bits.{IsByte}
use cell_bridge.Base.{
  ℕ, List, Option, Text, is_space, if◌then◌else◌, ◌∷◌, map, some, ◌<◌, All, ltb, ◌/◌, leb, ◌*◌,
  none, ◌≡◌, ◌+◌, ◌%◌, ◌&&◌, [], arith, false, ◌-◌, refl,
}

abbrev hex_digit : ℕ → ℕ
hex_digit n = if ltb n 10 then b'0' + n else b'a' + (n - 10)

-- `hex.EncodeToString`.
unfoldable pub hex_encode : List ℕ → Text
hex_encode [] = []
hex_encode (x ∷ octets) = hex_digit (x / 16) ∷ hex_digit (x % 16) ∷ hex_encode octets

-- `strings.ToUpper` on a letter of ASCII.
abbrev pub to_upper : ℕ → ℕ
to_upper c = if leb b'a' c && leb c b'z' then c - 32 else c

unfoldable pub upper_hex : List ℕ → Text
unfolding hex_encode
upper_hex octets = map to_upper (hex_encode octets)

abbrev pub hex_value : ℕ → Option ℕ
hex_value c =
    if leb b'0' c && leb c b'9'
    then some (c - b'0')
    else if leb b'a' c && leb c b'f'
    then some (c - b'a' + 10)
    else if leb b'A' c && leb c b'F'
    then some (c - b'A' + 10)
    else none

hex_pair : Option ℕ → Option ℕ → Option (List ℕ) → Option (List ℕ)
hex_pair (some hi) (some lo) (some rest) = some ((hi * 16 + lo) ∷ rest)
hex_pair _ _ _ = none

-- `hex.DecodeString`: an odd length and a character that is no digit are errors.
unfoldable pub hex_decode : Text → Option (List ℕ)
unfolding hex_pair
hex_decode [] = some []
hex_decode (c ∷ []) = none
hex_decode (c ∷ d ∷ text) = hex_pair (hex_value c) (hex_value d) (hex_decode text)

hex_value_upper : (n : ℕ) → n < 16 → hex_value (to_upper (hex_digit n)) ≡ some n
hex_value_upper n h = ground arith

pub hex_decode-upper_hex :
    (octets : List ℕ) → All IsByte octets → hex_decode (upper_hex octets) ≡ some octets
unfolding hex_decode upper_hex
hex_decode-upper_hex [] h = refl
hex_decode-upper_hex (x ∷ octets) h =
    rw (hex_value_upper (x / 16) (omega arith)) (
      rw (hex_value_upper (x % 16) (omega arith)) (ground (arith, hex_decode-upper_hex octets h.1)))

-- Upper-case hexadecimal text has no space to trim.
pub upper_hex_no_space :
    (octets : List ℕ) → All IsByte octets → All (λ c. is_space c ≡ false) (upper_hex octets)
unfolding upper_hex is_space
upper_hex_no_space [] h = tt
upper_hex_no_space (x ∷ octets) h = (ground arith, (ground arith, upper_hex_no_space octets h.1))
