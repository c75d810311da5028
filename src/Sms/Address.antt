-- ===== src/Sms/Address.antt =====
-- gateway/internal/sms/pdu.go: telephone numbers as semi-octets. `none` is `ErrInvalidPDU`, and the
-- offset of `decodeAddress` is the list of the octets from there on.
pub mod RoundTrip
pub mod Bytes
use Prim.Native.Nat.{bit_or, bit_and}
use cell_bridge.Base.{
  ℕ, Text, List, Bool, ◌∷◌, Option, [], leb, true, none, if◌then◌else◌, trim_space, suc, ◌&&◌, ◌-◌,
  some, ◌==◌, ltb, ◌+◌, ◌*◌, length, not, ◌/◌, ◌%◌, ◌++◌, drop, zero,
}

abbrev pub is_digit : ℕ → Bool
is_digit c = leb b'0' c && leb c b'9'

unfoldable pub all_digits : Text → Bool
all_digits [] = true
all_digits (c ∷ s) = is_digit c && all_digits s

-- The loop over pairs of digits; an odd last digit is filled up by 0x0f.
unfoldable pub semi_octets : Text → List ℕ
semi_octets [] = []
semi_octets (c ∷ []) = bit_or (c - b'0') (0x0f * 16) ∷ []
semi_octets (c ∷ d ∷ s) = bit_or (c - b'0') ((d - b'0') * 16 % 256) ∷ semi_octets s

-- The text behind the sign; the flag tells an international number.
unfoldable pub encode_number : ℕ → Text → Option (List ℕ)
unfolding all_digits semi_octets
encode_number ton [] = none
encode_number ton (c ∷ s) =
    if all_digits (c ∷ s) then some ((length (c ∷ s) % 256) ∷ ton ∷ semi_octets (c ∷ s)) else none

unfoldable pub encode_trimmed : Text → Option (List ℕ)
unfolding encode_number
encode_trimmed [] = encode_number 0x81 []
encode_trimmed (c ∷ s) = if c == b'+' then encode_number 0x91 s else encode_number 0x81 (c ∷ s)

-- `encodeAddress`.
unfoldable pub encode_address : Text → Option (List ℕ)
unfolding encode_trimmed
encode_address value = encode_trimmed (trim_space value)

-- The loop of `decodeAddress`, with `left` octets to read; `written` counts the digits so far.
pub decode_digits : ℕ → ℕ → ℕ → List ℕ → Text
decode_digits zero count written octets = []
decode_digits (suc left) count written [] = []
decode_digits (suc left) count written (x ∷ octets) =
    let both = ltb (written + 1) count && not (x / 16 == 0x0f) in
    (b'0' + x % 16)
    ∷ ((if both then (b'0' + x / 16) ∷ [] else [])
        ++ decode_digits left count (if both then written + 2 else written + 1) octets)

-- `decodeAddress`: the number, and the octets behind it.
unfoldable pub decode_address : List ℕ → Option (Text × List ℕ)
unfolding decode_digits
decode_address [] = none
decode_address (count ∷ []) = none
decode_address (count ∷ ton ∷ octets) =
    let size = (count + 1) / 2 in
    let digits = decode_digits size count 0 octets in
    if ltb (length octets) size
    then none
    else some (if bit_and ton 0x70 == 0x10 then b'+' ∷ digits else digits, drop size octets)
