-- ===== src/Agent/SmsPdu.antt =====
-- module-agent/internal/control/sms_pdu.go: the agent's own SMS-SUBMIT units. `none` is an error.
pub mod Laws
use cell_bridge.Sms.Hex.{upper_hex}
use cell_bridge.Sms.Utf16.{utf16_encode, octets_of_units}
use cell_bridge.Sms.Address.{all_digits}
use cell_bridge.Base.{
  Text, ℕ, Option, Bool, leb, if◌then◌else◌, List, true, false, trim_space, length, ◌&&◌, some,
  none, ◌∷◌, not, ◌-◌, ◌*◌, [], ◌%◌, ltb, ◌==◌, ◌++◌,
}
use Prim.Native.Nat.{bit_or}

-- `phoneNumberPattern`: three to twenty digits, and nothing else.
abbrev pub is_phone_number : Text → Bool
is_phone_number s = leb 3 (length s) && leb (length s) 20 && all_digits s

-- `hexDigit`.
unfoldable pub hex_digit_value : ℕ → Option ℕ
hex_digit_value c =
    if leb b'0' c && leb c b'9' then some (c - b'0') else if c == b'F' then some 0x0f else none

pub semi_octet : Option ℕ → Option ℕ → Option (List ℕ) → Option (List ℕ)
semi_octet (some high) (some low) (some rest) = some (bit_or (high * 16 % 256) low ∷ rest)
semi_octet _ _ _ = none

-- The loop over pairs of characters; their number is even.
pub pair_octets : Text → Option (List ℕ)
unfolding semi_octet hex_digit_value
pair_octets [] = some []
pair_octets (c ∷ []) = none
pair_octets (c ∷ d ∷ s) = semi_octet (hex_digit_value d) (hex_digit_value c) (pair_octets s)

-- `number += "F"` where the length is odd.
abbrev pub filled : Text → Text
filled number = if length number % 2 == 0 then number else number ++ b'F' ∷ []

-- `encodeSemiOctets`.
unfoldable pub encode_semi_octets : Text → Option (List ℕ)
unfolding pair_octets
encode_semi_octets number = if is_phone_number number then pair_octets (filled number) else none

-- The octets in front of the body and the body, behind the address.
abbrev pub unit_octets : Bool → Text → List ℕ → List ℕ → List ℕ
unit_octets international number units address =
    (0x00 ∷ 0x01 ∷ 0x00 ∷ (length number % 256) ∷ (if international then 0x91 else 0x81) ∷ address)
    ++ (0x00 ∷ 0x08 ∷ (length units * 2 % 256) ∷ octets_of_units units)

abbrev pub is_blank_text : Text → Bool
is_blank_text [] = true
is_blank_text (c ∷ s) = false

-- Behind the sign.
pub build_unsigned : Bool → Text → Text → Option Text
unfolding encode_semi_octets
build_unsigned international number body =
    if not (is_phone_number number)
    then none
    else if is_blank_text (trim_space body)
    then none
    else if ltb 70 (length (utf16_encode body))
    then none
    else elim (encode_semi_octets number) [
      | none ↦ none
      | some address ↦
          some (upper_hex (unit_octets international number (utf16_encode body) address))
    ]

pub build_trimmed : Text → Text → Option Text
unfolding build_unsigned
build_trimmed [] body = build_unsigned false [] body
build_trimmed (c ∷ s) body =
    if c == b'+' then build_unsigned true s body else build_unsigned false (c ∷ s) body

-- `buildGSMSMSSubmitPDU`.
unfoldable pub build_submit : Text → Text → Option Text
unfolding build_trimmed
build_submit number body = build_trimmed (trim_space number) body
