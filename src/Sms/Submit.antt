-- ===== src/Sms/Submit.antt =====
-- gateway/internal/sms/pdu.go: SMS-SUBMIT units. `none` is an error, all of them `ErrInvalidPDU`.
pub mod Zeros
use cell_bridge.Sms.Utf16.{octets_of_units, utf16_encode}
use cell_bridge.Sms.Address.{encode_address}
use cell_bridge.Sms.Hex.{upper_hex}
use cell_bridge.Sms.Gsm7.{encode_gsm7, can_encode_gsm7}
use Prim.Native.Nat.{bit_or}
use cell_bridge.Sms.Pack.{pack_septets, pack_udh_and_septets}
use cell_bridge.Sms.Split.{Encoding, gsm7, ucs2, split_body}
use cell_bridge.Base.{
  Text, List, ℕ, ◌∷◌, length, Option, if◌then◌else◌, Bool, ◌++◌, ◌%◌, ltb, some, true, [], ◌*◌, ◌+◌,
  false, trim_space, ◌/◌, ◌||◌, none,
}
use mathlib.Core.Option

pub record SubmitSegment : Type 0 where
  pub pdu : Text
  pub encoding : Encoding
  pub part_no : ℕ
  pub total : ℕ
  pub body : Text

abbrev pub dcs_of : Encoding → ℕ
dcs_of gsm7 = 0x00
dcs_of ucs2 = 0x08

abbrev pub first_octet : List ℕ → ℕ
first_octet [] = 0x01
first_octet (x ∷ udh) = bit_or 0x01 0x40

-- The user data; `udh` is empty for a message of one part.
unfoldable pub user_data : Encoding → Text → List ℕ → List ℕ
user_data gsm7 body [] = pack_septets (encode_gsm7 body)
user_data gsm7 body (x ∷ udh) = pack_udh_and_septets (x ∷ udh) (encode_gsm7 body)
user_data ucs2 body udh = udh ++ octets_of_units (utf16_encode body)

-- `userDataLength`: septets, the header included, or octets.
unfoldable pub user_data_length : Encoding → Text → List ℕ → ℕ
unfolding user_data
user_data_length gsm7 body [] = length (encode_gsm7 body)
user_data_length gsm7 body (x ∷ udh) =
    (length (x ∷ udh) * 8 + length (encode_gsm7 body) * 7 + 6) / 7
user_data_length ucs2 body udh = length (user_data ucs2 body udh)

unfoldable pub submit_octets : Encoding → Text → List ℕ → List ℕ → List ℕ
submit_octets e body udh address =
    (0x00 ∷ first_octet udh ∷ 0x00 ∷ address)
    ++ (0x00 ∷ dcs_of e ∷ (user_data_length e body udh % 256) ∷ user_data e body udh)

-- `encodeSubmit`.
unfoldable pub encode_submit : Text → Text → Encoding → List ℕ → Option Text
encode_submit destination body e udh =
    Option.map (λ (address : List ℕ). upper_hex (submit_octets e body udh address))
      (encode_address destination)

-- The concatenation header of part `part_no`.
abbrev pub concat_header : ℕ → ℕ → ℕ → List ℕ
concat_header concat_ref total part_no =
    0x05 ∷ 0x00 ∷ 0x03 ∷ concat_ref ∷ (total % 256) ∷ (part_no % 256) ∷ []

abbrev pub header_of : ℕ → ℕ → ℕ → List ℕ
header_of concat_ref total part_no =
    if ltb 1 total then concat_header concat_ref total part_no else []

-- The loop over the parts, from number `part_no` on.
unfoldable pub encode_parts : Text → Encoding → ℕ → ℕ → ℕ → List Text → Option (List SubmitSegment)
unfolding Option.bind
encode_parts destination e concat_ref total part_no [] = some []
encode_parts destination e concat_ref total part_no (part ∷ parts) =
    let rest = encode_parts destination e concat_ref total (part_no + 1) parts in
    Option.bind (encode_submit destination part e (header_of concat_ref total part_no)) (λ pdu.
      Option.map
        (λ (segments : List SubmitSegment).
          record { pdu = pdu; encoding = e; part_no = part_no; total = total; body = part }
          ∷ segments)
        rest)

abbrev pub encoding_of : Text → Encoding
encoding_of body = if can_encode_gsm7 body then gsm7 else ucs2

abbrev is_blank : Text → Bool
is_blank [] = true
is_blank (c ∷ s) = false

-- `EncodeSubmitSegments`.
unfoldable pub encode_submit_segments : Text → Text → ℕ → Option (List SubmitSegment)
encode_submit_segments destination body concat_ref =
    let e = encoding_of body in
    let parts = split_body body e in
    if is_blank (trim_space destination) || is_blank body
    then none
    else encode_parts destination e concat_ref (length parts) 1 parts
