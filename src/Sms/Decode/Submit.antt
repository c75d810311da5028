-- ===== src/Sms/Decode/Submit.antt =====
-- `DecodePDU` reads back what `encodeSubmit` writes.
use cell_bridge.Sms.Pack.RoundTrip.{unpack_septets-pack_bits}
use cell_bridge.Sms.Utf16.{octets_of_units, utf16_decode, utf16_encode, units_of_octets}
use cell_bridge.Sms.Pack.{pack_septets, unpack_septets, pack_bits}
use cell_bridge.Sms.Gsm7.{decode_gsm7, encode_gsm7}
use cell_bridge.Sms.Decode.Bytes.{user_data-All, encode_gsm7-All}
use cell_bridge.Sms.Address.Bytes.{encode_address-All}
use cell_bridge.Sms.Address.RoundTrip.{decode-encode_address}
use cell_bridge.Sms.Hex.{upper_hex, upper_hex_no_space, hex_decode-upper_hex}
use cell_bridge.Sms.Address.{encode_address}
use cell_bridge.Sms.Utf16.RoundTrip.{
  IsRune, length-octets_of_units, units_of_octets-octets_of_units, utf16_encode-units,
  utf16_decode-encode,
}
use cell_bridge.Sms.Pack.Bits.{IsByte}
use cell_bridge.Sms.Gsm7.RoundTrip.{IsGsm7, decode-encode_gsm7}
use cell_bridge.Sms.Submit.{
  submit_octets, encode_submit, dcs_of, user_data_length, first_octet, user_data, concat_header,
}
use cell_bridge.Sms.Decode.{
  read_octets, decode_pdu, ConcatFields, DecodedMessage, read_user_data, ok, no_concat, read_first,
  read_header,
}
use cell_bridge.Base.{
  List, Text, All, ℕ, Bool, length, [], false, trim_space, ◌∷◌, ◌<◌, ◌≡◌, true, some,
  trim_space_no_space, ◌++◌, arith, Option-cases, All-append, refl, inl, ◌%◌, inr, ◌∙◌, ltb, ◌==◌,
  ◌*◌, ◌-◌, ◌+◌, drop, ◌/◌,
}
use cell_bridge.Sms.Split.{Encoding, gsm7, ucs2}

abbrev pub Letters : Encoding → Text → Type 0
Letters gsm7 body = All IsGsm7 body
Letters ucs2 body = All IsRune body

abbrev pub message : Encoding → Text → Text → ConcatFields → DecodedMessage
message e sender body concat = record {
  sender = sender;
  body = body;
  encoding = e;
  concat_ref = concat.ref;
  part_no = concat.part;
  total_parts = concat.parts;
  service_time = [];
}

abbrev pub headed : List ℕ → Bool
headed [] = false
headed (x ∷ udh) = true

no_smsc : (x : ℕ) (octets : List ℕ) → read_octets (0x00 ∷ x ∷ octets) ≡ read_first (x ∷ octets)
unfolding read_octets
no_smsc x octets = let never : ltb (length (x ∷ octets)) 0 ≡ false = ground arith in rw never refl

-- The frame in front of the user data.
read_frame :
    (e : Encoding) (destination : Text) (udh address tail : List ℕ) (size : ℕ)
    → length (trim_space destination) < 256
    → encode_address destination ≡ some address
    → read_octets ((0x00 ∷ first_octet udh ∷ 0x00 ∷ address) ++ (0x00 ∷ dcs_of e ∷ size ∷ tail))
      ≡ read_user_data (headed udh) (dcs_of e) (trim_space destination) [] size tail
unfolding read_first
read_frame e destination udh address tail size lt h =
    no_smsc (first_octet udh) (0x00 ∷ (address ++ (0x00 ∷ dcs_of e ∷ size ∷ tail)))
    ∙ first_frame udh
  where
    first_frame :
        (udh : List ℕ)
        → read_first (first_octet udh ∷ 0x00 ∷ (address ++ (0x00 ∷ dcs_of e ∷ size ∷ tail)))
          ≡ read_user_data (headed udh) (dcs_of e) (trim_space destination) [] size tail
    first_frame [] =
        rw (decode-encode_address destination address (0x00 ∷ dcs_of e ∷ size ∷ tail) lt h) refl
    first_frame (x ∷ udh) =
        rw (decode-encode_address destination address (0x00 ∷ dcs_of e ∷ size ∷ tail) lt h) refl

submit_octets-All :
    (e : Encoding) (destination body : Text) (udh address : List ℕ)
    → All IsByte udh
    → encode_address destination ≡ some address
    → All IsByte (submit_octets e body udh address)
unfolding submit_octets
submit_octets-All e destination body udh address a h =
    All-append IsByte (0x00 ∷ first_octet udh ∷ 0x00 ∷ address)
      (0x00 ∷ dcs_of e ∷ (user_data_length e body udh % 256) ∷ user_data e body udh)
      (omega arith, (first_byte udh, (omega arith, encode_address-All destination address h)))
      (omega arith, (dcs_byte e, (omega arith, user_data-All e body udh a)))
  where
    first_byte : (udh : List ℕ) → first_octet udh < 256
    first_byte [] = omega arith
    first_byte (x ∷ udh) = omega arith

    dcs_byte : (e : Encoding) → dcs_of e < 256
    dcs_byte gsm7 = omega arith
    dcs_byte ucs2 = omega arith

-- Trimming and the hexadecimal text are undone.
decode_upper_hex :
    (octets : List ℕ) → All IsByte octets → decode_pdu (upper_hex octets) ≡ read_octets octets
unfolding decode_pdu
decode_upper_hex octets a =
    rw (trim_space_no_space (upper_hex octets) (upper_hex_no_space octets a))
      (rw (hex_decode-upper_hex octets a) refl)

submit_text :
    (e : Encoding) (destination body : Text) (udh address : List ℕ) (pdu : Text)
    → encode_address destination ≡ some address
    → encode_submit destination body e udh ≡ some pdu
    → pdu ≡ upper_hex (submit_octets e body udh address)
unfolding encode_submit
submit_text e destination body udh address pdu there h = ground arith

pub submit_read :
    (e : Encoding) (destination body : Text) (udh address : List ℕ) (pdu : Text)
    → length (trim_space destination) < 256
    → All IsByte udh
    → user_data_length e body udh < 256
    → encode_submit destination body e udh ≡ some pdu
    → encode_address destination ≡ some address
    → decode_pdu pdu
      ≡ read_user_data
          (headed udh)
          (dcs_of e)
          (trim_space destination)
          []
          (user_data_length e body udh)
          (user_data e body udh)
unfolding submit_octets
submit_read e destination body udh address pdu lt a small h there =
    let whole : user_data_length e body udh % 256 ≡ user_data_length e body udh = omega arith in
    rw (submit_text e destination body udh address pdu there h) (
      decode_upper_hex (submit_octets e body udh address)
        (submit_octets-All e destination body udh address a there)
      ∙ rw whole (
          read_frame e destination udh address (user_data e body udh) (user_data_length e body udh)
            lt there))

pub submit_address :
    (e : Encoding) (destination body : Text) (udh : List ℕ) (pdu : Text)
    → encode_submit destination body e udh ≡ some pdu
    → (address : List ℕ) × (encode_address destination ≡ some address)
unfolding encode_submit
submit_address e destination body udh pdu h = elim (Option-cases (encode_address destination)) [
  | inl none_there ↦ absurd (cc (rw none_there at h))
  | inr found ↦ found
]

pub unpacked :
    (udh : List ℕ) (body : Text)
    → All IsByte udh
    → All IsGsm7 body
    → decode_gsm7 (
        unpack_septets
          (pack_bits udh (encode_gsm7 body) (length udh * 8))
          (length (encode_gsm7 body))
          (length udh * 8))
      ≡ body
unpacked udh body a letters =
    rw (unpack_septets-pack_bits udh (encode_gsm7 body) a (encode_gsm7-All body letters))
      (decode-encode_gsm7 body letters)

pub gsm7_single :
    (sender body : Text)
    → All IsGsm7 body
    → read_user_data false
        (dcs_of gsm7)
        sender
        []
        (user_data_length gsm7 body [])
        (user_data gsm7 body [])
      ≡ ok (message gsm7 sender body no_concat)
unfolding read_user_data user_data user_data_length pack_septets
gsm7_single sender body a =
    let never : ltb (length (encode_gsm7 body)) 0 ≡ false = ground arith in
    let all_left : length (encode_gsm7 body) - 0 ≡ length (encode_gsm7 body) = omega arith in
    rw never (rw all_left (rw (unpacked [] body tt a) refl))

pub even_units : (units : List ℕ) → (length (octets_of_units units) % 2 == 0) ≡ true
even_units units = ground (arith, length-octets_of_units units)

pub ucs2_back :
    (body : Text)
    → All IsRune body
    → utf16_decode (units_of_octets (octets_of_units (utf16_encode body))) ≡ body
ucs2_back body a =
    rw (units_of_octets-octets_of_units (utf16_encode body) (utf16_encode-units body))
      (utf16_decode-encode body a)

pub ucs2_single :
    (sender body : Text)
    → All IsRune body
    → read_user_data false
        (dcs_of ucs2)
        sender
        []
        (user_data_length ucs2 body [])
        (user_data ucs2 body [])
      ≡ ok (message ucs2 sender body no_concat)
unfolding read_user_data user_data user_data_length
ucs2_single sender body a = rw (even_units (utf16_encode body)) (rw (ucs2_back body a) refl)

abbrev pub marked : ℕ → ℕ → ℕ → ConcatFields
marked concat_ref total part_no = record { ref = concat_ref; part = part_no; parts = total }

-- The header of a part, with the octets of the part behind it.
pub read_concat_header :
    (concat_ref total part_no : ℕ) (tail : List ℕ)
    → total < 256
    → part_no < 256
    → read_header true (concat_header concat_ref total part_no ++ tail)
      ≡ ok (6, marked concat_ref total part_no)
unfolding read_header
read_concat_header concat_ref total part_no tail t p =
    let long : ltb (length (concat_header concat_ref total part_no ++ tail)) 6 ≡ false =
      ground arith in
    let whole : total % 256 ≡ total = omega arith in
    let whole_part : part_no % 256 ≡ part_no = omega arith in
    rw long (rw whole (rw whole_part refl))

-- The body behind a header that has been read.
pub read_gsm7_headed :
    (sender : Text) (size : ℕ) (octets : List ℕ) (header : ℕ) (concat : ConcatFields) (body : Text)
    → read_header true octets ≡ ok (header, concat)
    → ltb size ((header * 8 + 6) / 7) ≡ false
    → decode_gsm7 (unpack_septets octets (size - (header * 8 + 6) / 7) (header * 8)) ≡ body
    → read_user_data true (dcs_of gsm7) sender [] size octets ≡ ok (message gsm7 sender body concat)
unfolding read_user_data
read_gsm7_headed sender size octets header concat body h enough b = ground arith

pub read_ucs2_headed :
    (sender : Text) (size : ℕ) (octets : List ℕ) (header : ℕ) (concat : ConcatFields) (body : Text)
    → read_header true octets ≡ ok (header, concat)
    → (length (drop header octets) % 2 == 0) ≡ true
    → utf16_decode (units_of_octets (drop header octets)) ≡ body
    → read_user_data true (dcs_of ucs2) sender [] size octets ≡ ok (message ucs2 sender body concat)
unfolding read_user_data
read_ucs2_headed sender size octets header concat body h even b = ground arith
