-- ===== src/Sms/Decode.antt =====
-- gateway/internal/sms/pdu.go: `DecodePDU`. The offset into the data is the list of the octets from
-- there on. A panic of the Go runtime is a result of its own.
mod Bytes
pub mod Submit
pub mod Parts
pub mod Segments
use cell_bridge.Sms.Pack.{unpack_septets}
use cell_bridge.Sms.Gsm7.{decode_gsm7}
use cell_bridge.Sms.Utf16.{utf16_decode, units_of_octets}
use cell_bridge.Sms.Address.{decode_address}
use cell_bridge.Sms.Hex.{hex_decode, hex_encode}
use Prim.Native.Nat.{bit_and}
use cell_bridge.Sms.Split.{Encoding, ucs2, gsm7}
use cell_bridge.Base.{
  Text, List, ℕ, Bool, Option, get_or, suc, ◌∷◌, if◌then◌else◌, drop, [], some, ltb, ◌*◌, length,
  ◌==◌, trim_space, ◌&&◌, ◌+◌, ◌%◌, not, take, ◌/◌, ◌-◌, zero, false, true, none,
}

pub data Parsed {ℓ} (A : Type ℓ) : Type ℓ where
  ok : A → Parsed A
  invalid : Parsed A
  crash : Parsed A

infixl 5 ◌>>=◌
abbrev pub ◌>>=◌ {ℓ κ} : {A : Type ℓ} {B : Type κ} → Parsed A → (A → Parsed B) → Parsed B
ok a >>= f = f a
invalid >>= f = invalid
crash >>= f = crash

pub record DecodedMessage : Type 0 where
  pub sender : Text
  pub body : Text
  pub encoding : Encoding
  pub concat_ref : ℕ
  pub part_no : ℕ
  pub total_parts : ℕ
  pub service_time : Text

-- The three fields that `parseConcat` sets.
pub record ConcatFields : Type 0 where
  pub ref : ℕ
  pub part : ℕ
  pub parts : ℕ

abbrev pub no_concat : ConcatFields
no_concat = record { ref = 0; part = 0; parts = 0 }

-- `udh[index] == 0x00 && length == 3`: the three octets behind the length.
abbrev pub concat_of : List ℕ → ConcatFields
concat_of element = record {
  ref = get_or element 0 0;
  parts = get_or element 1 0;
  part = get_or element 2 0;
}

-- The loop of `parseConcat` over the elements of a header; each round takes two octets at least.
unfoldable pub parse_concat : ℕ → List ℕ → ConcatFields
parse_concat zero udh = no_concat
parse_concat (suc fuel) [] = no_concat
parse_concat (suc fuel) (iei ∷ []) = no_concat
parse_concat (suc fuel) (iei ∷ size ∷ udh) =
    let rest = parse_concat fuel (drop size udh) in
    if ltb (length udh) size
    then no_concat
    else if iei == 0x00 && size == 3
    then concat_of udh
    else rest

-- The length of the header, and its elements, for an indicator in the first octet.
pub read_header : Bool → List ℕ → Parsed (ℕ × ConcatFields)
unfolding parse_concat
read_header false octets = ok (0, no_concat)
read_header true [] = invalid
read_header true (x ∷ octets) =
    if ltb (length (x ∷ octets)) (x + 1)
    then invalid
    else ok (x + 1, parse_concat (length (take x octets)) (take x octets))

-- A body of septets. `make` panics on a negative capacity.
pub read_gsm7 : Bool → ℕ → ℕ → List ℕ → Parsed Text
read_gsm7 headed size header octets =
    let taken = if headed then (header * 8 + 6) / 7 else 0 in
    if ltb size taken
    then crash
    else ok (decode_gsm7 (unpack_septets octets (size - taken) (header * 8)))

pub read_ucs2 : ℕ → List ℕ → Parsed Text
read_ucs2 header octets =
    let payload = drop header octets in
    if length payload % 2 == 0 then ok (utf16_decode (units_of_octets payload)) else invalid

-- The user data, behind its length.
pub read_user_data : Bool → ℕ → Text → Text → ℕ → List ℕ → Parsed DecodedMessage
unfolding read_header read_gsm7 read_ucs2
read_user_data headed dcs sender service_time size octets = do
  (header, concat) ← read_header headed octets
  let wide = bit_and dcs 0x0c == 0x08
  body ← (if wide then read_ucs2 header octets else read_gsm7 headed size header octets)
  ok (record {
    sender = sender;
    body = body;
    encoding = if wide then ucs2 else gsm7;
    concat_ref = concat.ref;
    part_no = concat.part;
    total_parts = concat.parts;
    service_time = service_time;
  })

pub read_length : Bool → ℕ → Text → Text → List ℕ → Parsed DecodedMessage
unfolding read_user_data
read_length headed dcs sender service_time [] = invalid
read_length headed dcs sender service_time (size ∷ octets) =
    read_user_data headed dcs sender service_time size octets

-- The time stamp of seven octets, which only a SUBMIT is without.
pub read_time : Bool → Bool → ℕ → Text → List ℕ → Parsed DecodedMessage
unfolding read_length
read_time true headed dcs sender octets = read_length headed dcs sender [] octets
read_time false headed dcs sender octets =
    if ltb (length octets) 7
    then invalid
    else read_length headed dcs sender (hex_encode (take 7 octets)) (drop 7 octets)

pub read_scheme : Bool → Bool → Text → List ℕ → Parsed DecodedMessage
unfolding read_time
read_scheme submit headed sender [] = invalid
read_scheme submit headed sender (pid ∷ []) = invalid
read_scheme submit headed sender (pid ∷ dcs ∷ octets) = read_time submit headed dcs sender octets

pub read_address : Bool → Bool → Option (Text × List ℕ) → Parsed DecodedMessage
unfolding read_scheme
read_address submit headed none = invalid
read_address submit headed (some (sender, octets)) = read_scheme submit headed sender octets

-- A SUBMIT has its message reference in front of the address.
pub read_reference : Bool → Bool → List ℕ → Parsed DecodedMessage
unfolding read_address
read_reference true headed [] = invalid
read_reference true headed (reference ∷ octets) = read_address true headed (decode_address octets)
read_reference false headed octets = read_address false headed (decode_address octets)

pub read_first : List ℕ → Parsed DecodedMessage
unfolding read_reference
read_first [] = invalid
read_first (first ∷ octets) =
    read_reference (bit_and first 0x03 == 0x01) (not (bit_and first 0x40 == 0)) octets

pub read_octets : List ℕ → Parsed DecodedMessage
unfolding read_first
read_octets [] = invalid
read_octets (x ∷ []) = invalid
read_octets (smsc ∷ octets) =
    if ltb (length octets) smsc then invalid else read_first (drop smsc octets)

pub read_hex : Option (List ℕ) → Parsed DecodedMessage
unfolding read_octets
read_hex none = invalid
read_hex (some octets) = read_octets octets

-- `DecodePDU`.
unfoldable pub decode_pdu : Text → Parsed DecodedMessage
unfolding read_hex
decode_pdu pdu = read_hex (hex_decode (trim_space pdu))
