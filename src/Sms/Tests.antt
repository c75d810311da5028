-- ===== src/Sms/Tests.antt =====
-- Messages on the wire, and the theorems at concrete inputs.
use cell_bridge.Sms.Submit.Zeros.{user_data-at_signs}
use cell_bridge.Sms.Multipart.Last.{AllBut, add_last}
use cell_bridge.Sms.Decode.Segments.{ReadsBack, decode-encode_submit_segments}
use cell_bridge.Sms.Decode.Submit.{Letters}
use cell_bridge.Sms.Hex.{upper_hex}
use cell_bridge.Dict.{nat_key}
use cell_bridge.Sms.Multipart.{multipart_key_eq, key_beq, Parts}
use cell_bridge.Dict.{find}
use cell_bridge.Sms.Gsm7.RoundTrip.{IsGsm7, decode-encode_gsm7_escape}
use cell_bridge.Sms.Submit.{
  concat_header, header_of, encode_submit, user_data_length, SubmitSegment, encoding_of,
  encode_submit_segments, submit_octets, encode_parts, user_data,
}
use cell_bridge.Sms.Multipart.Laws.{PendingInv, IsWhole, add-PendingInv, add-complete}
use cell_bridge.Sms.Multipart.{Pending, LogicalMessage, add, Segment, message_of, complete, key_of}
use cell_bridge.Sms.Address.{encode_address}
use cell_bridge.Sms.Split.{body_length, split_body, gsm7}
use cell_bridge.Sms.Split.Laws.{join}
use cell_bridge.Sms.Gsm7.{
  gsm7_reverse, decode_gsm7, can_encode_gsm7, gsm7_alphabet, encode_gsm7, gsm7_length,
  extension_code,
}
use cell_bridge.Base.{
  Text, List, All, trim_space, ℕ, ◌<◌, codes, ◌∷◌, replicate, ◌≡◌, length, text_eq, [], some, arith,
  refl, true, ◌+◌, none, ◌++◌, ◌*◌, ◌≤◌,
}

abbrev hello : Text
hello = codes "Hi [@]"

hello-IsGsm7 : All IsGsm7 hello
unfolding gsm7_reverse gsm7_alphabet extension_code
hello-IsGsm7 = (
  (refl, λ q. omega arith),
  (
    (refl, λ q. omega arith),
    (
      (refl, λ q. omega arith),
      ((refl, λ q. omega arith), ((refl, λ q. omega arith), ((refl, λ q. omega arith), tt))),
    ),
  ),
)

escape_reads : (extension_code 0x20ac ≡ some 0x65) × (gsm7_reverse b'e' ≡ some 0x65)
unfolding gsm7_reverse gsm7_alphabet extension_code
escape_reads = (refl, refl)

decode-encode_gsm7_escape_example :
    (can_encode_gsm7 (0x1b ∷ b'e' ∷ []) ≡ true)
    × (decode_gsm7 (encode_gsm7 (0x1b ∷ b'e' ∷ [])) ≡ 0x20ac ∷ [])
decode-encode_gsm7_escape_example =
    decode-encode_gsm7_escape 0x20ac b'e' 0x65 escape_reads.0 escape_reads.1

abbrev header : List ℕ
header = concat_header 7 2 1

user_data-at_signs_example :
    (user_data gsm7 (codes "Hi" ++ replicate 9 b'@') header ≡ user_data gsm7 (codes "Hi") header)
    × (length (user_data gsm7 (codes "Hi" ++ replicate 9 b'@') header) * 8
        ≤ length header * 8 + length (encode_gsm7 (codes "Hi")) * 7 + 7)
    × (length (encode_gsm7 (codes "Hi" ++ replicate 9 b'@'))
        ≡ length (encode_gsm7 (codes "Hi")) + 9)
    × (user_data_length gsm7 (codes "Hi" ++ replicate 9 b'@') []
        ≡ user_data_length gsm7 (codes "Hi") [] + 9)
user_data-at_signs_example = user_data-at_signs 9 (codes "Hi") header

-- A number with its sign, and what stands behind it in a unit.
abbrev number : Text
number = codes " +8613800138000"

abbrev number_octets : List ℕ
number_octets = 13 ∷ 0x91 ∷ 0x68 ∷ 0x31 ∷ 0x08 ∷ 0x10 ∷ 0x83 ∷ 0x00 ∷ 0xf0 ∷ []

number_encoded : encode_address number ≡ some number_octets
unfolding encode_address trim_space
number_encoded = refl

number_short : length (trim_space number) < 256
unfolding trim_space
number_short = omega arith

abbrev part_of : ℕ → Text → Segment
part_of n body = record {
  sender = number;
  destination = [];
  concat_ref = 7;
  part_no = n;
  total_parts = 2;
  body = body;
  encoding = gsm7;
  raw_pdu = [];
  received_at = 50 + n;
}

-- The second part is there first.
abbrev half_way : Pending
half_way = (add 60 (part_of 2 (codes " you")) []).0

add-PendingInv_example : PendingInv half_way
add-PendingInv_example = add-PendingInv 60 (part_of 2 (codes " you")) [] tt

abbrev both : LogicalMessage
both = message_of (part_of 1 (codes "to")) (part_of 1 (codes "to") ∷ part_of 2 (codes " you") ∷ [])

both_parts : (add 61 (part_of 1 (codes "to")) half_way).1 ≡ complete both
unfolding add text_eq key_beq
both_parts = refl

add-complete_example :
    IsWhole (part_of 1 (codes "to")) both
    × (find (key_of (part_of 1 (codes "to"))) (add 61 (part_of 1 (codes "to")) half_way).0 ≡ none)
add-complete_example =
    add-complete 61 (part_of 1 (codes "to")) half_way both
      (add-PendingInv 60 (part_of 2 (codes " you")) [] tt) both_parts

-- The first part of two.
abbrev part_header : List ℕ
part_header = header_of 7 2 1

abbrev part_pdu : Text
part_pdu = upper_hex (submit_octets gsm7 hello part_header number_octets)

part_sent : encode_submit number hello gsm7 part_header ≡ some part_pdu
unfolding encode_submit
part_sent = rw number_encoded refl

part_small : user_data_length gsm7 hello part_header < 256
unfolding user_data_length encode_gsm7 gsm7_reverse gsm7_alphabet extension_code
part_small = omega arith

abbrev hello_pdu : Text
hello_pdu = upper_hex (submit_octets gsm7 hello [] number_octets)

abbrev hello_segments : List SubmitSegment
hello_segments =
    record { pdu = hello_pdu; encoding = gsm7; part_no = 1; total = 1; body = hello } ∷ []

hello_encoding : encoding_of hello ≡ gsm7
unfolding can_encode_gsm7 gsm7_reverse gsm7_alphabet extension_code
hello_encoding = refl

hello_split : split_body hello gsm7 ≡ hello ∷ []
unfolding split_body body_length gsm7_length extension_code
hello_split = refl

hello_sent : encode_submit number hello gsm7 [] ≡ some hello_pdu
unfolding encode_submit
hello_sent = rw number_encoded refl

hello_few : length (split_body hello (encoding_of hello)) < 256
hello_few = rw hello_encoding (rw hello_split (omega arith))

hello-Letters : Letters (encoding_of hello) hello
hello-Letters = rw hello_encoding hello-IsGsm7

hello_encoded : encode_submit_segments number hello 7 ≡ some hello_segments
unfolding encode_submit_segments encode_parts trim_space
hello_encoded = rw hello_encoding (rw hello_split (rw hello_sent refl))

decode-encode_submit_segments_example :
    (parts : List Text) × (join parts ≡ hello)
    × ReadsBack (trim_space number) (encoding_of hello) 7 (length parts) 1 parts hello_segments
decode-encode_submit_segments_example =
    decode-encode_submit_segments number hello 7 hello_segments number_short (omega arith) hello_few
      hello-Letters hello_encoded

abbrev other_part : Parts
other_part = (2, part_of 2 (codes " you")) ∷ []

half_parts : find (key_of (part_of 1 (codes "to"))) half_way ≡ some other_part
unfolding add find text_eq key_beq
half_parts = refl

half_fresh : find (part_of 1 (codes "to")).part_no other_part ≡ none
unfolding find
half_fresh = refl

half_rest : AllBut 2 1 other_part
unfolding find
half_rest i lo hi ne e = ground arith

add_last_example :
    (m : LogicalMessage) × ((add 61 (part_of 1 (codes "to")) half_way).1 ≡ complete m)
add_last_example =
    add_last 61 (part_of 1 (codes "to")) half_way other_part (omega arith) (omega arith)
      (omega arith) half_parts half_fresh (omega arith) half_rest
