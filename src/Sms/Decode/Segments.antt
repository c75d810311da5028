-- ===== src/Sms/Decode/Segments.antt =====
-- `EncodeSubmitSegments` and `DecodePDU` together.
use mathlib.Core.Path.{subst}
use cell_bridge.Sms.Decode.Parts.{gsm7_part, concat_bytes, ucs2_part}
use cell_bridge.Sms.Pack.Bits.{IsByte}
use cell_bridge.Sms.Split.Laws.{part_cost, Fits, join, join-split_body, split_from-Fits}
use cell_bridge.Sms.Utf16.RoundTrip.{IsRune, length_units, length-octets_of_units}
use cell_bridge.Sms.Decode.Submit.{
  Letters, marked, headed, message, submit_address, submit_read, gsm7_single, ucs2_single,
}
use cell_bridge.Sms.Gsm7.RoundTrip.{IsGsm7, length-septets_of}
use cell_bridge.Sms.Decode.{ConcatFields, read_user_data, decode_pdu, no_concat, ok}
use cell_bridge.Sms.Submit.{
  user_data_length, encode_parts, user_data, header_of, SubmitSegment, encode_submit, dcs_of,
  concat_header, encode_submit_segments, encoding_of,
}
use cell_bridge.Sms.Utf16.{utf16_encode, units_of, utf16_length}
use cell_bridge.Sms.Gsm7.{gsm7_cost, encode_gsm7, septets_of, gsm7_length}
use cell_bridge.Sms.Split.{
  Encoding, rune_cost, gsm7, ucs2, single_limit, body_length, part_limit, split_body, split_from,
}
use cell_bridge.Base.{
  ℕ, Text, ◌<◌, length, List, ◌≡◌, if◌then◌else◌, All, trim_space, ◌≤◌, ltb, [], refl, arith,
  Bool-cases, ◌∷◌, ◌+◌, inl, some, length-append, inr, true, ◌∙◌, Option-cases, leb, All-front,
  All-both, false, sym, leb→le, All-back,
}

abbrev pub mark_of : ℕ → ℕ → ℕ → ConcatFields
mark_of concat_ref total part_no =
    if ltb 1 total then marked concat_ref total part_no else no_concat

read_part :
    (e : Encoding) (sender body : Text) (concat_ref total part_no : ℕ)
    → concat_ref < 256
    → total < 256
    → part_no < 256
    → Letters e body
    → let udh = header_of concat_ref total part_no in
      read_user_data
        (headed udh)
        (dcs_of e)
        sender
        []
        (user_data_length e body udh)
        (user_data e body udh)
      ≡ ok (message e sender body (mark_of concat_ref total part_no))
read_part e sender body concat_ref total part_no r t p a = elim (Bool-cases (ltb 1 total)) [
  | inl many ↦ rw many (several e a)
  | inr one ↦ rw one (single e a)
]
  where
    several :
        (e : Encoding)
        → Letters e body
        → read_user_data true
            (dcs_of e)
            sender
            []
            (user_data_length e body (concat_header concat_ref total part_no))
            (user_data e body (concat_header concat_ref total part_no))
          ≡ ok (message e sender body (marked concat_ref total part_no))
    several gsm7 a = gsm7_part concat_ref total part_no r t p sender body a
    several ucs2 a = ucs2_part concat_ref total part_no r t p sender body a

    single :
        (e : Encoding)
        → Letters e body
        → read_user_data false
            (dcs_of e)
            sender
            []
            (user_data_length e body [])
            (user_data e body [])
          ≡ ok (message e sender body no_concat)
    single gsm7 a = gsm7_single sender body a
    single ucs2 a = ucs2_single sender body a

header_bytes :
    (concat_ref total part_no : ℕ)
    → concat_ref < 256
    → All IsByte (header_of concat_ref total part_no)
header_bytes concat_ref total part_no r = elim (Bool-cases (ltb 1 total)) [
  | inl many ↦ rw many (concat_bytes concat_ref total part_no r)
  | inr one ↦ rw one tt
]

-- A text that `encodeSubmit` makes of a part, with the header of `EncodeSubmitSegments`, is decoded
-- by `DecodePDU` to that part: the trimmed destination, the body, the encoding, and the reference,
-- number and count of the parts, or zeros for a single message. The body holds runes of its
-- encoding (for GSM-7 no escape), the number has fewer than 256 characters, and reference, number,
-- count and user data length fit an octet.
pub decode-encode_submit :
    (e : Encoding) (destination body pdu : Text) (concat_ref total part_no : ℕ)
    → length (trim_space destination) < 256
    → concat_ref < 256
    → total < 256
    → part_no < 256
    → Letters e body
    → user_data_length e body (header_of concat_ref total part_no) < 256
    → encode_submit destination body e (header_of concat_ref total part_no) ≡ some pdu
    → decode_pdu pdu
      ≡ ok (message e (trim_space destination) body (mark_of concat_ref total part_no))
decode-encode_submit e destination body pdu concat_ref total part_no lt r t p a small h =
    let udh = header_of concat_ref total part_no in
    let (address, there) = submit_address e destination body udh pdu h in
    submit_read e destination body udh address pdu lt (header_bytes concat_ref total part_no r)
      small h there
    ∙ read_part e (trim_space destination) body concat_ref total part_no r t p a

abbrev Letter : Encoding → ℕ → Type 0
Letter gsm7 = IsGsm7
Letter ucs2 = IsRune

-- Each text is decoded to its part, numbered from `part_no` on.
abbrev pub ReadsBack : Text → Encoding → ℕ → ℕ → ℕ → List Text → List SubmitSegment → Type 0
ReadsBack sender e concat_ref total part_no [] [] = Unit
ReadsBack sender e concat_ref total part_no (part ∷ parts) (segment ∷ segments) =
    (decode_pdu segment.pdu ≡ ok (message e sender part (mark_of concat_ref total part_no)))
    × ReadsBack sender e concat_ref total (part_no + 1) parts segments
ReadsBack sender e concat_ref total part_no [] (segment ∷ segments) = ⊥
ReadsBack sender e concat_ref total part_no (part ∷ parts) [] = ⊥

abbrev Sendable : Encoding → Text → Type 0
Sendable e part = Letters e part × (part_cost e part ≤ single_limit e)

gsm7_cost-rune_cost : (c : ℕ) → gsm7_cost c ≡ rune_cost gsm7 c
unfolding gsm7_cost rune_cost
gsm7_cost-rune_cost c = refl

length-units_of : (r : ℕ) → IsRune r → length (units_of r) ≡ rune_cost ucs2 r
unfolding rune_cost
length-units_of r a = length_units r a

length-encode_gsm7 :
    (body : Text) → All IsGsm7 body → length (encode_gsm7 body) ≤ part_cost gsm7 body
unfolding encode_gsm7 part_cost
length-encode_gsm7 [] a = omega arith
length-encode_gsm7 (c ∷ body) a = omega (
  arith,
  length-append (septets_of c) (encode_gsm7 body),
  length-septets_of c a.0.0,
  gsm7_cost-rune_cost c,
  length-encode_gsm7 body a.1,
)

length-utf16_encode :
    (body : Text) → All IsRune body → length (utf16_encode body) ≡ part_cost ucs2 body
unfolding utf16_encode part_cost
length-utf16_encode [] a = omega arith
length-utf16_encode (r ∷ body) a = omega (
  arith,
  length-append (units_of r) (utf16_encode body),
  length-units_of r a.0,
  length-utf16_encode body a.1,
)

user_data_length-lt :
    (e : Encoding) (body : Text) (concat_ref total part_no : ℕ)
    → Sendable e body
    → user_data_length e body (header_of concat_ref total part_no) < 256
unfolding user_data_length user_data
user_data_length-lt gsm7 body concat_ref total part_no (a, h) = elim (Bool-cases (ltb 1 total)) [
  | inl many ↦ rw many (omega (arith, length-encode_gsm7 body a))
  | inr one ↦ rw one (omega (arith, length-encode_gsm7 body a))
]
user_data_length-lt ucs2 body concat_ref total part_no (a, h) = elim (Bool-cases (ltb 1 total)) [
  | inl many ↦
      rw many
        (omega (arith, length-utf16_encode body a, length-octets_of_units (utf16_encode body)))
  | inr one ↦
      rw one (omega (arith, length-utf16_encode body a, length-octets_of_units (utf16_encode body)))
]

nil_segments :
    (destination : Text) (e : Encoding) (concat_ref total part_no : ℕ)
    (segments : List SubmitSegment)
    → encode_parts destination e concat_ref total part_no [] ≡ some segments
    → [] ≡ segments
unfolding encode_parts
nil_segments destination e concat_ref total part_no segments h = cc

encode_parts-cons :
    (destination : Text) (e : Encoding) (concat_ref total part_no : ℕ) (part : Text)
    (parts : List Text) (segments : List SubmitSegment)
    → encode_parts destination e concat_ref total part_no (part ∷ parts) ≡ some segments
    → (pdu : Text) × (rest : List SubmitSegment) × (encode_submit destination part e
          (header_of concat_ref total part_no)
        ≡ some pdu)
      × (encode_parts destination e concat_ref total (part_no + 1) parts ≡ some rest)
      × (segments
          ≡ (record { pdu = pdu; encoding = e; part_no = part_no; total = total; body = part })
            ∷ rest)
unfolding encode_parts
encode_parts-cons destination e concat_ref total part_no part parts segments h =
    elim (Option-cases (encode_submit destination part e (header_of concat_ref total part_no))) [
      | inl missing ↦ absurd (ground arith)
      | inr (pdu, here) ↦
          elim (Option-cases (encode_parts destination e concat_ref total (part_no + 1) parts)) [
            | inl missing ↦ absurd (ground arith)
            | inr (rest, later) ↦ (pdu, rest, here, later, ground arith)
          ]
    ]

read_parts :
    (destination : Text) (e : Encoding) (concat_ref total part_no : ℕ) (parts : List Text)
    (segments : List SubmitSegment)
    → length (trim_space destination) < 256
    → concat_ref < 256
    → total < 256
    → part_no + length parts ≤ 256
    → All (Sendable e) parts
    → encode_parts destination e concat_ref total part_no parts ≡ some segments
    → ReadsBack (trim_space destination) e concat_ref total part_no parts segments
read_parts destination e concat_ref total part_no [] segments lt r t p a h =
    rw (← nil_segments destination e concat_ref total part_no segments h) tt
read_parts destination e concat_ref total part_no (part ∷ parts) segments lt r t p a h =
    let (pdu, rest, here, later, eq) =
      encode_parts-cons destination e concat_ref total part_no part parts segments h in
    rw eq (
      decode-encode_submit e destination part pdu concat_ref total part_no lt r t (omega arith)
          a.0.0 (user_data_length-lt e part concat_ref total part_no a.0) here,
      read_parts destination e concat_ref total (part_no + 1) parts rest lt r t (omega arith) a.1
          later,
    )

gsm7_part_cost : (body : Text) → part_cost gsm7 body ≡ gsm7_length body
unfolding part_cost gsm7_length
gsm7_part_cost [] = refl
gsm7_part_cost (c ∷ body) = omega (arith, gsm7_cost-rune_cost c, gsm7_part_cost body)

single-Sendable :
    (e : Encoding) (body : Text) → Letters e body → part_cost e body ≡ body_length e body
unfolding body_length
single-Sendable gsm7 body a = gsm7_part_cost body
single-Sendable ucs2 body a = unfold utf16_length in sym (length-utf16_encode body a)

limits : (e : Encoding) → part_limit e ≤ single_limit e
limits gsm7 = omega arith
limits ucs2 = omega arith

fitting :
    (e : Encoding) (parts : List Text)
    → All (Fits e) parts
    → All (λ part. part_cost e part ≤ single_limit e) parts
fitting e [] a = tt
fitting e (part ∷ parts) a = (omega (arith, a.0.0, limits e), fitting e parts a.1)

split_body-fits :
    (body : Text) (e : Encoding)
    → Letters e body
    → All (λ part. part_cost e part ≤ single_limit e) (split_body body e)
unfolding split_body
split_body-fits body e a = elim (Bool-cases (leb (body_length e body) (single_limit e))) [
  | inl p ↦ rw p (omega (arith, single-Sendable e body a, leb→le _ _ p), tt)
  | inr p ↦ rw p (
      fitting e (split_from e [] 0 body)
        (split_from-Fits e body [] 0 (unfold part_cost in refl) (omega arith)))
]

All-join : (P : ℕ → Type 0) (parts : List Text) → All P (join parts) → All (All P) parts
All-join P [] a = tt
All-join P (part ∷ parts) a =
    (All-front P part (join parts) a, All-join P parts (All-back P part (join parts) a))

sendable :
    (e : Encoding) (parts : List Text)
    → Letters e (join parts)
    → All (λ part. part_cost e part ≤ single_limit e) parts
    → All (Sendable e) parts
sendable gsm7 parts a h = All-both _ _ parts (All-join IsGsm7 parts a) h
sendable ucs2 parts a h = All-both _ _ parts (All-join IsRune parts a) h

-- What `EncodeSubmitSegments` returns is read back whole: there is a cut of the body into parts, in
-- order and with nothing lost, such that the texts are decoded by `DecodePDU` to these parts one by
-- one, each with the trimmed destination, the encoding chosen for the body, and its reference,
-- number and count. The body holds runes of its encoding (for GSM-7 no escape), the number has fewer
-- than 256 characters, the reference is an octet, and there are at most 255 parts.
pub decode-encode_submit_segments :
    (destination body : Text) (concat_ref : ℕ) (segments : List SubmitSegment)
    → length (trim_space destination) < 256
    → concat_ref < 256
    → length (split_body body (encoding_of body)) < 256
    → Letters (encoding_of body) body
    → encode_submit_segments destination body concat_ref ≡ some segments
    → (parts : List Text) × (join parts ≡ body)
      × ReadsBack
          (trim_space destination)
          (encoding_of body)
          concat_ref
          (length parts)
          1
          parts
          segments
unfolding encode_submit_segments
decode-encode_submit_segments destination body concat_ref segments lt r few a h =
    let e = encoding_of body in
    let parts = split_body body e in
    (
      parts,
      join-split_body body e,
      read_parts destination e concat_ref (length parts) 1 parts segments lt r few (omega arith)
          (sendable e parts (subst (Letters e) (sym (join-split_body body e)) a)
            (split_body-fits body e a))
          (ground arith),
    )
