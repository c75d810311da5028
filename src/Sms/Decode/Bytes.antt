-- ===== src/Sms/Decode/Bytes.antt =====
-- The user data that `encodeSubmit` writes is made of bytes.
use cell_bridge.Sms.Pack.Prefix.{pack_bits-All}
use cell_bridge.Sms.Pack.RoundTrip.{IsSeptet}
use cell_bridge.Sms.Split.{Encoding, gsm7, ucs2}
use cell_bridge.Sms.Pack.Bits.{IsByte}
use cell_bridge.Sms.Gsm7.RoundTrip.{IsGsm7, septets_reverse, septets_extension}
use cell_bridge.Sms.Pack.{pack_septets, pack_udh_and_septets}
use cell_bridge.Sms.Submit.{user_data}
use cell_bridge.Sms.Utf16.{octets_of_units, utf16_encode}
use cell_bridge.Sms.Gsm7.{
  encode_gsm7, encodes, gsm7_extension, septets_of, gsm7_reverse, extension_code,
}
use cell_bridge.Base.{
  ℕ, ltb, Text, List, ◌≡◌, All, true, refl, ◌∷◌, All-append, arith, length, Option-cases, [], ◌*◌,
  inr, inl, ltb→lt,
}
use cell_bridge.Sms.Gsm7.Table.{all_entries, gsm7_reverse_sound, extension_code_passes}

extension_small : all_entries (λ c k. ltb k 128) gsm7_extension ≡ true
extension_small = refl

septets_of-All : (c : ℕ) → encodes c ≡ true → All IsSeptet (septets_of c)
septets_of-All c h = elim (Option-cases (gsm7_reverse c)) [
  | inr (k, e) ↦ rw (septets_reverse c k e) ((gsm7_reverse_sound c k e).0, tt)
  | inl e ↦ elim (Option-cases (extension_code c)) [
    | inr (k, x) ↦ rw (septets_extension c k e x) (
      omega arith,
      (ltb→lt k 128 (extension_code_passes (λ c k. ltb k 128) c k extension_small x), tt),
    )
    | inl x ↦ absurd (cc (rw x at (rw e at h)))
  ]
]

pub encode_gsm7-All : (body : Text) → All IsGsm7 body → All IsSeptet (encode_gsm7 body)
unfolding encode_gsm7
encode_gsm7-All [] h = tt
encode_gsm7-All (c ∷ body) h =
    All-append IsSeptet (septets_of c) (encode_gsm7 body) (septets_of-All c h.0.0)
      (encode_gsm7-All body h.1)

octets_of_units-All : (units : List ℕ) → All IsByte (octets_of_units units)
unfolding octets_of_units
octets_of_units-All [] = tt
octets_of_units-All (u ∷ units) = (omega arith, (omega arith, octets_of_units-All units))

pub user_data-All :
    (e : Encoding) (body : Text) (udh : List ℕ) → All IsByte udh → All IsByte (user_data e body udh)
unfolding user_data pack_septets pack_udh_and_septets
user_data-All gsm7 body [] a = pack_bits-All [] (encode_gsm7 body) 0 tt
user_data-All gsm7 body (x ∷ udh) a =
    pack_bits-All (x ∷ udh) (encode_gsm7 body) (length (x ∷ udh) * 8) a
user_data-All ucs2 body udh a =
    All-append IsByte udh (octets_of_units (utf16_encode body)) a
      (octets_of_units-All (utf16_encode body))
