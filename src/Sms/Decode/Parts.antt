-- ===== src/Sms/Decode/Parts.antt =====
-- Every message that `EncodeSubmitSegments` makes is read back.
use cell_bridge.Sms.Utf16.{octets_of_units, utf16_encode}
use cell_bridge.Sms.Gsm7.{encode_gsm7}
use cell_bridge.Sms.Pack.Prefix.{pack_bits-Begins}
use cell_bridge.Sms.Split.{gsm7, ucs2}
use cell_bridge.Sms.Decode.Submit.{
  marked, read_concat_header, message, read_gsm7_headed, read_ucs2_headed, even_units, ucs2_back,
  unpacked,
}
use cell_bridge.Sms.Utf16.RoundTrip.{IsRune}
use cell_bridge.Sms.Gsm7.RoundTrip.{IsGsm7}
use cell_bridge.Sms.Pack.{pack_udh_and_septets, pack_bits}
use cell_bridge.Sms.Decode.{read_header, read_user_data, ok}
use cell_bridge.Sms.Pack.Bits.{IsByte}
use cell_bridge.Sms.Submit.{user_data, user_data_length, concat_header, dcs_of}
use cell_bridge.Base.{ℕ, ◌<◌, All, List, true, Text, arith, ◌≡◌, [], ◌+◌, length, ◌*◌, ◌/◌, ◌-◌}

pub concat_bytes :
    (concat_ref total part_no : ℕ)
    → concat_ref < 256
    → All IsByte (concat_header concat_ref total part_no)
concat_bytes concat_ref total part_no h =
    (omega arith, (omega arith, (omega arith, (h, (omega arith, (omega arith, tt))))))

module _ (concat_ref total part_no : ℕ) (r : concat_ref < 256) (t : total < 256)
    (p : part_no < 256) where
  gsm7_header :
      (septets : List ℕ)
      → read_header true (pack_bits (concat_header concat_ref total part_no) septets 48)
        ≡ ok (6, marked concat_ref total part_no)
  gsm7_header septets =
      let (tail, e) = pack_bits-Begins (concat_header concat_ref total part_no) septets in
      rw e (read_concat_header concat_ref total part_no tail t p)

  pub gsm7_part :
      (sender body : Text)
      → All IsGsm7 body
      → read_user_data true
          (dcs_of gsm7)
          sender
          []
          (user_data_length gsm7 body (concat_header concat_ref total part_no))
          (user_data gsm7 body (concat_header concat_ref total part_no))
        ≡ ok (message gsm7 sender body (marked concat_ref total part_no))
  unfolding user_data user_data_length pack_udh_and_septets
  gsm7_part sender body a =
      read_gsm7_headed sender _ _ 6 (marked concat_ref total part_no) body
        (gsm7_header (encode_gsm7 body)) (ground arith)
        (let size : (48 + length (encode_gsm7 body) * 7 + 6) / 7 - 7 ≡ length (encode_gsm7 body) =
            omega arith in
          rw size (
            unpacked (concat_header concat_ref total part_no) body
              (concat_bytes concat_ref total part_no r) a))

  pub ucs2_part :
      (sender body : Text)
      → All IsRune body
      → read_user_data true
          (dcs_of ucs2)
          sender
          []
          (user_data_length ucs2 body (concat_header concat_ref total part_no))
          (user_data ucs2 body (concat_header concat_ref total part_no))
        ≡ ok (message ucs2 sender body (marked concat_ref total part_no))
  unfolding user_data user_data_length
  ucs2_part sender body a =
      read_ucs2_headed sender _ _ 6 (marked concat_ref total part_no) body
        (read_concat_header concat_ref total part_no (octets_of_units (utf16_encode body)) t p)
        (even_units (utf16_encode body)) (ucs2_back body a)
