-- ===== src/Sms/Submit/Zeros.antt =====
-- gateway/internal/sms/pdu.go: the `@` signs at the end of a body, whose septet is 0.
use cell_bridge.Sms.Pack.Size.{length-pack_bits}
use mathlib.Core.List.{append_assoc}
use cell_bridge.Sms.Pack.RoundTrip.{pack_bits_zeros}
use cell_bridge.Sms.Split.{gsm7}
use cell_bridge.Sms.Pack.{pack_septets, pack_udh_and_septets}
use cell_bridge.Sms.Submit.{user_data, user_data_length}
use cell_bridge.Base.{
  ℕ, Text, replicate, ◌++◌, ◌≡◌, List, ◌∷◌, suc, ◌∙◌, ap, length, sym, zero, ◌*◌, ◌+◌, refl, [],
  length-append, length-replicate, ◌≤◌,
}
use cell_bridge.Sms.Gsm7.{encode_gsm7, septets_of, gsm7_reverse, gsm7_alphabet}

encode_gsm7-append : (s t : Text) → encode_gsm7 (s ++ t) ≡ encode_gsm7 s ++ encode_gsm7 t
unfolding encode_gsm7
encode_gsm7-append [] t = refl
encode_gsm7-append (c ∷ s) t =
    ap (λ x. septets_of c ++ x) (encode_gsm7-append s t)
    ∙ sym (append_assoc (septets_of c) (encode_gsm7 s) (encode_gsm7 t))

at_septet : (rest : Text) → encode_gsm7 (b'@' ∷ rest) ≡ 0 ∷ encode_gsm7 rest
unfolding encode_gsm7 gsm7_reverse gsm7_alphabet
at_septet rest = refl

encode_gsm7-at_signs : (n : ℕ) → encode_gsm7 (replicate n b'@') ≡ replicate n 0
encode_gsm7-at_signs zero = unfold encode_gsm7 in refl
encode_gsm7-at_signs (suc n) =
    at_septet (replicate n b'@') ∙ ap (λ t. 0 ∷ t) (encode_gsm7-at_signs n)

at_signs_behind :
    (n : ℕ) (body : Text)
    → encode_gsm7 (body ++ replicate n b'@') ≡ encode_gsm7 body ++ replicate n 0
at_signs_behind n body =
    encode_gsm7-append body (replicate n b'@')
    ∙ ap (λ t. encode_gsm7 body ++ t) (encode_gsm7-at_signs n)

same_user_data :
    (n : ℕ) (body : Text) (udh : List ℕ)
    → user_data gsm7 (body ++ replicate n b'@') udh ≡ user_data gsm7 body udh
unfolding user_data pack_septets pack_udh_and_septets
same_user_data n body [] = rw (at_signs_behind n body) (pack_bits_zeros n [] (encode_gsm7 body) 0)
same_user_data n body (x ∷ udh) =
    rw (at_signs_behind n body)
      (pack_bits_zeros n (x ∷ udh) (encode_gsm7 body) (length (x ∷ udh) * 8))

length-user_data :
    (body : Text) (udh : List ℕ)
    → length (user_data gsm7 body udh) * 8 ≤ length udh * 8 + length (encode_gsm7 body) * 7 + 7
unfolding user_data pack_septets pack_udh_and_septets
length-user_data body [] = length-pack_bits [] (encode_gsm7 body)
length-user_data body (x ∷ udh) = length-pack_bits (x ∷ udh) (encode_gsm7 body)

-- `@` signs at the end of a body are counted and not sent. With n of them behind a body, under any
-- header, the user data in the 7-bit alphabet are the octets of the body alone, which are at most what
-- the bits of the header and of the septets of the body fill, rounded up; although `encodeGSM7` gives
-- n septets more, and the length that a message of one part declares is greater by n.
pub user_data-at_signs :
    (n : ℕ) (body : Text) (udh : List ℕ)
    → (user_data gsm7 (body ++ replicate n b'@') udh ≡ user_data gsm7 body udh)
      × (length (user_data gsm7 (body ++ replicate n b'@') udh) * 8
          ≤ length udh * 8 + length (encode_gsm7 body) * 7 + 7)
      × (length (encode_gsm7 (body ++ replicate n b'@')) ≡ length (encode_gsm7 body) + n)
      × (user_data_length gsm7 (body ++ replicate n b'@') [] ≡ user_data_length gsm7 body [] + n)
unfolding user_data_length
user_data-at_signs n body udh =
    let same = same_user_data n body udh in
    let size : length (encode_gsm7 (body ++ replicate n b'@')) ≡ length (encode_gsm7 body) + n =
      ap length (at_signs_behind n body)
      ∙ length-append (encode_gsm7 body) (replicate n 0)
      ∙ ap (λ k. length (encode_gsm7 body) + k) (length-replicate n 0) in
    (same, rw same (length-user_data body udh), size, size)
