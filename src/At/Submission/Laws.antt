-- ===== src/At/Submission/Laws.antt =====
-- The length that is announced for an encoded PDU.
use cell_bridge.Ints.{pos}
use cell_bridge.Sms.Pack.Bits.{IsByte}
use cell_bridge.At.Submission.{send_sms, Answers, run_command, send_pdu, is_empty_body, smsc_length}
use cell_bridge.Sms.Hex.{upper_hex, upper_hex_no_space, hex_encode}
use cell_bridge.Base.{
  ◌∷◌, [], Text, List, ℕ, length, ◌<◌, ◌≡◌, trim_space, ◌*◌, All, arith, refl, ◌≤◌, true, codes,
  trim_space_no_space, ◌/◌, ◌+◌, leb, false, ltb, ◌-◌, ap,
}

length-upper_hex : (octets : List ℕ) → length (upper_hex octets) ≡ length octets * 2
unfolding upper_hex hex_encode
length-upper_hex [] = refl
length-upper_hex (x ∷ octets) = let rest = length-upper_hex octets in omega (arith, rest)

-- A PDU without a service centre, as the encoders write it, for a destination of more than six
-- characters: when the modem takes the PDU mode, it is announced with the number of its octets less the
-- one for the service centre, and sent as it is.
pub send_sms-upper_hex :
    (destination body : Text) (octets : List ℕ) (x : Answers)
    → 6 < length (trim_space destination)
    → All IsByte octets
    → 1 ≤ length octets
    → x.format ≡ true
    → (send_sms destination body (upper_hex (0 ∷ octets)) x).0
      ≡ run_command (codes "AT+CMGF=0") ∷ send_pdu (length octets) (upper_hex (0 ∷ octets)) ∷ []
unfolding send_sms
send_sms-upper_hex destination body octets x long bytes some_octet format =
    let pdu = upper_hex (0 ∷ octets) in
    let trimmed : trim_space pdu ≡ pdu =
      trim_space_no_space pdu (upper_hex_no_space (0 ∷ octets) (omega arith, bytes)) in
    let size : length pdu / 2 ≡ length octets + 1 = omega (arith, length-upper_hex (0 ∷ octets)) in
    let short : leb (length (trim_space destination)) 6 ≡ false = ground arith in
    let filled : is_empty_body pdu ≡ false = unfold upper_hex hex_encode in refl in
    let no_centre : smsc_length pdu ≡ pos 0 = unfold upper_hex hex_encode smsc_length in refl in
    let many : ltb (length octets + 1) 2 ≡ false = ground arith in
    let some_left : ltb (length octets + 1 - 1 - 0) 1 ≡ false = ground arith in
    let announced : length octets + 1 - 1 - 0 ≡ length octets = omega arith in
    rw (short, filled, format)
      (rw (trimmed, no_centre)
        (rw size (
          rw (many, some_left)
            (ap (λ k. run_command (codes "AT+CMGF=0") ∷ send_pdu k pdu ∷ []) announced))))
