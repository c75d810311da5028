-- ===== src/At/Submission.antt =====
-- gateway/internal/modem/at/adapter.go: `SendSMS`. What the client's calls return is an argument; the
-- calls themselves are the first result.
pub mod Laws
use cell_bridge.Sms.Hex.{hex_value}
use cell_bridge.Ints.{ℤ, pos, negsuc}
use cell_bridge.Base.{
  none, some, ◌∷◌, [], Text, Bool, Option, ℕ, trim_space, if◌then◌else◌, suc, ◌-◌, List, true, ltb,
  false, ◌==◌, ◌+◌, codes, leb, ◌*◌, zero, not, length, ◌/◌, ◌&&◌, ◌||◌,
}

pub data Sending : Type 0 where
  run_command : Text → Sending
  send_text : Text → Text → Sending
  send_pdu : ℕ → Text → Sending

-- `ErrSMSSubmissionUnknown`, another error, or the id.
pub data Submitted : Type 0 where
  submission_unknown submission_failed : Submitted
  submitted : Text → Submitted

-- What the client answers, in the order of the calls, and the id of `id.New`.
pub data ClientAnswer : Type 0 where
  accepted result_unknown rejected_by_modem : ClientAnswer

pub record Answers : Type 0 where
  pub format : Bool
  pub charset : Bool
  pub submission : ClientAnswer
  pub sms_id : Option Text

abbrev pub submitted_as : Answers → Submitted
submitted_as x = elim x.submission [
  | result_unknown ↦ submission_unknown
  | rejected_by_modem ↦ submission_failed
  | accepted ↦ elim x.sms_id [ none ↦ submission_failed | some sms_id ↦ submitted sms_id ]
]

-- The octet count of two hexadecimal digits as `strconv.ParseInt` with 8 bits reads them, or the sign
-- and the digit that it reads as well; else the count stays 0.
abbrev digit_pair : Option ℕ → Option ℕ → ℤ
digit_pair (some hi) (some lo) = if ltb (hi * 16 + lo) 128 then pos (hi * 16 + lo) else pos 0
digit_pair none lo = pos 0
digit_pair (some hi) none = pos 0

abbrev signed_digit : Bool → Option ℕ → ℤ
signed_digit negative none = pos 0
signed_digit false (some n) = pos n
signed_digit true (some zero) = pos 0
signed_digit true (some (suc n)) = negsuc n

unfoldable pub smsc_length : Text → ℤ
smsc_length [] = pos 0
smsc_length (c ∷ []) = pos 0
smsc_length (c ∷ d ∷ pdu) =
    if c == b'-'
    then signed_digit true (hex_value d)
    else if c == b'+'
    then signed_digit false (hex_value d)
    else digit_pair (hex_value c) (hex_value d)

-- `pduBytes - 1 - smscLength`, with 0 for what is below 1.
abbrev pub tpdu_length : ℕ → ℤ → ℕ
tpdu_length pdu_bytes (pos n) = pdu_bytes - 1 - n
tpdu_length pdu_bytes (negsuc n) = pdu_bytes - 1 + (n + 1)

abbrev pub send_as_text : Text → Text → Answers → List Sending × Submitted
send_as_text destination body x =
    let format = run_command (codes "AT+CMGF=1") in
    let charset = run_command (codes "AT+CSCS=\"GSM\"") in
    if not x.format
    then (format ∷ [], submission_failed)
    else if not x.charset
    then (format ∷ charset ∷ [], submission_failed)
    else (format ∷ charset ∷ send_text destination body ∷ [], submitted_as x)

abbrev pub send_as_pdu : Text → Answers → List Sending × Submitted
send_as_pdu pdu x =
    let format = run_command (codes "AT+CMGF=0") in
    let pdu_bytes = length (trim_space pdu) / 2 in
    let tpdu = tpdu_length pdu_bytes (smsc_length pdu) in
    if not x.format
    then (format ∷ [], submission_failed)
    else if ltb pdu_bytes 2 || ltb tpdu 1
    then (format ∷ [], submission_failed)
    else (format ∷ send_pdu tpdu pdu ∷ [], submitted_as x)

abbrev pub is_empty_body : Text → Bool
is_empty_body [] = true
is_empty_body (c ∷ s) = false

-- `SendSMS`.
unfoldable pub send_sms : Text → Text → Text → Answers → List Sending × Submitted
unfolding smsc_length trim_space
send_sms destination body pdu x =
    if leb (length (trim_space destination)) 6 && not (is_empty_body body)
    then send_as_text (trim_space destination) body x
    else if is_empty_body pdu
    then ([], submission_failed)
    else send_as_pdu pdu x
