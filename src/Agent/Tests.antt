-- ===== src/Agent/Tests.antt =====
-- A journal of two events, and the theorems at concrete inputs.
use cell_bridge.Ints.{negsuc}
use cell_bridge.Sms.Address.{all_digits}
use cell_bridge.Sms.Hex.{upper_hex}
use cell_bridge.Sms.Utf16.{utf16_encode, octets_of_units}
use cell_bridge.Sms.Decode.Segments.{mark_of}
use cell_bridge.Sms.Split.{ucs2}
use cell_bridge.Sms.Decode.Submit.{message}
use cell_bridge.Sms.Submit.{encode_submit}
use cell_bridge.Agent.SmsPdu.Laws.{takes, build_submit-encode_submit, decode-build_submit}
use cell_bridge.Sms.Decode.{decode_pdu, ok}
use cell_bridge.Agent.SmsPdu.{build_submit, encode_semi_octets}
use cell_bridge.Base.{[], ◌≡◌, codes, ◌++◌, if◌then◌else◌, ◌∷◌, none, trim_space, refl, inl, arith}
use cell_bridge.Agent.Journal.Laws.{append-Keeps, new_journal-Keeps, since_history, told}
use cell_bridge.Agent.Journal.{Journal, Event, since, append, new_journal}

-- The history of three appends to a journal that holds two.
abbrev one : Journal
one = (append (codes "sms") [] 10 (new_journal 2)).0

abbrev first_event : Event
first_event = (append (codes "sms") [] 10 (new_journal 2)).1

since_history_example : since (negsuc 0) one ≡ told (negsuc 0) 0 (first_event ∷ [])
since_history_example =
    since_history (negsuc 0) ([] ++ first_event ∷ []) one
      (append-Keeps (codes "sms") [] 10 [] (new_journal 2) (new_journal-Keeps 2))

build_submit-encode_submit_example : build_submit (codes "10086") (codes "Hi") ≡ (
    if takes (codes "10086") (codes "Hi")
    then encode_submit (codes "10086") (codes "Hi") ucs2 []
    else none)
build_submit-encode_submit_example = build_submit-encode_submit (codes "10086") (codes "Hi")

decode-build_submit_example :
    decode_pdu (codes "00010005810180F600080400480069")
    ≡ ok (message ucs2 (trim_space (codes "10086")) (codes "Hi") (mark_of 0 1 1))
decode-build_submit_example =
    decode-build_submit (codes "10086") (codes "Hi") (codes "00010005810180F600080400480069")
      (inl (omega arith), (inl (omega arith), tt))
      (unfold build_submit trim_space encode_semi_octets utf16_encode upper_hex all_digits
          octets_of_units in
        refl)
