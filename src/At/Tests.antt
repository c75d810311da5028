-- ===== src/At/Tests.antt =====
-- Chunks of modem output, and the theorem at a concrete input.
use cell_bridge.At.Submission.Laws.{send_sms-upper_hex}
use cell_bridge.Sms.Hex.{upper_hex}
use cell_bridge.At.Submission.{Answers, send_sms, accepted, run_command, send_pdu}
use cell_bridge.Ints.{itoa}
use cell_bridge.At.Status.Laws.{normalize_sim_not_ready, signal_bars-parse_rssi}
use cell_bridge.At.Inbox.Laws.{Entry, listing, sms_of, last_of, list_sms-listing}
use cell_bridge.At.Inbox.{list_sms}
use cell_bridge.At.Status.{normalize_sim, signal_bars, ready, parse_rssi}
use cell_bridge.At.Lines.{feed_chunks}
use cell_bridge.Strings.{contains}
use cell_bridge.Base.{
  codes, ◌++◌, ◌≡◌, refl, trim_space, text_eq, has_prefix, ◌∷◌, [], none, List, map, arith, true,
  some,
}
use cell_bridge.At.{
  feed, exchange, exchange_loop, take_lines, feed_loop, cut, is_final, is_unsolicited, trim_return,
  equal_fold, bytes,
}

-- A line that two chunks cut in the middle.
feed_chunks_example : feed (codes "OK") (codes "\r\nRI" ++ codes "NG\r\n") ≡ (
  (feed (codes "OK") (codes "\r\nRI")).0
      ++ (feed (feed (codes "OK") (codes "\r\nRI")).1 (codes "NG\r\n")).0,
  (feed (feed (codes "OK") (codes "\r\nRI")).1 (codes "NG\r\n")).1,
)
feed_chunks_example =
    feed_chunks (codes "OK") (codes "\r\nRI") (codes "NG\r\n") (unfold cut in refl)

-- A ring that arrives between the answer and its final line is set aside.
ring_aside :
    exchange
      (codes "AT+CSQ")
      (bytes (codes "AT+CSQ\r\n+CSQ: 20\r\nRI") ∷ bytes (codes "NG\r\nOK\r\n") ∷ [])
    ≡ record {
      response = codes "+CSQ: 20" ∷ codes "OK" ∷ [];
      unsolicited = codes "RING" ∷ [];
      err = none;
    }
unfolding exchange exchange_loop take_lines feed feed_loop cut is_final is_unsolicited trim_space
    text_eq trim_return equal_fold contains has_prefix
ring_aside = refl

normalize_sim_not_ready_example : normalize_sim (codes "+CPIN: NOT READY") ≡ ready
normalize_sim_not_ready_example =
    normalize_sim_not_ready (codes "+CPIN: NOT READY") (unfold contains has_prefix in refl)

signal_bars-parse_rssi_example :
    signal_bars (parse_rssi (codes "+CSQ: " ++ (itoa 99 ++ b',' ∷ codes "99"))) ≡ 4
signal_bars-parse_rssi_example = signal_bars-parse_rssi 99 (codes "99") (omega arith)

abbrev entries : List Entry
entries = record { index = 3; header = codes "1,,24"; pdu = 7 ∷ 145 ∷ [] } ∷ []

list_sms-listing_example :
    list_sms [] (listing entries) ≡ (map sms_of entries, last_of (trim_space []) entries)
list_sms-listing_example =
    list_sms-listing [] entries
      ((omega arith, (omega arith, (omega arith, tt)), λ q. absurd (cc q)), tt)

abbrev all_accepted : Answers
all_accepted = record {
  format = true;
  charset = true;
  submission = accepted;
  sms_id = some (codes "sms_1");
}

send_sms-upper_hex_example :
    (send_sms (codes "+8613800138000") (codes "Hi") (upper_hex (0 ∷ 1 ∷ 7 ∷ [])) all_accepted).0
    ≡ run_command (codes "AT+CMGF=0") ∷ send_pdu 2 (upper_hex (0 ∷ 1 ∷ 7 ∷ [])) ∷ []
send_sms-upper_hex_example =
    send_sms-upper_hex (codes "+8613800138000") (codes "Hi") (1 ∷ 7 ∷ []) all_accepted
      (unfold trim_space in omega arith) (omega arith, (omega arith, tt)) (omega arith) refl
