-- ===== src/Sms/Engine/Send.antt =====
-- gateway/internal/sms/engine.go: `Send` with a modem, one message in its parts.
use cell_bridge.Sms.Engine.{encoding_name, millis}
use cell_bridge.Sms.Split.{Encoding}
use cell_bridge.Sms.Submit.{SubmitSegment, encode_submit_segments}
use cell_bridge.Db.Messages.{update_message_status, insert_message}
use cell_bridge.Db.{Message, Db}
use cell_bridge.Base.{
  none, some, Bool, Text, false, if◌then◌else◌, List, ℕ, true, codes, Option, ◌∷◌, [], ◌%◌,
}

-- The modem's answer to a part: taken, `ErrSMSSubmissionUnknown`, or another error.
pub data Answer : Type 0 where
  taken unknown refused : Answer

-- How `Send` ends: with no message, or with the message and whether there is an error.
pub data Outcome : Type 0 where
  no_message : Outcome
  sent_message : Message → Bool → Outcome

-- `UpdateMessageStatus` on the message in hand: the tables, the message, and whether it succeeds.
unfoldable pub advance : Text → Text → Message → Db → Db × Message × Bool
unfolding update_message_status
advance id status m db = elim (update_message_status id status db) [
  | none ↦ (db, record m { status = status }, false)
  | some (db', seq) ↦ (db', record m { status = status; sync_seq = seq }, true)
]

-- The end of `Send` for a status, with an error or not; a failed update is an error.
unfoldable pub finish : Text → Text → Bool → Message → Db → Db × Outcome
unfolding advance
finish id status error m db =
    let (db', m', done) = advance id status m db in
    (db', sent_message m' (if done then error else true))

-- The loop over the parts, and the PDUs that the modem was given.
unfoldable pub submit_parts :
    (SubmitSegment → Answer) → Text → List SubmitSegment → Message → Db → Db × Outcome × List Text
unfolding finish advance
submit_parts modem id [] m db =
    let (db', outcome) = finish id (codes "sent") false m db in (db', outcome, [])
submit_parts modem id (part ∷ parts) m db =
    let (db1, m1, done) = advance id (codes "submitted") m db in
    let (db2, outcome, pdus) = submit_parts modem id parts m1 db1 in
    elim (modem part) [
      | unknown ↦
          let (db', outcome') = finish id (codes "submitted") false m db in
          (db', outcome', part.pdu ∷ [])
      | refused ↦
          let (db', outcome') = finish id (codes "failed") true m db in
          (db', outcome', part.pdu ∷ [])
      | taken ↦
          if done
          then (db2, outcome, part.pdu ∷ pdus)
          else (db1, sent_message m1 true, part.pdu ∷ [])
    ]

abbrev pub outgoing : Text → Text → Encoding → ℕ → Message
outgoing to body e now = record {
  thread_key = to;
  direction = codes "outbound";
  peer = to;
  body = body;
  encoding = encoding_name e;
  status = codes "queued";
  created_at = millis now;
  modem_storage = [];
  modem_index = none;
  pdu_hash = [];
  sync_seq = 0;
}

-- Behind the encoding of the parts; `segments[0]` of none is a panic, which no caller reaches.
unfoldable pub send_parts :
    (SubmitSegment → Answer)
    → Text
    → Text
    → ℕ
    → Option Text
    → List SubmitSegment
    → Db
    → Db × Outcome × List Text
unfolding submit_parts insert_message
send_parts modem to body now none parts db = (db, no_message, [])
send_parts modem to body now (some id) [] db = (db, no_message, [])
send_parts modem to body now (some id) (first ∷ parts) db =
    let m = outgoing to body first.encoding now in
    elim (insert_message id m db) [
      | none ↦ (db, no_message, [])
      | some (db', seq) ↦ submit_parts modem id (first ∷ parts) (record m { sync_seq = seq }) db'
    ]

-- `Send` with a modem; the clock is read for the reference and for the message.
unfoldable pub send :
    (SubmitSegment → Answer) → Text → Text → ℕ → ℕ → Option Text → Db → Db × Outcome × List Text
unfolding send_parts encode_submit_segments
send modem to body started now id db = elim (encode_submit_segments to body (started % 256)) [
  | none ↦ (db, no_message, [])
  | some parts ↦ send_parts modem to body now id parts db
]
