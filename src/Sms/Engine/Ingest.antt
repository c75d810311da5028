-- ===== src/Sms/Engine/Ingest.antt =====
-- gateway/internal/sms/engine.go: `Ingest`, one PDU of the modem's inbox.
use cell_bridge.Sms.Split.{Encoding}
use cell_bridge.Sms.Engine.{millis, Engine, encoding_name}
use cell_bridge.Db.Messages.{insert_message}
use cell_bridge.Db.Segments.{
  link_segment, list_pending, insert_sms_segment, segment_exists, prune_pending,
}
use cell_bridge.Sms.Hex.{hex_encode}
use cell_bridge.Sms.Multipart.{
  Segment as Part, Pending, add, rejected, waiting, complete, LogicalMessage, prune,
  multipart_retention,
}
use cell_bridge.Sms.Decode.{DecodedMessage, decode_pdu, ok, invalid, crash}
use cell_bridge.Db.{Segment, Message}
use cell_bridge.At.Inbox.{RawSms}
use cell_bridge.Base.{
  none, some, Text, ℕ, List, [], Option, ◌*◌, ◌∷◌, codes, map, if◌then◌else◌, ltb, ◌-◌,
}

pub data Ingested : Type 0 where
  failed : Ingested
  crashed : Ingested
  nothing : Ingested
  stored : Text → Message → Ingested

-- What `Ingest` is given for one PDU.
pub record Incoming : Type 0 where
  pub raw : RawSms
  pub now : ℕ
  pub segment_id : Option Text
  pub message_id : Option Text

-- The row of a segment.
abbrev pub row_of : (List ℕ → Text) → Incoming → Text → DecodedMessage → Segment
row_of hash i segment_id d = record {
  id = segment_id;
  message_id = none;
  sender = d.sender;
  concat_ref = d.concat_ref;
  part_no = d.part_no;
  total_parts = d.total_parts;
  raw_pdu = i.raw.raw_pdu;
  pdu_hash = hash i.raw.raw_pdu;
  received_at = millis i.now;
}

-- A row as a part for the assembler; `time.UnixMilli` of its time.
abbrev pub part_of : Segment → DecodedMessage → Part
part_of row d = record {
  sender = d.sender;
  destination = [];
  concat_ref = d.concat_ref;
  part_no = d.part_no;
  total_parts = d.total_parts;
  body = d.body;
  encoding = d.encoding;
  raw_pdu = row.raw_pdu;
  received_at = row.received_at * 1000000;
}

-- How the loop over the rows of a message is left.
pub data Assembled : Type 0 where
  assembled : LogicalMessage → Assembled
  unassembled rejected_part panicked : Assembled

-- The loop over the rows.
unfoldable pub assemble : ℕ → List Segment → Pending → Pending × Assembled
unfolding add decode_pdu hex_encode
assemble now [] pending = (pending, unassembled)
assemble now (row ∷ rows) pending = elim (decode_pdu (hex_encode row.raw_pdu)) [
  | invalid ↦ assemble now rows pending
  | crash ↦ (pending, panicked)
  | ok d ↦
      let (pending', added) = add now (part_of row d) pending in
      let rest = assemble now rows pending' in
      elim added [
        | rejected ↦ (pending', rejected_part)
        | waiting ↦ rest
        | complete message ↦ (pending', assembled message)
      ]
]

-- The message that is stored: its sender, body and encoding.
abbrev pub message_row : (List ℕ → Text) → Incoming → Text → Text → Encoding → Message
message_row hash i sender body e = record {
  thread_key = sender;
  direction = codes "inbound";
  peer = sender;
  body = body;
  encoding = encoding_name e;
  status = codes "sent";
  created_at = millis i.now;
  modem_storage = i.raw.modem_storage;
  modem_index = some i.raw.modem_index;
  pdu_hash = hash i.raw.raw_pdu;
  sync_seq = 0;
}

-- The links of the parts to their message.
unfoldable pub link_all : Text → List Text → List Segment → List Segment
unfolding link_segment
link_all id [] segments = segments
link_all id (hash ∷ hashes) segments = link_all id hashes (link_segment hash id segments)

-- From the id of the message on, with the hashes of its parts.
unfoldable pub store_message : Option Text → Message → List Text → Engine → Engine × Ingested
unfolding insert_message link_all
store_message none m hashes e = (e, failed)
store_message (some id) m hashes e = elim (insert_message id m e.db) [
  | none ↦ (e, failed)
  | some (db, seq) ↦ (
    record e { db = record db { segments = link_all id hashes db.segments } },
    stored id (record m { sync_seq = seq }),
  )
]

-- Behind the assembler.
unfoldable pub store_assembled :
    (List ℕ → Text) → Incoming → DecodedMessage → Assembled → Engine → Engine × Ingested
unfolding store_message
store_assembled hash i d (assembled l) e =
    store_message i.message_id (message_row hash i d.sender l.body l.encoding)
      (map (λ (part : Part). hash part.raw_pdu) l.segments) e
store_assembled hash i d unassembled e = (e, nothing)
store_assembled hash i d rejected_part e = (e, failed)
store_assembled hash i d panicked e = (e, crashed)

-- A message of several parts.
unfoldable pub ingest_part :
    (List ℕ → Text) → Incoming → DecodedMessage → Engine → Engine × Ingested
unfolding assemble list_pending store_assembled
ingest_part hash i d e =
    let rows = list_pending d.sender d.concat_ref d.total_parts e.db.segments in
    let (pending, result) = assemble i.now rows e.pending in
    store_assembled hash i d result (record e { pending = pending })

-- Behind the row of the segment.
unfoldable pub ingest_stored :
    (List ℕ → Text) → Incoming → DecodedMessage → Engine → Engine × Ingested
unfolding ingest_part store_message
ingest_stored hash i d e =
    if ltb 1 d.total_parts
    then ingest_part hash i d e
    else store_message i.message_id (message_row hash i d.sender d.body d.encoding)
        (hash i.raw.raw_pdu ∷ []) e

unfoldable pub ingest_row :
    (List ℕ → Text) → Incoming → DecodedMessage → Option Text → Engine → Engine × Ingested
unfolding ingest_stored insert_sms_segment
ingest_row hash i d none e = (e, failed)
ingest_row hash i d (some segment_id) e =
    elim (insert_sms_segment (row_of hash i segment_id d) e.db) [
      | none ↦ (e, failed)
      | some db ↦ ingest_stored hash i d (record e { db = db })
    ]

-- `Ingest`.
unfoldable pub ingest : (List ℕ → Text) → Incoming → Engine → Engine × Ingested
unfolding ingest_row decode_pdu hex_encode segment_exists
ingest hash i e =
    if segment_exists (hash i.raw.raw_pdu) e.db.segments
    then (e, nothing)
    else elim (decode_pdu (hex_encode i.raw.raw_pdu)) [
      | invalid ↦ (e, failed)
      | crash ↦ (e, crashed)
      | ok d ↦ ingest_row hash i d i.segment_id e
    ]

-- What `Run` prunes in front of a round; the clock is read twice.
unfoldable pub pruned : ℕ → ℕ → Engine → Engine
unfolding prune prune_pending
pruned now now' e = record {
  db = record e.db { segments = prune_pending (millis (now' - multipart_retention)) e.db.segments };
  pending = prune now e.pending;
}
