-- ===== src/Sms/Engine/Single.antt =====
-- A message of one part through `Ingest`.
use cell_bridge.Sms.Engine.Repeat.{ingest-eq}
use cell_bridge.Db.Log.{append_sync_log}
use cell_bridge.Dict.{find, text_key, assign, delete_absent}
use cell_bridge.Db.Segments.{has_id, segment_exists, link_segment}
use cell_bridge.Sms.Hex.{hex_encode}
use cell_bridge.Sms.Decode.{DecodedMessage, decode_pdu, ok}
use cell_bridge.Db.Messages.{insert_message, message_exists_by_pdu_hash}
use cell_bridge.Db.Stored.{insert_message-eq}
use cell_bridge.Sms.Engine.{Engine, encoding_name}
use cell_bridge.Db.{Message, Segment, Db, is_direction, Change}
use cell_bridge.Sms.Engine.Ingest.{
  store_message, ingest_stored, link_all, Incoming, stored, message_row, ingest, row_of, failed,
}
use cell_bridge.Base.{
  ltb, Text, List, ℕ, ◌≡◌, some, length, ◌+◌, ◌≤◌, refl, false, none, codes, ◌++◌, ◌∷◌, [], arith,
  text_eq, ◌∙◌, ap, text_eq_refl, is_none, Option, Bool-cases, ◌&&◌, ◌/◌, inl, true, not, inr,
  if◌then◌else◌,
}

-- Hashes are looked up among the messages.
message_exists-segments :
    (hash : Text) (segments : List Segment) (db : Db)
    → message_exists_by_pdu_hash hash (record db { segments = segments })
      ≡ message_exists_by_pdu_hash hash db
unfolding message_exists_by_pdu_hash
message_exists-segments [] segments db = refl
message_exists-segments (c ∷ hash) segments db = refl

-- A link finds no other segment than the new one.
link_segment_absent :
    (hash id : Text) (segments : List Segment) (row : Segment)
    → segment_exists hash segments ≡ false
    → row.pdu_hash ≡ hash
    → row.message_id ≡ none
    → link_segment hash id (segments ++ row ∷ [])
      ≡ segments ++ record row { message_id = some id } ∷ []
unfolding link_segment segment_exists
link_segment_absent hash id [] row h e n =
    let itself = text_eq_refl hash in rw (e, n) (rw itself refl)
link_segment_absent hash id (first ∷ segments) row h e n =
    elim (Bool-cases (text_eq first.pdu_hash hash)) [
      | inl p ↦ absurd (cc (rw p at h))
      | inr p ↦ rw p (ap (◌∷◌ first) (link_segment_absent hash id segments row (rw p at h) e n))
    ]

store_message_stored :
    (id : Text) (m : Message) (hash : Text) (segments : List Segment) (row : Segment) (e : Engine)
    → find id e.db.messages ≡ none
    → is_direction m.direction ≡ true
    → message_exists_by_pdu_hash m.pdu_hash e.db ≡ false
    → e.db.segments ≡ segments ++ row ∷ []
    → segment_exists hash segments ≡ false
    → row.pdu_hash ≡ hash
    → row.message_id ≡ none
    → store_message (some id) m (hash ∷ []) e ≡ (
      record e {
        db = record e.db {
          messages = (id, record m { sync_seq = length e.db.log + 1 }) ∷ e.db.messages;
          segments = segments ++ record row { message_id = some id } ∷ [];
          log = (append_sync_log (codes "message") id (codes "upsert") e.db.log).0;
        };
      },
      stored id (record m { sync_seq = length e.db.log + 1 }),
    )
unfolding store_message link_all assign
store_message_stored id m hash segments row e absent directed new held free same unlinked =
    let put = insert_message-eq id m e.db absent directed new in
    let linked = link_segment_absent hash id segments row free same unlinked in
    rw (put, store_message) (rw held (rw linked (rw (delete_absent id e.db.messages absent) refl)))

store_message_refused :
    (id : Text) (m : Message) (hashes : List Text) (e : Engine)
    → (is_none (find id e.db.messages) && not (message_exists_by_pdu_hash m.pdu_hash e.db)) ≡ false
    → store_message (some id) m hashes e ≡ (e, failed)
unfolding store_message
store_message_refused id m hashes e h =
    let put : insert_message id m e.db ≡ none = (unfold insert_message in ground (arith, h)) in
    rw (put, store_message) refl

-- A new PDU that holds a whole message, with an id for its segment and one for the message. If no
-- message has this id, and none the hash of this PDU, it is stored as an inbound message from the
-- sender that the PDU decodes to, in the thread of that sender, with the body and the encoding that it
-- decodes to, the time and the place in the modem, under the next number of the log; the log ends
-- with that change, and the only new segment is the PDU's own, linked to the message. Else `Ingest`
-- fails, and all it leaves is the segment, with no link.
pub ingest-single :
    (hash : List ℕ → Text) (i : Incoming) (d : DecodedMessage) (segment_id id : Text) (e : Engine)
    → decode_pdu (hex_encode i.raw.raw_pdu) ≡ ok d
    → d.total_parts ≤ 1
    → i.segment_id ≡ some segment_id
    → i.message_id ≡ some id
    → has_id segment_id e.db.segments ≡ false
    → segment_exists (hash i.raw.raw_pdu) e.db.segments ≡ false
    → let key = hash i.raw.raw_pdu in
      let next = length e.db.log + 1 in
      let segment : Option Text → Segment = λ message_id. record {
        id = segment_id;
        message_id = message_id;
        sender = d.sender;
        concat_ref = d.concat_ref;
        part_no = d.part_no;
        total_parts = d.total_parts;
        raw_pdu = i.raw.raw_pdu;
        pdu_hash = key;
        received_at = i.now / 1000000;
      } in
      let message : Message = record {
        thread_key = d.sender;
        direction = codes "inbound";
        peer = d.sender;
        body = d.body;
        encoding = encoding_name d.encoding;
        status = codes "sent";
        created_at = i.now / 1000000;
        modem_storage = i.raw.modem_storage;
        modem_index = some i.raw.modem_index;
        pdu_hash = key;
        sync_seq = next;
      } in
      let change : Change = record {
        seq = next;
        entity_type = codes "message";
        entity_id = id;
        operation = codes "upsert";
      } in
      ingest hash i e ≡ (
        if is_none (find id e.db.messages) && not (message_exists_by_pdu_hash key e.db)
        then (
          record e {
            db = record e.db {
              messages = (id, message) ∷ e.db.messages;
              segments = e.db.segments ++ segment (some id) ∷ [];
              log = e.db.log ++ change ∷ [];
            };
          },
          stored id message,
        )
        else (
          record e { db = record e.db { segments = e.db.segments ++ segment none ∷ [] } },
          failed,
        ))
unfolding ingest_stored append_sync_log
ingest-single hash i d segment_id id e decodes single named identified fresh free =
    let key = hash i.raw.raw_pdu in
    let row = row_of hash i segment_id d in
    let e1 : Engine = record e { db = record e.db { segments = e.db.segments ++ row ∷ [] } } in
    let m = message_row hash i d.sender d.body d.encoding in
    let one : ltb 1 d.total_parts ≡ false = ground arith in
    let hashes_same = message_exists-segments key e1.db.segments e.db in
    let eq : ingest hash i e ≡ store_message (some id) m (key ∷ []) e1 =
      ingest-eq hash i d segment_id e decodes named fresh free
      ∙ rw (one, ingest_stored) (ap (λ o. store_message o m (key ∷ []) e1) identified) in
    elim (Bool-cases
      (is_none (find id e.db.messages) && not (message_exists_by_pdu_hash key e.db))) [
        | inl p ↦
            let absent : find id e.db.messages ≡ none = ground arith in
            let new : message_exists_by_pdu_hash key e.db ≡ false = ground arith in
            eq
            ∙ store_message_stored id m key e.db.segments row e1 absent (unfold text_eq in refl)
                (hashes_same ∙ new) refl free refl refl
            ∙ rw p refl
        | inr p ↦ eq ∙ store_message_refused id m (key ∷ []) e1 (rw hashes_same p) ∙ rw p refl
      ]
