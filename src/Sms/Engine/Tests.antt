-- ===== src/Sms/Engine/Tests.antt =====
-- A message that is received twice, and one that is sent in two parts.
use cell_bridge.Db.Messages.{message_exists_by_pdu_hash, has_hash}
use cell_bridge.Sms.Engine.Single.{ingest-single}
use cell_bridge.Db.{Message, Segment, Change}
use cell_bridge.Sms.Pack.{pack_septets}
use cell_bridge.Sms.Gsm7.{
  can_encode_gsm7, gsm7_reverse, gsm7_alphabet, gsm7_length, extension_code, encode_gsm7,
}
use cell_bridge.Sms.Utf16.{utf16_decode, units_of_octets}
use cell_bridge.Sms.Address.{decode_address, encode_address}
use cell_bridge.Dict.{find, text_key}
use cell_bridge.Db.Segments.{has_id, segment_exists}
use cell_bridge.Sms.Engine.Poll.{poll_entry, start_round, ingest-poll_entry}
use cell_bridge.Sms.Engine.Repeat.{ingest-ingest, Later, later_all, prunes, arrives}
use cell_bridge.Ints.{pos}
use cell_bridge.Sms.Split.{ucs2, gsm7, split_body}
use cell_bridge.Sms.Engine.Send.{Answer, outgoing, refused, send}
use cell_bridge.Sms.Hex.{hex_encode, hex_decode, upper_hex}
use cell_bridge.Sms.Engine.Delivery.{IsDelivered, send-IsDelivered, last_answer, handed}
use cell_bridge.Sms.Submit.{
  SubmitSegment, encode_submit_segments, encode_parts, encode_submit, submit_octets,
  user_data_length, user_data,
}
use cell_bridge.Sms.Engine.Ingest.{ingest, Incoming, nothing, failed, stored}
use cell_bridge.Sms.Decode.{DecodedMessage, decode_pdu, ok}
use cell_bridge.Sms.Engine.{Engine}
use cell_bridge.Base.{
  List, Option, ℕ, Text, [], ◌∷◌, codes, none, ◌≡◌, some, refl, trim_space, arith,
}

abbrev plain_hash : List ℕ → Text
plain_hash octets = octets

abbrev empty_engine : Engine
empty_engine = record {
  db = record { messages = []; segments = []; calls = []; responses = []; log = [] };
  pending = [];
}

-- "Hi" from 10086.
abbrev pdu : List ℕ
pdu =
    0x00 ∷ 0x00 ∷ 0x05 ∷ 0x81 ∷ 0x01 ∷ 0x80 ∷ 0xF6 ∷ 0x00 ∷ 0x08 ∷ 0 ∷ 0 ∷ 0 ∷ 0 ∷ 0 ∷ 0 ∷ 0 ∷ 0x04
    ∷ 0x00 ∷ 0x48 ∷ 0x00 ∷ 0x69 ∷ []

abbrev decoded : DecodedMessage
decoded = record {
  sender = codes "10086";
  body = codes "Hi";
  encoding = ucs2;
  concat_ref = 0;
  part_no = 0;
  total_parts = 0;
  service_time = codes "00000000000000";
}

abbrev incoming : Option Text → Incoming
incoming message_id = record {
  raw = record { modem_storage = codes "SM"; modem_index = pos 1; raw_pdu = pdu };
  now = 7000000;
  segment_id = some (codes "seg_1");
  message_id = message_id;
}

pdu-decoded : decode_pdu (hex_encode pdu) ≡ ok decoded
unfolding decode_pdu hex_decode trim_space hex_encode decode_address utf16_decode units_of_octets
pdu-decoded = refl

-- A prune an hour behind, and a PDU that cannot be read.
abbrev behind : List Later
behind =
    prunes 3600007000000 3600007000000
    ∷ arrives (record (incoming none) {
      raw = record { modem_storage = codes "SM"; modem_index = pos 2; raw_pdu = 1 ∷ [] };
    })
    ∷ []

ingest-ingest_example :
    let e' =
      later_all plain_hash behind
        (ingest plain_hash (incoming (some (codes "m1"))) empty_engine).0 in
    ingest plain_hash (incoming none) e' ≡ (e', nothing)
ingest-ingest_example =
    ingest-ingest plain_hash (incoming (some (codes "m1"))) (incoming none) behind decoded
      (codes "seg_1") empty_engine pdu-decoded refl (unfold has_id in refl)
      (unfold segment_exists in refl) (omega arith, (tt, tt)) refl

abbrev greeting : Message
greeting = record {
  thread_key = codes "10086";
  direction = codes "inbound";
  peer = codes "10086";
  body = codes "Hi";
  encoding = codes "ucs2";
  status = codes "sent";
  created_at = 7;
  modem_storage = codes "SM";
  modem_index = some (pos 1);
  pdu_hash = pdu;
  sync_seq = 1;
}

abbrev greeting_segment : Segment
greeting_segment = record {
  id = codes "seg_1";
  message_id = some (codes "m1");
  sender = codes "10086";
  concat_ref = 0;
  part_no = 0;
  total_parts = 0;
  raw_pdu = pdu;
  pdu_hash = pdu;
  received_at = 7;
}

abbrev greeting_change : Change
greeting_change = record {
  seq = 1;
  entity_type = codes "message";
  entity_id = codes "m1";
  operation = codes "upsert";
}

ingest-single_example : ingest plain_hash (incoming (some (codes "m1"))) empty_engine ≡ (
  record {
    db = record {
      messages = (codes "m1", greeting) ∷ [];
      segments = greeting_segment ∷ [];
      calls = [];
      responses = [];
      log = greeting_change ∷ [];
    };
    pending = [];
  },
  stored (codes "m1") greeting,
)
unfolding find message_exists_by_pdu_hash has_hash
ingest-single_example =
    ingest-single plain_hash (incoming (some (codes "m1"))) decoded (codes "seg_1") (codes "m1")
      empty_engine pdu-decoded (omega arith) refl refl (unfold has_id in refl)
      (unfold segment_exists in refl)

ingest-poll_entry_example :
    ((ingest plain_hash (incoming none) empty_engine).1 ≡ failed)
    × ((ingest plain_hash (incoming none) empty_engine).0.db.messages ≡ [])
    × (poll_entry plain_hash
          (incoming (some (codes "m1")))
          (start_round (ingest plain_hash (incoming none) empty_engine).0)
        ≡ record (start_round (ingest plain_hash (incoming none) empty_engine).0) {
          deleted = pos 1 ∷ [];
        })
ingest-poll_entry_example =
    ingest-poll_entry plain_hash (incoming none) (incoming (some (codes "m1"))) decoded
      (codes "seg_1") 0 empty_engine pdu-decoded refl (unfold has_id in refl)
      (unfold segment_exists in refl) (omega arith) refl refl refl

abbrev only_part : SubmitSegment
only_part = record {
  pdu = codes "00010005810180F6000002C834";
  encoding = gsm7;
  part_no = 1;
  total = 1;
  body = codes "Hi";
}

abbrev refuse_all : SubmitSegment → Answer
refuse_all p = refused

send-IsDelivered_example :
    IsDelivered
      (codes "m1")
      refused
      (outgoing (codes "10086") (codes "Hi") gsm7 7000000)
      (outgoing (codes "10086") (codes "Hi") gsm7 7000000)
      (codes "00010005810180F6000002C834" ∷ [])
      (send refuse_all
        (codes "10086")
        (codes "Hi")
        320
        7000000
        (some (codes "m1"))
        (empty_engine).db)
unfolding encode_parts split_body can_encode_gsm7 gsm7_reverse gsm7_alphabet gsm7_length
    extension_code encode_submit encode_address upper_hex submit_octets user_data_length user_data
    encode_gsm7 pack_septets last_answer handed
send-IsDelivered_example =
    send-IsDelivered refuse_all (codes "10086") (codes "Hi") (codes "m1") 320 7000000 only_part []
      (empty_engine).db (unfold encode_submit_segments trim_space in refl) (unfold find in refl)
      (unfold trim_space in refl)
