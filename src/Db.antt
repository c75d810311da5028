-- ===== src/Db.antt =====
-- gateway/internal/db/db.go: the rows of the tables that gateway/internal/db/schema.sql declares, and the
-- change log. A statement fails when a key, a unique index or a check of the schema refuses it; the
-- database fails in no other way. A transaction is one step. A time is a number of milliseconds.
pub mod Log
pub mod Messages
pub mod Segments
pub mod Calls
pub mod Idempotency
pub mod Stored
pub mod Sync
pub mod Logged
mod Tests
use cell_bridge.Ints.{ℤ}
use cell_bridge.Dict.{Map}
use cell_bridge.Base.{ℕ, Text, Option, List, Bool, text_eq, codes, ◌||◌}

-- `Change`, a row of `sync_log`.
pub record Change : Type 0 where
  pub seq : ℕ
  pub entity_type : Text
  pub entity_id : Text
  pub operation : Text

-- `Message`, less the service time, which no caller sets; a hash that is empty is NULL.
pub record Message : Type 0 where
  pub thread_key : Text
  pub direction : Text
  pub peer : Text
  pub body : Text
  pub encoding : Text
  pub status : Text
  pub created_at : ℕ
  pub modem_storage : Text
  pub modem_index : Option ℤ
  pub pdu_hash : Text
  pub sync_seq : ℕ

-- `SMSSegment`.
pub record Segment : Type 0 where
  pub id : Text
  pub message_id : Option Text
  pub sender : Text
  pub concat_ref : ℕ
  pub part_no : ℕ
  pub total_parts : ℕ
  pub raw_pdu : List ℕ
  pub pdu_hash : Text
  pub received_at : ℕ

-- `Call`, and the time of its deletion.
pub record Call : Type 0 where
  pub direction : Text
  pub peer : Text
  pub state : Text
  pub started_at : ℕ
  pub connected_at : Option ℕ
  pub ended_at : Option ℕ
  pub end_reason : Text
  pub recording_id : Option Text
  pub recording_state : Option Text
  pub recording_duration_ms : Option ℕ
  pub sync_seq : ℕ
  pub deleted_at : Option ℕ

-- `IdempotencyRecord`, whose flag `Pending` is `is_pending`; the key is the device, the operation and the request.
pub record Response : Type 0 where
  pub status_code : ℕ
  pub body : List ℕ

abbrev pub RequestKey : Type 0
RequestKey = Text × Text × Text

-- `sms_segments` is in the order of its rows, and so is `sync_log`.
pub record Db : Type 0 where
  pub messages : Map Text Message
  pub segments : List Segment
  pub calls : Map Text Call
  pub responses : Map RequestKey Response
  pub log : List Change

-- `CHECK (direction IN ('inbound', 'outbound'))`.
abbrev pub is_direction : Text → Bool
is_direction s = text_eq s (codes "inbound") || text_eq s (codes "outbound")
