-- ===== src/Db/Logged/Ops.antt =====
-- The operations on the tables as requests, and the relation of rows and log under each.
use cell_bridge.Db.Logged.{IsLogged, messages-IsLogged, deleted-IsLogged, calls-IsLogged}
use cell_bridge.Db.Idempotency.{claim_idempotency, complete_idempotency, request_key_eq}
use cell_bridge.Db.Segments.{insert_sms_segment, has_id, segment_exists}
use cell_bridge.Db.Calls.{save_call, delete_call, update_call_recording, merged, delete_row}
use cell_bridge.Db.Log.{append_sync_log}
use cell_bridge.Db.Messages.{
  insert_message, set_status, mark_message_read, update_message_status, delete_message,
  message_exists_by_pdu_hash, is_empty,
}
use cell_bridge.Dict.{find, text_key, Map, assign}
use cell_bridge.Db.{Db, Message, Call, Segment, RequestKey, is_direction, Response}
use cell_bridge.Base.{
  List, Text, ℕ, ◌≡◌, some, [], codes, length, refl, ◌+◌, Bool-cases, inl, inr, Option, none,
  Option-cases, not, ◌||◌, trim_space,
}

-- The operations on the synchronized tables and on the others.
pub data Op : Type 0 where
  insert_message_op : Text → Message → Op
  update_status_op : Text → Text → Op
  mark_read_op : Text → Op
  delete_message_op : Text → Op
  save_call_op : Text → Call → Op
  delete_call_op : ℕ → Text → Op
  update_recording_op : Text → Text → Text → Option ℕ → Op
  insert_segment_op : Segment → Op
  claim_op : RequestKey → Op
  complete_op : RequestKey → ℕ → List ℕ → Op

-- The tables behind an operation: a failed transaction is rolled back.
abbrev pub committed : Db → Option (Db × ℕ) → Db
committed db none = db
committed db (some (db', seq)) = db'

abbrev pub committed_only : Db → Option Db → Db
committed_only db none = db
committed_only db (some db') = db'

unfoldable pub perform : Op → Db → Db
perform (insert_message_op id m) db = committed db (insert_message id m db)
perform (update_status_op id status) db = committed db (update_message_status id status db)
perform (mark_read_op id) db = committed db (mark_message_read id db)
perform (delete_message_op id) db = committed_only db (delete_message id db)
perform (save_call_op id call) db = committed db (save_call id call db)
perform (delete_call_op now id) db = committed db (delete_call now id db)
perform (update_recording_op id recording state ms) db =
    committed_only db (update_call_recording id recording state ms db)
perform (insert_segment_op segment) db = committed_only db (insert_sms_segment segment db)
perform (claim_op key) db = (claim_idempotency key db).0
perform (complete_op key status body) db =
    committed_only db (complete_idempotency key status body db)

module _ (db : Db) (v : IsLogged db) where
  set_status-IsLogged : (id status : Text) → IsLogged (committed db (set_status id status db))
  unfolding set_status append_sync_log
  set_status-IsLogged id status = elim (Option-cases (find id db.messages)) [
    | inl e ↦ rw (e, set_status, committed) v
    | inr (m, e) ↦
        rw (e, set_status, committed)
          (messages-IsLogged id (codes "upsert")
            (record m { status = status; sync_seq = length db.log + 1 }) db v refl)
  ]

  insert_message-IsLogged :
      (id : Text) (m : Message) → IsLogged (committed db (insert_message id m db))
  unfolding insert_message append_sync_log
  insert_message-IsLogged id m = elim (Option-cases (find id db.messages)) [
    | inr (there, e) ↦ rw (e, insert_message, committed) v
    | inl e ↦
        let refused = not (is_direction m.direction) || message_exists_by_pdu_hash m.pdu_hash db in
        elim (Bool-cases refused) [
          | inl p ↦ rw (e, insert_message, committed) (rw p v)
          | inr p ↦
              rw (e, insert_message, committed)
                (rw p (
                  messages-IsLogged id (codes "upsert") (record m { sync_seq = length db.log + 1 })
                    db v refl))
        ]
  ]

  update_status-IsLogged :
      (id status : Text) → IsLogged (committed db (update_message_status id status db))
  unfolding update_message_status
  update_status-IsLogged id status =
      elim (Bool-cases (is_empty (trim_space id) || is_empty (trim_space status))) [
        | inl p ↦ rw (p, committed) v
        | inr p ↦
            let plain : update_message_status id status db ≡ set_status id status db = rw p refl in
            rw plain (set_status-IsLogged id status)
      ]

  delete_message-IsLogged : (id : Text) → IsLogged (committed_only db (delete_message id db))
  unfolding delete_message append_sync_log
  delete_message-IsLogged id = elim (Option-cases (find id db.messages)) [
    | inl e ↦ rw (e, delete_message, committed_only) v
    | inr (m, e) ↦
        rw (e, delete_message, committed_only) (deleted-IsLogged id (codes "delete") db v)
  ]

  save_call-IsLogged : (id : Text) (call : Call) → IsLogged (committed db (save_call id call db))
  unfolding save_call append_sync_log
  save_call-IsLogged id call = elim (Bool-cases (is_direction call.direction)) [
    | inr p ↦ rw (p, committed) v
    | inl p ↦
        rw (p, committed)
          (calls-IsLogged id (codes "upsert")
            (record (merged call (find id db.calls)) { sync_seq = length db.log + 1 }) db v refl)
  ]

  delete_call-IsLogged : (now : ℕ) (id : Text) → IsLogged (committed db (delete_call now id db))
  unfolding delete_call delete_row append_sync_log
  delete_call-IsLogged now id = elim (Option-cases (find id db.calls)) [
    | inl e ↦ rw (e, delete_call, committed) v
    | inr (c, e) ↦ elim (Option-cases c.deleted_at) [
      | inr (at, d) ↦ rw (e, delete_call, committed) (rw d v)
      | inl d ↦
          rw (e, delete_call, committed)
            (rw d (
              calls-IsLogged id (codes "delete")
                (record c { deleted_at = some now; sync_seq = length db.log + 1 }) db v refl))
    ]
  ]

  update_recording-IsLogged :
      (id recording state : Text) (ms : Option ℕ)
      → IsLogged (committed_only db (update_call_recording id recording state ms db))
  unfolding update_call_recording append_sync_log
  update_recording-IsLogged id recording state ms = elim (Option-cases (find id db.calls)) [
    | inl e ↦ rw (e, update_call_recording, committed_only) v
    | inr (c, e) ↦
        rw (e, update_call_recording, committed_only)
          (calls-IsLogged id (codes "upsert")
            (record c {
              recording_id = some recording;
              recording_state = some state;
              recording_duration_ms = ms;
              sync_seq = length db.log + 1;
            })
            db v refl)
  ]

  -- The other tables are not synchronized.
  unsynchronized :
      (segments : List Segment) (responses : Map RequestKey Response)
      → IsLogged (record db { segments = segments; responses = responses })
  unsynchronized segments responses = record {
    numbered = v.numbered;
    messages = v.messages;
    calls = v.calls;
  }

  insert_segment-IsLogged :
      (segment : Segment) → IsLogged (committed_only db (insert_sms_segment segment db))
  unfolding insert_sms_segment
  insert_segment-IsLogged segment =
      elim (Bool-cases
        (has_id segment.id db.segments || segment_exists segment.pdu_hash db.segments)) [
          | inl p ↦ rw (p, committed_only) v
          | inr p ↦ rw (p, committed_only) (unsynchronized _ db.responses)
        ]

  claim-IsLogged : (key : RequestKey) → IsLogged (claim_idempotency key db).0
  unfolding claim_idempotency
  claim-IsLogged key = elim (Option-cases (find ⦃e = request_key_eq⦄ key db.responses)) [
    | inr (response, e) ↦
        let same : (claim_idempotency key db).0 ≡ db = rw (e, claim_idempotency) refl in rw same v
    | inl e ↦
        let same : (claim_idempotency key db).0 ≡ record db {
          responses =
              assign ⦃e = request_key_eq⦄ key (record { status_code = 102; body = [] })
                db.responses;
        } =
          rw (e, claim_idempotency) refl in
        rw same (unsynchronized db.segments _)
  ]

  complete-IsLogged :
      (key : RequestKey) (status : ℕ) (body : List ℕ)
      → IsLogged (committed_only db (complete_idempotency key status body db))
  unfolding complete_idempotency
  complete-IsLogged key status body =
      elim (Option-cases (find ⦃e = request_key_eq⦄ key db.responses)) [
        | inl e ↦ rw (e, complete_idempotency, committed_only) v
        | inr (response, e) ↦
            rw (e, complete_idempotency, committed_only) (unsynchronized db.segments _)
      ]

-- The invariant of synchronization is kept by every operation, the failed ones included: the changes
-- are numbered by their places, and each message's and each call's number is that of a change of it.
pub perform-IsLogged : (op : Op) (db : Db) → IsLogged db → IsLogged (perform op db)
unfolding perform
perform-IsLogged (insert_message_op id m) db v = insert_message-IsLogged db v id m
perform-IsLogged (update_status_op id status) db v = update_status-IsLogged db v id status
perform-IsLogged (mark_read_op id) db v =
    unfold mark_message_read in set_status-IsLogged db v id (codes "read")
perform-IsLogged (delete_message_op id) db v = delete_message-IsLogged db v id
perform-IsLogged (save_call_op id call) db v = save_call-IsLogged db v id call
perform-IsLogged (delete_call_op now id) db v = delete_call-IsLogged db v now id
perform-IsLogged (update_recording_op id recording state ms) db v =
    update_recording-IsLogged db v id recording state ms
perform-IsLogged (insert_segment_op segment) db v = insert_segment-IsLogged db v segment
perform-IsLogged (claim_op key) db v = claim-IsLogged db v key
perform-IsLogged (complete_op key status body) db v = complete-IsLogged db v key status body
