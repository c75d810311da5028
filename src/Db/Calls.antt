-- ===== src/Db/Calls.antt =====
-- gateway/internal/db/db.go: the table of calls. `none` is an error, and then nothing is changed.
use cell_bridge.Dict.{find, assign, text_key}
use cell_bridge.Db.Log.{append_sync_log}
use cell_bridge.Db.{Call, Db, is_direction}
use cell_bridge.Base.{Option, some, ℕ, none, Text, codes, if◌then◌else◌, not}

-- `COALESCE`.
abbrev pub coalesce : {A : Type 0} → Option A → Option A → Option A
coalesce none old = old
coalesce (some a) old = some a

-- The row behind `ON CONFLICT(id) DO UPDATE`.
abbrev pub merged : Call → Option Call → Call
merged call none = record call { deleted_at = none }
merged call (some old) = record call {
  recording_id = coalesce call.recording_id old.recording_id;
  recording_state = coalesce call.recording_state old.recording_state;
  recording_duration_ms = coalesce call.recording_duration_ms old.recording_duration_ms;
  deleted_at = old.deleted_at;
}

-- `SaveCall`, and the number of the change.
unfoldable pub save_call : Text → Call → Db → Option (Db × ℕ)
unfolding append_sync_log find assign
save_call id call db =
    let (log, seq) = append_sync_log (codes "call") id (codes "upsert") db.log in
    if not (is_direction call.direction)
    then none
    else some (
      record db {
        calls = assign id (record (merged call (find id db.calls)) { sync_seq = seq }) db.calls;
        log = log;
      },
      seq,
    )

unfoldable pub delete_row : ℕ → Text → Option Call → Db → Option (Db × ℕ)
unfolding append_sync_log assign
delete_row now id none db = none
delete_row now id (some call) db =
    let (log, seq) = append_sync_log (codes "call") id (codes "delete") db.log in
    let row = record call { deleted_at = some now; sync_seq = seq } in
    elim call.deleted_at [
      | some at ↦ none
      | none ↦ some (record db { calls = assign id row db.calls; log = log }, seq)
    ]

-- `DeleteCall`.
unfoldable pub delete_call : ℕ → Text → Db → Option (Db × ℕ)
unfolding delete_row find
delete_call now id db = delete_row now id (find id db.calls) db

-- `UpdateCallRecording`.
unfoldable pub update_call_recording : Text → Text → Text → Option ℕ → Db → Option Db
unfolding append_sync_log find assign
update_call_recording id recording_id state duration_ms db =
    let (log, seq) = append_sync_log (codes "call") id (codes "upsert") db.log in
    elim (find id db.calls) [
      | none ↦ none
      | some call ↦ some (record db {
        calls =
            assign id
              (record call {
                recording_id = some recording_id;
                recording_state = some state;
                recording_duration_ms = duration_ms;
                sync_seq = seq;
              })
              db.calls;
        log = log;
      })
    ]
