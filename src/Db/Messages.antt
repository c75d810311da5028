-- ===== src/Db/Messages.antt =====
-- gateway/internal/db/db.go: the table of messages. `none` is an error, and then nothing is changed.
use cell_bridge.Db.{Db, Message, is_direction}
use cell_bridge.Dict.{Map, find, assign, delete, text_key}
use cell_bridge.Db.Log.{append_sync_log}
use cell_bridge.Base.{
  text_eq, Text, trim_space, Bool, false, true, Option, ◌∷◌, ℕ, codes, ◌||◌, [], some,
  if◌then◌else◌, none, not,
}

unfoldable pub has_hash : Text → Map Text Message → Bool
unfolding text_eq
has_hash hash [] = false
has_hash hash ((id, message) ∷ messages) = text_eq message.pdu_hash hash || has_hash hash messages

-- `MessageExistsByPDUHash`; NULL equals nothing.
unfoldable pub message_exists_by_pdu_hash : Text → Db → Bool
unfolding has_hash
message_exists_by_pdu_hash [] db = false
message_exists_by_pdu_hash (c ∷ hash) db = has_hash (c ∷ hash) db.messages

-- `InsertMessage`, and the number of the change.
unfoldable pub insert_message : Text → Message → Db → Option (Db × ℕ)
unfolding append_sync_log find assign message_exists_by_pdu_hash
insert_message id message db =
    let (log, seq) = append_sync_log (codes "message") id (codes "upsert") db.log in
    elim (find id db.messages) [
      | some there ↦ none
      | none ↦
          if not (is_direction message.direction) || message_exists_by_pdu_hash message.pdu_hash db
          then none
          else some (
            record db {
              messages = assign id (record message { sync_seq = seq }) db.messages;
              log = log;
            },
            seq,
          )
    ]

abbrev pub is_empty : Text → Bool
is_empty [] = true
is_empty (c ∷ s) = false

-- `UPDATE messages SET status = ?, sync_seq = ? WHERE id = ?`, with its change.
unfoldable pub set_status : Text → Text → Db → Option (Db × ℕ)
unfolding append_sync_log find assign
set_status id status db =
    let (log, seq) = append_sync_log (codes "message") id (codes "upsert") db.log in
    elim (find id db.messages) [
      | none ↦ none
      | some message ↦ some (
        record db {
          messages = assign id (record message { status = status; sync_seq = seq }) db.messages;
          log = log;
        },
        seq,
      )
    ]

-- `UpdateMessageStatus`.
unfoldable pub update_message_status : Text → Text → Db → Option (Db × ℕ)
unfolding set_status trim_space
update_message_status id status db =
    if is_empty (trim_space id) || is_empty (trim_space status)
    then none
    else set_status id status db

-- `MarkMessageRead`; the number is no result of it.
unfoldable pub mark_message_read : Text → Db → Option (Db × ℕ)
unfolding set_status
mark_message_read id db = set_status id (codes "read") db

-- `DeleteMessage`.
unfoldable pub delete_message : Text → Db → Option Db
unfolding append_sync_log find delete
delete_message id db =
    let (log, seq) = append_sync_log (codes "message") id (codes "delete") db.log in
    elim (find id db.messages) [
      | none ↦ none
      | some message ↦ some (record db { messages = delete id db.messages; log = log })
    ]
