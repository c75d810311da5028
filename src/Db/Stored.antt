-- ===== src/Db/Stored.antt =====
-- A message that is new to the table.
use cell_bridge.Dict.{assign, find, find-assign_self, text_key}
use cell_bridge.Db.{Message, Db, is_direction}
use cell_bridge.Db.Log.{append_sync_log}
use cell_bridge.Base.{Text, length, ◌≡◌, ◌+◌, none, some, codes, true, false, refl}
use cell_bridge.Db.Messages.{insert_message, message_exists_by_pdu_hash}

-- The tables behind its insertion.
abbrev pub with_message : Text → Message → Db → Db
with_message id m db = record db {
  messages = assign id (record m { sync_seq = length db.log + 1 }) db.messages;
  log = (append_sync_log (codes "message") id (codes "upsert") db.log).0;
}

pub insert_message-eq :
    (id : Text) (m : Message) (db : Db)
    → find id db.messages ≡ none
    → is_direction m.direction ≡ true
    → message_exists_by_pdu_hash m.pdu_hash db ≡ false
    → insert_message id m db ≡ some (with_message id m db, length db.log + 1)
unfolding insert_message append_sync_log
insert_message-eq id m db absent directed new =
    rw (absent, insert_message) (rw (directed, new) refl)

pub find-with_message :
    (id : Text) (m : Message) (db : Db)
    → find id (with_message id m db).messages ≡ some (record m { sync_seq = length db.log + 1 })
find-with_message id m db =
    find-assign_self id (record m { sync_seq = length db.log + 1 }) db.messages
