-- ===== src/Sms/Engine.antt =====
-- gateway/internal/sms/engine.go: messages that come in and go out, over the tables and the assembler. The
-- clock, the ids that `id.New` makes, which may fail, the hash of a PDU in hex, and what the modem
-- answers are arguments. A time is a number of nanoseconds; the tables keep milliseconds. A statement
-- fails only where the schema refuses it.
pub mod Ingest
pub mod Send
pub mod Poll
pub mod Delivery
pub mod Kept
pub mod Repeat
pub mod Single
mod Tests
use cell_bridge.Sms.Multipart.{Pending}
use cell_bridge.Sms.Split.{Encoding, gsm7, ucs2}
use cell_bridge.Base.{ℕ, ◌/◌, Text, codes}
use cell_bridge.Db.{Db}

pub record Engine : Type 0 where
  pub db : Db
  pub pending : Pending

abbrev pub millis : ℕ → ℕ
millis now = now / 1000000

abbrev pub encoding_name : Encoding → Text
encoding_name gsm7 = codes "gsm7"
encoding_name ucs2 = codes "ucs2"
