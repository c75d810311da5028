-- ===== src/Modem.antt =====
-- gateway/internal/modem: calls at the modem, and the mapping of their ids. A call id is a text, the
-- empty one for no call; a full channel of 32 events misses the next one.
pub mod Adapter
pub mod ActiveCall
pub mod Laws
mod Tests
use cell_bridge.Base.{Text, List, Bool, if◌then◌else◌, true, ltb, ◌∷◌, length, false, ◌++◌, []}

pub data EventKind : Type 0 where
  incoming ended : EventKind

pub record ModemEvent : Type 0 where
  pub kind : EventKind
  pub call_id : Text
  pub raw : Text

pub data ModemErr : Type 0 where
  active_call no_active_call call_mismatch invalid_digit exchange_failed no_id : ModemErr

abbrev pub is_empty_id : Text → Bool
is_empty_id [] = true
is_empty_id (c ∷ s) = false

-- The send that does not wait.
abbrev pub emit : ModemEvent → List ModemEvent → List ModemEvent
emit event events = if ltb (length events) 32 then events ++ event ∷ [] else events
