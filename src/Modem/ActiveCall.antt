-- ===== src/Modem/ActiveCall.antt =====
-- gateway/internal/modem/call_adapter.go: `ActiveCallAdapter`. The result of a call of `Control` is
-- an argument.
use cell_bridge.Modem.{EventKind, ModemEvent, is_empty_id, ended, incoming}
use cell_bridge.Base.{
  Text, [], Option, text_eq, if◌then◌else◌, Bool, true, not, ◌&&◌, ◌||◌, none, false, some,
}

pub record ActiveCall : Type 0 where
  pub active : Text
  pub logical : Text
  pub last_physical : Text
  pub last_logical : Text

-- `NewActiveCallAdapter`.
unfoldable pub new_active_call : ActiveCall
new_active_call = record { active = []; logical = []; last_physical = []; last_logical = [] }

-- `SetLogicalCallID`.
unfoldable pub set_logical : Text → ActiveCall → ActiveCall
set_logical call_id a = record a { logical = call_id }

-- `Dial`, behind `Control.Dial`.
unfoldable pub dialed : Text → ActiveCall → ActiveCall
dialed call_id a = record a { active = call_id; last_physical = []; last_logical = [] }

-- `withActive`: the id to act on, for `Answer`, `DTMF` and `Hangup`.
unfoldable pub with_active : ActiveCall → Option Text
with_active a = if is_empty_id a.active then none else some a.active

-- `Hangup`, behind `Control.Hangup` without an error.
unfoldable pub hung_up : ActiveCall → ActiveCall
hung_up a = record { active = []; logical = []; last_physical = a.active; last_logical = a.logical }

abbrev is_ended : EventKind → Bool
is_ended ended = true
is_ended incoming = false

-- The call that an incoming event makes active.
abbrev pub active_after : ModemEvent → ActiveCall → Text
active_after event a =
    if not (is_ended event.kind) && not (is_empty_id event.call_id) && is_empty_id a.active
    then event.call_id
    else a.active

-- The logical id that belongs to the event.
abbrev pub logical_of : ModemEvent → ActiveCall → Text
logical_of event a =
    if text_eq event.call_id a.last_physical && not (is_empty_id a.last_logical)
    then a.last_logical
    else a.logical

abbrev pub is_ours : ModemEvent → ActiveCall → Bool
is_ours event a =
    text_eq event.call_id (active_after event a) || text_eq event.call_id a.last_physical

-- The body of the loop of `forwardEvents`: the event that is passed on.
unfoldable pub forward : ModemEvent → ActiveCall → ActiveCall × ModemEvent
unfolding text_eq
forward event a =
    let passed : ModemEvent =
      if not (is_empty_id event.call_id)
        && is_ours event a
        && not (is_empty_id (logical_of event a))
      then record event { call_id = logical_of event a }
      else event in
    let first = is_empty_id a.last_physical in
    if is_ended event.kind && is_ours event a
    then (
      record {
        active = [];
        logical = [];
        last_physical = if first then event.call_id else a.last_physical;
        last_logical = if first then a.logical else a.last_logical;
      },
      passed,
    )
    else (record a { active = active_after event a }, passed)
