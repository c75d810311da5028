-- ===== src/Call/Defs.antt =====
-- gateway/internal/call/state.go: the data of the call controller.
-- `Controller` keeps the call that holds the line and the memo of request results. Zero values
-- (`Call{}`, `Event{}`, a nil pointer) are `none`, the wrapped `ErrInvalidState` is
-- `invalid_state`, and times are numbers.
use cell_bridge.Base.{ℕ, Bool, false, [], Option, none, some, Text}
use cell_bridge.Dict.{Map}

pub data Direction : Type 0 where
  inbound outbound : Direction

pub data State : Type 0 where
  idle incoming_ringing outgoing_dialing connecting active ending recovering : State

pub data Err : Type 0 where
  line_busy call_not_found invalid_state duplicate_event invalid_dtmf : Err

pub data Kind : Type 0 where
  duplicate_incoming call_incoming call_updated answered cellular_ready media_ready : Kind
  call_recovering hangup call_ended : Kind

pub record Call : Type 0 where
  pub id : Text
  pub direction : Direction
  pub peer : Text
  pub state : State
  pub started_at : ℕ
  pub connected_at : Option ℕ
  pub ended_at : Option ℕ
  pub end_reason : Text
  pub cellular_ready : Bool
  pub media_ready : Bool
  pub answered : Bool

pub record Event : Type 0 where
  pub call_id : Text
  pub state : State
  pub kind : Kind
  pub reason : Text

-- What a method returns: `(Call, Event, error)`.
pub record Reply : Type 0 where
  pub call : Option Call
  pub event : Option Event
  pub err : Option Err

-- The memo of a request.
pub record Stored : Type 0 where
  pub reply : Reply
  pub previous : Option Call

pub record Controller : Type 0 where
  pub active : Option Call
  pub requests : Map Text Stored

abbrev pub accepted : Call → Event → Reply
accepted c e = record { call = some c; event = some e; err = none }

abbrev pub refused : Err → Reply
refused x = record { call = none; event = none; err = some x }

unfoldable pub new_controller : Controller
new_controller = record { active = none; requests = [] }

-- `Snapshot` hands out a copy.
unfoldable pub snapshot : Controller → Option Call
snapshot c = c.active

abbrev pub fresh_call : ℕ → Direction → State → Text → Text → Call
fresh_call now d s call_id peer = record {
  id = call_id;
  direction = d;
  peer = peer;
  state = s;
  started_at = now;
  connected_at = none;
  ended_at = none;
  end_reason = [];
  cellular_ready = false;
  media_ready = false;
  answered = false;
}

abbrev pub event_of : Text → State → Kind → Event
event_of call_id s k = record { call_id = call_id; state = s; kind = k; reason = [] }
