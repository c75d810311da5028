-- ===== src/Call/Changes.antt =====
-- gateway/internal/call/state.go: the callbacks that the methods hand to `mutate`.
use cell_bridge.Base.{ℕ, Bool, true, false, Option, none, some, Text, if◌then◌else◌, is_none}
use cell_bridge.Call.Defs.{
  State, idle, incoming_ringing, outgoing_dialing, connecting, active, ending, recovering, Err,
  invalid_state, Call,
}

-- The callback of `mutate` changes the call in place, and may fail.
abbrev pub Change : Type 0
Change = Call → Call × Option Err

abbrev pub is_ending : State → Bool
is_ending ending = true
is_ending _ = false

answer_in : State → Change
answer_in incoming_ringing call = (record call { answered = true; state = connecting }, none)
answer_in _ call = (call, some invalid_state)

-- The callback of `Answer`.
unfoldable pub answer_change : Change
unfolding answer_in
answer_change call = answer_in call.state call

-- `Active` if the other side is ready too, with the time of the first connection kept.
abbrev connect : ℕ → Bool → Call → Call
connect now true call = record call {
  state = active;
  connected_at = if is_none call.connected_at then some now else call.connected_at;
}
connect now false call = record call { state = connecting }

abbrev takes_cellular : State → Bool
takes_cellular outgoing_dialing = true
takes_cellular connecting = true
takes_cellular _ = false

-- The callback of `MarkCellularReady`.
unfoldable pub cellular_change : ℕ → Change
cellular_change now call =
    if takes_cellular call.state
    then (connect now call.media_ready (record call { cellular_ready = true }), none)
    else (call, some invalid_state)

abbrev takes_media : State → Bool
takes_media outgoing_dialing = true
takes_media connecting = true
takes_media active = true
takes_media recovering = true
takes_media _ = false

-- The callback of `MarkMediaReady`.
unfoldable pub media_change : ℕ → Change
media_change now call =
    if takes_media call.state
    then (connect now call.cellular_ready (record call { media_ready = true }), none)
    else (call, some invalid_state)

abbrev takes_recovering : State → Bool
takes_recovering outgoing_dialing = true
takes_recovering connecting = true
takes_recovering active = true
takes_recovering _ = false

-- The callback of `MarkRecovering`.
unfoldable pub recovering_change : Text → Change
recovering_change reason call =
    if takes_recovering call.state
    then (record call { state = recovering; media_ready = false; end_reason = reason }, none)
    else (call, some invalid_state)

hangup_in : Text → State → Change
hangup_in reason ending call = (call, none)
hangup_in reason idle call = (call, some invalid_state)
hangup_in reason _ call = (record call { state = ending; end_reason = reason }, none)

-- The callback of `Hangup`.
unfoldable pub hangup_change : Text → Change
unfolding hangup_in
hangup_change reason call = hangup_in reason call.state call

-- The callback of `RemoteEnded`.
unfoldable pub remote_change : Text → Change
remote_change reason call =
    if is_ending call.state
    then (call, none)
    else (record call { state = ending; end_reason = reason }, none)
