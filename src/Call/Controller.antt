-- ===== src/Call/Controller.antt =====
-- gateway/internal/call/state.go: the methods of `*Controller`. Each runs under one mutex, so it is
-- a function from the controller to the new controller and the reply; `c.now()` is `now`.
use cell_bridge.Base.{
  ℕ, Bool, true, false, not, ◌||◌, ◌==◌, [], ◌∷◌, ◌++◌, Option, none, some, Text, codes, text_eq,
  if◌then◌else◌,
}
use cell_bridge.Dict.{find, assign, delete, text_key}
use cell_bridge.Call.Defs.{
  State, incoming_ringing, outgoing_dialing, active, ending, inbound, outbound, Err, line_busy,
  call_not_found, invalid_state, duplicate_event, invalid_dtmf, Kind, duplicate_incoming,
  call_incoming, call_updated, answered, call_recovering, hangup, call_ended, Call, Event, Reply,
  Stored, Controller, accepted, refused, fresh_call, event_of,
}
use cell_bridge.Call.Changes.{
  Change, is_ending, answer_change, cellular_change, media_change, recovering_change, hangup_change,
  remote_change,
}

incoming_on : ℕ → Text → Text → Controller → Option Call → Controller × Reply
incoming_on now call_id peer c (some held) =
    if text_eq held.id call_id
    then (
      c,
      record {
        call = some held;
        event = some (event_of call_id held.state duplicate_incoming);
        err = some duplicate_event;
      },
    )
    else (c, refused line_busy)
incoming_on now call_id peer c none =
    let call = fresh_call now inbound incoming_ringing call_id peer in
    (
      record c { active = some call },
      accepted call (event_of call_id incoming_ringing call_incoming),
    )

-- `Incoming`.
unfoldable pub incoming : ℕ → Text → Text → Controller → Controller × Reply
unfolding incoming_on
incoming now call_id peer c = incoming_on now call_id peer c c.active

dial_on : ℕ → Text → Text → Text → Controller → Option Stored → Option Call → Controller × Reply
dial_on now request_id call_id peer c (some stored) held = (c, stored.reply)
dial_on now request_id call_id peer c none (some held) = (c, refused line_busy)
dial_on now request_id call_id peer c none none =
    let call = fresh_call now outbound outgoing_dialing call_id peer in
    let reply = accepted call (event_of call_id outgoing_dialing call_updated) in
    (
      record {
        active = some call;
        requests = assign request_id (record { reply = reply; previous = none }) c.requests;
      },
      reply,
    )

-- `Dial`.
unfoldable pub dial : ℕ → Text → Text → Text → Controller → Controller × Reply
unfolding dial_on find
dial now request_id call_id peer c =
    dial_on now request_id call_id peer c (find request_id c.requests) c.active

abbrev pub changed_event : Text → Kind → Call → Event
changed_event call_id k call = record {
  call_id = call_id;
  state = call.state;
  kind = k;
  reason = if is_ending call.state then call.end_reason else [];
}

mutate_done : Text → Text → Kind → Controller → Call → Call × Option Err → Controller × Reply
mutate_done request_id call_id k c before (call, some x) =
    (record c { active = some call }, refused x)
mutate_done request_id call_id k c before (call, none) =
    let reply = accepted call (changed_event call_id k call) in
    (
      record {
        active = some call;
        requests = assign request_id (record { reply = reply; previous = some before }) c.requests;
      },
      reply,
    )

mutate_on :
    Text → Text → Kind → Change → Controller → Option Stored → Option Call → Controller × Reply
mutate_on request_id call_id k change c (some stored) held = (c, stored.reply)
mutate_on request_id call_id k change c none none = (c, refused call_not_found)
mutate_on request_id call_id k change c none (some held) =
    if text_eq held.id call_id
    then mutate_done request_id call_id k c held (change held)
    else (c, refused call_not_found)

-- `mutate`.
unfoldable pub mutate : Text → Text → Kind → Change → Controller → Controller × Reply
unfolding mutate_on mutate_done find
mutate request_id call_id k change c =
    mutate_on request_id call_id k change c (find request_id c.requests) c.active

unfoldable pub answer : Text → Text → Controller → Controller × Reply
unfolding mutate
answer request_id call_id = mutate request_id call_id answered answer_change

abbrev pub cellular_key : Text → Text
cellular_key call_id = codes "cellular-ready:" ++ call_id

unfoldable pub mark_cellular_ready : ℕ → Text → Controller → Controller × Reply
unfolding mutate
mark_cellular_ready now call_id =
    mutate (cellular_key call_id) call_id Kind.cellular_ready (cellular_change now)

abbrev pub media_key : Text → Text
media_key call_id = codes "media-ready:" ++ call_id

unfoldable pub mark_media_ready : ℕ → Text → Controller → Controller × Reply
unfolding mutate
mark_media_ready now call_id =
    mutate (media_key call_id) call_id Kind.media_ready (media_change now)

abbrev pub recovering_key : Text → Text → Text
recovering_key call_id reason = codes "recovering:" ++ (call_id ++ (codes ":" ++ reason))

unfoldable pub mark_recovering : Text → Text → Controller → Controller × Reply
unfolding mutate
mark_recovering call_id reason =
    mutate (recovering_key call_id reason) call_id call_recovering (recovering_change reason)

unfoldable pub hang_up : Text → Text → Text → Controller → Controller × Reply
unfolding mutate
hang_up request_id call_id reason = mutate request_id call_id hangup (hangup_change reason)

abbrev pub remote_key : Text → Text → Text
remote_key call_id reason = codes "remote-ended:" ++ (call_id ++ (codes ":" ++ reason))

unfoldable pub remote_ended : Text → Text → Controller → Controller × Reply
unfolding mutate
remote_ended call_id reason =
    mutate (remote_key call_id reason) call_id call_ended (remote_change reason)

rollback_to : Text → Text → Controller → Call → Call → Controller × Option Err
rollback_to request_id call_id c before held =
    if text_eq held.id call_id
    then (record { active = some before; requests = delete request_id c.requests }, none)
    else (c, some call_not_found)

rollback_on : Text → Text → Controller → Option Stored → Option Call → Controller × Option Err
rollback_on request_id call_id c none held = (c, some call_not_found)
rollback_on request_id call_id c (some stored) none = (c, some call_not_found)
rollback_on request_id call_id c (some stored) (some held) = elim stored.previous [
  | none ↦ (c, some call_not_found)
  | some before ↦ rollback_to request_id call_id c before held
]

-- `Rollback`.
unfoldable pub rollback : Text → Text → Controller → Controller × Option Err
unfolding rollback_on rollback_to find delete
rollback request_id call_id c =
    rollback_on request_id call_id c (find request_id c.requests) c.active

abbrev pub contains : Text → ℕ → Bool
contains [] d = false
contains (x ∷ s) d = x == d || contains s d

abbrev pub is_active : State → Bool
is_active active = true
is_active _ = false

dtmf_on : Text → Option Call → Option Err
dtmf_on call_id none = some call_not_found
dtmf_on call_id (some held) =
    if text_eq held.id call_id
    then (if is_active held.state then none else some invalid_state)
    else some call_not_found

-- `DTMF` checks a digit, and changes nothing.
unfoldable pub dtmf : Text → ℕ → Controller → Option Err
unfolding dtmf_on
dtmf call_id digit c =
    if not (contains (codes "0123456789*#ABCD") digit)
    then some invalid_dtmf
    else dtmf_on call_id c.active

finish_on : ℕ → Text → Controller → Option Call → Controller × Reply
finish_on now call_id c none = (c, refused call_not_found)
finish_on now call_id c (some held) =
    let call = record held { ended_at = some now } in
    if not (text_eq held.id call_id)
    then (c, refused call_not_found)
    else if not (is_ending held.state)
    then (c, refused invalid_state)
    else (
      record c { active = none },
      accepted call (record {
        call_id = call_id;
        state = ending;
        kind = call_ended;
        reason = call.end_reason;
      }),
    )

-- `Finish`.
unfoldable pub finish : ℕ → Text → Controller → Controller × Reply
unfolding finish_on
finish now call_id c = finish_on now call_id c c.active
