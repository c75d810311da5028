-- ===== src/Sip/Session.antt =====
-- gateway/internal/sip/session.go: a call of a SIP client, over the bridge, the media and the call at the
-- modem. What the modem and the audio device answer is an argument.
pub mod Laws
use cell_bridge.Sip.Media.{MediaSession}
use cell_bridge.Modem.ActiveCall.{ActiveCall, dialed, hung_up, with_active}
use cell_bridge.Voice.Bridge.{Bridge, Effect, start, stop, new_bridge}
use cell_bridge.Base.{
  none, some, Text, Bool, Option, false, if◌then◌else◌, List, true, not, [], ◌&&◌,
}

pub data Direction : Type 0 where
  outbound inbound other_direction : Direction

pub data SessionState : Type 0 where
  init dialing active_state ended_state : SessionState

pub record SipCallSession : Type 0 where
  pub id : Text
  pub direction : Direction
  pub state : SessionState
  pub cancelled : Bool
  pub line : ActiveCall
  pub bridge : Bridge
  pub media : Option MediaSession

-- `NewSIPCallSession`.
abbrev pub new_session : Text → Direction → ActiveCall → Option MediaSession → SipCallSession
new_session id direction line media = record {
  id = id;
  direction = direction;
  state = init;
  cancelled = false;
  line = line;
  bridge = new_bridge;
  media = media;
}

pub data SessionErr : Type 0 where
  not_ready recycle_failed dial_failed wait_failed not_answered bridge_failed : SessionErr

-- What stands in the way of an outgoing call: `WaitReady`, `PrepareRoute` where the audio has one, and
-- the id that `Dial` gives.
pub record Dialing : Type 0 where
  pub ready : Bool
  pub prepared : Option Bool
  pub call_id : Option Text

dial_out : Dialing → SipCallSession → SipCallSession × Option SessionErr
unfolding dialed
dial_out d s =
    if not d.ready
    then (s, some not_ready)
    else if elim d.prepared [ none ↦ false | some done ↦ not done ]
    then (s, some recycle_failed)
    else elim d.call_id [
      | none ↦ (s, some dial_failed)
      | some call_id ↦ (record s { line = dialed call_id s.line }, none)
    ]

-- `Dial`.
unfoldable pub dial : Dialing → SipCallSession → SipCallSession × Option SessionErr
unfolding dial_out
dial d s =
    let s' : SipCallSession = record s { state = dialing } in
    elim s.direction [
      | outbound ↦ dial_out d s'
      | inbound ↦ (s', none)
      | other_direction ↦ (s', none)
    ]

-- What `WaitActive` returns: whether the call is answered, and an error with a context that goes on.
-- `AwaitBridge` starts the bridge on the session's own context, with the audio's answer: no
-- `VoiceAudio` starts on a context that `Hangup` has cancelled. The effects are those of the bridge.
unfoldable pub await_bridge :
    Bool → Bool → Bool → SipCallSession → SipCallSession × List Effect × Option SessionErr
unfolding start
await_bridge wait_error answered audio_ok s =
    let (b, effects, failed) = start true (audio_ok && not s.cancelled) s.id s.bridge in
    if wait_error
    then (s, [], some wait_failed)
    else if not answered
    then (s, [], some not_answered)
    else if failed
    then (record s { bridge = b }, effects, some bridge_failed)
    else (record s { bridge = b; state = active_state }, effects, none)

abbrev close_media : MediaSession → MediaSession
close_media m = record m { closed = true }

-- `Hangup`; the flag says that the modem's own `Hangup` has no error.
unfoldable pub hang_up : Bool → SipCallSession → SipCallSession × List Effect
unfolding stop hung_up with_active
hang_up accepted s =
    let (b, effects) = stop s.bridge in
    let released : ActiveCall = elim (with_active s.line) [
      | none ↦ s.line
      | some call_id ↦ if accepted then hung_up s.line else s.line
    ] in
    (
      record s {
        cancelled = true;
        bridge = b;
        line = elim s.direction [
          | outbound ↦ released
          | inbound ↦ released
          | other_direction ↦ s.line
        ];
        media = elim s.media [ none ↦ none | some m ↦ some (close_media m) ];
        state = ended_state;
      },
      effects,
    )
